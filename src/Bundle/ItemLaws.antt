-- ===== src/Bundle/ItemLaws.antt =====
-- What saving and deleting a bundle item (store.go, bundle.go) leaves in the store.
use arseeding.Prelude.{
  Text, Bytes, text_eq_refl, ◌≡◌, refl, sym, ◌∙◌, ◌⊎◌, inl, inr, true, false, Bool-cases,
}
use arseeding.Effect.{Error, Result, ok, err, is_ok, Result-cases}
use arseeding.Rawdb.Interface.{KeyValueDb, bundle_item_binary, bundle_item_meta}
use arseeding.Bundle.Types.{BundleItem, BundleUtils, in_json}
use arseeding.Bundle.Items.{
  without_data, is_exist_item_binary, del_item_binary, del_item_meta, atomic_del_item, del_item,
  binary_of, save_item_binary, save_item_meta, load_item_meta, atomic_save_item, save_item,
}

module _ ⦃kv : KeyValueDb⦄ where
  -- what `del_item` ends with: nothing of the item is left, or its binary still is there
  abbrev pub Deleted : Text → kv.Db → kv.Db × Result (Unit {0}) → Type 0
  Deleted id db (db', ok u) =
      (is_exist_item_binary id db' ≡ false)
      × ((db' ≡ db) ⊎ (kv.get bundle_item_meta id db' ≡ err kv.missing))
  Deleted id db (db', err e) = is_exist_item_binary id db' ≡ true

  atomic_del_item-Deleted :
      (id : Text) (db : kv.Db)
      → is_exist_item_binary id db ≡ true
      → Deleted id db (atomic_del_item id db)
  unfolding atomic_del_item del_item_meta del_item_binary is_exist_item_binary
  atomic_del_item-Deleted id db there = elim (Result-cases (kv.delete bundle_item_meta id db).1) [
    | inl (u, done) ↦ elim (Result-cases (kv.delete bundle_item_binary id db1).1) [
      | inl (v, done2) ↦
          rw (done, del_item_binary, done2)
            (
              rw (
                kv.exist_lem bundle_item_binary id db2,
                kv.get-delete bundle_item_binary id db1 bundle_item_binary id done2,
                text_eq_refl id,
              ),
              inr (
                  rw (
                    kv.get-delete bundle_item_binary id db1 bundle_item_meta id done2,
                    kv.get-delete bundle_item_meta id db bundle_item_meta id done,
                    text_eq_refl id,
                  )),
            )
      | inr (e, failed) ↦
          rw
            (
              done,
              del_item_binary,
              failed,
              kv.exist_lem bundle_item_binary id db2,
              kv.get-delete_err bundle_item_binary id db1 bundle_item_binary id failed,
              kv.get-delete bundle_item_meta id db bundle_item_binary id done,
            )
            known
    ]
    | inr (e, failed) ↦
        rw
          (
            failed,
            kv.exist_lem bundle_item_binary id db1,
            kv.get-delete_err bundle_item_meta id db bundle_item_binary id failed,
          )
          known
  ]
    where
      db1 : kv.Db
      db1 = (kv.delete bundle_item_meta id db).0

      db2 : kv.Db
      db2 = (kv.delete bundle_item_binary id db1).0

      known : is_ok (kv.get bundle_item_binary id db) ≡ true
      known = sym (kv.exist_lem bundle_item_binary id db) ∙ there

-- Where `del_item` reports success, the item has no binary in the store, and it has no meta data
-- either, or nothing was changed. Where it reports an error, the binary still is there, so that another call
-- does not take the item for deleted.
pub del_item-Deleted : ⦃kv : KeyValueDb⦄ (id : Text) (db : kv.Db) → Deleted id db (del_item id db)
unfolding del_item
del_item-Deleted id db = elim (Bool-cases (is_exist_item_binary id db)) [
  | inl there ↦ rw there (atomic_del_item-Deleted id db there)
  | inr absent ↦ rw absent (absent, inl refl)
]

module _ ⦃kv : KeyValueDb⦄ ⦃u : BundleUtils⦄ where
  -- The meta data of a binary that was written cannot be, and the call that then removes the binary fails.
  abbrev pub RollbackFails : BundleItem → Bytes → kv.Db → Type 0
  RollbackFails item b db =
      let put = kv.put bundle_item_binary item.id b db in
      let tried = save_item_meta item put.0 in
      (e : Error) × (f : Error) × (put.1 ≡ ok tt)
      × (tried.1 ≡ err e)
      × ((del_item_binary item.id tried.0).1 ≡ err f)

  -- what `save_item` ends with for an item that was absent
  abbrev pub Saved : BundleItem → Bytes → kv.Db → kv.Db × Result (Unit {0}) → Type 0
  Saved item b db (db', ok v) =
      (kv.get bundle_item_binary item.id db' ≡ ok b)
      × (load_item_meta item.id db' ≡ ok (in_json u.to_valid_utf8 (without_data item)))
  Saved item b db (db', err e) =
      ((id : Text) → kv.get bundle_item_meta id db' ≡ kv.get bundle_item_meta id db)
      × ((is_exist_item_binary item.id db' ≡ false) ⊎ RollbackFails item b db)

  atomic_save_item-Saved :
      (item : BundleItem) (b : Bytes) (db : kv.Db)
      → binary_of item.data_reader item ≡ ok b
      → is_exist_item_binary item.id db ≡ false
      → Saved item b db (atomic_save_item item db)
  unfolding atomic_save_item save_item_binary save_item_meta load_item_meta del_item_binary
      is_exist_item_binary
  atomic_save_item-Saved item b db binary absent =
      elim (Result-cases (kv.put bundle_item_binary id b db).1) [
        | inl (x, put) ↦ elim (Result-cases (kv.put bundle_item_meta id meta db1).1) [
          | inl (y, put2) ↦
              rw (binary, put, save_item_meta, put2)
                (
                  rw (
                    kv.get-put bundle_item_meta id meta db1 bundle_item_binary id put2,
                    kv.get-put bundle_item_binary id b db bundle_item_binary id put,
                    text_eq_refl id,
                  ),
                  rw
                      (
                        kv.get-put bundle_item_meta id meta db1 bundle_item_meta id put2,
                        text_eq_refl id,
                      )
                      (u.unmarshal-marshal_item (without_data item)),
                )
          | inr (e, failed) ↦ elim (Result-cases (kv.delete bundle_item_binary id db2).1) [
            | inl (z, undone) ↦
                rw (binary, put, save_item_meta, failed)
                  (
                    (λ id'.
                        rw (kv.get-delete bundle_item_binary id db2 bundle_item_meta id' undone)
                          (meta_kept put failed id')),
                    inl (
                        rw (
                          kv.exist_lem bundle_item_binary id
                              (kv.delete bundle_item_binary id db2).0,
                          kv.get-delete bundle_item_binary id db2 bundle_item_binary id undone,
                          text_eq_refl id,
                        )),
                  )
            | inr (e', stuck) ↦
                rw (binary, put, save_item_meta, failed)
                  (
                    (λ id'.
                        kv.get-delete_err bundle_item_binary id db2 bundle_item_meta id' stuck
                        ∙ meta_kept put failed id'),
                    inr (e, e', put, failed, stuck),
                  )
          ]
        ]
        | inr (e, failed) ↦
            rw (binary, failed)
              (
                (λ id'. kv.get-put_err bundle_item_binary id b db bundle_item_meta id' failed),
                inl (
                    rw
                      (
                        kv.exist_lem bundle_item_binary id db1,
                        kv.get-put_err bundle_item_binary id b db bundle_item_binary id failed,
                      )
                      (sym (kv.exist_lem bundle_item_binary id db) ∙ absent)),
              )
      ]
    where
      id : Text
      id = item.id

      meta : Bytes
      meta = u.marshal_item (without_data item)

      db1 : kv.Db
      db1 = (kv.put bundle_item_binary id b db).0

      db2 : kv.Db
      db2 = (kv.put bundle_item_meta id meta db1).0

      meta_kept :
          {e : Error}
          → (kv.put bundle_item_binary id b db).1 ≡ ok tt
          → (kv.put bundle_item_meta id meta db1).1 ≡ err e
          → (id' : Text) → kv.get bundle_item_meta id' db2 ≡ kv.get bundle_item_meta id' db
      meta_kept put failed id' =
          kv.get-put_err bundle_item_meta id meta db1 bundle_item_meta id' failed
          ∙ kv.get-put bundle_item_binary id b db bundle_item_meta id' put

-- For an item that is not in the store and whose binary can be generated: where `save_item` reports
-- success, the store has that binary and the item's meta data without its data, as JSON writes them.
-- Where it reports an error, all meta data are as before, and the item has no binary in the store; or
-- its binary was written, its meta data were not, and the call that then removes the binary fails.
pub save_item-Saved :
    ⦃kv : KeyValueDb⦄ ⦃u : BundleUtils⦄ (item : BundleItem) (b : Bytes) (db : kv.Db)
    → binary_of item.data_reader item ≡ ok b
    → is_exist_item_binary item.id db ≡ false
    → Saved item b db (save_item item db)
unfolding save_item
save_item-Saved item b db binary absent = rw absent (atomic_save_item-Saved item b db binary absent)
