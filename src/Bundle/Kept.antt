-- ===== src/Bundle/Kept.antt =====
-- No call that saves an item (bundle.go, store.go) takes another one out of the store.
use arseeding.Prelude.{
  Text, Bytes, text_eq, text_eq_refl, ◌≡◌, refl, sym, ◌∙◌, inl, inr, true, false, Bool-cases, ◌==◌,
}
use arseeding.Effect.{ok, Result-cases}
use arseeding.Rawdb.Interface.{
  Bucket, bucket_number, KeyValueDb, bundle_item_binary, bundle_item_meta,
}
use arseeding.Bundle.Types.{BundleItem, BundleUtils}
use arseeding.Bundle.Items.{
  is_exist_item_binary, save_item, atomic_save_item, save_item_binary, save_item_meta, binary_of,
  without_data,
}

module _ ⦃kv : KeyValueDb⦄ where
  -- every item of the first store is in the second
  abbrev pub Keeps : kv.Db → kv.Db → Type 0
  Keeps db db' =
      (id : Text) → is_exist_item_binary id db ≡ true → is_exist_item_binary id db' ≡ true

  exist-put :
      (id : Text) (b : Bytes) (db : kv.Db)
      → (kv.put bundle_item_binary id b db).1 ≡ ok tt
      → Keeps db (kv.put bundle_item_binary id b db).0
        × (is_exist_item_binary id (kv.put bundle_item_binary id b db).0 ≡ true)
  unfolding is_exist_item_binary
  exist-put id b db put = (
    (λ id' there.
        rw
          (
            kv.exist_lem bundle_item_binary id' (kv.put bundle_item_binary id b db).0,
            kv.get-put bundle_item_binary id b db bundle_item_binary id' put,
          )
          (elim (Bool-cases (text_eq id id')) [
            | inl same ↦ rw same refl
            | inr other ↦ rw other (sym (kv.exist_lem bundle_item_binary id' db) ∙ there)
          ])),
    rw (
      kv.exist_lem bundle_item_binary id (kv.put bundle_item_binary id b db).0,
      kv.get-put bundle_item_binary id b db bundle_item_binary id put,
      text_eq_refl id,
    ),
  )

  pub exist-put_other :
      (bucket : Bucket) (id : Text) (b : Bytes) (db : kv.Db)
      → (bucket_number bucket == 6) ≡ false
      → (kv.put bucket id b db).1 ≡ ok tt
      → Keeps db (kv.put bucket id b db).0
  unfolding is_exist_item_binary
  exist-put_other bucket id b db other put id' there =
      rw
        (
          kv.exist_lem bundle_item_binary id' (kv.put bucket id b db).0,
          kv.get-put bucket id b db bundle_item_binary id' put,
          other,
        )
        (sym (kv.exist_lem bundle_item_binary id' db) ∙ there)

module _ ⦃kv : KeyValueDb⦄ ⦃u : BundleUtils⦄ where
  atomic_save_item-Keeps :
      (item : BundleItem) (db : kv.Db)
      → (atomic_save_item item db).1 ≡ ok tt
      → Keeps db (atomic_save_item item db).0
        × (is_exist_item_binary item.id (atomic_save_item item db).0 ≡ true)
  unfolding atomic_save_item save_item_binary save_item_meta
  atomic_save_item-Keeps item db saved = elim (Result-cases (binary_of item.data_reader item)) [
    | inl (b, binary) ↦ elim (Result-cases (kv.put bundle_item_binary item.id b db).1) [
      | inl (x, put) ↦
          let db1 = (kv.put bundle_item_binary item.id b db).0 in
          let meta = u.marshal_item (without_data item) in
          elim (Result-cases (kv.put bundle_item_meta item.id meta db1).1) [
            | inl (y, put2) ↦
                let keeps = exist-put_other bundle_item_meta item.id meta db1 refl put2 in
                let new = exist-put item.id b db put in
                rw (binary, put, save_item_meta, put2)
                  ((λ id there. keeps id (new.0 id there)), keeps item.id new.1)
            | inr (e, failed) ↦ let h = rw (binary, put, save_item_meta, failed) at saved in cc h
          ]
      | inr (e, failed) ↦ let h = rw (binary, failed) at saved in cc h
    ]
    | inr (e, failed) ↦ let h = rw failed at saved in cc h
  ]

  pub save_item-Keeps :
      (item : BundleItem) (db : kv.Db)
      → (save_item item db).1 ≡ ok tt
      → Keeps db (save_item item db).0 × (is_exist_item_binary item.id (save_item item db).0 ≡ true)
  unfolding save_item
  save_item-Keeps item db saved = elim (Bool-cases (is_exist_item_binary item.id db)) [
    | inl there ↦ rw there ((λ id h. h), there)
    | inr absent ↦ rw absent (atomic_save_item-Keeps item db (rw absent at saved))
  ]
