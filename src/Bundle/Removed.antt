-- ===== src/Bundle/Removed.antt =====
-- The removal of an item (`DelItem` of bundle.go) leaves the data under other ids as they are.
use arseeding.Prelude.{arith, Text, text_eq_ne, ◌≡◌, ◌≢◌, refl, ap, ◌∙◌, inl, inr, Bool-cases}
use arseeding.Effect.{Result-cases, >>=-cases}
use arseeding.Rawdb.Interface.{KeyValueDb, Bucket, bundle_item_binary, bundle_item_meta}
use arseeding.Bundle.Items.{
  del_item, atomic_del_item, del_item_meta, del_item_binary, is_exist_item_binary,
}

module _ ⦃kv : KeyValueDb⦄ where
  get-delete_other :
      (b0 b : Bucket) (id j : Text) (db : kv.Db)
      → id ≢ j
      → kv.get b j (kv.delete b0 id db).0 ≡ kv.get b j db
  get-delete_other b0 b id j db ne = elim (Result-cases (kv.delete b0 id db).1) [
    | inl (u, done) ↦ ground (arith, kv.get-delete b0 id db b j done, text_eq_ne id j ne)
    | inr (e, failed) ↦ kv.get-delete_err b0 id db b j failed
  ]

  get-atomic_del_item_other :
      (b : Bucket) (id j : Text) (db : kv.Db)
      → id ≢ j
      → kv.get b j (atomic_del_item id db).0 ≡ kv.get b j db
  unfolding atomic_del_item del_item_meta del_item_binary
  get-atomic_del_item_other b id j db ne =
      let meta = get-delete_other bundle_item_meta b id j db ne in
      elim (>>=-cases (del_item_meta id) (λ u. del_item_binary id) db) [
        | inl (u, done, out) ↦
            ap (λ o. kv.get b j o.0) out
            ∙ get-delete_other bundle_item_binary b id j (del_item_meta id db).0 ne
            ∙ meta
        | inr (e, failed, out) ↦ ap (λ o. kv.get b j o.0) out ∙ meta
      ]

  pub get-del_item_other :
      (b : Bucket) (id j : Text) (db : kv.Db)
      → id ≢ j
      → kv.get b j (del_item id db).0 ≡ kv.get b j db
  unfolding del_item
  get-del_item_other b id j db ne = elim (Bool-cases (is_exist_item_binary id db)) [
    | inl there ↦ rw there (get-atomic_del_item_other b id j db ne)
    | inr missing ↦ rw missing refl
  ]
