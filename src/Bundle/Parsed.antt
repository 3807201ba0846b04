-- ===== src/Bundle/Parsed.antt =====
-- What `ParseAndSaveBundleItems` (bundle.go) and `parseAndSaveBundleTx` (jobs.go) leave in the store.
use arseeding.Prelude.{
  ℕ, Text, Bytes, text_eq_refl, ◌≡◌, refl, sym, ap, ◌∙◌, subst, ◌⊎◌, inl, inr, Bool, true, false,
  Option, some, List, [], ◌∷◌, All, arith,
}
use arseeding.Effect.{Error, Result, ok, err, Result-cases}
use arseeding.Rawdb.Interface.{
  KeyValueDb, bundle_ar_id_to_item_ids_bucket, bundle_wait_parse_ar_id_bucket,
}
use arseeding.Goar.Types.{Goar, Transaction}
use arseeding.Store.Records.{load_tx_meta}
use arseeding.Submit.Read.{get_ar_tx_data}
use arseeding.Bundle.Types.{BundleItem, BundleUtils, ManifestTable}
use arseeding.Bundle.Items.{
  is_exist_item_binary, save_item, save_ar_id_to_item_ids, load_ar_id_to_item_ids,
  exist_ar_id_to_item_ids, del_parsed_bundle_ar_id,
}
use arseeding.Bundle.Parse.{
  Node, at_db, process_manifest, save_items, parse_and_save_bundle_items, parse_one, item_ids_of,
}
use arseeding.Bundle.Kept.{Keeps, exist-put_other, save_item-Keeps}

module _ ⦃kv : KeyValueDb⦄ ⦃m : ManifestTable⦄ ⦃u : BundleUtils⦄ where
  process_manifest-db :
      (enable_manifest : Bool) (item : BundleItem) (s : Node)
      → (process_manifest enable_manifest item s).0.db ≡ s.db
  unfolding process_manifest
  process_manifest-db enable_manifest item s = ground arith

  abbrev pub AllSaved : List BundleItem → kv.Db → Type 0
  AllSaved items db = All (λ item. is_exist_item_binary item.id db ≡ true) items

  abbrev saved_first : BundleItem → Node → Node
  saved_first item s = record s { db = (save_item item s.db).0 }

  save_items-cons :
      (enable_manifest : Bool) (item : BundleItem) (items : List BundleItem) (s : Node)
      → (save_item item s.db).1 ≡ ok tt
      → (process_manifest enable_manifest item (saved_first item s)).1 ≡ ok tt
      → save_items enable_manifest (item ∷ items) s
        ≡ save_items enable_manifest items
            (process_manifest enable_manifest item (saved_first item s)).0
  unfolding save_items
  save_items-cons enable_manifest item items s first second = rw (first, second) refl

  -- The items are in the store behind a run, with all that were there before it.
  abbrev Grown : List BundleItem → Node → Node × Result (Unit {0}) → Type 0
  Grown items s r = Keeps s.db r.0.db × AllSaved items r.0.db

  save_items-Grown :
      (enable_manifest : Bool) (items : List BundleItem) (s : Node)
      → (save_items enable_manifest items s).1 ≡ ok tt
      → Grown items s (save_items enable_manifest items s)
  unfolding save_items
  save_items-Grown enable_manifest [] s saved = ((λ id h. h), tt)
  save_items-Grown enable_manifest (item ∷ items) s saved =
      let s1 = saved_first item s in
      elim (Result-cases (save_item item s.db).1) [
        | inl (x, first) ↦ elim (Result-cases (process_manifest enable_manifest item s1).1) [
          | inl (y, second) ↦
              let step = save_items-cons enable_manifest item items s first second in
              let s2 : Node = (process_manifest enable_manifest item s1).0 in
              let new = save_item-Keeps item s.db first in
              let rest =
                save_items-Grown enable_manifest items s2 (ap (λ r. r.1) (sym step) ∙ saved) in
              let keeps =
                subst (λ db. Keeps db (save_items enable_manifest items s2).0.db)
                  (process_manifest-db enable_manifest item s1) rest.0 in
              subst (Grown (item ∷ items) s) (sym step)
                ((λ id there. keeps id (new.0 id there)), (keeps item.id new.1, rest.1))
          | inr (e, failed) ↦ let h = rw (first, failed) at saved in cc h
        ]
        | inr (e, failed) ↦ let h = rw failed at saved in cc h
      ]

  All-Keeps :
      (items : List BundleItem) (db db' : kv.Db)
      → Keeps db db'
      → AllSaved items db
      → AllSaved items db'
  All-Keeps [] db db' keeps saved = tt
  All-Keeps (item ∷ items) db db' keeps saved =
      (keeps item.id saved.0, All-Keeps items db db' keeps saved.1)

  -- the index of a bundle, and its items
  abbrev pub Parsed : Text → List BundleItem → Node × Result (Unit {0}) → Type 0
  Parsed ar_id items r =
      (load_ar_id_to_item_ids ar_id r.0.db ≡ ok (item_ids_of items)) × AllSaved items r.0.db

  indexed :
      (ar_id : Text) (items : List BundleItem) (s : Node)
      → (save_ar_id_to_item_ids ar_id (item_ids_of items) s.db).1 ≡ ok tt
      → AllSaved items s.db
      → Parsed ar_id items (at_db (save_ar_id_to_item_ids ar_id (item_ids_of items)) s)
  unfolding save_ar_id_to_item_ids load_ar_id_to_item_ids
  indexed ar_id items s put saved =
      let ids = u.marshal_ids (item_ids_of items) in
      let bucket = bundle_ar_id_to_item_ids_bucket in
      (
        rw (kv.get-put bucket ar_id ids s.db bucket ar_id put, text_eq_refl ar_id)
            (u.unmarshal-marshal_ids (item_ids_of items)),
        All-Keeps items s.db (kv.put bucket ar_id ids s.db).0
            (exist-put_other bucket ar_id ids s.db refl put) saved,
      )

-- Where `parse_and_save_bundle_items` reports success for a bundle that the store has no index of and
-- that decodes to some items, the store has every one of them, and the index lists their ids in the
-- order of the bundle.
pub parse_and_save_bundle_items-Parsed :
    ⦃kv : KeyValueDb⦄ ⦃m : ManifestTable⦄ ⦃u : BundleUtils⦄ (enable_manifest : Bool) (ar_id : Text)
    (bytes : Bytes) (items : List BundleItem) (s : Node)
    → exist_ar_id_to_item_ids ar_id s.db ≡ false
    → u.decode_bundle bytes ≡ ok items
    → (parse_and_save_bundle_items enable_manifest ar_id bytes s).1 ≡ ok tt
    → Parsed ar_id items (parse_and_save_bundle_items enable_manifest ar_id bytes s)
unfolding parse_and_save_bundle_items
parse_and_save_bundle_items-Parsed enable_manifest ar_id bytes items s fresh decodes done =
    elim (Result-cases (save_items enable_manifest items s).1) [
      | inl (x, saved) ↦
          let s1 : Node = (save_items enable_manifest items s).0 in
          let r = at_db (save_ar_id_to_item_ids ar_id (item_ids_of items)) s1 in
          let step : parse_and_save_bundle_items enable_manifest ar_id bytes s ≡ r =
            rw (fresh, decodes, saved) refl in
          subst (Parsed ar_id items) (sym step) (
            indexed ar_id items s1 (ap (λ q. q.1) (sym step) ∙ done)
              (save_items-Grown enable_manifest items s saved).1)
      | inr (e, failed) ↦ let h = rw (fresh, decodes, failed) at done in cc h
    ]

-- what a round of the loop of `parse_and_save_bundle_tx` ends with, by the data that was read
abbrev pub Round :
    ⦃kv : KeyValueDb⦄ ⦃m : ManifestTable⦄ ⦃u : BundleUtils⦄
    → Bool
    → Text
    → Node
    → Result Bytes
    → Option Node
    → Type 0
Round ⦃kv⦄ enable_manifest ar_id s (err e) out = out ≡ some s
Round ⦃kv⦄ enable_manifest ar_id s (ok bytes) out =
    let parsed = (parse_and_save_bundle_items enable_manifest ar_id bytes s).0 in
    (s' : Node) × (out ≡ some s')
    × ((kv.get bundle_wait_parse_ar_id_bucket ar_id s'.db ≡ err kv.missing)
        ⊎ ((e : Error) × ((del_parsed_bundle_ar_id ar_id parsed.db).1 ≡ err e)
            × (kv.get bundle_wait_parse_ar_id_bucket ar_id s'.db
                ≡ kv.get bundle_wait_parse_ar_id_bucket ar_id parsed.db)))

-- For a bundle whose transaction the store knows: while its data cannot be read, a round of the loop
-- of `parse_and_save_bundle_tx` changes nothing, and the bundle waits on. Once it is read, the bundle
-- is off the list of waiting ones, whether or not its items could be saved; or the call that takes it
-- off, behind the parsing in this round, fails, and its entry is as the parsing left it.
pub parse_one-Round :
    ⦃kv : KeyValueDb⦄ ⦃m : ManifestTable⦄ ⦃u : BundleUtils⦄ ⦃g : Goar⦄ (fuel : ℕ)
    (enable_manifest : Bool) (ar_id : Text) (tx : Transaction) (r : Result Bytes) (s : Node)
    → load_tx_meta ar_id s.db ≡ ok tx
    → get_ar_tx_data fuel tx.data_root tx.data_size s.db ≡ some r
    → Round enable_manifest ar_id s r (parse_one fuel enable_manifest ar_id s)
unfolding parse_one del_parsed_bundle_ar_id
parse_one-Round fuel enable_manifest ar_id tx (err e) s known unread = rw (known, unread) refl
parse_one-Round ⦃kv⦄ fuel enable_manifest ar_id tx (ok bytes) s known complete =
    let s1 = (parse_and_save_bundle_items enable_manifest ar_id bytes s).0 in
    (
      (at_db (del_parsed_bundle_ar_id ar_id) s1).0,
      rw (known, complete) refl,
      elim (Result-cases (kv.delete bundle_wait_parse_ar_id_bucket ar_id s1.db).1) [
        | inl (x, done) ↦ inl (
            rw (
              kv.get-delete bundle_wait_parse_ar_id_bucket ar_id s1.db
                  bundle_wait_parse_ar_id_bucket ar_id done,
              text_eq_refl ar_id,
            ))
        | inr (e, failed) ↦ inr (
          e,
          failed,
          kv.get-delete_err bundle_wait_parse_ar_id_bucket ar_id s1.db
              bundle_wait_parse_ar_id_bucket ar_id failed,
        )
      ],
    )
