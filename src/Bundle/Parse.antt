-- ===== src/Bundle/Parse.antt =====
-- bundle.go and jobs.go: the bundles of transactions are parsed, and their items saved
-- (`ParseAndSaveBundleItems`, `parseAndSaveBundleTx`).
use arseeding.Prelude.{
  ℕ, Text, Bytes, codes, text_eq, Bool, ◌&&◌, ◌||◌, ◌==◌, Option, none, some, List, [], ◌∷◌,
  if◌then◌else◌,
}
use arseeding.Prelude.Maps.{map_option}
use arseeding.Effect.{Result, ok, err, record_not_found, Eff, pure, lift, ◌>>=◌, ◌>>◌}
use arseeding.Rawdb.Interface.{KeyValueDb}
use arseeding.Goar.Types.{Goar, Tag, Transaction}
use arseeding.Store.Records.{load_tx_meta}
use arseeding.Submit.Read.{get_ar_tx_data}
use arseeding.Tasks.Id.{to_lower}
use arseeding.Bundle.Types.{BundleItem, BundleUtils, ManifestTable}
use arseeding.Bundle.Items.{
  save_item, save_ar_id_to_item_ids, exist_ar_id_to_item_ids, del_parsed_bundle_ar_id,
  load_wait_parse_bundle_ar_ids,
}

-- middleware.go
unfoldable pub replace_id : Text → Text
replace_id [] = []
replace_id (c ∷ tx_id) =
    let rest = replace_id tx_id in if c == b'-' || c == b'_' then rest else c ∷ rest

unfoldable pub expected_tx_sandbox : ⦃u : BundleUtils⦄ → Text → Text
expected_tx_sandbox ⦃u⦄ tx_id = to_lower (u.base32_encode (u.base64_bytes (replace_id tx_id)))

-- api.go
unfoldable pub get_tag_value : List Tag → Text → Text
get_tag_value [] name = []
get_tag_value (t ∷ tags) name =
    let rest = get_tag_value tags name in if text_eq t.name name then t.value else rest

-- schema/manifest.go
abbrev pub manifest_type : Text
manifest_type = codes "application/x.arweave-manifest+json"

abbrev pub content_type : Text
content_type = codes "Content-Type"

unfoldable pub item_ids_of : List BundleItem → List Text
item_ids_of [] = []
item_ids_of (item ∷ items) = item.id ∷ item_ids_of items

module _ ⦃kv : KeyValueDb⦄ ⦃m : ManifestTable⦄ where
  -- the store and the table that the jobs on bundles change
  pub record Node : Type 0 where
    pub db : kv.Db
    pub manifests : m.Table

  abbrev pub at_db {ℓ} : {A : Type ℓ} → Eff kv.Db A → Eff Node A
  at_db f s = let (db', r) = f s.db in (record s { db = db' }, r)

  abbrev pub at_manifests {ℓ} : {A : Type ℓ} → Eff m.Table A → Eff Node A
  at_manifests f s = let (t, r) = f s.manifests in (record s { manifests = t }, r)

  -- wdb.go
  unfoldable pub get_manifest_id : Text → m.Table → Result Text
  get_manifest_id url t = m.last_id url t

  unfoldable pub insert_manifest : Text → Text → Eff m.Table (Unit {0})
  insert_manifest url id = m.create url id

  module _ ⦃u : BundleUtils⦄ where
    -- a new row where the url has none; another error of the query is passed over
    abbrev pub insert_if : Text → Text → Result Text → Eff m.Table (Unit {0})
    insert_if url id (err record_not_found) = insert_manifest url id
    insert_if url id _ = pure tt

    unfoldable pub process_manifest : Bool → BundleItem → Eff Node (Unit {0})
    process_manifest enable_manifest item =
        if enable_manifest && text_eq (get_tag_value item.tags content_type) manifest_type
        then at_manifests (λ t.
          insert_if (expected_tx_sandbox item.id) item.id
            (get_manifest_id (expected_tx_sandbox item.id) t) t)
        else pure tt

    unfoldable pub save_items : Bool → List BundleItem → Eff Node (Unit {0})
    save_items enable_manifest [] = pure tt
    save_items enable_manifest (item ∷ items) = do
      at_db (save_item item)
      process_manifest enable_manifest item
      save_items enable_manifest items

    unfoldable pub parse_and_save_bundle_items : Bool → Text → Bytes → Eff Node (Unit {0})
    parse_and_save_bundle_items enable_manifest ar_id bytes s =
        (if exist_ar_id_to_item_ids ar_id s.db then pure tt else (do
          items ← lift (u.decode_bundle bytes)
          save_items enable_manifest items
          at_db (save_ar_id_to_item_ids ar_id (item_ids_of items))))
          s

    -- An incomplete bundle is left to wait; the result of `ParseAndSaveBundleItems` is only logged.
    abbrev parsed : Bool → Text → Result Bytes → Node → Node
    parsed enable_manifest ar_id (err e) s = s
    parsed enable_manifest ar_id (ok bytes) s =
        (at_db (del_parsed_bundle_ar_id ar_id)
          (parse_and_save_bundle_items enable_manifest ar_id bytes s).0).0

    module _ ⦃g : Goar⦄ where
      abbrev with_meta : ℕ → Bool → Text → Result Transaction → Node → Option Node
      with_meta fuel enable_manifest ar_id (err e) s = some s
      with_meta fuel enable_manifest ar_id (ok tx) s =
          map_option (λ r. parsed enable_manifest ar_id r s)
            (get_ar_tx_data fuel tx.data_root tx.data_size s.db)

      -- One round of the loop; `none` where the data is not read within the fuel.
      unfoldable pub parse_one : ℕ → Bool → Text → Node → Option Node
      parse_one fuel enable_manifest ar_id s =
          with_meta fuel enable_manifest ar_id (load_tx_meta ar_id s.db) s

      unfoldable pub parse_all : ℕ → Bool → List Text → Node → Option Node
      parse_all fuel enable_manifest [] s = some s
      parse_all fuel enable_manifest (ar_id ∷ ar_ids) s =
          elim (parse_one fuel enable_manifest ar_id s) [
            | none ↦ none
            | some s' ↦ parse_all fuel enable_manifest ar_ids s'
          ]

      abbrev waiting : ℕ → Bool → Result (List Text) → Node → Option Node
      waiting fuel enable_manifest (err e) s = some s
      waiting fuel enable_manifest (ok ar_ids) s = parse_all fuel enable_manifest ar_ids s

      unfoldable pub parse_and_save_bundle_tx : ℕ → Bool → Node → Option Node
      parse_and_save_bundle_tx fuel enable_manifest s =
          waiting fuel enable_manifest (load_wait_parse_bundle_ar_ids s.db) s
