-- ===== src/Manifest/Items.antt =====
-- manifest.go: the data and the tags of a transaction or an item (`getArTxOrItemData`,
-- `getArTxOrItemDataForManifest`, `getArTxOrItemTags`, `getBundleItemData`, `handleManifest`,
-- `getNestBundle`). The content of a file stands for the file, and a missing file is empty.
use arseeding.Prelude.{
  ℕ, Text, Bytes, text_eq, Bool, false, ◌||◌, Option, none, some, List, [], ◌∷◌, if◌then◌else◌,
}
use arseeding.Prelude.Maps.{map_option}
use arseeding.Effect.{Result, ok, err, local_not_exist, bind_result}
use arseeding.Rawdb.Interface.{KeyValueDb}
use arseeding.Goar.Types.{Goar, Tag, Transaction}
use arseeding.Store.Records.{load_tx_meta}
use arseeding.Submit.Read.{tx_data_by_meta}
use arseeding.Tasks.Id.{task_type_sync_manifest}
use arseeding.Tasks.Service.{Service, register_task}
use arseeding.Bundle.Types.{BundleItem, BundleUtils}
use arseeding.Bundle.Items.{
  load_item_binary, load_item_meta, LoadedBinary, binary_reader, item_bytes,
}
use arseeding.Orders.Chain.{Bundler}
use arseeding.Manifest.Resolve.{ManifestData, resolve_path}

-- `json.Unmarshal` of a manifest
pub record ManifestJson : Type 0 where
  pub unmarshal_manifest : Bytes → Result ManifestData

abbrev pub content_of : Option Bytes → Bytes
content_of (some file) = file
content_of none = []

abbrev pub decoded : List Tag × Result (Unit {0}) → Result (List Tag)
decoded (tags, ok u) = ok tags
decoded (tags, err e) = err e

module _ ⦃kv : KeyValueDb⦄ ⦃g : Goar⦄ ⦃u : BundleUtils⦄ ⦃b : Bundler⦄ where
  -- `parseBundleItem`, and the data of the item
  unfoldable pub parse_bundle_item : LoadedBinary → Result BundleItem
  parse_bundle_item (binary_reader file) = b.decode_bundle_item_stream file
  parse_bundle_item (item_bytes bytes) = u.decode_bundle_item bytes

  unfoldable pub item_data : LoadedBinary → BundleItem → Result Bytes
  item_data (binary_reader file) item = ok (content_of item.data_reader)
  item_data (item_bytes bytes) item = g.base64_decode item.data_text

  unfoldable pub get_bundle_item_data : Text → kv.Db → Result (List Tag × Bytes)
  get_bundle_item_data id db = bind_result (load_item_binary id db) λ binary.
      bind_result (parse_bundle_item binary)
        λ item. bind_result (item_data binary item) λ bytes. ok (item.tags, bytes)

  unfoldable pub get_tx_data : ℕ → kv.Db → Transaction → Option (Result (List Tag × Bytes))
  get_tx_data fuel db tx =
      map_option
        (λ r.
          bind_result r
            (λ bytes. bind_result (decoded (g.tags_decode tx.tags)) (λ tags. ok (tags, bytes))))
        (tx_data_by_meta fuel tx db)

  abbrev pub tx_or_missing : ℕ → kv.Db → Result Transaction → Option (Result (List Tag × Bytes))
  tx_or_missing fuel db (ok tx) = get_tx_data fuel db tx
  tx_or_missing fuel db (err e) = some (err local_not_exist)

  -- by whether the id is that of an item
  abbrev pub item_or_tx : ℕ → Text → kv.Db → Result BundleItem → Option (Result (List Tag × Bytes))
  item_or_tx fuel id db (ok item) = some (get_bundle_item_data id db)
  item_or_tx fuel id db (err e) = tx_or_missing fuel db (load_tx_meta id db)

  unfoldable pub get_ar_tx_or_item_data : ℕ → Text → kv.Db → Option (Result (List Tag × Bytes))
  get_ar_tx_or_item_data fuel id db = item_or_tx fuel id db (load_item_meta id db)

  -- A missing id is registered to be synced; its error is that of the missing data.
  abbrev pub or_register :
      Text → Service → Result (List Tag × Bytes) → Service × Result (List Tag × Bytes)
  or_register id s (err local_not_exist) =
      ((register_task id task_type_sync_manifest s).0, err local_not_exist)
  or_register id s r = (s, r)

  unfoldable pub get_ar_tx_or_item_data_for_manifest :
      ℕ → Text → Service → Option (Service × Result (List Tag × Bytes))
  get_ar_tx_or_item_data_for_manifest fuel id s =
      map_option (or_register id s) (get_ar_tx_or_item_data fuel id s.db)

  abbrev tx_tags : Result Transaction → Result (List Tag)
  tx_tags (ok tx) = decoded (g.tags_decode tx.tags)
  tx_tags (err e) = err local_not_exist

  abbrev item_or_tx_tags : Text → kv.Db → Result BundleItem → Result (List Tag)
  item_or_tx_tags id db (ok item) = ok item.tags
  item_or_tx_tags id db (err e) = tx_tags (load_tx_meta id db)

  unfoldable pub get_ar_tx_or_item_tags : Text → kv.Db → Result (List Tag)
  get_ar_tx_or_item_tags id db = item_or_tx_tags id db (load_item_meta id db)

  module _ ⦃j : ManifestJson⦄ where
    abbrev pub serve : ℕ → kv.Db → Result Text → Option (Result (List Tag × Bytes))
    serve fuel db (ok tx_id) = get_ar_tx_or_item_data fuel tx_id db
    serve fuel db (err e) = some (err e)

    unfoldable pub handle_manifest : ℕ → Bytes → Text → kv.Db → Option (Result (List Tag × Bytes))
    handle_manifest fuel mani_data path db =
        serve fuel db
          (bind_result (j.unmarshal_manifest mani_data) (λ mani. resolve_path mani path))

-- `getNestBundle`, on the answer of the gateway
unfoldable pub contains_in_slice : List Text → Text → Bool
contains_in_slice [] id = false
contains_in_slice (i ∷ ids) id = text_eq i id || contains_in_slice ids id

unfoldable pub nest_items :
    ⦃u : BundleUtils⦄ → List Text → List BundleItem → Result (List BundleItem)
nest_items ids [] = ok []
nest_items ⦃u⦄ ids (item ∷ items) =
    let rest = nest_items ids items in
    if contains_in_slice ids item.id
    then bind_result (u.decode_bundle_item item.item_binary)
        (λ decoded_item. bind_result rest (λ others. ok (decoded_item ∷ others)))
    else rest

unfoldable pub get_nest_bundle :
    ⦃u : BundleUtils⦄ → Result Bytes → List Text → Result (List BundleItem)
get_nest_bundle ⦃u⦄ raw ids =
    bind_result raw (λ bytes. bind_result (u.decode_bundle bytes) (λ items. nest_items ids items))
