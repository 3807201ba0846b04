-- ===== src/Bundle/Items.antt =====
-- store.go and bundle.go: the binary and the meta data of a bundle item, and the items of a bundle.
use arseeding.Prelude.{
  Text, Bytes, Bool, true, false, not, Option, none, some, List, [], if◌then◌else◌,
}
use arseeding.Effect.{Result, ok, err, not_exist, bind_result, Eff, pure, throw, ◌>>◌, on_error}
use arseeding.Rawdb.Interface.{
  KeyValueDb, bundle_item_binary, bundle_item_meta, bundle_wait_parse_ar_id_bucket,
  bundle_ar_id_to_item_ids_bucket,
}
use arseeding.Bundle.Types.{BundleItem, BundleUtils}

-- what `LoadItemBinary` returns beside an error: a file on S3, else the bytes
pub data LoadedBinary : Type 0 where
  binary_reader item_bytes : Bytes → LoadedBinary

abbrev pub map_result {ℓ κ} : {A : Type ℓ} {B : Type κ} → (A → B) → Result A → Result B
map_result f r = bind_result r (λ a. ok (f a))

-- The item without its data, whose meta data is saved.
abbrev pub without_data : BundleItem → BundleItem
without_data item = record item { data_text = [] }

module _ ⦃kv : KeyValueDb⦄ where
  unfoldable pub load_item_binary : Text → kv.Db → Result LoadedBinary
  load_item_binary item_id db =
      if kv.is_s3
      then map_result binary_reader (kv.get_stream bundle_item_binary item_id db)
      else map_result item_bytes (kv.get bundle_item_binary item_id db)

  unfoldable pub is_exist_item_binary : Text → kv.Db → Bool
  is_exist_item_binary item_id db = kv.exist bundle_item_binary item_id db

  unfoldable pub del_item_binary : Text → Eff kv.Db (Unit {0})
  del_item_binary item_id = kv.delete bundle_item_binary item_id

  unfoldable pub del_item_meta : Text → Eff kv.Db (Unit {0})
  del_item_meta item_id = kv.delete bundle_item_meta item_id

  unfoldable pub atomic_del_item : Text → Eff kv.Db (Unit {0})
  atomic_del_item item_id = do del_item_meta item_id; del_item_binary item_id

  unfoldable pub del_item : Text → Eff kv.Db (Unit {0})
  del_item item_id db =
      (if not (is_exist_item_binary item_id db) then pure tt else atomic_del_item item_id) db

  unfoldable pub load_wait_parse_bundle_ar_ids : kv.Db → Result (List Text)
  load_wait_parse_bundle_ar_ids db = kv.get_all_key bundle_wait_parse_ar_id_bucket db

  unfoldable pub del_parsed_bundle_ar_id : Text → Eff kv.Db (Unit {0})
  del_parsed_bundle_ar_id ar_id = kv.delete bundle_wait_parse_ar_id_bucket ar_id

  module _ ⦃u : BundleUtils⦄ where
    -- the bytes that `SaveItemBinary` writes
    unfoldable pub binary_of : Option Bytes → BundleItem → Result Bytes
    binary_of (some file) item = u.generate_item_binary_stream item
    binary_of none item = ok item.item_binary

    put_binary : Text → Result Bytes → Eff kv.Db (Unit {0})
    put_binary item_id (ok b) = kv.put bundle_item_binary item_id b
    put_binary item_id (err e) = throw e

    unfoldable pub save_item_binary : BundleItem → Eff kv.Db (Unit {0})
    unfolding put_binary
    save_item_binary item = put_binary item.id (binary_of item.data_reader item)

    unfoldable pub save_item_meta : BundleItem → Eff kv.Db (Unit {0})
    save_item_meta item = kv.put bundle_item_meta item.id (u.marshal_item (without_data item))

    unfoldable pub load_item_meta : Text → kv.Db → Result BundleItem
    load_item_meta item_id db = bind_result (kv.get bundle_item_meta item_id db) u.unmarshal_item

    unfoldable pub atomic_save_item : BundleItem → Eff kv.Db (Unit {0})
    atomic_save_item item = do
      save_item_binary item
      on_error (save_item_meta item) (del_item_binary item.id)

    unfoldable pub save_item : BundleItem → Eff kv.Db (Unit {0})
    save_item item db =
        (if is_exist_item_binary item.id db then pure tt else atomic_save_item item) db

    unfoldable pub save_ar_id_to_item_ids : Text → List Text → Eff kv.Db (Unit {0})
    save_ar_id_to_item_ids ar_id item_ids =
        kv.put bundle_ar_id_to_item_ids_bucket ar_id (u.marshal_ids item_ids)

    unfoldable pub load_ar_id_to_item_ids : Text → kv.Db → Result (List Text)
    load_ar_id_to_item_ids ar_id db =
        bind_result (kv.get bundle_ar_id_to_item_ids_bucket ar_id db) u.unmarshal_ids

    -- Every error but `ErrNotExist` is "exists".
    abbrev known : Result (List Text) → Bool
    known (err not_exist) = false
    known _ = true

    unfoldable pub exist_ar_id_to_item_ids : Text → kv.Db → Bool
    exist_ar_id_to_item_ids ar_id db = known (load_ar_id_to_item_ids ar_id db)
