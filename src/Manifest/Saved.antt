-- ===== src/Manifest/Saved.antt =====
-- manifest.go and bundle.go: an item that is saved is served under the paths that a manifest gives it.
use arseeding.Prelude.{ℕ, Text, Bytes, ◌≡◌, refl, false, none, some}
use arseeding.Effect.{Result, ok, err}
use arseeding.Rawdb.Interface.{KeyValueDb}
use arseeding.Goar.Types.{Goar}
use arseeding.Bundle.Types.{BundleItem, BundleUtils}
use arseeding.Bundle.Items.{binary_of, save_item, is_exist_item_binary, load_item_binary}
use arseeding.Bundle.ItemLaws.{Saved, save_item-Saved}
use arseeding.Orders.Chain.{Bundler}
use arseeding.Manifest.Resolve.{ManifestData, resolve_path}
use arseeding.Manifest.Items.{
  ManifestJson, parse_bundle_item, item_data, get_bundle_item_data, get_ar_tx_or_item_data,
  handle_manifest,
}

module _ ⦃kv : KeyValueDb⦄ ⦃g : Goar⦄ ⦃u : BundleUtils⦄ ⦃b : Bundler⦄ where
  -- by the two records that a save leaves
  read-Saved :
      (fuel : ℕ) (item : BundleItem) (bytes : Bytes) (out : kv.Db × Result (Unit {0})) (db : kv.Db)
      → kv.is_s3 ≡ false
      → u.decode_bundle_item item.item_binary ≡ ok item
      → g.base64_decode item.data_text ≡ ok bytes
      → Saved item item.item_binary db out
      → out.1 ≡ ok tt
      → get_ar_tx_or_item_data fuel item.id out.0 ≡ some (ok (item.tags, bytes))
  unfolding get_ar_tx_or_item_data get_bundle_item_data load_item_binary parse_bundle_item item_data
  read-Saved fuel item bytes (db', ok v) db local decodes reads (binary, meta) done =
      rw
        (
          get_ar_tx_or_item_data, meta, get_bundle_item_data, load_item_binary, local, binary,
          parse_bundle_item, decodes, item_data, reads,
        )
        refl
  read-Saved fuel item bytes (db', err e) db local decodes reads saved done = absurd cc

  saved_binary :
      (item : BundleItem)
      → item.data_reader ≡ none
      → binary_of item.data_reader item ≡ ok item.item_binary
  unfolding binary_of
  saved_binary item h = rw h refl

-- On a database other than S3, an item without a file that was not in the store, and whose binary
-- decodes to it: where `save_item` reports success, `handle_manifest` of a manifest that resolves a
-- path to the item's id returns the item's tags and its data.
pub handle_manifest-save_item :
    ⦃kv : KeyValueDb⦄ ⦃g : Goar⦄ ⦃u : BundleUtils⦄ ⦃b : Bundler⦄ ⦃j : ManifestJson⦄ (fuel : ℕ)
    (item : BundleItem) (bytes mani_data : Bytes) (mani : ManifestData) (path : Text) (db : kv.Db)
    → kv.is_s3 ≡ false
    → item.data_reader ≡ none
    → u.decode_bundle_item item.item_binary ≡ ok item
    → g.base64_decode item.data_text ≡ ok bytes
    → is_exist_item_binary item.id db ≡ false
    → j.unmarshal_manifest mani_data ≡ ok mani
    → resolve_path mani path ≡ ok item.id
    → (save_item item db).1 ≡ ok tt
    → handle_manifest fuel mani_data path (save_item item db).0 ≡ some (ok (item.tags, bytes))
unfolding handle_manifest
handle_manifest-save_item fuel item bytes mani_data mani path db local whole decodes reads absent
      parsed resolved done =
    rw (handle_manifest, parsed, resolved)
      (read-Saved fuel item bytes (save_item item db) db local decodes reads
        (save_item-Saved item item.item_binary db (saved_binary item whole) absent) done)
