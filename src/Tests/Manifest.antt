-- ===== src/Tests/Manifest.antt =====
-- A manifest with one path, and the item that it names.
use arseeding.Prelude.{codes, text_eq, ◌≡◌, refl, false, none, some, [], ◌∷◌}
use arseeding.Prelude.Maps.{lookup}
use arseeding.Effect.{ok, err, not_exist}
use arseeding.Rawdb.Memory.{memory}
use arseeding.Goar.Plain.{plain}
use arseeding.Bundle.Types.{BundleItem}
use arseeding.Bundle.Items.{
  save_item, atomic_save_item, save_item_binary, save_item_meta, is_exist_item_binary, binary_of,
}
use arseeding.Bundle.Plain.{plain_utils}
use arseeding.Orders.Chain.{Bundler}
use arseeding.Manifest.Resolve.{
  ManifestData, trim_prefix, trim_suffix, trim_path, path_or_index, lookup_path, resolve_path,
}
use arseeding.Manifest.Items.{ManifestJson, handle_manifest}
use arseeding.Manifest.Saved.{handle_manifest-save_item}

abbrev one_page : ManifestData
one_page = record {
  index_path = codes "page/index.html";
  paths = (codes "page/index.html", codes "ab") ∷ [];
}

bare_page : trim_suffix (codes "page") ≡ codes "page"
unfolding trim_suffix
bare_page = refl

abbrev pub page_item : BundleItem
page_item = record {
  id = codes "ab";
  data_text = codes "ab";
  data_reader = none;
  item_binary = codes "ab";
  tags = [];
  anchor = [];
  owner = [];
  target = [];
  signature = [];
  signature_type = 1;
}

abbrev pub no_bundler : Bundler
no_bundler = record {
  new_bundle = λ items. err not_exist;
  new_bundle_stream = λ items. err not_exist;
  decode_bundle_item_stream = λ b. err not_exist;
  decode_bundle_stream = λ b. err not_exist;
  verify_bundle_item = λ item. ok tt;
  send_bundle_tx_speed_up = λ b. err not_exist;
}

-- Every manifest reads as that of one page.
abbrev pub one_manifest : ManifestJson
one_manifest = record { unmarshal_manifest = λ b. ok one_page }

abbrev pub empty_db : memory.Db
unfolding memory
empty_db = []

local : memory.is_s3 ≡ false
unfolding memory
local = refl

decodes : plain_utils.decode_bundle_item (codes "ab") ≡ ok page_item
unfolding plain_utils
decodes = refl

reads : plain.base64_decode (codes "ab") ≡ ok (codes "ab")
unfolding plain
reads = refl

absent : is_exist_item_binary ⦃kv = memory⦄ (codes "ab") empty_db ≡ false
unfolding empty_db memory is_exist_item_binary
absent = refl

resolved : resolve_path one_page (codes "/page/") ≡ ok (codes "ab")
unfolding resolve_path trim_path trim_prefix trim_suffix path_or_index lookup_path lookup text_eq
resolved = refl

saved : (save_item ⦃kv = memory⦄ ⦃u = plain_utils⦄ page_item empty_db).1 ≡ ok tt
unfolding empty_db memory plain_utils save_item atomic_save_item save_item_binary save_item_meta
    is_exist_item_binary binary_of
saved = refl

handle_manifest-save_item_example :
    handle_manifest ⦃kv = memory⦄ ⦃g = plain⦄ ⦃u = plain_utils⦄ ⦃b = no_bundler⦄ ⦃j = one_manifest⦄
      0 []
      (codes "/page/")
      (save_item ⦃kv = memory⦄ ⦃u = plain_utils⦄ page_item empty_db).0
    ≡ some (ok ([], codes "ab"))
handle_manifest-save_item_example =
    handle_manifest-save_item ⦃kv = memory⦄ ⦃g = plain⦄ ⦃u = plain_utils⦄ ⦃b = no_bundler⦄
      ⦃j = one_manifest⦄ 0 page_item (codes "ab") [] one_page (codes "/page/") empty_db local refl
      decodes reads absent refl resolved saved
