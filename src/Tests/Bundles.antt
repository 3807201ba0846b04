-- ===== src/Tests/Bundles.antt =====
-- Bundle items at small inputs: store.go, bundle.go and jobs.go.
use arseeding.Prelude.{Text, Bytes, codes, ◌≡◌, refl, true, false, List, [], ◌∷◌, none, some}
use arseeding.Effect.{ok}
use arseeding.Rawdb.Memory.{memory}
use arseeding.Goar.Types.{Transaction}
use arseeding.Goar.Plain.{plain}
use arseeding.Store.Records.{load_tx_meta, save_wait_parse_bundle_ar_id, save_tx_meta}
use arseeding.Store.Numbers.{parse_uint}
use arseeding.Submit.Read.{get_ar_tx_data}
use arseeding.Bundle.Types.{BundleItem}
use arseeding.Bundle.Items.{
  binary_of, save_item, atomic_save_item, save_item_binary, save_item_meta, save_ar_id_to_item_ids,
  del_item, is_exist_item_binary, exist_ar_id_to_item_ids, load_ar_id_to_item_ids,
}
use arseeding.Bundle.ItemLaws.{Saved, save_item-Saved, Deleted, del_item-Deleted}
use arseeding.Bundle.OnChain.{load_items, get_on_chain_bundle}
use arseeding.Bundle.Arrange.{Arranged, get_on_chain_bundle-Arranged}
use arseeding.Bundle.Parse.{
  Node, save_items, process_manifest, get_tag_value, parse_and_save_bundle_items, parse_one,
}
use arseeding.Bundle.Plain.{plain_utils, manifest_rows}
use arseeding.Bundle.Parsed.{Parsed, parse_and_save_bundle_items-Parsed, Round, parse_one-Round}

abbrev item : Text → Bytes → BundleItem
item id b = record {
  id = id;
  data_text = b;
  data_reader = none;
  item_binary = b;
  tags = [];
  anchor = [];
  owner = [];
  target = [];
  signature = [];
  signature_type = 1;
}

-- An item is written as its id behind its length; ids as they are.
abbrev empty_db : memory.Db
unfolding memory
empty_db = []

-- an item without data, and one with two bytes
abbrev null_item : BundleItem
null_item = record {
  id = [];
  data_text = [];
  data_reader = none;
  item_binary = [];
  tags = [];
  anchor = [];
  owner = [];
  target = [];
  signature = [];
  signature_type = 1;
}

abbrev full_item : BundleItem
full_item = record {
  id = codes "ab";
  data_text = codes "ab";
  data_reader = none;
  item_binary = codes "ab";
  tags = [];
  anchor = [];
  owner = [];
  target = [];
  signature = [];
  signature_type = 1;
}

absent : is_exist_item_binary ⦃kv = memory⦄ (codes "ab") empty_db ≡ false
unfolding empty_db memory is_exist_item_binary
absent = refl

full_binary : binary_of ⦃kv = memory⦄ ⦃u = plain_utils⦄ none full_item ≡ ok (codes "ab")
unfolding binary_of
full_binary = refl

save_item-Saved_example :
    Saved ⦃kv = memory⦄ ⦃u = plain_utils⦄ full_item
      (codes "ab")
      empty_db
      (save_item ⦃kv = memory⦄ ⦃u = plain_utils⦄ full_item empty_db)
save_item-Saved_example =
    save_item-Saved ⦃kv = memory⦄ ⦃u = plain_utils⦄ full_item (codes "ab") empty_db full_binary
      absent

abbrev full_db : memory.Db
full_db = (save_item ⦃kv = memory⦄ ⦃u = plain_utils⦄ full_item empty_db).0

del_item-Deleted_example :
    Deleted ⦃kv = memory⦄ (codes "ab") full_db (del_item ⦃kv = memory⦄ (codes "ab") full_db)
del_item-Deleted_example = del_item-Deleted ⦃kv = memory⦄ (codes "ab") full_db

-- The item without data is the last of the two.
abbrev two_db : memory.Db
two_db = (save_item ⦃kv = memory⦄ ⦃u = plain_utils⦄ null_item full_db).0

get_on_chain_bundle-Arranged_example :
    Arranged
      (load_items ⦃kv = memory⦄ ⦃u = plain_utils⦄ (codes "ab" ∷ [] ∷ []) two_db)
      (get_on_chain_bundle ⦃kv = memory⦄ ⦃u = plain_utils⦄ (codes "ab" ∷ [] ∷ []) two_db)
get_on_chain_bundle-Arranged_example =
    get_on_chain_bundle-Arranged ⦃kv = memory⦄ ⦃u = plain_utils⦄ (codes "ab" ∷ [] ∷ []) two_db

abbrev start : Node ⦃kv = memory⦄ ⦃m = manifest_rows⦄
unfolding manifest_rows
start = record { db = empty_db; manifests = [] }

one_byte_items :
    plain_utils.decode_bundle (codes "xy")
    ≡ ok (
        record {
          id = codes "x";
          data_text = codes "x";
          data_reader = none;
          item_binary = codes "x";
          tags = [];
          anchor = [];
          owner = [];
          target = [];
          signature = [];
          signature_type = 1;
        }
        ∷ record {
          id = codes "y";
          data_text = codes "y";
          data_reader = none;
          item_binary = codes "y";
          tags = [];
          anchor = [];
          owner = [];
          target = [];
          signature = [];
          signature_type = 1;
        }
        ∷ [])
unfolding plain_utils
one_byte_items = refl

no_index : exist_ar_id_to_item_ids ⦃kv = memory⦄ ⦃u = plain_utils⦄ (codes "tx") start.db ≡ false
unfolding start empty_db memory exist_ar_id_to_item_ids load_ar_id_to_item_ids
no_index = refl

abbrev xy : List BundleItem
xy =
    record {
      id = codes "x";
      data_text = codes "x";
      data_reader = none;
      item_binary = codes "x";
      tags = [];
      anchor = [];
      owner = [];
      target = [];
      signature = [];
      signature_type = 1;
    }
    ∷ record {
      id = codes "y";
      data_text = codes "y";
      data_reader = none;
      item_binary = codes "y";
      tags = [];
      anchor = [];
      owner = [];
      target = [];
      signature = [];
      signature_type = 1;
    }
    ∷ []

xy_done :
    (parse_and_save_bundle_items ⦃kv = memory⦄ ⦃m = manifest_rows⦄ ⦃u = plain_utils⦄ true
      (codes "tx")
      (codes "xy")
      start).1
    ≡ ok tt
unfolding start empty_db memory plain_utils manifest_rows parse_and_save_bundle_items
    exist_ar_id_to_item_ids load_ar_id_to_item_ids save_items save_item is_exist_item_binary
    atomic_save_item save_item_binary binary_of save_item_meta process_manifest get_tag_value
    save_ar_id_to_item_ids
xy_done = refl

parse_and_save_bundle_items-Parsed_example :
    Parsed ⦃kv = memory⦄ ⦃m = manifest_rows⦄ ⦃u = plain_utils⦄ (codes "tx") xy (
      parse_and_save_bundle_items ⦃kv = memory⦄ ⦃m = manifest_rows⦄ ⦃u = plain_utils⦄ true
        (codes "tx")
        (codes "xy")
        start)
parse_and_save_bundle_items-Parsed_example =
    parse_and_save_bundle_items-Parsed ⦃kv = memory⦄ ⦃m = manifest_rows⦄ ⦃u = plain_utils⦄ true
      (codes "tx") (codes "xy") xy start no_index one_byte_items xy_done

-- a bundle of no bytes, whose transaction is known
abbrev bundle_tx : Transaction
bundle_tx = record {
  id = codes "tx";
  data_root = codes "root";
  data_size = codes "0";
  data_text = [];
  tags = [];
  last_tx = [];
  owner = [];
  target = [];
  quantity = [];
  reward = [];
  signature = [];
}

abbrev waiting : Node ⦃kv = memory⦄ ⦃m = manifest_rows⦄
waiting = record {
  db =
      (save_wait_parse_bundle_ar_id ⦃kv = memory⦄ ⦃g = plain⦄ (codes "tx")
        (save_tx_meta ⦃kv = memory⦄ ⦃g = plain⦄ bundle_tx empty_db).0).0;
  manifests = start.manifests;
}

bundle_known : load_tx_meta ⦃kv = memory⦄ ⦃g = plain⦄ (codes "tx") waiting.db ≡ ok bundle_tx
unfolding empty_db memory plain load_tx_meta save_tx_meta save_wait_parse_bundle_ar_id
bundle_known = refl

no_bytes :
    get_ar_tx_data ⦃kv = memory⦄ ⦃g = plain⦄ 1 (codes "root") (codes "0") waiting.db ≡ some (ok [])
unfolding get_ar_tx_data parse_uint
no_bytes = refl

parse_one-Round_example :
    Round ⦃kv = memory⦄ ⦃m = manifest_rows⦄ ⦃u = plain_utils⦄ true (codes "tx") waiting (ok []) (
      parse_one ⦃kv = memory⦄ ⦃m = manifest_rows⦄ ⦃u = plain_utils⦄ ⦃g = plain⦄ 1 true
        (codes "tx")
        waiting)
parse_one-Round_example =
    parse_one-Round ⦃kv = memory⦄ ⦃m = manifest_rows⦄ ⦃u = plain_utils⦄ ⦃g = plain⦄ 1 true
      (codes "tx") bundle_tx (ok []) waiting bundle_known no_bytes
