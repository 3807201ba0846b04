-- ===== src/Tests/Sync.antt =====
-- A transaction is fetched from the gateway.
use arseeding.Prelude.{false, codes, text_eq, ◌≡◌, refl, Option, none, some, []}
use arseeding.Effect.{Result, ok, err, not_exist}
use arseeding.Rawdb.Interface.{bundle_item_binary}
use arseeding.Rawdb.Memory.{memory}
use arseeding.Goar.Types.{Transaction}
use arseeding.Goar.Plain.{plain}
use arseeding.Store.Numbers.{parse_uint, btoi, itob}
use arseeding.Store.Offsets.{
  load_tx_data_end_offset, save_tx_data_end_offset, save_all_data_end_offset,
  load_all_data_end_offset, generate_offset_key, is_exist_tx_data_end_offset,
  atomic_sync_data_end_offset, save_chunk, load_chunk, rollback_all_data_end_offset,
}
use arseeding.Store.Records.{is_exist_tx_meta, load_tx_meta, save_tx_meta}
use arseeding.Submit.Chunks.{
  generate_chunks, store_chunk, store_chunks, set_tx_data_chunks, sync_add_tx_data_end_offset,
  add_tx_data_end_offset,
}
use arseeding.Submit.Transactions.{is_bundle_tx, count_tags}
use arseeding.Submit.Read.{get_ar_tx_data, read_chunks, chunk_bytes}
use arseeding.Bundle.Plain.{plain_utils, manifest_rows}
use arseeding.Orders.Plain.{unary}
use arseeding.Sync.Fetch.{
  Answers, Syncer, has_data, fetch_and_store_tx, sync_meta, meta_or_fetched, or_peers, not_null_tx,
  store_meta, store_end_offset, sync_data, insert_tx_manifest,
}
use arseeding.Sync.Frame.{fetch_and_store_tx-Foreign}

abbrev hello : Transaction
hello = record {
  id = codes "tx";
  data_root = codes "root";
  data_size = codes "5";
  data_text = [];
  tags = [];
  last_tx = [];
  owner = [];
  target = [];
  quantity = [];
  reward = [];
  signature = [];
}

abbrev pub silent : Answers
silent = record {
  unconfirmed = err not_exist;
  tx_peers = [];
  gateway = err not_exist;
  data_peers = [];
}

-- The gateway has the transaction, and the store has an item only.
abbrev gateway : Answers
gateway = record silent { unconfirmed = ok hello; gateway = ok (codes "hello") }

abbrev item_only : Syncer ⦃kv = memory⦄ ⦃m = manifest_rows⦄
unfolding memory manifest_rows
item_only = record {
  tasks = [];
  node = record {
    db = (memory.put bundle_item_binary (codes "item") (codes "ab") []).0;
    manifests = [];
  };
}

abbrev run : Option (Syncer ⦃kv = memory⦄ ⦃m = manifest_rows⦄ × Result (Unit {0}))
run =
    fetch_and_store_tx ⦃kv = memory⦄ ⦃g = plain⦄ ⦃m = manifest_rows⦄ ⦃u = plain_utils⦄ ⦃big = unary⦄
      6 false gateway (codes "tx") item_only

abbrev ended : Syncer ⦃kv = memory⦄ ⦃m = manifest_rows⦄ × Result (Unit {0})
ended = elim run [ some end ↦ end | none ↦ (item_only, err not_exist) ]

run-ended : run ≡ some ended
unfolding item_only fetch_and_store_tx sync_meta meta_or_fetched load_tx_meta or_peers not_null_tx
    store_meta is_exist_tx_meta save_tx_meta store_end_offset is_exist_tx_data_end_offset
    load_tx_data_end_offset sync_add_tx_data_end_offset add_tx_data_end_offset parse_uint
    load_all_data_end_offset atomic_sync_data_end_offset save_all_data_end_offset
    rollback_all_data_end_offset save_tx_data_end_offset generate_offset_key has_data get_ar_tx_data
    read_chunks chunk_bytes load_chunk sync_data set_tx_data_chunks store_chunk store_chunks
    generate_chunks save_chunk insert_tx_manifest is_bundle_tx count_tags memory plain unary itob
    btoi text_eq
run-ended = refl

fetch_and_store_tx-Foreign_example :
    memory.get bundle_item_binary (codes "item") ended.0.node.db
    ≡ memory.get bundle_item_binary (codes "item") item_only.node.db
fetch_and_store_tx-Foreign_example =
    fetch_and_store_tx-Foreign ⦃kv = memory⦄ ⦃g = plain⦄ ⦃m = manifest_rows⦄ ⦃u = plain_utils⦄
      ⦃big = unary⦄ bundle_item_binary (codes "item") 6 false gateway (codes "tx") item_only ended
      ((refl, refl, refl), refl, refl) run-ended
