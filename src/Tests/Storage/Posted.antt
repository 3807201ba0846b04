-- ===== src/Tests/Storage/Posted.antt =====
-- A transaction that is posted to an empty node.
use arseeding.Prelude.{arith, ◌≡◌, refl, Text, codes, text_eq, some, [], ◌∷◌}
use arseeding.Effect.{ok}
use arseeding.Rawdb.Memory.{memory}
use arseeding.Goar.Plain.{plain}
use arseeding.Store.Numbers.{parse_uint, btoi, itob}
use arseeding.Store.Offsets.{
  load_tx_data_end_offset, save_tx_data_end_offset, save_all_data_end_offset,
  load_all_data_end_offset, generate_offset_key, is_exist_tx_data_end_offset,
  atomic_sync_data_end_offset, save_chunk,
}
use arseeding.Store.Records.{is_exist_tx_meta, load_tx_meta, save_tx_meta, put_task_pending_pool}
use arseeding.Submit.Chunks.{
  generate_chunks, store_chunk, store_chunks, set_tx_data_chunks, sync_add_tx_data_end_offset,
}
use arseeding.Submit.Transactions.{
  save_submit_tx, is_bundle_tx, count_tags, save_data_chunks, save_when_bundle, save_submit_data,
  save_new_tx,
}
use arseeding.Tasks.Id.{assemble_task_id}
use arseeding.Tasks.Manager.{add_task, get_task}
use arseeding.Tasks.Service.{Service, on_db, register_task, put_to_tk_chan}
use arseeding.Api.Replies.{json, html}
use arseeding.Api.Tx.{submit_tx, get_tx_field}
use arseeding.Api.RoundTrip.{submit_tx-get_tx_field}
use arseeding.Tests.Storage.{empty_db, hello_tx, hello_chunk, hello-IsFresh}

abbrev empty_node : Service ⦃kv = memory⦄
empty_node = record { tasks = []; db = empty_db; tk_chan = [] }

abbrev raw : Text
unfolding plain
raw = plain.marshal_tx hello_tx

posted : (submit_tx ⦃kv = memory⦄ ⦃g = plain⦄ (some (ok raw)) empty_node).1 ≡ json tt
unfolding empty_db load_tx_data_end_offset sync_add_tx_data_end_offset save_submit_tx
    is_exist_tx_data_end_offset parse_uint load_all_data_end_offset atomic_sync_data_end_offset
    save_all_data_end_offset save_tx_data_end_offset generate_offset_key memory plain itob btoi
    text_eq set_tx_data_chunks store_chunk store_chunks generate_chunks save_chunk is_exist_tx_meta
    load_tx_meta save_new_tx save_tx_meta save_submit_data save_data_chunks save_when_bundle
    is_bundle_tx count_tags submit_tx register_task on_db put_task_pending_pool put_to_tk_chan
    assemble_task_id add_task get_task raw
posted = refl

read_back : plain.unmarshal_tx raw ≡ ok hello_tx
unfolding plain raw
read_back = refl

submit_tx-get_tx_field_example :
    get_tx_field ⦃kv = memory⦄ ⦃g = plain⦄ 6
      (codes "tx")
      (codes "data")
      (submit_tx ⦃kv = memory⦄ ⦃g = plain⦄ (some (ok raw)) empty_node).0.db
    ≡ some (html (plain.base64_encode (codes "hello")))
submit_tx-get_tx_field_example =
    submit_tx-get_tx_field ⦃kv = memory⦄ ⦃g = plain⦄ 0 6 raw hello_tx (codes "hello")
      (hello_chunk ∷ []) empty_node read_back hello-IsFresh (omega arith) (omega arith) posted
