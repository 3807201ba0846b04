-- ===== src/Tests/Storage/Again.antt =====
-- The submitted transaction is fetched again, and another one with its data is submitted.
use arseeding.Prelude.{true, ◌≢◌, false, codes, text_eq, ◌≡◌, refl, [], ◌∷◌, some, arith}
use arseeding.Effect.{ok}
use arseeding.Rawdb.Memory.{memory}
use arseeding.Goar.Types.{Transaction}
use arseeding.Goar.Plain.{plain}
use arseeding.Store.Numbers.{parse_uint, btoi, itob}
use arseeding.Store.Offsets.{
  load_tx_data_end_offset, save_tx_data_end_offset, save_all_data_end_offset,
  load_all_data_end_offset, generate_offset_key, is_exist_tx_data_end_offset,
  atomic_sync_data_end_offset, save_chunk,
}
use arseeding.Submit.Chunks.{
  generate_chunks, store_chunk, store_chunks, set_tx_data_chunks, sync_add_tx_data_end_offset,
}
use arseeding.Store.Records.{is_exist_tx_meta, load_tx_meta, save_tx_meta}
use arseeding.Submit.Transactions.{
  save_submit_tx, is_bundle_tx, count_tags, save_data_chunks, save_when_bundle, save_submit_data,
  save_new_tx,
}
use arseeding.Submit.Read.{get_ar_tx_data}
use arseeding.Rawdb.Interface.{bundle_wait_parse_ar_id_bucket}
use arseeding.Bundle.Plain.{plain_utils, manifest_rows}
use arseeding.Orders.Plain.{unary}
use arseeding.Api.RoundTrip.{header}
use arseeding.Sync.Fetch.{Syncer, has_data, fetch_and_store_tx}
use arseeding.Sync.Again.{fetch_and_store_tx-save_submit_tx, save_submit_tx-twice}
use arseeding.Tests.Sync.{silent}
use arseeding.Tests.Storage.{root, empty_db, hello_tx, hello_chunk, hello-IsFresh, hello_submitted}

-- behind the submission
abbrev behind : Syncer ⦃kv = memory⦄ ⦃m = manifest_rows⦄
unfolding manifest_rows
behind = record {
  tasks = [];
  node = record {
    db = (save_submit_tx ⦃kv = memory⦄ ⦃g = plain⦄ hello_tx empty_db).0;
    manifests = [];
  };
}

named : codes "tx" ≢ []
named h = absurd cc

sized :
    has_data ⦃kv = memory⦄ ⦃g = plain⦄ ⦃m = manifest_rows⦄ ⦃u = plain_utils⦄ ⦃big = unary⦄
      (unary.set_string (codes "5"))
    ≡ ok true
unfolding has_data unary
sized = refl

fetch_and_store_tx-save_submit_tx_example :
    fetch_and_store_tx ⦃kv = memory⦄ ⦃g = plain⦄ ⦃m = manifest_rows⦄ ⦃u = plain_utils⦄ ⦃big = unary⦄
      6 false silent
      (codes "tx")
      behind
    ≡ some (behind, ok tt)
unfolding save_submit_tx behind
fetch_and_store_tx-save_submit_tx_example =
    fetch_and_store_tx-save_submit_tx ⦃kv = memory⦄ ⦃g = plain⦄ ⦃m = manifest_rows⦄
      ⦃u = plain_utils⦄ ⦃big = unary⦄ 0 6 false silent hello_tx (codes "hello") (hello_chunk ∷ [])
      empty_db behind hello-IsFresh (omega arith) named sized hello_submitted refl

-- a bundle with the same data
abbrev other_tx : Transaction
other_tx = record hello_tx {
  id = codes "other";
  tags =
      record { name = codes "Bundle-Format"; value = codes "binary" }
      ∷ record { name = codes "Bundle-Version"; value = codes "2.0.0" }
      ∷ [];
}

other_verified : plain.verify_transaction other_tx ≡ ok tt
unfolding plain
other_verified = refl

other_new :
    is_exist_tx_meta ⦃kv = memory⦄ ⦃g = plain⦄
      (codes "other")
      (save_submit_tx ⦃kv = memory⦄ ⦃g = plain⦄ hello_tx empty_db).0
    ≡ ok false
unfolding empty_db load_tx_data_end_offset sync_add_tx_data_end_offset save_submit_tx
    is_exist_tx_data_end_offset parse_uint load_all_data_end_offset atomic_sync_data_end_offset
    save_all_data_end_offset save_tx_data_end_offset generate_offset_key memory plain itob btoi
    text_eq set_tx_data_chunks store_chunk store_chunks generate_chunks save_chunk is_exist_tx_meta
    load_tx_meta save_new_tx save_tx_meta save_submit_data save_data_chunks save_when_bundle
    is_bundle_tx count_tags
other_new = refl

other_submitted :
    (save_submit_tx ⦃kv = memory⦄ ⦃g = plain⦄ other_tx
      (save_submit_tx ⦃kv = memory⦄ ⦃g = plain⦄ hello_tx empty_db).0).1
    ≡ ok tt
unfolding empty_db load_tx_data_end_offset sync_add_tx_data_end_offset save_submit_tx
    is_exist_tx_data_end_offset parse_uint load_all_data_end_offset atomic_sync_data_end_offset
    save_all_data_end_offset save_tx_data_end_offset generate_offset_key memory plain itob btoi
    text_eq set_tx_data_chunks store_chunk store_chunks generate_chunks save_chunk is_exist_tx_meta
    load_tx_meta save_new_tx save_tx_meta save_submit_data save_data_chunks save_when_bundle
    is_bundle_tx count_tags
other_submitted = refl

abbrev both_db : memory.Db
both_db =
    (save_submit_tx ⦃kv = memory⦄ ⦃g = plain⦄ other_tx
      (save_submit_tx ⦃kv = memory⦄ ⦃g = plain⦄ hello_tx empty_db).0).0

save_submit_tx-twice_example :
    (load_tx_meta ⦃kv = memory⦄ ⦃g = plain⦄ (codes "other") both_db
      ≡ ok (header ⦃kv = memory⦄ ⦃g = plain⦄ other_tx))
    × (get_ar_tx_data ⦃kv = memory⦄ ⦃g = plain⦄ 6 root (codes "5") both_db
        ≡ some (ok (codes "hello")))
    × (memory.get bundle_wait_parse_ar_id_bucket (codes "other") both_db
        ≡ memory.get bundle_wait_parse_ar_id_bucket (codes "other") behind.node.db)
unfolding behind save_submit_tx
save_submit_tx-twice_example =
    save_submit_tx-twice ⦃kv = memory⦄ ⦃g = plain⦄ 0 6 hello_tx other_tx (codes "hello")
      (hello_chunk ∷ []) empty_db hello-IsFresh (omega arith) hello_submitted refl refl
      other_verified other_new other_submitted
