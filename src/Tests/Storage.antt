-- ===== src/Tests/Storage.antt =====
-- The offsets and the chunks of two small transactions: submit.go, store.go and `getArTxData`.
mod Posted
mod Again
use arseeding.Prelude.{false, Text, codes, text_eq, ◌≡◌, refl, [], ◌∷◌, some, arith}
use arseeding.Effect.{ok}
use arseeding.Rawdb.Memory.{memory}
use arseeding.Goar.Types.{Transaction, GetChunk}
use arseeding.Goar.Plain.{plain}
use arseeding.Store.Numbers.{parse_uint, btoi, itob, btoi-itob}
use arseeding.Store.Offsets.{
  load_tx_data_end_offset, save_tx_data_end_offset, save_all_data_end_offset,
  load_all_data_end_offset, generate_offset_key, is_exist_tx_data_end_offset,
  atomic_sync_data_end_offset, save_chunk,
}
use arseeding.Submit.Chunks.{
  generate_chunks, store_chunk, store_chunks, set_tx_data_chunks, sync_add_tx_data_end_offset,
}
use arseeding.Store.Records.{is_exist_tx_meta, load_tx_meta, save_tx_meta}
use arseeding.Submit.Transactions.{
  save_submit_tx, is_bundle_tx, count_tags, save_data_chunks, save_when_bundle, save_submit_data,
  save_new_tx,
}
use arseeding.Submit.EndToEnd.{IsFresh, save_submit_tx-read}
use arseeding.Submit.Read.{get_ar_tx_data}
use arseeding.Submit.RoundTrip.{IsCut, done, piece}
use arseeding.Submit.ReadBack.{set_tx_data_chunks-read}

abbrev pub root : Text
root = codes "root"

abbrev hello : Transaction
hello = record {
  id = codes "tx";
  data_root = root;
  data_size = codes "5";
  data_text = [];
  tags = [];
  last_tx = [];
  owner = [];
  target = [];
  quantity = [];
  reward = [];
  signature = [];
}

abbrev pub hello_chunk : GetChunk
hello_chunk = record {
  data_root = root;
  data_size = codes "5";
  data_path = [];
  offset = codes "4";
  chunk = codes "hello";
}

abbrev pub empty_db : memory.Db
unfolding memory
empty_db = []

-- the store behind the first call for the transaction
abbrev known_db : memory.Db
known_db = (sync_add_tx_data_end_offset ⦃kv = memory⦄ ⦃g = plain⦄ root (codes "5") empty_db).0

known_end : load_tx_data_end_offset ⦃kv = memory⦄ ⦃g = plain⦄ root (codes "5") known_db ≡ ok 5
unfolding empty_db load_tx_data_end_offset sync_add_tx_data_end_offset is_exist_tx_data_end_offset
    parse_uint load_all_data_end_offset atomic_sync_data_end_offset save_all_data_end_offset
    save_tx_data_end_offset generate_offset_key memory plain itob btoi text_eq
known_end = refl

hello_made : generate_chunks ⦃kv = memory⦄ ⦃g = plain⦄ hello (codes "hello") ≡ ok (hello_chunk ∷ [])
unfolding generate_chunks plain
hello_made = refl

hello-IsCut : IsCut ⦃g = plain⦄ root (codes "5") 0 (hello_chunk ∷ []) (codes "hello")
unfolding plain parse_uint
hello-IsCut =
    piece hello_chunk (codes "hello")
      (record {
        decodes = refl;
        of_root = refl;
        of_size = refl;
        long = omega arith;
        ends_at = refl;
      })
      done

hello_stored :
    (set_tx_data_chunks ⦃kv = memory⦄ ⦃g = plain⦄ hello (codes "hello") known_db).1 ≡ ok tt
unfolding empty_db load_tx_data_end_offset sync_add_tx_data_end_offset is_exist_tx_data_end_offset
    parse_uint load_all_data_end_offset atomic_sync_data_end_offset save_all_data_end_offset
    save_tx_data_end_offset generate_offset_key memory plain itob btoi text_eq set_tx_data_chunks
    store_chunk store_chunks generate_chunks save_chunk
hello_stored = refl

five : parse_uint (codes "5") ≡ ok 5
unfolding parse_uint
five = refl

set_tx_data_chunks-read_example :
    get_ar_tx_data ⦃kv = memory⦄ ⦃g = plain⦄ 6 root
      (codes "5")
      (set_tx_data_chunks ⦃kv = memory⦄ ⦃g = plain⦄ hello (codes "hello") known_db).0
    ≡ some (ok (codes "hello"))
set_tx_data_chunks-read_example =
    set_tx_data_chunks-read ⦃kv = memory⦄ ⦃g = plain⦄ hello (codes "hello") (hello_chunk ∷ []) 5 6
      known_db (omega arith) (omega arith) five known_end (omega arith) (omega arith) hello_made
      hello-IsCut hello_stored

-- the same transaction with its data
abbrev pub hello_tx : Transaction
hello_tx = record hello { data_text = codes "hello" }

pub hello-IsFresh :
    IsFresh ⦃kv = memory⦄ ⦃g = plain⦄ 0 hello_tx (codes "hello") (hello_chunk ∷ []) empty_db
unfolding empty_db memory plain parse_uint generate_chunks load_tx_data_end_offset
    load_all_data_end_offset is_exist_tx_meta load_tx_meta
hello-IsFresh = record {
  verified = refl;
  no_meta = refl;
  no_end = refl;
  has_text = λ e. cc;
  decodes = refl;
  sized = refl;
  some_data = omega arith;
  made = refl;
  cut = hello-IsCut;
  allocated = record { fits = omega arith; loads = refl; bounded = λ r s e h. absurd cc };
  room = omega arith;
}

pub hello_submitted : (save_submit_tx ⦃kv = memory⦄ ⦃g = plain⦄ hello_tx empty_db).1 ≡ ok tt
unfolding empty_db load_tx_data_end_offset sync_add_tx_data_end_offset save_submit_tx
    is_exist_tx_data_end_offset parse_uint load_all_data_end_offset atomic_sync_data_end_offset
    save_all_data_end_offset save_tx_data_end_offset generate_offset_key memory plain itob btoi
    text_eq set_tx_data_chunks store_chunk store_chunks generate_chunks save_chunk is_exist_tx_meta
    load_tx_meta save_new_tx save_tx_meta save_submit_data save_data_chunks save_when_bundle
    is_bundle_tx count_tags
hello_submitted = refl

save_submit_tx-read_example :
    get_ar_tx_data ⦃kv = memory⦄ ⦃g = plain⦄ 6 root
      (codes "5")
      (save_submit_tx ⦃kv = memory⦄ ⦃g = plain⦄ hello_tx empty_db).0
    ≡ some (ok (codes "hello"))
save_submit_tx-read_example =
    save_submit_tx-read ⦃kv = memory⦄ ⦃g = plain⦄ 0 6 hello_tx (codes "hello") (hello_chunk ∷ [])
      empty_db hello-IsFresh (omega arith) hello_submitted
