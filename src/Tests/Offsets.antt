-- ===== src/Tests/Offsets.antt =====
-- The offsets of small transactions, and the read loop on them: submit.go and `getArTxData`.
use arseeding.Prelude.{
  ◌+◌, ◌<◌, Text, Bytes, codes, text_eq, ◌≡◌, refl, List, [], ◌∷◌, length, some, none, true, arith,
  ap,
}
use arseeding.Effect.{Result, ok, err, not_exist}
use arseeding.Rawdb.Memory.{memory}
use arseeding.Goar.Types.{GetChunk}
use arseeding.Goar.Plain.{plain}
use arseeding.Store.Numbers.{u64_mod, parse_uint, btoi, itob, atoi}
use arseeding.Store.Offsets.{
  load_tx_data_end_offset, save_tx_data_end_offset, save_all_data_end_offset,
  load_all_data_end_offset, generate_offset_key, is_exist_tx_data_end_offset,
  atomic_sync_data_end_offset, save_chunk, load_chunk,
}
use arseeding.Submit.Chunks.{
  store_chunk, sync_add_tx_data_end_offset, verify_chunk, save_submit_chunk,
}
use arseeding.Submit.Read.{get_ar_tx_data, chunk_bytes}
use arseeding.Submit.ReadBack.{get_ar_tx_data_one_byte}
use arseeding.Submit.Alloc.{IsAllocated}
use arseeding.Submit.Disjoint.{
  IsDisjoint, sync_all, sync_all-apart, demand, requested_size, KeysTellSizes,
}
use arseeding.Submit.Ending.{HoldsData, get_ar_tx_data_total}
use arseeding.Submit.Hang.{save_submit_chunk_hangs}

abbrev empty_db : memory.Db
unfolding memory
empty_db = []

five : parse_uint (codes "5") ≡ ok 5
unfolding parse_uint
five = refl

-- a transaction whose end offset is known, and no chunk of it
abbrev known : Text → memory.Db
known size = (sync_add_tx_data_end_offset ⦃kv = memory⦄ ⦃g = plain⦄ (codes "r") size empty_db).0

known_one :
    load_tx_data_end_offset ⦃kv = memory⦄ ⦃g = plain⦄ (codes "r") (codes "1") (known (codes "1"))
    ≡ ok 1
unfolding empty_db load_tx_data_end_offset sync_add_tx_data_end_offset is_exist_tx_data_end_offset
    parse_uint load_all_data_end_offset atomic_sync_data_end_offset save_all_data_end_offset
    save_tx_data_end_offset generate_offset_key memory plain itob btoi text_eq
known_one = refl

one : parse_uint (codes "1") ≡ ok 1
unfolding parse_uint
one = refl

get_ar_tx_data_one_byte_example :
    get_ar_tx_data ⦃kv = memory⦄ ⦃g = plain⦄ 1 (codes "r") (codes "1") (known (codes "1"))
    ≡ some (ok [])
get_ar_tx_data_one_byte_example =
    get_ar_tx_data_one_byte ⦃kv = memory⦄ ⦃g = plain⦄ 1 (codes "r") (codes "1") 1
      (known (codes "1")) (omega arith) one known_one (omega arith) (omega arith)

known_five :
    load_tx_data_end_offset ⦃kv = memory⦄ ⦃g = plain⦄ (codes "r") (codes "5") (known (codes "5"))
    ≡ ok 5
unfolding empty_db load_tx_data_end_offset sync_add_tx_data_end_offset is_exist_tx_data_end_offset
    parse_uint load_all_data_end_offset atomic_sync_data_end_offset save_all_data_end_offset
    save_tx_data_end_offset generate_offset_key memory plain itob btoi text_eq
known_five = refl

-- No chunk is there.
no_chunk : HoldsData ⦃kv = memory⦄ ⦃g = plain⦄ 5 (known (codes "5"))
unfolding empty_db load_tx_data_end_offset sync_add_tx_data_end_offset chunk_bytes load_chunk
    is_exist_tx_data_end_offset parse_uint load_all_data_end_offset atomic_sync_data_end_offset
    save_all_data_end_offset save_tx_data_end_offset generate_offset_key memory plain itob btoi
    text_eq
no_chunk k d h = absurd cc

get_ar_tx_data_total_example :
    (r : Result Bytes) × (get_ar_tx_data ⦃kv = memory⦄ ⦃g = plain⦄ 6
        (codes "r")
        (codes "5")
        (known (codes "5"))
      ≡ some r)
get_ar_tx_data_total_example =
    get_ar_tx_data_total ⦃kv = memory⦄ ⦃g = plain⦄ 6 (codes "r") (codes "5") 5 5 (known (codes "5"))
      five known_five (omega arith) no_chunk (omega arith)

empty-IsAllocated : IsAllocated ⦃kv = memory⦄ ⦃g = plain⦄ 0 empty_db
unfolding empty_db memory plain load_all_data_end_offset load_tx_data_end_offset
empty-IsAllocated = record { fits = omega arith; loads = refl; bounded = λ r s e h. absurd cc }

empty_none :
    load_tx_data_end_offset ⦃kv = memory⦄ ⦃g = plain⦄ (codes "r") (codes "5") empty_db
    ≡ err not_exist
unfolding empty_db memory plain load_tx_data_end_offset
empty_none = refl

-- Transactions with a root of one byte, whose keys tell their sizes where nothing is hashed.
abbrev ByteRoot : Text → Text → Type 0
ByteRoot r s = length r ≡ 1

tail_of : Text → Text
tail_of [] = []
tail_of (c ∷ t) = t

keys_tell_sizes : KeysTellSizes ⦃kv = memory⦄ ⦃g = plain⦄ ByteRoot
unfolding generate_offset_key plain tail_of
keys_tell_sizes (a ∷ []) s (b ∷ []) s' p p' e = ap tail_of e
keys_tell_sizes [] s r' s' p p' e = absurd (omega (arith, p))
keys_tell_sizes (a ∷ a' ∷ r) s r' s' p p' e = absurd (omega (arith, p))
keys_tell_sizes r s [] s' p p' e = absurd (omega (arith, p'))
keys_tell_sizes r s (b ∷ b' ∷ r') s' p p' e = absurd (omega (arith, p'))

empty-IsDisjoint : IsDisjoint ⦃kv = memory⦄ ⦃g = plain⦄ ByteRoot empty_db
unfolding empty_db memory plain load_tx_data_end_offset
empty-IsDisjoint = record { apart = λ r s r' s' p p' ne e e' n n' h. absurd cc }

abbrev two_requests : List (Text × Text)
two_requests = (codes "r", codes "5") ∷ (codes "q", codes "5") ∷ []

two_fit : 0 + demand two_requests < u64_mod
unfolding demand requested_size parse_uint
two_fit = omega arith

sync_all-apart_example :
    IsDisjoint ⦃kv = memory⦄ ⦃g = plain⦄ ByteRoot
      (sync_all ⦃kv = memory⦄ ⦃g = plain⦄ two_requests empty_db)
sync_all-apart_example =
    sync_all-apart ⦃kv = memory⦄ ⦃g = plain⦄ ByteRoot two_requests 0 empty_db keys_tell_sizes
      (refl, (refl, tt)) empty-IsAllocated empty-IsDisjoint two_fit

abbrev chunk_of : Text → Bytes → GetChunk
chunk_of offset d = record {
  data_root = codes "r";
  data_size = codes "5";
  data_path = [];
  offset = offset;
  chunk = d;
}

-- the first two of five bytes
abbrev begun_db : memory.Db
begun_db =
    (save_chunk ⦃kv = memory⦄ ⦃g = plain⦄ 1 (chunk_of (codes "1") (codes "he"))
      (known (codes "5"))).0

empty_verified : verify_chunk ⦃kv = memory⦄ ⦃g = plain⦄ (chunk_of (codes "1") []) ≡ ok true
unfolding verify_chunk plain atoi
empty_verified = refl

begun_end :
    load_tx_data_end_offset ⦃kv = memory⦄ ⦃g = plain⦄ (codes "r") (codes "5") begun_db ≡ ok 5
unfolding empty_db load_tx_data_end_offset sync_add_tx_data_end_offset save_chunk
    is_exist_tx_data_end_offset parse_uint load_all_data_end_offset atomic_sync_data_end_offset
    save_all_data_end_offset save_tx_data_end_offset generate_offset_key memory plain itob btoi
    text_eq
begun_end = refl

begun_chunk : chunk_bytes ⦃kv = memory⦄ ⦃g = plain⦄ 1 begun_db ≡ ok (codes "he")
unfolding empty_db load_tx_data_end_offset sync_add_tx_data_end_offset save_chunk chunk_bytes
    load_chunk is_exist_tx_data_end_offset parse_uint load_all_data_end_offset
    atomic_sync_data_end_offset save_all_data_end_offset save_tx_data_end_offset generate_offset_key
    memory plain itob btoi text_eq
begun_chunk = refl

empty_submitted :
    (save_submit_chunk ⦃kv = memory⦄ ⦃g = plain⦄ (chunk_of (codes "1") []) begun_db).1 ≡ ok tt
unfolding empty_db load_tx_data_end_offset sync_add_tx_data_end_offset save_chunk save_submit_chunk
    verify_chunk atoi store_chunk is_exist_tx_data_end_offset parse_uint load_all_data_end_offset
    atomic_sync_data_end_offset save_all_data_end_offset save_tx_data_end_offset generate_offset_key
    memory plain itob btoi text_eq
empty_submitted = refl

empty_decoded : plain.base64_decode [] ≡ ok []
unfolding plain
empty_decoded = refl

save_submit_chunk_hangs_example :
    get_ar_tx_data ⦃kv = memory⦄ ⦃g = plain⦄ 1000
      (codes "r")
      (codes "5")
      (save_submit_chunk ⦃kv = memory⦄ ⦃g = plain⦄ (chunk_of (codes "1") []) begun_db).0
    ≡ none
save_submit_chunk_hangs_example =
    save_submit_chunk_hangs ⦃kv = memory⦄ ⦃g = plain⦄ (chunk_of (codes "1") []) 5 5 1 (codes "he")
      begun_db empty_verified five begun_end one empty_decoded (omega arith) (omega arith)
      (omega arith) begun_chunk refl empty_submitted 1000
