-- ===== src/Submit/ReadBack.antt =====
-- `getArTxData` (api.go) on what `setTxDataChunks` (submit.go) has stored, and where it ends.
use arseeding.Prelude.{
  ℕ, ◌+◌, ◌-◌, ◌≤◌, ◌<◌, Text, Bytes, ◌≡◌, ◌∙◌, false, some, List, [], ◌∷◌, length, arith, le→ltb,
  ◌==◌,
}
use arseeding.Effect.{ok}
use arseeding.Rawdb.Interface.{KeyValueDb}
use arseeding.Goar.Types.{Goar, Transaction, GetChunk}
use arseeding.Store.Numbers.{add64, sub64, u64_mod, parse_uint}
use arseeding.Store.Offsets.{load_tx_data_end_offset}
use arseeding.Submit.Chunks.{store_chunks, generate_chunks, set_tx_data_chunks}
use arseeding.Submit.Read.{read_chunks, get_ar_tx_data}
use arseeding.Submit.RoundTrip.{IsCut, store_chunks-IsStored, read_chunks-end}

module _ ⦃kv : KeyValueDb⦄ ⦃g : Goar⦄ where
  -- `get_ar_tx_data` at a size and an end offset that are known
  pub get_ar_tx_data-eq :
      (fuel : ℕ) (root size : Text) (n end : ℕ) (db : kv.Db)
      → parse_uint size ≡ ok n
      → 0 < n
      → n ≤ end
      → end + 1 < u64_mod
      → load_tx_data_end_offset root size db ≡ ok end
      → get_ar_tx_data fuel root size db ≡ read_chunks fuel (end - n + 1) end 0 [] db
  unfolding get_ar_tx_data
  get_ar_tx_data-eq fuel root size n end db sized some_data le fits loaded =
      let start : add64 (sub64 end n) 1 ≡ end - n + 1 = omega arith in
      let nonzero : (n == 0) ≡ false = ground arith in rw (sized, nonzero, loaded, start)

  set_tx_data_chunks-eq :
      (tx : Transaction) (tx_data : Bytes) (cs : List GetChunk) (db : kv.Db)
      → 0 < length tx_data
      → generate_chunks tx tx_data ≡ ok cs
      → set_tx_data_chunks tx tx_data db ≡ store_chunks tx.data_root cs db
  unfolding set_tx_data_chunks
  set_tx_data_chunks-eq tx [] cs db long cut = absurd (omega arith)
  set_tx_data_chunks-eq tx (b ∷ bs) cs db long cut = simp cut

-- Let a transaction, whose size is the length of its data and not zero, have an end offset in the
-- store that leaves room for its size below it and a free offset above it, and let the
-- chunks that `generate_chunks` makes of its data be a cut of it into pieces of two bytes or more.
-- If `set_tx_data_chunks` reports success, `get_ar_tx_data` then returns exactly that data, within
-- as many rounds as the data has bytes.
pub set_tx_data_chunks-read :
    ⦃kv : KeyValueDb⦄ ⦃g : Goar⦄ (tx : Transaction) (tx_data : Bytes) (cs : List GetChunk)
    (end fuel : ℕ) (db : kv.Db)
    → 0 < length tx_data
    → length tx_data < fuel
    → parse_uint tx.data_size ≡ ok (length tx_data)
    → load_tx_data_end_offset tx.data_root tx.data_size db ≡ ok end
    → length tx_data ≤ end
    → end + 1 < u64_mod
    → generate_chunks tx tx_data ≡ ok cs
    → IsCut tx.data_root tx.data_size 0 cs tx_data
    → (set_tx_data_chunks tx tx_data db).1 ≡ ok tt
    → get_ar_tx_data fuel tx.data_root tx.data_size (set_tx_data_chunks tx tx_data db).0
      ≡ some (ok tx_data)
set_tx_data_chunks-read tx tx_data cs end fuel db some_data enough sized loaded le fits made cut
      stored =
    let e : set_tx_data_chunks tx tx_data db ≡ store_chunks tx.data_root cs db =
      set_tx_data_chunks-eq tx tx_data cs db some_data made in
    let h =
      store_chunks-IsStored tx.data_root tx.data_size (length tx_data) end sized le fits cs db cut
        (omega arith) loaded (rw e at stored) in
    rw e (
      get_ar_tx_data-eq fuel tx.data_root tx.data_size (length tx_data) end
        (store_chunks tx.data_root cs db).0 sized some_data le fits (h.end_kept ∙ loaded)
      ∙ h.read_back fuel [] enough)

-- A transaction of one byte whose end offset is known, at 1 or above, reads back as no data at all,
-- whatever chunk is stored for it: the loop of `get_ar_tx_data` ends before the last offset.
pub get_ar_tx_data_one_byte :
    ⦃kv : KeyValueDb⦄ ⦃g : Goar⦄ (fuel : ℕ) (root size : Text) (end : ℕ) (db : kv.Db)
    → 0 < fuel
    → parse_uint size ≡ ok 1
    → load_tx_data_end_offset root size db ≡ ok end
    → 1 ≤ end
    → end + 1 < u64_mod
    → get_ar_tx_data fuel root size db ≡ some (ok [])
get_ar_tx_data_one_byte fuel root size end db some_fuel sized loaded le fits =
    get_ar_tx_data-eq fuel root size 1 end db sized (omega arith) le fits loaded
    ∙ read_chunks-end fuel (end - 1 + 1) end 0 [] db some_fuel
        (le→ltb (add64 0 (end - 1 + 1)) end (omega arith))
