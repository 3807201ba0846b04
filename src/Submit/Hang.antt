-- ===== src/Submit/Hang.antt =====
-- A chunk without data, submitted through `SaveSubmitChunk` (submit.go), against the read loop of
-- `getArTxData` (api.go).
use arseeding.Prelude.{ℕ, ◌+◌, ◌-◌, ◌≤◌, ◌<◌, Bytes, ◌≡◌, ap, ◌∙◌, true, none, [], length, arith}
use arseeding.Effect.{ok}
use arseeding.Rawdb.Interface.{KeyValueDb}
use arseeding.Goar.Types.{Goar, GetChunk}
use arseeding.Store.Numbers.{add64, sub64, u64_mod, parse_uint}
use arseeding.Store.Offsets.{load_tx_data_end_offset, is_exist_tx_data_end_offset, save_chunk}
use arseeding.Store.Laws.{
  load_chunk-save_chunk_self, load_chunk-save_chunk_ne, load_tx_data_end_offset-save_chunk,
}
use arseeding.Submit.Chunks.{store_chunk, verify_chunk, save_submit_chunk}
use arseeding.Submit.Read.{chunk_bytes, get_ar_tx_data}
use arseeding.Submit.ReadBack.{get_ar_tx_data-eq}
use arseeding.Submit.Ending.{read_chunks_hangs}

module _ ⦃kv : KeyValueDb⦄ ⦃g : Goar⦄ where
  -- Of a transaction that the store knows, a verified chunk is stored at once.
  save_submit_chunk-eq :
      (c : GetChunk) (end : ℕ) (db : kv.Db)
      → verify_chunk c ≡ ok true
      → load_tx_data_end_offset c.data_root c.data_size db ≡ ok end
      → save_submit_chunk c db ≡ store_chunk c db
  unfolding save_submit_chunk is_exist_tx_data_end_offset
  save_submit_chunk-eq c end db verified loaded = simp (verified, loaded)

  -- and an empty one behind the offset that it names
  store_chunk_empty :
      (c : GetChunk) (n end k : ℕ) (db : kv.Db)
      → parse_uint c.data_size ≡ ok n
      → load_tx_data_end_offset c.data_root c.data_size db ≡ ok end
      → parse_uint c.offset ≡ ok k
      → g.base64_decode c.chunk ≡ ok []
      → n ≤ end
      → end + 1 < u64_mod
      → k + 2 < n
      → store_chunk c db ≡ save_chunk (end - n + 1 + (k + 1)) c db
  unfolding store_chunk
  store_chunk_empty c n end k db sized loaded at empty le fits inside =
      simp (loaded, sized, at, empty) (ap (λ j. save_chunk j c db) place)
    where
      place : add64 (sub64 (add64 (add64 (sub64 end n) 1) k) 0) 1 ≡ end - n + 1 + (k + 1)
      place = omega arith

  chunk_bytes-save_chunk_self :
      (k : ℕ) (c : GetChunk) (db : kv.Db)
      → (save_chunk k c db).1 ≡ ok tt
      → chunk_bytes k (save_chunk k c db).0 ≡ g.base64_decode c.chunk
  unfolding chunk_bytes
  chunk_bytes-save_chunk_self k c db saved = rw (load_chunk-save_chunk_self k c db saved)

  chunk_bytes-save_chunk_ne :
      (k : ℕ) (c : GetChunk) (db : kv.Db)
      → (save_chunk k c db).1 ≡ ok tt
      → (j : ℕ) → k < u64_mod
      → j < k
      → chunk_bytes j (save_chunk k c db).0 ≡ chunk_bytes j db
  unfolding chunk_bytes
  chunk_bytes-save_chunk_ne k c db saved j hk lt =
      rw (load_chunk-save_chunk_ne k c db saved j hk (omega arith) (λ e. omega arith))

-- Take a transaction of `n` bytes with an end offset in the store and with its first chunk stored,
-- which is shorter than the data by two bytes or more.
-- Let a client submit a chunk that names the last byte of that first chunk as its offset, that
-- passes `verify_chunk` and that holds no data. Once `save_submit_chunk` has reported success, the
-- loop of `get_ar_tx_data` for the transaction runs out of any fuel: it never returns.
pub save_submit_chunk_hangs :
    ⦃kv : KeyValueDb⦄ ⦃g : Goar⦄ (c : GetChunk) (n end k : ℕ) (d : Bytes) (db : kv.Db)
    → verify_chunk c ≡ ok true
    → parse_uint c.data_size ≡ ok n
    → load_tx_data_end_offset c.data_root c.data_size db ≡ ok end
    → parse_uint c.offset ≡ ok k
    → g.base64_decode c.chunk ≡ ok []
    → n ≤ end
    → end + 1 < u64_mod
    → k + 2 < n
    → chunk_bytes (end - n + 1) db ≡ ok d
    → length d ≡ k + 1
    → (save_submit_chunk c db).1 ≡ ok tt
    → (fuel : ℕ) → get_ar_tx_data fuel c.data_root c.data_size (save_submit_chunk c db).0 ≡ none
save_submit_chunk_hangs c n end k d db verified sized loaded at empty le fits inside first long
      stored fuel =
    let p : ℕ = end - n + 1 + (k + 1) in
    let e : save_submit_chunk c db ≡ save_chunk p c db =
      save_submit_chunk-eq c end db verified loaded
      ∙ store_chunk_empty c n end k db sized loaded at empty le fits inside in
    let saved : (save_chunk p c db).1 ≡ ok tt = rw e at stored in
    rw e (
      get_ar_tx_data-eq fuel c.data_root c.data_size n end (save_chunk p c db).0 sized (omega arith)
        le fits (load_tx_data_end_offset-save_chunk p c db saved c.data_root c.data_size ∙ loaded)
      ∙ read_chunks_hangs fuel (end - n + 1) end d (save_chunk p c db).0 (omega arith) (omega arith)
          (chunk_bytes-save_chunk_ne p c db saved (end - n + 1) (omega arith) (omega arith) ∙ first)
          (rw long (chunk_bytes-save_chunk_self p c db saved ∙ empty)))
