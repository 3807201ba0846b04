-- ===== src/Submit/Ending.antt =====
-- When the loop of `getArTxData` (api.go) ends: it does where every stored chunk holds data, and
-- does not where a chunk without data was submitted (`SaveSubmitChunk`, submit.go).
use arseeding.Prelude.{
  ℕ, zero, suc, ◌+◌, ◌<◌, Text, Bytes, ◌≡◌, refl, ◌∙◌, inl, inr, true, false, none, some, [], ◌++◌,
  length, arith, ltb, lt→ltb, ltb→lt, Bool-cases, ◌==◌,
}
use arseeding.Effect.{Result, ok, err, Result-cases}
use arseeding.Rawdb.Interface.{KeyValueDb}
use arseeding.Goar.Types.{Goar}
use arseeding.Store.Numbers.{add64, sub64, u64_mod, parse_uint, parse_uint-lt}
use arseeding.Store.Offsets.{load_tx_data_end_offset}
use arseeding.Submit.Read.{chunk_bytes, read_chunks, get_ar_tx_data}
use arseeding.Submit.RoundTrip.{read_chunks-step}

module _ ⦃kv : KeyValueDb⦄ ⦃g : Goar⦄ where
  -- Every chunk that can be loaded and decoded has data in it, and no offset behind it wraps.
  abbrev pub HoldsData : ℕ → kv.Db → Type 0
  HoldsData end db =
      (k : ℕ) (d : Bytes) → chunk_bytes k db ≡ ok d → (0 < length d) × (end + length d < u64_mod)

  read_chunks_total :
      (fuel start end i : ℕ) (acc : Bytes) (db : kv.Db)
      → HoldsData end db
      → i + start < u64_mod
      → end < fuel + i + start
      → 0 < fuel
      → (r : Result Bytes) × (read_chunks fuel start end i acc db ≡ some r)
  unfolding read_chunks
  read_chunks_total zero start end i acc db h fits lt pos = absurd (omega arith)
  read_chunks_total (suc fuel) start end i acc db h fits lt pos =
      let here : add64 i start ≡ i + start = omega arith in
      elim (Bool-cases (ltb (i + start) end)) [
        | inl more ↦ elim (Result-cases (chunk_bytes (add64 start i) db)) [
          | inl (d, loaded) ↦
              rw (here, more, loaded)
                (read_chunks_total fuel start end (i + length d) (acc ++ d) db h
                  (omega (arith, h (add64 start i) d loaded, ltb→lt (i + start) end more))
                  (omega (arith, h (add64 start i) d loaded))
                  (omega (arith, ltb→lt (i + start) end more)))
          | inr (e, failed) ↦ (err e, rw (here, more, failed))
        ]
        | inr over ↦ (ok acc, rw (here, over))
      ]

  -- at an offset where an empty chunk lies, no round moves on
  read_chunks_stuck :
      (fuel start end i : ℕ) (acc : Bytes) (db : kv.Db)
      → i + start < end
      → end < u64_mod
      → chunk_bytes (start + i) db ≡ ok []
      → read_chunks fuel start end i acc db ≡ none
  unfolding read_chunks
  read_chunks_stuck zero start end i acc db lt fits empty = refl
  read_chunks_stuck (suc fuel) start end i acc db lt fits empty =
      let place : add64 start i ≡ start + i = omega arith in
      let more : ltb (add64 i start) end ≡ true = lt→ltb (add64 i start) end (omega arith) in
      let still : i + 0 ≡ i = omega arith in
      rw (more, place, empty, still)
        (read_chunks_stuck fuel start end i (acc ++ []) db lt fits empty)

  -- the first chunk, and an empty one behind it
  pub read_chunks_hangs :
      (fuel start end : ℕ) (d : Bytes) (db : kv.Db)
      → length d + start < end
      → end < u64_mod
      → chunk_bytes start db ≡ ok d
      → chunk_bytes (start + length d) db ≡ ok []
      → read_chunks fuel start end 0 [] db ≡ none
  read_chunks_hangs zero start end d db lt fits first empty = unfold read_chunks in refl
  read_chunks_hangs (suc fuel) start end d db lt fits first empty =
      let place : add64 start 0 ≡ start = omega arith in
      let next : 0 + length d ≡ length d = omega arith in
      read_chunks-step fuel start end 0 [] d db (lt→ltb (add64 0 start) end (omega arith))
        (rw place first)
      ∙ rw next (read_chunks_stuck fuel start end (length d) d db lt fits empty)

  get_ar_tx_data_by :
      (fuel : ℕ) (root size : Text) (n end : ℕ) (db : kv.Db)
      → parse_uint size ≡ ok n
      → load_tx_data_end_offset root size db ≡ ok end
      → n < u64_mod
      → end < u64_mod
      → HoldsData end db
      → n < fuel
      → (r : Result Bytes) × (get_ar_tx_data fuel root size db ≡ some r)
  unfolding get_ar_tx_data
  get_ar_tx_data_by fuel root size zero end db sized loaded small fits h lt = (ok [], rw sized)
  get_ar_tx_data_by fuel root size (suc n) end db sized loaded small fits h lt =
      let some_bytes : (suc n == 0) ≡ false = ground arith in
      rw (sized, some_bytes, loaded)
        (read_chunks_total fuel (add64 (sub64 end (suc n)) 1) end 0 [] db h (omega arith)
          (omega arith) (omega arith))

-- `get_ar_tx_data` returns, within as many rounds as the size of the transaction says, from any
-- store where every chunk that can be loaded and decoded has data in it and ends below the end of
-- the 64-bit offsets; also where its result is an error.
pub get_ar_tx_data_total :
    ⦃kv : KeyValueDb⦄ ⦃g : Goar⦄ (fuel : ℕ) (root size : Text) (n end : ℕ) (db : kv.Db)
    → parse_uint size ≡ ok n
    → load_tx_data_end_offset root size db ≡ ok end
    → end < u64_mod
    → HoldsData end db
    → n < fuel
    → (r : Result Bytes) × (get_ar_tx_data fuel root size db ≡ some r)
get_ar_tx_data_total fuel root size n end db sized loaded =
    get_ar_tx_data_by fuel root size n end db sized loaded (parse_uint-lt size n sized)
