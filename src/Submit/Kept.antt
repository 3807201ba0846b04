-- ===== src/Submit/Kept.antt =====
-- What a write to another bucket leaves as it is of the offsets, and of the data that `getArTxData`
-- (api.go) reads.
use arseeding.Prelude.{
  ℕ, zero, suc, ◌+◌, ◌==◌, Text, Bytes, ◌≡◌, refl, sym, ◌∙◌, false, [], ◌++◌, length, inl, inr,
}
use arseeding.Effect.{ok, Result-cases}
use arseeding.Rawdb.Interface.{
  Bucket, bucket_number, KeyValueDb, constants_bucket, tx_data_end_offset_bucket, chunk_bucket,
}
use arseeding.Store.Numbers.{add64, sub64, parse_uint}
use arseeding.Store.Offsets.{
  generate_offset_key, load_all_data_end_offset, load_tx_data_end_offset, load_chunk,
}
use arseeding.Submit.Read.{chunk_bytes, read_chunks, get_ar_tx_data}
use arseeding.Submit.Alloc.{IsAllocated}
use arseeding.Goar.Types.{Goar}

module _ ⦃kv : KeyValueDb⦄ ⦃g : Goar⦄ where
  -- a write to another bucket
  module _ (b : Bucket) (k : Text) (v : Bytes) (db : kv.Db)
      (saved : (kv.put b k v db).1 ≡ ok tt) where
    abbrev put_db : kv.Db
    put_db = (kv.put b k v db).0

    pub load_tx-put :
        (bucket_number b == 1) ≡ false
        → (r s : Text) → load_tx_data_end_offset r s put_db ≡ load_tx_data_end_offset r s db
    unfolding load_tx_data_end_offset
    load_tx-put other r s =
        rw (kv.get-put b k v db tx_data_end_offset_bucket (generate_offset_key r s) saved, other)
          refl

    pub IsAllocated-put :
        (all : ℕ)
        → (bucket_number b == 1) ≡ false
        → (bucket_number b == 3) ≡ false
        → IsAllocated all db
        → IsAllocated all put_db
    unfolding load_all_data_end_offset
    IsAllocated-put all other other3 a = record {
      fits = a.fits;
      loads = rw (kv.get-put b k v db constants_bucket _ saved, other3) a.loads;
      bounded = λ r s e h. a.bounded r s e (sym (load_tx-put other r s) ∙ h);
    }

    pub chunk_bytes-put :
        (bucket_number b == 0) ≡ false → (j : ℕ) → chunk_bytes j put_db ≡ chunk_bytes j db
    unfolding chunk_bytes load_chunk
    chunk_bytes-put other j = rw (kv.get-put b k v db chunk_bucket _ saved, other) refl

  read_chunks-same :
      (fuel start end i : ℕ) (acc : Bytes) (db db' : kv.Db)
      → ((j : ℕ) → chunk_bytes j db' ≡ chunk_bytes j db)
      → read_chunks fuel start end i acc db' ≡ read_chunks fuel start end i acc db
  unfolding read_chunks
  read_chunks-same zero start end i acc db db' same = refl
  read_chunks-same (suc fuel) start end i acc db db' same =
      elim (Result-cases (chunk_bytes (add64 start i) db)) [
        | inl (d, loaded) ↦
            rw
              (
                same (add64 start i),
                loaded,
                read_chunks-same fuel start end (i + length d) (acc ++ d) db db' same,
              )
              refl
        | inr (e, failed) ↦ rw (same (add64 start i), failed) refl
      ]

  pub get_ar_tx_data-same :
      (fuel : ℕ) (root size : Text) (db db' : kv.Db)
      → ((j : ℕ) → chunk_bytes j db' ≡ chunk_bytes j db)
      → load_tx_data_end_offset root size db' ≡ load_tx_data_end_offset root size db
      → get_ar_tx_data fuel root size db' ≡ get_ar_tx_data fuel root size db
  unfolding get_ar_tx_data
  get_ar_tx_data-same fuel root size db db' same end = elim (Result-cases (parse_uint size)) [
    | inl (n, sized) ↦ elim (Result-cases (load_tx_data_end_offset root size db)) [
      | inl (e, loaded) ↦
          rw (sized, end, loaded, read_chunks-same fuel (add64 (sub64 e n) 1) e 0 [] db db' same)
            refl
      | inr (e, failed) ↦ rw (sized, end, failed) refl
    ]
    | inr (e, failed) ↦ rw failed refl
  ]
