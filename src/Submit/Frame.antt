-- ===== src/Submit/Frame.antt =====
-- submit.go: the buckets that the storage of a transaction's data leaves as they are.
use arseeding.Prelude.{
  ℕ, Text, Bytes, text_eq, ◌≡◌, refl, false, ◌==◌, List, [], ◌∷◌, if◌then◌else◌, inl, inr, codes,
}
use arseeding.Effect.{Result-cases, other, throw, pure, ◌>>◌, reads, on_error, ◌>>=◌}
use arseeding.Rawdb.Interface.{
  KeyValueDb, Bucket, bucket_number, chunk_bucket, constants_bucket, tx_data_end_offset_bucket,
}
use arseeding.Goar.Types.{Goar, Transaction, GetChunk}
use arseeding.Store.Numbers.{parse_uint, add64}
use arseeding.Store.Frame.{
  reads-Untouched, lift-Untouched, Untouched, >>=-Untouched, on_error-Untouched, if-Untouched,
  put-Untouched,
}
use arseeding.Store.Offsets.{
  atomic_sync_data_end_offset, save_all_data_end_offset, rollback_all_data_end_offset,
  save_tx_data_end_offset, save_chunk, is_exist_tx_data_end_offset, load_all_data_end_offset,
  load_tx_data_end_offset,
}
use arseeding.Submit.Chunks.{
  sync_add_tx_data_end_offset, add_tx_data_end_offset, store_chunk, store_chunks,
  set_tx_data_chunks, generate_chunks,
}

-- a bucket of neither offsets nor chunks
abbrev pub OfNoData : Bucket → Type 0
OfNoData b =
    ((bucket_number constants_bucket == bucket_number b) ≡ false)
    × ((bucket_number tx_data_end_offset_bucket == bucket_number b) ≡ false)
    × ((bucket_number chunk_bucket == bucket_number b) ≡ false)

module _ ⦃kv : KeyValueDb⦄ ⦃g : Goar⦄ (b : Bucket) (apart : OfNoData b) where
  atomic_sync-Untouched :
      (pre new : ℕ) (root size : Text)
      → Untouched (λ db. db) b (atomic_sync_data_end_offset pre new root size)
  unfolding atomic_sync_data_end_offset save_all_data_end_offset rollback_all_data_end_offset
      save_tx_data_end_offset
  atomic_sync-Untouched pre new root size =
      >>=-Untouched (λ db. db) b (save_all_data_end_offset new)
        (λ u. on_error (save_tx_data_end_offset root size new) (rollback_all_data_end_offset pre))
        (put-Untouched b constants_bucket _ _ apart.0)
        (λ u.
          on_error-Untouched (λ db. db) b (save_tx_data_end_offset root size new)
            (rollback_all_data_end_offset pre)
            (put-Untouched b tx_data_end_offset_bucket _ _ apart.1)
            (put-Untouched b constants_bucket _ _ apart.0))

  add-Untouched : (root size : Text) → Untouched (λ db. db) b (add_tx_data_end_offset root size)
  unfolding add_tx_data_end_offset
  add-Untouched root size =
      lift-Untouched (λ db. db) b (parse_uint size)
        (λ n. reads load_all_data_end_offset >>= λ pre.
          atomic_sync_data_end_offset pre (add64 pre n) root size)
        (λ n.
          reads-Untouched (λ db. db) b load_all_data_end_offset
            (λ pre. atomic_sync_data_end_offset pre (add64 pre n) root size)
            (λ pre. atomic_sync-Untouched pre (add64 pre n) root size))

  pub sync_add-Untouched :
      (root size : Text) → Untouched (λ db. db) b (sync_add_tx_data_end_offset root size)
  unfolding sync_add_tx_data_end_offset
  sync_add-Untouched root size =
      reads-Untouched (λ db. db) b (is_exist_tx_data_end_offset root size)
        (λ known. if known then pure tt else add_tx_data_end_offset root size)
        (λ known.
          if-Untouched (λ db. db) b known (pure tt) (add_tx_data_end_offset root size)
            (λ k db. refl) (add-Untouched root size))

  store_chunk-Untouched : (c : GetChunk) → Untouched (λ db. db) b (store_chunk c)
  unfolding store_chunk save_chunk
  store_chunk-Untouched c k db =
      elim (Result-cases (load_tx_data_end_offset c.data_root c.data_size db)) [
        | inl (end, h1) ↦ elim (Result-cases (parse_uint c.data_size)) [
          | inl (size, h2) ↦ elim (Result-cases (parse_uint c.offset)) [
            | inl (offset, h3) ↦ elim (Result-cases (g.base64_decode c.chunk)) [
              | inl (bytes, h4) ↦
                  rw (store_chunk, h1, h2, h3, h4) (put-Untouched b chunk_bucket _ _ apart.2 k db)
              | inr (e, h4) ↦ rw (store_chunk, h1, h2, h3, h4) refl
            ]
            | inr (e, h3) ↦ rw (store_chunk, h1, h2, h3) refl
          ]
          | inr (e, h2) ↦ rw (store_chunk, h1, h2) refl
        ]
        | inr (e, h1) ↦ rw (store_chunk, h1) refl
      ]

  store_chunks-Untouched :
      (root : Text) (cs : List GetChunk) → Untouched (λ db. db) b (store_chunks root cs)
  unfolding store_chunks
  store_chunks-Untouched root [] k db = refl
  store_chunks-Untouched root (c ∷ cs) k db =
      if-Untouched (λ db. db) b (text_eq c.data_root root) (store_chunk c >> store_chunks root cs)
        (throw (other (codes "chunk dataRoot not equal tx dataRoot")))
        (>>=-Untouched (λ db. db) b (store_chunk c) (λ u. store_chunks root cs)
          (store_chunk-Untouched c) (λ u. store_chunks-Untouched root cs))
        (λ k db. refl) k db

  pub set_tx_data_chunks-Untouched :
      (tx : Transaction) (bytes : Bytes) → Untouched (λ db. db) b (set_tx_data_chunks tx bytes)
  unfolding set_tx_data_chunks
  set_tx_data_chunks-Untouched tx [] k db = refl
  set_tx_data_chunks-Untouched tx (c ∷ bytes) k db =
      lift-Untouched (λ db. db) b (generate_chunks tx (c ∷ bytes))
        (λ cs. store_chunks tx.data_root cs) (λ cs. store_chunks-Untouched tx.data_root cs) k db
