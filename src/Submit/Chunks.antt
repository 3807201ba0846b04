-- ===== src/Submit/Chunks.antt =====
-- submit.go: `syncAddTxDataEndOffset`, `storeChunk`, `generateChunks`, `setTxDataChunks`,
-- `verifyChunk`, `SaveSubmitChunk`. The locks make each of them one step.
use arseeding.Prelude.{
  ℕ, zero, suc, ◌+◌, Text, Bytes, codes, text_eq, Bool, true, List, [], ◌∷◌, length, if◌then◌else◌,
}
use arseeding.Prelude.Int.{pos}
use arseeding.Effect.{
  Result, ok, err, null_data, other, bind_result, Eff, pure, throw, lift, reads, ◌>>=◌, ◌>>◌,
}
use arseeding.Rawdb.Interface.{KeyValueDb}
use arseeding.Goar.Types.{Goar, Transaction, GetChunk}
use arseeding.Store.Numbers.{add64, sub64, parse_uint, atoi}
use arseeding.Store.Offsets.{
  load_all_data_end_offset, load_tx_data_end_offset, is_exist_tx_data_end_offset,
  atomic_sync_data_end_offset, save_chunk,
}

module _ ⦃kv : KeyValueDb⦄ ⦃g : Goar⦄ where
  -- the part of `syncAddTxDataEndOffset` behind its early return
  unfoldable pub add_tx_data_end_offset : Text → Text → Eff kv.Db (Unit {0})
  add_tx_data_end_offset data_root data_size = do
    tx_size ← lift (parse_uint data_size)
    cur_end_offset ← reads load_all_data_end_offset
    atomic_sync_data_end_offset cur_end_offset (add64 cur_end_offset tx_size) data_root data_size

  unfoldable pub sync_add_tx_data_end_offset : Text → Text → Eff kv.Db (Unit {0})
  unfolding add_tx_data_end_offset
  sync_add_tx_data_end_offset data_root data_size = do
    known ← reads (is_exist_tx_data_end_offset data_root data_size)
    if known then pure tt else add_tx_data_end_offset data_root data_size

  unfoldable pub store_chunk : GetChunk → Eff kv.Db (Unit {0})
  store_chunk chunk = do
    tx_data_end_offset ← reads (load_tx_data_end_offset chunk.data_root chunk.data_size)
    tx_size ← lift (parse_uint chunk.data_size)
    let tx_data_start_offset = add64 (sub64 tx_data_end_offset tx_size) 1
    offset ← lift (parse_uint chunk.offset)
    let chunk_end_offset = add64 tx_data_start_offset offset
    chunk_data ← lift (g.base64_decode chunk.chunk)
    save_chunk (add64 (sub64 chunk_end_offset (length chunk_data)) 1) chunk

  -- the loop of `generateChunks`, `n` rounds from index `i`
  generate_from : Transaction → Bytes → ℕ → ℕ → Result (List GetChunk)
  generate_from tx tx_data i zero = ok []
  generate_from tx tx_data i (suc n) =
      let rest = generate_from tx tx_data (i + 1) n in
      bind_result (g.get_chunk tx i tx_data) (λ chunk. bind_result rest (λ cs. ok (chunk ∷ cs)))

  unfoldable pub generate_chunks : Transaction → Bytes → Result (List GetChunk)
  unfolding generate_from
  generate_chunks tx [] = err null_data
  generate_chunks tx (b ∷ bs) = generate_from tx (b ∷ bs) 0 (g.chunk_count tx (b ∷ bs))

  unfoldable pub store_chunks : Text → List GetChunk → Eff kv.Db (Unit {0})
  store_chunks data_root [] = pure tt
  store_chunks data_root (chunk ∷ chunks) =
      if text_eq chunk.data_root data_root
      then (do store_chunk chunk; store_chunks data_root chunks)
      else throw (other (codes "chunk dataRoot not equal tx dataRoot"))

  unfoldable pub set_tx_data_chunks : Transaction → Bytes → Eff kv.Db (Unit {0})
  set_tx_data_chunks tx [] = throw null_data
  set_tx_data_chunks tx (b ∷ bs) = do
    chunks ← lift (generate_chunks tx (b ∷ bs))
    store_chunks tx.data_root chunks

  -- The path is validated; the bytes of the chunk are not looked at.
  unfoldable pub verify_chunk : GetChunk → Result Bool
  verify_chunk chunk = bind_result (g.base64_decode chunk.data_root) λ data_root.
      bind_result (atoi chunk.offset) λ offset. bind_result (atoi chunk.data_size) λ data_size.
        bind_result (g.base64_decode chunk.data_path)
          λ path. ok (g.validate_path data_root offset (pos 0) data_size path)

  save_verified_chunk : GetChunk → Eff kv.Db (Unit {0})
  save_verified_chunk chunk = do
    known ← reads (is_exist_tx_data_end_offset chunk.data_root chunk.data_size)
    if known then pure tt else sync_add_tx_data_end_offset chunk.data_root chunk.data_size
    store_chunk chunk

  abbrev when_verified : GetChunk → Result Bool → Eff kv.Db (Unit {0})
  unfolding save_verified_chunk
  when_verified chunk (ok true) = save_verified_chunk chunk
  when_verified chunk _ = throw (other (codes "verifyChunk error"))

  unfoldable pub save_submit_chunk : GetChunk → Eff kv.Db (Unit {0})
  unfolding save_verified_chunk
  save_submit_chunk chunk = when_verified chunk (verify_chunk chunk)
