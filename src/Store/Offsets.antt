-- ===== src/Store/Offsets.antt =====
-- store.go: the end offset of all data, the end offset of each transaction's data, and the chunks.
use arseeding.Prelude.{ℕ, Text, Bytes, codes, Bool, [], ◌∷◌, ◌++◌}
use arseeding.Effect.{Result, ok, err, bind_result, exists_unless, Eff, ◌>>◌, on_error}
use arseeding.Rawdb.Interface.{
  KeyValueDb, constants_bucket, tx_data_end_offset_bucket, chunk_bucket,
}
use arseeding.Goar.Types.{Goar, GetChunk}
use arseeding.Store.Numbers.{itob, btoi}

abbrev pub all_data_end_offset_key : Text
all_data_end_offset_key = codes "allDataEndOffset"

module _ ⦃g : Goar⦄ where
  -- Any error, like a missing record, stands for the offset 0.
  abbrev pub or_zero : Result Bytes → Result ℕ
  or_zero (err e) = ok 0
  or_zero (ok []) = ok 0
  or_zero (ok (c ∷ b)) = btoi (c ∷ b)

module _ ⦃kv : KeyValueDb⦄ ⦃g : Goar⦄ where
  unfoldable pub save_all_data_end_offset : ℕ → Eff kv.Db (Unit {0})
  save_all_data_end_offset all_data_end_offset =
      kv.put constants_bucket all_data_end_offset_key (itob all_data_end_offset)

  unfoldable pub rollback_all_data_end_offset : ℕ → Eff kv.Db (Unit {0})
  rollback_all_data_end_offset pre_data_end_offset =
      kv.put constants_bucket all_data_end_offset_key (itob pre_data_end_offset)

  unfoldable pub load_all_data_end_offset : kv.Db → Result ℕ
  load_all_data_end_offset db = or_zero (kv.get constants_bucket all_data_end_offset_key db)

  unfoldable pub generate_offset_key : Text → Text → Text
  generate_offset_key data_root data_size = g.base64_encode (g.sum256 (data_root ++ data_size))

  unfoldable pub save_tx_data_end_offset : Text → Text → ℕ → Eff kv.Db (Unit {0})
  save_tx_data_end_offset data_root data_size tx_data_end_offset =
      kv.put tx_data_end_offset_bucket (generate_offset_key data_root data_size)
        (itob tx_data_end_offset)

  unfoldable pub load_tx_data_end_offset : Text → Text → kv.Db → Result ℕ
  load_tx_data_end_offset data_root data_size db =
      bind_result (kv.get tx_data_end_offset_bucket (generate_offset_key data_root data_size) db)
        btoi

  unfoldable pub is_exist_tx_data_end_offset : Text → Text → kv.Db → Result Bool
  is_exist_tx_data_end_offset data_root data_size db =
      exists_unless (load_tx_data_end_offset data_root data_size db)

  unfoldable pub atomic_sync_data_end_offset : ℕ → ℕ → Text → Text → Eff kv.Db (Unit {0})
  atomic_sync_data_end_offset pre_end_offset new_end_offset data_root data_size = do
    save_all_data_end_offset new_end_offset
    on_error (save_tx_data_end_offset data_root data_size new_end_offset)
        (rollback_all_data_end_offset pre_end_offset)

  unfoldable pub save_chunk : ℕ → GetChunk → Eff kv.Db (Unit {0})
  save_chunk chunk_start_offset chunk =
      kv.put chunk_bucket (itob chunk_start_offset) (g.marshal_chunk chunk)

  unfoldable pub load_chunk : ℕ → kv.Db → Result GetChunk
  load_chunk chunk_start_offset db =
      bind_result (kv.get chunk_bucket (itob chunk_start_offset) db) g.unmarshal_chunk

  unfoldable pub is_exist_chunk : ℕ → kv.Db → Result Bool
  is_exist_chunk chunk_start_offset db = exists_unless (load_chunk chunk_start_offset db)
