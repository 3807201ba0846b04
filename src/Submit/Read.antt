-- ===== src/Submit/Read.antt =====
-- api.go: `getArTxData` and `txDataByMeta`, which put the data of a transaction together from its
-- chunks. `none` stands for a loop that has used up its fuel.
use arseeding.Prelude.{
  ℕ, zero, suc, ◌+◌, ◌*◌, ◌==◌, Text, Bytes, Option, none, some, [], ◌++◌, length, ltb,
  if◌then◌else◌,
}
use arseeding.Effect.{Result, ok, err, data_too_big, bind_result}
use arseeding.Rawdb.Interface.{KeyValueDb}
use arseeding.Goar.Types.{Goar, Transaction}
use arseeding.Store.Numbers.{add64, sub64, parse_uint}
use arseeding.Store.Offsets.{load_tx_data_end_offset, load_chunk}

-- schema/api.go
abbrev pub allow_max_resp_data_size : ℕ
allow_max_resp_data_size = 50 * 1024 * 1024

-- `m` where it returned an error, and `k` on its result.
abbrev pub loop_bind {ℓ κ} :
    {A : Type ℓ} {B : Type κ} → Result A → (A → Option (Result B)) → Option (Result B)
loop_bind (ok a) k = k a
loop_bind (err e) k = some (err e)

module _ ⦃kv : KeyValueDb⦄ ⦃g : Goar⦄ where
  -- one chunk, loaded and decoded
  unfoldable pub chunk_bytes : ℕ → kv.Db → Result Bytes
  chunk_bytes offset db = bind_result (load_chunk offset db) (λ chunk. g.base64_decode chunk.chunk)

  -- `for i := 0; uint64(i)+startOffset < txDataEndOffset; { … i += len(chunkData) }`
  unfoldable pub read_chunks : ℕ → ℕ → ℕ → ℕ → Bytes → kv.Db → Option (Result Bytes)
  read_chunks zero start end i acc db = none
  read_chunks (suc fuel) start end i acc db =
      let next =
        loop_bind (chunk_bytes (add64 start i) db)
          (λ d. read_chunks fuel start end (i + length d) (acc ++ d) db) in
      if ltb (add64 i start) end then next else some (ok acc)

  unfoldable pub get_ar_tx_data : ℕ → Text → Text → kv.Db → Option (Result Bytes)
  get_ar_tx_data fuel data_root data_size db = loop_bind (parse_uint data_size) λ size.
      if size == 0
      then some (ok [])
      else loop_bind (load_tx_data_end_offset data_root data_size db)
          λ end. read_chunks fuel (add64 (sub64 end size) 1) end 0 [] db

  unfoldable pub tx_data_by_meta : ℕ → Transaction → kv.Db → Option (Result Bytes)
  tx_data_by_meta fuel tx_meta db = loop_bind (parse_uint tx_meta.data_size) λ size.
      if ltb allow_max_resp_data_size size
      then some (err data_too_big)
      else get_ar_tx_data fuel tx_meta.data_root tx_meta.data_size db
