-- ===== src/Goar/Types.antt =====
-- The goar types, and the interface of the functions that the code calls.
use arseeding.Prelude.{ℕ, Text, Bytes, Bool, ◌≡◌, List, []}
use arseeding.Prelude.Int.{ℤ}
use arseeding.Effect.{Result, ok}

-- `types.Tag`
pub record Tag : Type 0 where
  pub name : Text
  pub value : Text

-- `types.Transaction`, the fields that the code reads
pub record Transaction : Type 0 where
  pub id : Text
  pub last_tx : Text
  pub owner : Text
  pub target : Text
  pub quantity : Text
  pub reward : Text
  pub signature : Text
  pub data_root : Text
  pub data_size : Text
  pub data_text : Text  -- `Data`, in base64
  pub tags : List Tag

-- `types.GetChunk`
pub record GetChunk : Type 0 where
  pub data_root : Text
  pub data_size : Text
  pub data_path : Text
  pub offset : Text
  pub chunk : Text  -- in base64

-- schema/task.go: the record of one background task
pub record Task : Type 0 where
  pub ar_id : Text
  pub task_type : Text
  pub count_successed : ℕ
  pub count_failed : ℕ
  pub total_peer : ℕ
  pub timestamp : ℕ
  pub close : Bool

pub record Goar : Type 0 where
  -- `utils.Base64Encode`, `utils.Base64Decode`
  pub base64_encode : Bytes → Text
  pub base64_decode : Text → Result Bytes
  pub decode-encode : (b : Bytes) → base64_decode (base64_encode b) ≡ ok b
  pub encode-nil : (b : Bytes) → base64_encode b ≡ [] → b ≡ []
  -- `sha256.Sum256`
  pub sum256 : Bytes → Bytes
  -- `json.Marshal` and `json.Unmarshal` at the types that are stored
  pub marshal_tx : Transaction → Bytes
  pub unmarshal_tx : Bytes → Result Transaction
  pub unmarshal-marshal_tx : (t : Transaction) → unmarshal_tx (marshal_tx t) ≡ ok t
  pub marshal_chunk : GetChunk → Bytes
  pub unmarshal_chunk : Bytes → Result GetChunk
  pub unmarshal-marshal_chunk : (c : GetChunk) → unmarshal_chunk (marshal_chunk c) ≡ ok c
  pub marshal_task : Task → Bytes
  pub unmarshal_task : Bytes → Result Task
  pub unmarshal-marshal_task : (t : Task) → unmarshal_task (marshal_task t) ≡ ok t
  -- `utils.VerifyTransaction`, `utils.ValidatePath`
  pub verify_transaction : Transaction → Result (Unit {0})
  pub validate_path : Bytes → ℤ → ℤ → ℤ → Bytes → Bool
  -- `utils.TagsDecode`, with the tags that it returns beside an error
  pub tags_decode : List Tag → List Tag × Result (Unit {0})
  -- the number of chunks that `utils.PrepareChunks` cuts, and `utils.GetChunk` at an index
  pub chunk_count : Transaction → Bytes → ℕ
  pub get_chunk : Transaction → ℕ → Bytes → Result GetChunk
