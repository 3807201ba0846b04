-- ===== src/Api/Tx.antt =====
-- api.go: the handlers on transactions and chunks (`submitTx`, `submitChunk`, `getTxOffset`, `getChunk`,
-- `getTx`, `getTxField`, `getTxPrice`, `getCacheTasks`).
use arseeding.Prelude.{
  ℕ, Text, Bytes, codes, text_eq, length, Option, none, some, List, [], ◌∷◌, ◌++◌, if◌then◌else◌,
}
use arseeding.Prelude.Int.{ℤ}
use arseeding.Prelude.Maps.{map_option}
use arseeding.Effect.{Result, ok, err, not_exist, other, bind_result, Eff, lift, ◌>>=◌, ◌>>◌}
use arseeding.Rawdb.Interface.{KeyValueDb}
use arseeding.Goar.Types.{Goar, Tag, Transaction, GetChunk, Task}
use arseeding.Store.Numbers.{parse_uint, atoi}
use arseeding.Store.Offsets.{load_tx_data_end_offset, load_chunk}
use arseeding.Store.Records.{load_tx_meta}
use arseeding.Submit.Transactions.{save_submit_tx}
use arseeding.Submit.Chunks.{save_submit_chunk}
use arseeding.Submit.Read.{tx_data_by_meta}
use arseeding.Tasks.Id.{task_type_broadcast_meta}
use arseeding.Tasks.Manager.{TaskMap, get_tasks}
use arseeding.Tasks.Service.{Service, on_db, register_task}
use arseeding.Fees.Types.{ArFee}
use arseeding.Fees.Price.{calculate_price}
use arseeding.Api.Replies.{
  Reply, json, html, content, html_not_found, error_response, proxy_arweave_gateway,
  or_error_response,
}

-- a request without a body, or what `ioutil.ReadAll` returns of it
abbrev pub body_of : Option (Result Bytes) → Result Bytes
body_of none = err (other (codes "chunk data can not be null"))
body_of (some read) = read

abbrev pub answered {ℓ} : {S : Type ℓ} → S × Result (Unit {0}) → S × Reply (Unit {0})
answered (s, r) = (s, or_error_response r)

-- schema of goar: `types.TransactionOffset`
pub record TransactionOffset : Type 0 where
  pub size : Text
  pub offset : ℕ

module _ ⦃kv : KeyValueDb⦄ ⦃g : Goar⦄ where
  abbrev pub save_and_register : Transaction → Eff Service (Unit {0})
  save_and_register ar_tx =
      on_db (save_submit_tx ar_tx) >> register_task ar_tx.id task_type_broadcast_meta

  unfoldable pub submit_tx : Option (Result Bytes) → Service → Service × Reply (Unit {0})
  submit_tx body s =
      answered ((lift (bind_result (body_of body) g.unmarshal_tx) >>= save_and_register) s)

  unfoldable pub submit_chunk : Option (Result Bytes) → kv.Db → kv.Db × Reply (Unit {0})
  submit_chunk body db =
      answered ((lift (bind_result (body_of body) g.unmarshal_chunk) >>= save_submit_chunk) db)

  abbrev pub offset_or_404 : Transaction → Result ℕ → Reply TransactionOffset
  offset_or_404 tx (ok offset) = json (record { size = tx.data_size; offset = offset })
  offset_or_404 tx (err e) = html_not_found

  abbrev pub meta_offset : kv.Db → Result Transaction → Reply TransactionOffset
  meta_offset db (ok tx) = offset_or_404 tx (load_tx_data_end_offset tx.data_root tx.data_size db)
  meta_offset db (err e) = html_not_found

  unfoldable pub get_tx_offset : Text → kv.Db → Reply TransactionOffset
  get_tx_offset [] db = error_response (other (codes "invalid_address"))
  get_tx_offset (c ∷ ar_id) db = meta_offset db (load_tx_meta (c ∷ ar_id) db)

  abbrev pub chunk_or_404 : Result GetChunk → Reply GetChunk
  chunk_or_404 (ok chunk) = json chunk
  chunk_or_404 (err not_exist) = html_not_found
  chunk_or_404 (err e) = error_response e

  abbrev pub chunk_at : kv.Db → Result ℕ → Reply GetChunk
  chunk_at db (ok offset) = chunk_or_404 (load_chunk offset db)
  chunk_at db (err e) = error_response e

  unfoldable pub get_chunk : Text → kv.Db → Reply GetChunk
  get_chunk offset db = chunk_at db (parse_uint offset)

  abbrev pub or_proxy : Result Transaction → Reply Transaction
  or_proxy (ok tx) = json tx
  or_proxy (err e) = proxy_arweave_gateway

  unfoldable pub get_tx : Text → kv.Db → Reply Transaction
  get_tx id db = or_proxy (load_tx_meta id db)

  -- the three ways in which data are answered: in base64 with status 400 at an error, or as they are
  abbrev pub data_in_base64 : Result Bytes → Reply (List Tag)
  data_in_base64 (ok bytes) = html (g.base64_encode bytes)
  data_in_base64 (err e) = error_response e

  abbrev pub data_as : Text → Result Bytes → Reply (List Tag)
  data_as content_type (ok bytes) = content (content_type ++ codes "; charset=utf-8") bytes
  data_as content_type (err e) = error_response e

  -- the fields that are read of the header
  abbrev pub header_field : Text → Transaction → Reply (List Tag)
  header_field field tx =
      if text_eq field (codes "id")
      then html tx.id
      else if text_eq field (codes "last_tx")
      then html tx.last_tx
      else if text_eq field (codes "owner")
      then html tx.owner
      else if text_eq field (codes "tags")
      then json tx.tags
      else if text_eq field (codes "target")
      then html tx.target
      else if text_eq field (codes "quantity")
      then html tx.quantity
      else if text_eq field (codes "data_root")
      then html tx.data_root
      else if text_eq field (codes "data_size")
      then html tx.data_size
      else if text_eq field (codes "reward")
      then html tx.reward
      else if text_eq field (codes "signature")
      then html tx.signature
      else error_response (other (codes "invalid_field"))

  -- the content type for a field of data
  abbrev pub data_type : Text → Option Text
  data_type field =
      if text_eq field (codes "data.json")
      then some (codes "application/json")
      else if text_eq field (codes "data.txt")
      then some (codes "application/txt")
      else if text_eq field (codes "data.pdf")
      then some (codes "application/pdf")
      else if text_eq field (codes "data.png")
      then some (codes "image/png")
      else if text_eq field (codes "data.jpeg")
      then some (codes "image/jpeg")
      else if text_eq field (codes "data.gif")
      then some (codes "image/gif")
      else if text_eq field (codes "data.mp4")
      then some (codes "video/mpeg4")
      else none

  abbrev pub typed_field : ℕ → Text → Transaction → kv.Db → Option Text → Option (Reply (List Tag))
  typed_field fuel field tx db (some content_type) =
      map_option (data_as content_type) (tx_data_by_meta fuel tx db)
  typed_field fuel field tx db none = some (header_field field tx)

  abbrev pub field_of : ℕ → Text → kv.Db → Result Transaction → Option (Reply (List Tag))
  field_of fuel field db (err e) = some proxy_arweave_gateway
  field_of fuel field db (ok tx) =
      let typed = typed_field fuel field tx db (data_type field) in
      let base64 = map_option data_in_base64 (tx_data_by_meta fuel tx db) in
      if text_eq field (codes "data") then base64 else typed

  -- `none` where the read loop does not end within the fuel
  unfoldable pub get_tx_field : ℕ → Text → Text → kv.Db → Option (Reply (List Tag))
  get_tx_field fuel ar_id field db = field_of fuel field db (load_tx_meta ar_id db)

-- What is written for a size: a size that does not parse is answered twice, the second time with the
-- price for the value that `ParseInt` returns beside its error, which is an input.
unfoldable pub get_tx_price : ArFee → Text → ℤ → List (Reply ℤ)
get_tx_price fee size beside = elim (atoi size) [
  | ok data_size ↦ json (calculate_price fee data_size) ∷ []
  | err e ↦ error_response e ∷ json (calculate_price fee beside) ∷ []
]

unfoldable pub get_cache_tasks : TaskMap → ℕ × List Task
get_cache_tasks tasks = (length (get_tasks tasks), get_tasks tasks)
