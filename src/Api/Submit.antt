-- ===== src/Api/Submit.antt =====
-- api.go: an item is uploaded, paid for and submitted (`submitItem`, `setItemData`, `isSortItems`).
use arseeding.Prelude.{
  ℕ, ◌*◌, Text, Bytes, codes, text_eq, Bool, true, false, not, ◌||◌, ltb, length, Option, none,
  some, [], ◌∷◌, if◌then◌else◌,
}
use arseeding.Prelude.Int.{pos}
use arseeding.Prelude.Maps.{Dict}
use arseeding.Effect.{
  Error, Result, ok, err, other, data_too_big, bind_result, Eff, pure, throw, ◌>>=◌, ◌>>◌,
}
use arseeding.Rawdb.Interface.{KeyValueDb}
use arseeding.Fees.Types.{Decimals, Fee}
use arseeding.Bundle.Types.{BundleItem, BundleUtils, ManifestTable}
use arseeding.Orders.Types.{Order, SqlDb, BigInts}
use arseeding.Orders.ApiKeys.{process_apikey_spend_bal}
use arseeding.Orders.Chain.{Bundler}
use arseeding.Orders.Expiry.{Site}
use arseeding.Orders.Submit.{Signers, Submission, Reading, at_wdb, process_submit_item}
use arseeding.Api.Replies.{Reply, or_error_response, RespOrder, resp_order_of}

-- schema/api.go
abbrev pub allow_stream_min_item_size : ℕ
allow_stream_min_item_size = 5 * 1024 * 1024

abbrev pub submit_max_size : ℕ
submit_max_size = 1024 * 1024 * 1024

-- the body of a request: its bytes, and how `io.CopyN`, `io.Copy` and `Seek` end; the end of the body is
-- no error
pub record Upload : Type 0 where
  pub bytes : Bytes
  pub copy_n : Result (Unit {0})
  pub copy : Result (Unit {0})
  pub seek : Result (Unit {0})

-- the size; a body above 5 MB goes to the file
unfoldable pub set_item_data : Upload → Result ℕ
set_item_data up =
    let size = length up.bytes in
    let to_file = bind_result up.copy (λ u. bind_result up.seek (λ v. ok size)) in
    bind_result up.copy_n (λ u. if ltb allow_stream_min_item_size size then to_file else ok size)

-- the headers "Sort" and "sort"
unfoldable pub is_sort_items : Text → Text → Bool
is_sort_items upper lower = text_eq upper (codes "true") || text_eq lower (codes "true")

pub record ItemRequest : Type 0 where
  pub header_type : Text  -- "Content-Type"
  pub api_key : Text  -- "X-API-KEY"
  pub sort_upper : Text
  pub sort_lower : Text
  pub currency : Text
  pub body : Option Upload
  pub create_temp : Result (Unit {0})

-- the settings of the node, and what it reads on a submission
pub record Settings : Type 0 where
  pub no_fee : Bool
  pub bundler : Text
  pub reading : Reading

abbrev pub refuse_when : Bool → Error → Result (Unit {0})
refuse_when true e = err e
refuse_when false e = ok tt

-- what the checks leave of a body: its bytes and their number
abbrev pub checked_size : Upload → Result (Bytes × ℕ)
checked_size up = bind_result (set_item_data up) λ size.
    bind_result (refuse_when (ltb submit_max_size size) data_too_big) λ v. ok (up.bytes, size)

unfoldable pub uploaded : Text → Option Upload → Result (Unit {0}) → Result (Bytes × ℕ)
uploaded null_body none create_temp = err (other null_body)
uploaded null_body (some up) create_temp = bind_result create_temp λ u. checked_size up

abbrev pub decode_failed : Result BundleItem → Result BundleItem
decode_failed (ok item) = ok item
decode_failed (err e) = err (other (codes "decode item binary failed"))

abbrev pub reply_with :
    ⦃sql : SqlDb⦄ ⦃kv : KeyValueDb⦄ ⦃m : ManifestTable⦄ {A : Type 0}
    → (Order → A)
    → Site × Result Order
    → Site × Reply A
reply_with f (s, r) = (s, or_error_response (bind_result r (λ ord. ok (f ord))))

module _ ⦃dec : Decimals⦄ ⦃big : BigInts⦄ ⦃k : Signers⦄ ⦃sql : SqlDb⦄ ⦃kv : KeyValueDb⦄
    ⦃m : ManifestTable⦄ ⦃u : BundleUtils⦄ ⦃b : Bundler⦄ (per_fees : Dict Fee)
    (node : Settings) where
  unfoldable pub decode_item : Bytes → ℕ → Result BundleItem
  decode_item bytes size = decode_failed (
      if ltb allow_stream_min_item_size size
      then b.decode_bundle_item_stream bytes
      else u.decode_bundle_item bytes)

  unfoldable pub item_of : ItemRequest → Result (BundleItem × ℕ)
  item_of req =
      bind_result
        (refuse_when (not (text_eq req.header_type (codes "application/octet-stream")))
          (other (codes "Wrong body type")))
        λ v.
          bind_result (uploaded (codes "can not submit null bundle item") req.body req.create_temp)
            λ up. bind_result (decode_item up.0 up.1) λ item. ok (item, up.1)

  -- whether the fee was taken from an API key
  unfoldable pub charge : Text → Text → ℕ → Eff Site Bool
  charge currency [] size = pure false
  charge currency (c ∷ apikey) size =
      at_wdb (process_apikey_spend_bal per_fees currency (c ∷ apikey) (pos size)) >> pure true

  abbrev pub submission : ItemRequest → ℕ → Bool → Submission
  submission req size has_apikey = record {
    currency = req.currency;
    is_no_fee_mode = node.no_fee || has_apikey;
    api_key = req.api_key;
    is_sort = is_sort_items req.sort_upper req.sort_lower;
    size = size;
  }

  unfoldable pub charge_and_submit : ItemRequest → BundleItem → ℕ → Eff Site Order
  charge_and_submit req item size = do
    has_apikey ← charge req.currency req.api_key size
    process_submit_item per_fees (submission req size has_apikey) node.reading item

  abbrev pub submit_decoded : ItemRequest → Result (BundleItem × ℕ) → Eff Site Order
  submit_decoded req (ok (item, size)) = charge_and_submit req item size
  submit_decoded req (err e) = throw e

  unfoldable pub submit_item : ItemRequest → Site → Site × Reply RespOrder
  submit_item req s = reply_with (resp_order_of node.bundler) (submit_decoded req (item_of req) s)
