-- ===== src/Api/Keys.antt =====
-- api.go: the handlers on API keys and their deposits (`getApiKey`, `getApiKeyInfo`,
-- `getApikeyDepositRecords`).
use arseeding.Prelude.{
  ℕ, Text, codes, Bool, false, ltb, Option, none, some, List, [], ◌∷◌, if◌then◌else◌,
}
use arseeding.Prelude.Int.{ℤ, pos, negsuc, wrap64}
use arseeding.Prelude.Maps.{Dict, insert}
use arseeding.Effect.{Result, ok, err, other, bind_result}
use arseeding.Store.Numbers.{atoi}
use arseeding.Fees.Types.{Decimals, Fee}
use arseeding.Fees.Price.{get_per_fee, max_chunk_size}
use arseeding.Orders.Types.{AutoApiKey, ReceiptEverTx, SqlDb}
use arseeding.Orders.Wdb.{get_api_key_detail_by_address}
use arseeding.Orders.Lists.{QueryLimit, get_api_key_deposit_records}
use arseeding.Orders.Submit.{Signers}
use arseeding.Api.Range.{minus}
use arseeding.Api.Replies.{Reply, json, internal_error_response, or_internal_error}
use arseeding.Api.Orders.{or_default, with_arg}

-- schema/api.go: `RespReceiptEverTx`, `TokBal` and `RespApiKey`
pub record RespReceiptEverTx : Type 0 where
  pub raw_id : ℕ
  pub ever_hash : Text
  pub timestamp : ℕ
  pub symbol : Text
  pub amount : Text
  pub decimals : ℕ

pub record TokBal : Type 0 where
  pub symbol : Text
  pub decimals : ℕ
  pub balance : Text

pub record RespApiKey : Type 0 where
  pub estimate_cap : Text
  pub tokens : Dict TokBal

-- the address that `goether.Ecrecover` finds for a text and its signature
pub record Recover : Type 0 where
  pub ecrecover : Text → Text → Result Text

abbrev pub key_of : Result AutoApiKey → Reply Text
key_of (ok detail) = json detail.api_key
key_of (err e) = internal_error_response e

abbrev pub is_more_than : ℕ → ℤ → Bool
is_more_than n (pos a) = ltb n a
is_more_than n (negsuc a) = false

-- A signature is good for 60 seconds after its time, and for any time before it.
unfoldable pub get_api_key : ⦃sql : SqlDb⦄ ⦃rec : Recover⦄ → ℕ → Text → Text → sql.Db → Reply Text
get_api_key ⦃rec = rec⦄ now timestamp signature db = elim (atoi timestamp) [
  | err e ↦ internal_error_response (other (codes "timestamp incorrect"))
  | ok timestamp_num ↦
      let key = key_of (
        bind_result (rec.ecrecover timestamp signature)
          (λ addr. get_api_key_detail_by_address addr db)) in
      if is_more_than 60 (wrap64 (minus (pos now) timestamp_num))
      then internal_error_response (other (codes "timestamp expired"))
      else key
]

module _ ⦃dec : Decimals⦄ (to_upper : Text → Text) (per_fees : Dict Fee) where
  -- deposits in a currency without a fee are left out
  unfoldable pub resp_records : List ReceiptEverTx → List RespReceiptEverTx
  resp_records [] = []
  resp_records (tx ∷ txs) =
      let rest = resp_records txs in
      elim (get_per_fee to_upper per_fees tx.symbol) [
        | none ↦ rest
        | some per_fee ↦
            record {
              raw_id = tx.raw_id;
              ever_hash = tx.ever_hash;
              timestamp = tx.nonce;
              symbol = tx.symbol;
              amount = tx.amount;
              decimals = per_fee.decimals;
            }
            ∷ rest
      ]

  module _ ⦃sql : SqlDb⦄ ⦃lim : QueryLimit⦄ ⦃k : Signers⦄ where
    abbrev pub records_or_error : Result (List ReceiptEverTx) → Reply (List RespReceiptEverTx)
    records_or_error (ok txs) = json (resp_records txs)
    records_or_error (err e) = internal_error_response e

    abbrev pub deposits_of :
        (Text → Bool)
        → Result Text
        → Option Text
        → Option Text
        → sql.Db
        → Reply (List RespReceiptEverTx)
    deposits_of is_deposit (err e) raw_id num db = internal_error_response e
    deposits_of is_deposit (ok addr) raw_id num db =
        with_arg (atoi (or_default (codes "0") raw_id)) λ cursor.
          with_arg (atoi (or_default (codes "20") num))
            λ n. records_or_error (get_api_key_deposit_records is_deposit addr cursor n db)

    unfoldable pub get_apikey_deposit_records :
        (Text → Bool) → Text → Option Text → Option Text → sql.Db → Reply (List RespReceiptEverTx)
    get_apikey_deposit_records is_deposit address raw_id num db =
        deposits_of is_deposit (k.id_check address) raw_id num db

  -- `DivRound(_, 0)` and `LessThan` of decimals, and `SymbolToTagArr` of the everPay client
  module _ (div_round : dec.Decimal → dec.Decimal → dec.Decimal)
      (less : dec.Decimal → dec.Decimal → Bool) (symbol_to_tag_arr : Text → List Text) where
    abbrev pub tok_cap : dec.Decimal → Fee → dec.Decimal
    tok_cap balance per_fee =
        div_round (dec.mul_decimal (dec.decimal_from_int max_chunk_size) balance)
          (dec.add_decimal per_fee.base per_fee.per_chunk)

    abbrev pub add_cap : dec.Decimal → Result dec.Decimal → Option Fee → dec.Decimal
    add_cap cap (err e) per_fee = cap
    add_cap cap (ok balance) none = cap
    add_cap cap (ok balance) (some per_fee) = dec.add_decimal cap (tok_cap balance per_fee)

    -- the first loop, over the balances; one that does not parse or has no fee is passed over
    unfoldable pub estimate_cap_of : dec.Decimal → Dict Text → dec.Decimal
    estimate_cap_of cap [] = cap
    estimate_cap_of cap ((symbol, bal) ∷ balances) =
        estimate_cap_of
          (add_cap cap (dec.decimal_from_string bal) (get_per_fee to_upper per_fees symbol))
          balances

    abbrev pub add_token_bal : Text → Text → Option Fee → List Text → Dict TokBal → Dict TokBal
    add_token_bal symbol bal none tags tokens = tokens
    add_token_bal symbol bal (some per_fee) [] tokens = tokens
    add_token_bal symbol bal (some per_fee) (tag ∷ tags) tokens =
        insert tag (record { symbol = symbol; decimals = per_fee.decimals; balance = bal }) tokens

    -- the second loop
    unfoldable pub tokens_of : Dict Text → Dict TokBal → Dict TokBal
    tokens_of [] tokens = tokens
    tokens_of ((symbol, bal) ∷ balances) tokens = tokens_of balances (
        add_token_bal symbol bal (get_per_fee to_upper per_fees symbol) (symbol_to_tag_arr symbol)
          tokens)

    unfoldable pub api_key_info : AutoApiKey → RespApiKey
    api_key_info detail =
        let cap = estimate_cap_of (dec.decimal_from_int 0) detail.token_balance in
        let enough =
          if less cap (dec.decimal_from_int max_chunk_size) then dec.decimal_from_int 0 else cap in
        record {
          estimate_cap = dec.decimal_string enough;
          tokens = tokens_of detail.token_balance [];
        }

    unfoldable pub get_api_key_info : ⦃sql : SqlDb⦄ ⦃k : Signers⦄ → Text → sql.Db → Reply RespApiKey
    get_api_key_info ⦃k = k⦄ address db = or_internal_error (
        bind_result (k.id_check address) λ addr.
          bind_result (get_api_key_detail_by_address addr db) λ detail. ok (api_key_info detail))
