-- ===== src/Api/Replies.antt =====
-- api.go and schema/api.go: what the handlers answer.
use arseeding.Prelude.{ℕ, Text, Bytes, Bool}
use arseeding.Effect.{Error, Result, ok, err}
use arseeding.Orders.Types.{Order}

-- the responses, by their status and their kind; `A` is what the handler answers in JSON, the unit where
-- it writes nothing
pub data Reply (A : Type 0) : Type 0 where
  -- `c.JSON(http.StatusOK, …)`
  json : A → Reply A
  -- `c.Data` with status 200, by its content type
  html : Text → Reply A
  content : Text → Bytes → Reply A
  -- `c.Data(404, …, []byte("Not Found"))`
  html_not_found : Reply A
  -- `errorResponse`, `notFoundResponse` and `internalErrorResponse`
  error_response : Error → Reply A
  not_found_response : Error → Reply A
  internal_error_response : Error → Reply A
  -- `proxyArweaveGateway`
  proxy_arweave_gateway : Reply A
  redirect : Text → Reply A

module _ {A : Type 0} where
  abbrev pub or_error_response : Result A → Reply A
  or_error_response (ok a) = json a
  or_error_response (err e) = error_response e

  abbrev pub or_internal_error : Result A → Reply A
  or_internal_error (ok a) = json a
  or_internal_error (err e) = internal_error_response e

-- schema/api.go
pub record RespOrder : Type 0 where
  pub item_id : Text
  pub size : ℕ
  pub bundler : Text
  pub currency : Text
  pub decimals : ℕ
  pub fee : Text
  pub payment_expired_time : ℕ
  pub expected_block : ℕ

pub record RespGetOrder : Type 0 where
  pub id : ℕ
  pub resp_order : RespOrder
  pub payment_status : Text
  pub payment_id : Text
  pub on_chain_status : Text
  pub sort : Bool

pub record RespItemId : Type 0 where
  pub item_id : Text
  pub size : ℕ

unfoldable pub resp_order_of : Text → Order → RespOrder
resp_order_of bundler ord = record {
  item_id = ord.item_id;
  size = ord.size;
  bundler = bundler;
  currency = ord.currency;
  decimals = ord.decimals;
  fee = ord.fee;
  payment_expired_time = ord.payment_expired_time;
  expected_block = ord.expected_block;
}

unfoldable pub resp_get_order_of : Text → Order → RespGetOrder
resp_get_order_of bundler od = record {
  id = od.id;
  resp_order = resp_order_of bundler od;
  payment_status = od.payment_status;
  payment_id = od.payment_id;
  on_chain_status = od.on_chain_status;
  sort = od.sort;
}
