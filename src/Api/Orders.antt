-- ===== src/Api/Orders.antt =====
-- api.go: the handlers on orders (`getOrders`, `getOrdersByApiKey`).
use arseeding.Prelude.{
  ℕ, zero, suc, Text, codes, ltb, Option, none, some, List, [], ◌∷◌, if◌then◌else◌,
}
use arseeding.Prelude.Int.{ℤ, pos, negsuc}
use arseeding.Effect.{Result, ok, err, other}
use arseeding.Store.Numbers.{atoi}
use arseeding.Orders.Types.{Order, AutoApiKey, SqlDb, BigInts}
use arseeding.Orders.Wdb.{get_api_key_detail}
use arseeding.Orders.Lists.{QueryLimit, get_orders_by_signer, get_orders_by_api_key}
use arseeding.Orders.Submit.{Signers}
use arseeding.Api.Replies.{
  Reply, json, error_response, internal_error_response, RespGetOrder, resp_get_order_of,
}

-- `c.DefaultQuery`
abbrev pub or_default : Text → Option Text → Text
or_default default none = default
or_default default (some value) = value

abbrev pub max_size : ℕ
max_size = 1000

-- a page size outside 1 to 1000 is 1000
unfoldable pub page_size_of : ℤ → ℕ
page_size_of (negsuc n) = max_size
page_size_of (pos zero) = max_size
page_size_of (pos (suc n)) = if ltb max_size (suc n) then max_size else suc n

abbrev pub with_arg : {A : Type 0} → Result ℤ → (ℤ → Reply A) → Reply A
with_arg (ok n) k = k n
with_arg (err e) k = error_response e

unfoldable pub resp_orders : Text → List Order → List RespGetOrder
resp_orders bundler [] = []
resp_orders bundler (od ∷ orders) = resp_get_order_of bundler od ∷ resp_orders bundler orders

abbrev pub orders_or_error : Text → Result (List Order) → Reply (List RespGetOrder)
orders_or_error bundler (ok orders) = json (resp_orders bundler orders)
orders_or_error bundler (err e) = internal_error_response e

module _ ⦃sql : SqlDb⦄ ⦃lim : QueryLimit⦄ ⦃big : BigInts⦄ ⦃k : Signers⦄ (bundler : Text) where
  abbrev pub orders_of :
      Result Text → Option Text → Option Text → sql.Db → Reply (List RespGetOrder)
  orders_of (err e) cursor_id num db = error_response e
  orders_of (ok signer_addr) cursor_id num db =
      with_arg (atoi (or_default (codes "0") cursor_id)) λ cursor.
        with_arg (atoi (or_default (codes "20") num))
          λ n. orders_or_error bundler (get_orders_by_signer signer_addr cursor n db)

  -- the signer of the path, and the queries "cursorId" and "num"
  unfoldable pub get_orders : Text → Option Text → Option Text → sql.Db → Reply (List RespGetOrder)
  get_orders signer cursor_id num db = orders_of (k.id_check signer) cursor_id num db

  abbrev pub orders_of_key :
      Text
      → Result AutoApiKey
      → Option Text
      → Option Text
      → Option Text
      → sql.Db
      → Reply (List RespGetOrder)
  orders_of_key api_key (err e) cursor_id size sort db =
      error_response (other (codes "Wrong X-API-KEY"))
  orders_of_key api_key (ok ak) cursor_id size sort db =
      with_arg (atoi (or_default (codes "0") cursor_id)) λ cursor.
        with_arg (atoi (or_default (codes "0") size)) λ page_size. orders_or_error bundler (
          get_orders_by_api_key api_key cursor (pos (page_size_of page_size))
            (or_default (codes "DESC") sort) db)

  -- the header "X-API-KEY", and the queries "cursorId", "size" and "sort"
  unfoldable pub get_orders_by_api_key_handler :
      Text → Option Text → Option Text → Option Text → sql.Db → Reply (List RespGetOrder)
  get_orders_by_api_key_handler api_key cursor_id size sort db =
      orders_of_key api_key (get_api_key_detail api_key db) cursor_id size sort db
