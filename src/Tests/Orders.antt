-- ===== src/Tests/Orders.antt =====
-- One order and a receipt that pays for it.
use arseeding.Prelude.{Text, codes, text_eq, ◌≡◌, refl, false, List, [], ◌∷◌}
use arseeding.Effect.{ok}
use arseeding.Orders.Types.{
  Order, ReceiptEverTx, wait_on_chain, un_payment, succ_payment, select, change,
}
use arseeding.Orders.Wdb.{get_un_paid_order, last_row, update_order_pay, update_receipt_status}
use arseeding.Orders.Pay.{
  process_pay_items, get_un_paid_orders_by_item_ids, check_orders_currency, check_orders_amount,
  total_fee, pay_orders, settle, pay, checked,
}
use arseeding.Orders.Paid.{Settled, process_pay_items-Settled}
use arseeding.Orders.Plain.{Tables, plain_sql, unary}

abbrev pub order : Text → Text → Order
order status hash = record {
  id = 1;
  item_id = codes "item";
  signer = codes "signer";
  sign_type = 1;
  size = 5;
  currency = codes "AR";
  decimals = 12;
  fee = codes "11";
  payment_expired_time = 10;
  expected_block = 50;
  payment_status = status;
  payment_id = hash;
  on_chain_status = wait_on_chain;
  api_key = [];
  sort = false;
  kafka = false;
}

abbrev pub receipt : Text → ReceiptEverTx
receipt status = record {
  raw_id = 7;
  ever_hash = codes "hash";
  nonce = 1000;
  symbol = codes "AR";
  token_tag = codes "tag";
  sender = codes "sender";
  amount = codes "111";
  json = [];
  sig = [];
  status = status;
  err_msg = [];
}

abbrev pub tables : List Order → List ReceiptEverTx → Tables
tables orders receipts = record {
  orders = orders;
  receipts = receipts;
  on_chain_txs = [];
  api_keys = [];
}

abbrev unpaid_db : plain_sql.Db
unfolding plain_sql
unpaid_db = tables (order un_payment [] ∷ []) (receipt (codes "unspent") ∷ [])

abbrev paid_db : plain_sql.Db
unfolding plain_sql
paid_db = tables (order succ_payment (codes "hash") ∷ []) (receipt (codes "spent") ∷ [])

process_pay_items-Settled_example :
    Settled ⦃sql = plain_sql⦄ ⦃big = unary⦄
      (codes "item" ∷ [])
      (receipt (codes "unspent"))
      unpaid_db
      (process_pay_items ⦃sql = plain_sql⦄ ⦃big = unary⦄
        (codes "item" ∷ [])
        (receipt (codes "unspent"))
        unpaid_db)
process_pay_items-Settled_example =
    process_pay_items-Settled ⦃sql = plain_sql⦄ ⦃big = unary⦄ (codes "item" ∷ [])
      (receipt (codes "unspent")) unpaid_db

-- The order is paid.
paid :
    process_pay_items ⦃sql = plain_sql⦄ ⦃big = unary⦄
      (codes "item" ∷ [])
      (receipt (codes "unspent"))
      unpaid_db
    ≡ (paid_db, ok tt)
unfolding unpaid_db paid_db plain_sql unary process_pay_items get_un_paid_orders_by_item_ids
    get_un_paid_order last_row check_orders_currency check_orders_amount total_fee pay_orders
    update_order_pay update_receipt_status settle pay checked select change text_eq
paid = refl
