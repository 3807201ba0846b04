-- ===== src/Orders/Pay.antt =====
-- jobs.go: a receipt pays the orders of some items (`processPayItems`).
use arseeding.Prelude.{Text, codes, text_eq, not, Option, none, some, List, [], ◌∷◌, if◌then◌else◌}
use arseeding.Effect.{Result, ok, err, other, record_not_found, bind_result, Eff}
use arseeding.Orders.Wdb.{get_un_paid_order, update_order_pay, update_receipt_status}
use arseeding.Orders.Types.{Order, ReceiptEverTx, SqlDb, BigInts, succ_payment, spent, un_refund}

module _ ⦃sql : SqlDb⦄ where
  unfoldable pub get_un_paid_orders_by_item_ids : List Text → sql.Db → Result (List Order)
  get_un_paid_orders_by_item_ids [] db = ok []
  get_un_paid_orders_by_item_ids (item_id ∷ item_ids) db =
      let rest = get_un_paid_orders_by_item_ids item_ids db in
      bind_result (get_un_paid_order item_id db) (λ o. bind_result rest (λ ords. ok (o ∷ ords)))

module _ ⦃big : BigInts⦄ where
  unfoldable pub check_orders_currency : List Order → Text → Result (Unit {0})
  check_orders_currency [] symbol = ok tt
  check_orders_currency (o ∷ ords) symbol =
      let rest = check_orders_currency ords symbol in
      if not (text_eq (big.to_upper o.currency) (big.to_upper symbol))
      then err (other (codes "currency incorrect"))
      else rest

  abbrev or_error : Text → Option big.Big → Result big.Big
  or_error text none = err (other text)
  or_error text (some n) = ok n

  -- the sum of the fees, from `total` on
  unfoldable pub total_fee : big.Big → List Order → Result big.Big
  total_fee total [] = ok total
  total_fee total (o ∷ ords) =
      bind_result (or_error (codes "order fee incorrect") (big.set_string o.fee))
        (λ fee. total_fee (big.add_big total fee) ords)

  unfoldable pub check_orders_amount : List Order → Text → Result (Unit {0})
  check_orders_amount ords amount =
      bind_result (or_error (codes "txAmount incorrect") (big.set_string amount)) λ paid.
        bind_result (total_fee big.zero_big ords) λ total.
          if big.less_big paid total then err (other (codes "payAmount fee not enough")) else ok tt

module _ ⦃sql : SqlDb⦄ ⦃big : BigInts⦄ where
  -- The loop on the transaction's copy; `none` stands for a transaction rolled back.
  unfoldable pub pay_orders : List Order → Text → sql.Db → Option sql.Db
  pay_orders [] ever_hash t = some t
  pay_orders (o ∷ ords) ever_hash t =
      let (t', r) = update_order_pay o.id ever_hash succ_payment t in
      let rest = pay_orders ords ever_hash t' in elim r [ ok u ↦ rest | err e ↦ none ]

  -- An update in a transaction that is rolled back returns an error. What `Commit` returns is not
  -- looked at.
  unfoldable pub settle : ReceiptEverTx → Option sql.Db → Eff sql.Db (Unit {0})
  settle urtx none db =
      (db, err (other (codes "sql: transaction has already been committed or rolled back")))
  settle urtx (some t) db =
      let (t', r) = update_receipt_status urtx.raw_id spent t in
      elim r [ ok u ↦ ((sql.commit t' db).0, ok tt) | err e ↦ (db, err e) ]

  -- The receipt is to be refunded; the error of this update replaces the one before it.
  unfoldable pub refund : ReceiptEverTx → Eff sql.Db (Unit {0})
  refund urtx = update_receipt_status urtx.raw_id un_refund

  unfoldable pub pay :
      List Order → ReceiptEverTx → Result (Unit {0}) → Result (Unit {0}) → Eff sql.Db (Unit {0})
  pay ords urtx (err e) amount = refund urtx
  pay ords urtx (ok u) (err e) = refund urtx
  pay ords urtx (ok u) (ok v) = λ db. settle urtx (pay_orders ords urtx.ever_hash db) db

  unfoldable pub checked : ReceiptEverTx → Result (List Order) → Eff sql.Db (Unit {0})
  checked urtx (err record_not_found) = refund urtx
  checked urtx (err e) = λ db. (db, err e)
  checked urtx (ok ords) =
      pay ords urtx (check_orders_currency ords urtx.symbol) (check_orders_amount ords urtx.amount)

  unfoldable pub process_pay_items : List Text → ReceiptEverTx → Eff sql.Db (Unit {0})
  process_pay_items item_ids urtx db = checked urtx (get_un_paid_orders_by_item_ids item_ids db) db
