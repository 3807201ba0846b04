-- ===== src/Orders/Paid.antt =====
-- How `processPayItems` (jobs.go) ends: orders and receipt change together or not at all.
use arseeding.Prelude.{
  Text, ◌≡◌, ◌≢◌, refl, sym, ap, ◌∙◌, ◌⊎◌, inl, inr, Option, none, some, List, [], ◌∷◌, ◌==◌,
}
use arseeding.Effect.{Error, Result, ok, err, record_not_found, Result-cases}
use arseeding.Orders.Types.{
  Order, ReceiptEverTx, order_table, receipt_table, SqlDb, orders, receipts, BigInts, change,
  succ_payment, spent, un_refund,
}
use arseeding.Orders.Wdb.{update_order_pay, update_receipt_status}
use arseeding.Orders.Pay.{
  get_un_paid_orders_by_item_ids, check_orders_currency, check_orders_amount, pay_orders, settle,
  refund, pay, checked, process_pay_items,
}

order_not_receipt : order_table ≢ receipt_table
order_not_receipt h = absurd cc

receipt_not_order : receipt_table ≢ order_table
receipt_not_order h = absurd cc

-- the rows once every order is paid for with the hash
unfoldable pub paid_rows : List Order → Text → List Order → List Order
paid_rows [] ever_hash rows = rows
paid_rows (o ∷ ords) ever_hash rows = paid_rows ords ever_hash (
    change (λ q. q.id == o.id)
      (λ q. record q { payment_status = succ_payment; payment_id = ever_hash }) rows)

abbrev pub with_status : ReceiptEverTx → Text → List ReceiptEverTx → List ReceiptEverTx
with_status urtx status rows =
    change (λ r. r.raw_id == urtx.raw_id) (λ r. record r { status = status }) rows

module _ ⦃sql : SqlDb⦄ ⦃big : BigInts⦄ where
  -- All orders are paid and the receipt is spent, which is enough for their fees.
  abbrev pub PaidFor : List Text → ReceiptEverTx → sql.Db → sql.Db → Type 0
  PaidFor item_ids urtx db db' =
      (ords : List Order) × (get_un_paid_orders_by_item_ids item_ids db ≡ ok ords)
      × (check_orders_currency ords urtx.symbol ≡ ok tt)
      × (check_orders_amount ords urtx.amount ≡ ok tt)
      × (orders db' ≡ paid_rows ords urtx.ever_hash (orders db))
      × (receipts db' ≡ with_status urtx spent (receipts db))

  -- The receipt is to be refunded, and no order is changed.
  abbrev pub Refunding : ReceiptEverTx → sql.Db → sql.Db → Type 0
  Refunding urtx db db' =
      (orders db' ≡ orders db) × (receipts db' ≡ with_status urtx un_refund (receipts db))

  -- A commit fails.
  abbrev pub CommitFails : sql.Db → Type 0
  CommitFails db = (t : sql.Db) × (e : Error) × ((sql.commit t db).1 ≡ err e)

  abbrev pub Settled : List Text → ReceiptEverTx → sql.Db → sql.Db × Result (Unit {0}) → Type 0
  Settled item_ids urtx db (db', err e) = db' ≡ db
  Settled item_ids urtx db (db', ok u) =
      PaidFor item_ids urtx db db' ⊎ (Refunding urtx db db' ⊎ ((db' ≡ db) × CommitFails db))

  -- by what an update returned
  refund-by :
      (item_ids : List Text) (urtx : ReceiptEverTx) (db : sql.Db) (out : sql.Db × Result (Unit {0}))
      → (out.1 ≡ ok tt → Refunding urtx db out.0)
      → ((e : Error) → out.1 ≡ err e → out.0 ≡ db)
      → Settled item_ids urtx db out
  refund-by item_ids urtx db (db', ok u) good bad = inr (inl (good refl))
  refund-by item_ids urtx db (db', err e) good bad = bad e refl

  refund-Settled :
      (item_ids : List Text) (urtx : ReceiptEverTx) (db : sql.Db)
      → Settled item_ids urtx db (refund urtx db)
  unfolding refund update_receipt_status
  refund-Settled item_ids urtx db =
      let p = λ (r : ReceiptEverTx). r.raw_id == urtx.raw_id in
      let f = λ (r : ReceiptEverTx). record r { status = un_refund } in
      refund-by item_ids urtx db (sql.update receipt_table p f db)
        (λ done. (
          sql.update_other receipt_table p f db order_table order_not_receipt,
          sql.update_ok receipt_table p f db done,
        ))
        (λ e failed. sql.update_err receipt_table p f db failed)

  pay_orders-rows :
      (ords : List Order) (ever_hash : Text) (t t' : sql.Db)
      → pay_orders ords ever_hash t ≡ some t'
      → (orders t' ≡ paid_rows ords ever_hash (orders t)) × (receipts t' ≡ receipts t)
  unfolding pay_orders paid_rows update_order_pay
  pay_orders-rows [] ever_hash t t' h =
      let same : t ≡ t' = cc h in
      (ap (sql.rows order_table) (sym same), ap (sql.rows receipt_table) (sym same))
  pay_orders-rows (o ∷ ords) ever_hash t t' h =
      let p = λ (q : Order). q.id == o.id in
      let f = λ (q : Order). record q { payment_status = succ_payment; payment_id = ever_hash } in
      elim (Result-cases (sql.update order_table p f t).1) [
        | inl (u, done) ↦
            let rest =
              pay_orders-rows ords ever_hash (sql.update order_table p f t).0 t'
                (rw (pay_orders, done) at h) in
            (
              rest.0 ∙ ap (paid_rows ords ever_hash) (sql.update_ok order_table p f t done),
              rest.1 ∙ sql.update_other order_table p f t receipt_table receipt_not_order,
            )
        | inr (e, failed) ↦ let k = rw (pay_orders, failed) at h in absurd cc
      ]

  module _ (item_ids : List Text) (urtx : ReceiptEverTx) (ords : List Order) (db : sql.Db)
      (found : get_un_paid_orders_by_item_ids item_ids db ≡ ok ords)
      (currency : check_orders_currency ords urtx.symbol ≡ ok tt)
      (amount : check_orders_amount ords urtx.amount ≡ ok tt) where
    -- the commit of the transaction's copy
    committed :
        (t : sql.Db)
        → orders t ≡ paid_rows ords urtx.ever_hash (orders db)
        → receipts t ≡ with_status urtx spent (receipts db)
        → Settled item_ids urtx db ((sql.commit t db).0, ok tt)
    committed t rows spends = elim (Result-cases (sql.commit t db).1) [
      | inl (u, done) ↦
          let e = sql.commit_ok t db done in
          inl (
            ords,
            found,
            currency,
            amount,
            ap (sql.rows order_table) e ∙ rows,
            ap (sql.rows receipt_table) e ∙ spends,
          )
      | inr (e, failed) ↦ inr (inr (sql.commit_err t db failed, (t, e, failed)))
    ]

    settle-Settled :
        (out : Option sql.Db)
        → pay_orders ords urtx.ever_hash db ≡ out
        → Settled item_ids urtx db (settle urtx out db)
    unfolding settle update_receipt_status
    settle-Settled none h = refl
    settle-Settled (some t) h =
        let p = λ (r : ReceiptEverTx). r.raw_id == urtx.raw_id in
        let f = λ (r : ReceiptEverTx). record r { status = spent } in
        let paid = pay_orders-rows ords urtx.ever_hash db t h in
        elim (Result-cases (sql.update receipt_table p f t).1) [
          | inl (u, done) ↦
              rw (settle, done)
                (committed (sql.update receipt_table p f t).0
                  (sql.update_other receipt_table p f t order_table order_not_receipt ∙ paid.0)
                  (sql.update_ok receipt_table p f t done ∙ ap (with_status urtx spent) paid.1))
          | inr (e, failed) ↦ rw (settle, failed) refl
        ]

  pay-Settled :
      (item_ids : List Text) (urtx : ReceiptEverTx) (ords : List Order) (db : sql.Db)
      → get_un_paid_orders_by_item_ids item_ids db ≡ ok ords
      → (currency amount : Result (Unit {0})) → check_orders_currency ords urtx.symbol ≡ currency
      → check_orders_amount ords urtx.amount ≡ amount
      → Settled item_ids urtx db (pay ords urtx currency amount db)
  unfolding pay
  pay-Settled item_ids urtx ords db found (err e) amount c a = refund-Settled item_ids urtx db
  pay-Settled item_ids urtx ords db found (ok u) (err e) c a = refund-Settled item_ids urtx db
  pay-Settled item_ids urtx ords db found (ok u) (ok v) c a =
      settle-Settled item_ids urtx ords db found c a (pay_orders ords urtx.ever_hash db) refl

  checked-Settled :
      (item_ids : List Text) (urtx : ReceiptEverTx) (db : sql.Db) (r : Result (List Order))
      → get_un_paid_orders_by_item_ids item_ids db ≡ r
      → Settled item_ids urtx db (checked urtx r db)
  unfolding checked
  checked-Settled item_ids urtx db (err record_not_found) h = refund-Settled item_ids urtx db
  checked-Settled item_ids urtx db (ok ords) h =
      pay-Settled item_ids urtx ords db h (check_orders_currency ords urtx.symbol)
        (check_orders_amount ords urtx.amount) refl refl
  checked-Settled item_ids urtx db (err _) h = refl

-- Where `process_pay_items` returns an error, the database is as before. Where it returns none, one of
-- three things holds: the unpaid orders of all items are marked as paid with the hash of the receipt, no
-- other order is changed, the receipt is spent, and its currency and amount have passed the checks
-- against these orders; or no order is changed and the receipt is to be refunded; or a commit has failed
-- and the database is as before.
pub process_pay_items-Settled :
    ⦃sql : SqlDb⦄ ⦃big : BigInts⦄ (item_ids : List Text) (urtx : ReceiptEverTx) (db : sql.Db)
    → Settled item_ids urtx db (process_pay_items item_ids urtx db)
unfolding process_pay_items
process_pay_items-Settled item_ids urtx db =
    checked-Settled item_ids urtx db (get_un_paid_orders_by_item_ids item_ids db) refl
