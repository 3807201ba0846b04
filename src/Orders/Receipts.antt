-- ===== src/Orders/Receipts.antt =====
-- jobs.go: the unspent receipts are used for payments, or paid back (`mergeReceiptEverTxs`,
-- `parseTxData`, `refundReceipt`).
use arseeding.Prelude.{
  ℕ, Text, codes, text_eq, not, Option, none, some, List, [], ◌∷◌, ◌++◌, if◌then◌else◌,
}
use arseeding.Prelude.Maps.{Dict}
use arseeding.Effect.{Result, ok, err, other}
use arseeding.Fees.Types.{Decimals, Fee}
use arseeding.Fees.Price.{get_per_fee}
use arseeding.Orders.Types.{ReceiptEverTx, SqlDb, BigInts, un_spent, un_refund, refunded}
use arseeding.Orders.Wdb.{get_receipts_by_status, update_receipt_status, update_refund_err}
use arseeding.Orders.Pay.{process_pay_items}
use arseeding.Orders.ApiKeys.{KeyMaker, process_pay_apikey}

abbrev pub item_payment_action : Text
item_payment_action = codes "payment"

abbrev pub apikey_payment_action : Text
apikey_payment_action = codes "apikeyPayment"

-- github.com/tidwall/gjson: a field as a string, and the strings of a field that is an array
pub record Gjson : Type 0 where
  pub json_field : Text → Text → Text
  pub json_array : Text → Text → List Text

module _ ⦃j : Gjson⦄ where
  abbrev some_ids : List Text → Result (Text × List Text)
  some_ids [] = err (other (codes "itemIds is empty"))
  some_ids (id ∷ ids) = ok (item_payment_action, id ∷ ids)

  -- the action and the items that it pays for
  unfoldable pub parse_tx_data : Text → Result (Text × List Text)
  parse_tx_data tx_data =
      let action = j.json_field tx_data (codes "action") in
      if not (text_eq (j.json_field tx_data (codes "appName")) (codes "arseeding"))
      then err (other (codes "txData.appName not be arseeding"))
      else if text_eq action item_payment_action
      then some_ids (j.json_array tx_data (codes "itemIds"))
      else if text_eq action apikey_payment_action
      then ok (apikey_payment_action, [])
      else err (other (codes "not support action"))

module _ ⦃sql : SqlDb⦄ ⦃dec : Decimals⦄ ⦃big : BigInts⦄ ⦃keys : KeyMaker⦄ ⦃j : Gjson⦄
    (per_fees : Dict Fee) where
  abbrev to_refund : ReceiptEverTx → sql.Db → sql.Db
  to_refund urtx db = (update_receipt_status urtx.raw_id un_refund db).0

  abbrev pay_apikey : Option Fee → ReceiptEverTx → sql.Db → sql.Db
  pay_apikey none urtx db = to_refund urtx db
  pay_apikey (some fee) urtx db = (process_pay_apikey urtx db).0

  abbrev act : Result (Text × List Text) → ReceiptEverTx → sql.Db → sql.Db
  act (err e) urtx db = to_refund urtx db
  act (ok (action, item_ids)) urtx db =
      if text_eq action item_payment_action
      then (process_pay_items item_ids urtx db).0
      else if text_eq action apikey_payment_action
      then pay_apikey (get_per_fee big.to_upper per_fees urtx.symbol) urtx db
      else to_refund urtx db

  -- one receipt; an error is logged
  unfoldable pub merge_receipt : ReceiptEverTx → sql.Db → sql.Db
  merge_receipt urtx db = act (parse_tx_data urtx.json) urtx db

  unfoldable pub merge_receipts : List ReceiptEverTx → sql.Db → sql.Db
  merge_receipts [] db = db
  merge_receipts (urtx ∷ rows) db = merge_receipts rows (merge_receipt urtx db)

  -- `now` is in milliseconds
  unfoldable pub merge_receipt_ever_txs : ℕ → sql.Db → sql.Db
  merge_receipt_ever_txs now db = elim (get_receipts_by_status now un_spent db) [
    | ok rows ↦ merge_receipts rows db
    | err e ↦ db
  ]

module _ ⦃sql : SqlDb⦄ ⦃big : BigInts⦄ (transfer : ReceiptEverTx → big.Big → Result (Unit {0}))
    (error_text : ReceiptEverTx → Text) where
  -- the status after a transfer
  abbrev pub transferred : ReceiptEverTx → Result (Unit {0}) → sql.Db → sql.Db
  transferred rpt (ok u) db = db
  transferred rpt (err e) db = (update_refund_err rpt.raw_id (error_text rpt) db).0

  -- The transfer of a receipt that is marked as refunded, with the receipts whose amounts were sent.
  abbrev pub pay_back : ReceiptEverTx → Option big.Big → sql.Db → sql.Db × List ReceiptEverTx
  pay_back rpt none db = (db, [])
  pay_back rpt (some amount) db = (transferred rpt (transfer rpt amount) db, rpt ∷ [])

  -- The receipt is marked before its amount is sent.
  unfoldable pub refund_one : ReceiptEverTx → sql.Db → sql.Db × List ReceiptEverTx
  refund_one rpt db =
      let (db', r) = update_receipt_status rpt.raw_id refunded db in
      elim r [ ok u ↦ pay_back rpt (big.set_string rpt.amount) db' | err e ↦ (db', []) ]

  unfoldable pub refund_rows : List ReceiptEverTx → sql.Db → sql.Db × List ReceiptEverTx
  refund_rows [] db = (db, [])
  refund_rows (rpt ∷ rows) db =
      let (db1, sent) = refund_one rpt db in
      let (db2, others) = refund_rows rows db1 in (db2, sent ++ others)

  unfoldable pub refund_receipt : ℕ → sql.Db → sql.Db × List ReceiptEverTx
  refund_receipt now db = elim (get_receipts_by_status now un_refund db) [
    | ok rows ↦ refund_rows rows db
    | err e ↦ (db, [])
  ]
