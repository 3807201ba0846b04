-- ===== src/Orders/Credited.antt =====
-- jobs.go: how `processPayApikey` ends.
use arseeding.Prelude.{
  codes, text_eq, text_eq_iff, ◌≡◌, refl, ap, ◌∙◌, ◌⊎◌, inl, inr, ◌==◌, Option, none, some, [], ◌∷◌,
  ◌++◌, Bool-cases,
}
use arseeding.Effect.{Error, Result, ok, err, other, Result-cases}
use arseeding.Fees.Types.{Decimals}
use arseeding.Orders.Types.{
  AutoApiKey, ReceiptEverTx, receipt_table, api_key_table, SqlDb, BigInts, receipts, spent,
  un_refund,
}
use arseeding.Orders.Wdb.{
  exist_apikey, insert_api_key, update_apikey_token_bal, update_receipt_status,
}
use arseeding.Orders.Paid.{with_status}
use arseeding.Orders.ApiKeys.{
  KeyMaker, add_token, new_apikey, insert_apikey, credit, spend_receipt, process_pay_apikey,
}
use arseeding.Orders.Spending.{with_balance, api_keys, receipt_not_key, key_not_receipt}

module _ ⦃sql : SqlDb⦄ ⦃dec : Decimals⦄ ⦃big : BigInts⦄ ⦃keys : KeyMaker⦄ where
  -- The payment is on the key of its sender: on a new one, or on that which there is.
  abbrev pub PaidIn : ReceiptEverTx → sql.Db → sql.Db → Type 0
  PaidIn urtx db db' =
      ((ak : AutoApiKey) × (new_apikey urtx ≡ ok ak) × (api_keys db' ≡ api_keys db ++ ak ∷ []))
      ⊎ ((ak : AutoApiKey) × (exist_apikey (keys.address_of urtx.sender) db ≡ some ak)
          × (api_keys db'
              ≡ with_balance (keys.address_of urtx.sender)
                  (add_token (big.to_upper urtx.symbol) urtx.amount ak.token_balance)
                  (api_keys db)))

  abbrev pub PayEnds : ReceiptEverTx → sql.Db → sql.Db × Result (Unit {0}) → Type 0
  PayEnds urtx db (db', ok u) =
      PaidIn urtx db db' × (receipts db' ≡ with_status urtx spent (receipts db))
  PayEnds urtx db (db', err e) =
      (db' ≡ db)
      ⊎ (((urtx.amount ≡ codes "0")
            × (receipts db' ≡ with_status urtx un_refund (receipts db))
            × (api_keys db' ≡ api_keys db))
          ⊎ (PaidIn urtx db db' × (receipts db' ≡ receipts db)))

  -- the payment into the key, before the receipt is spent
  abbrev Credits : ReceiptEverTx → sql.Db → sql.Db × Result (Unit {0}) → Type 0
  Credits urtx db (db', ok u) = PaidIn urtx db db' × (receipts db' ≡ receipts db)
  Credits urtx db (db', err e) = db' ≡ db

  Credits-by :
      (urtx : ReceiptEverTx) (db : sql.Db) (out : sql.Db × Result (Unit {0}))
      → (out.1 ≡ ok tt → PaidIn urtx db out.0 × (receipts out.0 ≡ receipts db))
      → ((e : Error) → out.1 ≡ err e → out.0 ≡ db)
      → Credits urtx db out
  Credits-by urtx db (db', ok u) good bad = good refl
  Credits-by urtx db (db', err e) good bad = bad e refl

  insert_apikey-Credits :
      (urtx : ReceiptEverTx) (db : sql.Db) (r : Result AutoApiKey)
      → new_apikey urtx ≡ r
      → Credits urtx db (insert_apikey r db)
  unfolding insert_apikey insert_api_key
  insert_apikey-Credits urtx db (err e) h = refl
  insert_apikey-Credits urtx db (ok ak) h =
      Credits-by urtx db (sql.create api_key_table (λ id. ak) db)
        (λ done. (
          inl (ak, h, (sql.create_ok api_key_table (λ id. ak) db done).1),
          sql.create_other api_key_table (λ id. ak) db receipt_table receipt_not_key,
        ))
        (λ e failed. sql.create_err api_key_table (λ id. ak) db failed)

  credit-Credits :
      (urtx : ReceiptEverTx) (db : sql.Db) (found : Option AutoApiKey)
      → exist_apikey (keys.address_of urtx.sender) db ≡ found
      → Credits urtx db (credit urtx found db)
  unfolding credit update_apikey_token_bal
  credit-Credits urtx db none h = insert_apikey-Credits urtx db (new_apikey urtx) refl
  credit-Credits urtx db (some ak) h =
      let p = λ (k : AutoApiKey). text_eq k.address (keys.address_of urtx.sender) in
      let f = λ (k : AutoApiKey). record k {
        token_balance = add_token (big.to_upper urtx.symbol) urtx.amount ak.token_balance;
      } in
      Credits-by urtx db (sql.update api_key_table p f db)
        (λ done. (
          inr (ak, h, sql.update_ok api_key_table p f db done),
          sql.update_other api_key_table p f db receipt_table receipt_not_key,
        ))
        (λ e failed. sql.update_err api_key_table p f db failed)

  -- by what the update of the receipt returned
  pay-by :
      (urtx : ReceiptEverTx) (db : sql.Db) (out : sql.Db × Result (Unit {0}))
      → (out.1 ≡ ok tt
          → PaidIn urtx db out.0 × (receipts out.0 ≡ with_status urtx spent (receipts db)))
      → ((e : Error) → out.1 ≡ err e → PaidIn urtx db out.0 × (receipts out.0 ≡ receipts db))
      → PayEnds urtx db out
  pay-by urtx db (db', ok u) good bad = good refl
  pay-by urtx db (db', err e) good bad = inr (inr (bad e refl))

  -- The rows of the keys say what is paid in.
  PaidIn-keys :
      (urtx : ReceiptEverTx) (db d d' : sql.Db)
      → api_keys d' ≡ api_keys d
      → PaidIn urtx db d
      → PaidIn urtx db d'
  PaidIn-keys urtx db d d' same (inl (ak, new, rows)) = inl (ak, new, same ∙ rows)
  PaidIn-keys urtx db d d' same (inr (ak, found, rows)) = inr (ak, found, same ∙ rows)

  spend_receipt-PayEnds :
      (urtx : ReceiptEverTx) (db : sql.Db) (out : sql.Db × Result (Unit {0}))
      → Credits urtx db out
      → PayEnds urtx db (spend_receipt urtx out)
  unfolding spend_receipt update_receipt_status
  spend_receipt-PayEnds urtx db (d, err e) same = inl same
  spend_receipt-PayEnds urtx db (d, ok u) (paid, same) =
      let p = λ (r : ReceiptEverTx). r.raw_id == urtx.raw_id in
      let f = λ (r : ReceiptEverTx). record r { status = spent } in
      let keys_same = sql.update_other receipt_table p f d api_key_table key_not_receipt in
      let paid' = PaidIn-keys urtx db d (sql.update receipt_table p f d).0 keys_same paid in
      pay-by urtx db (sql.update receipt_table p f d)
        (λ done. (paid', sql.update_ok receipt_table p f d done ∙ ap (with_status urtx spent) same))
        (λ e failed.
          (paid', ap (λ q. receipts q) (sql.update_err receipt_table p f d failed) ∙ same))

  to_refund-PayEnds :
      (urtx : ReceiptEverTx) (db : sql.Db) (e : Error)
      → urtx.amount ≡ codes "0"
      → PayEnds urtx db ((update_receipt_status urtx.raw_id un_refund db).0, err e)
  unfolding update_receipt_status
  to_refund-PayEnds urtx db e none_paid =
      let p = λ (r : ReceiptEverTx). r.raw_id == urtx.raw_id in
      let f = λ (r : ReceiptEverTx). record r { status = un_refund } in
      elim (Result-cases (sql.update receipt_table p f db).1) [
        | inl (u, done) ↦ inr (
            inl (
              none_paid,
              sql.update_ok receipt_table p f db done,
              sql.update_other receipt_table p f db api_key_table key_not_receipt,
            ))
        | inr (e, failed) ↦ inl (sql.update_err receipt_table p f db failed)
      ]

-- Where `process_pay_apikey` returns no error, the amount is paid into the key of the sender, a new one
-- or the one there is, and the receipt is spent. Where it returns an error, one of three things holds:
-- nothing is changed; or the amount is 0, no key is changed, and the receipt is to be refunded; or the
-- amount has been paid in, and no receipt is changed.
pub process_pay_apikey-PayEnds :
    ⦃sql : SqlDb⦄ ⦃dec : Decimals⦄ ⦃big : BigInts⦄ ⦃keys : KeyMaker⦄ (urtx : ReceiptEverTx)
    (db : sql.Db)
    → PayEnds urtx db (process_pay_apikey urtx db)
unfolding process_pay_apikey
process_pay_apikey-PayEnds ⦃keys⦄ urtx db = elim (Bool-cases (text_eq urtx.amount (codes "0"))) [
  | inl nothing ↦ rw nothing (
      to_refund-PayEnds urtx db (other (codes "amount can not be 0"))
        ((text_eq_iff urtx.amount (codes "0")).0 nothing))
  | inr amount ↦ rw amount (
      spend_receipt-PayEnds urtx db (credit urtx (exist_apikey (keys.address_of urtx.sender) db) db)
        (credit-Credits urtx db (exist_apikey (keys.address_of urtx.sender) db) refl))
]
