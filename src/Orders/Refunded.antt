-- ===== src/Orders/Refunded.antt =====
-- jobs.go: a receipt that `refundReceipt` has paid back is not paid back again.
use mathlib.Core.List.{Memᴰ}
use mathlib.Core.List.Memᴰ
use arseeding.Prelude.{
  ℕ, arith, Text, text_eq, text_eq_iff, ◌≡◌, ◌≢◌, refl, sym, ap, ◌∙◌, subst, inl, inr, Bool, false,
  ◌==◌, Option, none, some, List, [], ◌∷◌, Bool-cases, if◌then◌else◌,
}
use arseeding.Effect.{Result, ok, err, Result-cases}
use arseeding.Orders.Types.{
  ReceiptEverTx, receipt_table, SqlDb, BigInts, receipts, un_refund, refunded, refund_err,
}
use arseeding.Orders.Wdb.{get_receipts_by_status, update_receipt_status, update_refund_err}
use arseeding.Orders.Rows.{Mem-of_change}
use arseeding.Orders.Receipts.{transferred, pay_back, refund_one, refund_rows, refund_receipt}

differ : (s t : Text) → text_eq s t ≡ false → s ≢ t
differ s t h e = let same = (text_eq_iff s t).1 e in absurd cc

refunded-un_refund : refunded ≢ un_refund
unfolding text_eq
refunded-un_refund = differ refunded un_refund refl

refund_err-un_refund : refund_err ≢ un_refund
unfolding text_eq
refund_err-un_refund = differ refund_err un_refund refl

-- A change of a receipt that keeps its id and does not put it up for a refund.
abbrev Settles : (ReceiptEverTx → ReceiptEverTx) → Type 0
Settles f = (x : ReceiptEverTx) → ((f x).raw_id ≡ x.raw_id) × ((f x).status ≢ un_refund)

module _ ⦃sql : SqlDb⦄ where
  -- No receipt with the id waits for a refund.
  abbrev pub Done : ℕ → sql.Db → Type 0
  Done id db = (q : ReceiptEverTx) → Memᴰ q (receipts db) → q.raw_id ≡ id → q.status ≢ un_refund

  module _ (p : ReceiptEverTx → Bool) (f : ReceiptEverTx → ReceiptEverTx)
      (settles : Settles f) where
    changed-Done :
        (id : ℕ) (x q : ReceiptEverTx)
        → q ≡ (if p x then f x else x)
        → (p x ≡ false → x.raw_id ≡ id → x.status ≢ un_refund)
        → q.raw_id ≡ id
        → q.status ≢ un_refund
    changed-Done id x q e same id_q waits = elim (Bool-cases (p x)) [
      | inl hit ↦
          let e' : q ≡ f x = rw hit at e in (settles x).1 (sym (ap (λ r. r.status) e') ∙ waits)
      | inr miss ↦
          let e' : q ≡ x = rw miss at e in
          same miss (sym (ap (λ r. r.raw_id) e') ∙ id_q) (sym (ap (λ r. r.status) e') ∙ waits)
    ]

    update-Done : (id : ℕ) (db : sql.Db) → Done id db → Done id (sql.update receipt_table p f db).0
    update-Done id db done = elim (Result-cases (sql.update receipt_table p f db).1) [
      | inl (u, good) ↦ λ q m.
          let r =
            Mem-of_change p f (receipts db)
              (subst (λ l. Memᴰ q l) (sql.update_ok receipt_table p f db good) m) in
          changed-Done id r.0 q r.2 (λ miss. done r.0 r.1)
      | inr (e, failed) ↦
          subst (λ d. Done id d) (sym (sql.update_err receipt_table p f db failed)) done
    ]

    update-Done_self :
        (id : ℕ) (db : sql.Db)
        → ((x : ReceiptEverTx) → p x ≡ false → x.raw_id ≢ id)
        → (sql.update receipt_table p f db).1 ≡ ok tt
        → Done id (sql.update receipt_table p f db).0
    update-Done_self id db others good q m =
        let r =
          Mem-of_change p f (receipts db)
            (subst (λ l. Memᴰ q l) (sql.update_ok receipt_table p f db good) m) in
        changed-Done id r.0 q r.2 (λ miss same. absurd (others r.0 miss same))

module _ ⦃sql : SqlDb⦄ ⦃big : BigInts⦄ (transfer : ReceiptEverTx → big.Big → Result (Unit {0}))
    (error_text : ReceiptEverTx → Text) where
  abbrev sent_of : sql.Db × List ReceiptEverTx → List ReceiptEverTx
  sent_of out = out.1

  transferred-Done :
      (id : ℕ) (rpt : ReceiptEverTx) (r : Result (Unit {0})) (db : sql.Db)
      → Done id db
      → Done id (transferred transfer error_text rpt r db)
  unfolding update_refund_err
  transferred-Done id rpt (ok u) db done = done
  transferred-Done id rpt (err e) db done =
      update-Done (λ r. r.raw_id == rpt.raw_id)
        (λ r. record r { status = refund_err; err_msg = error_text rpt })
        (λ x. (refl, refund_err-un_refund)) id db done

  pay_back-Done :
      (id : ℕ) (rpt : ReceiptEverTx) (amount : Option big.Big) (db : sql.Db)
      → Done id db
      → Done id (pay_back transfer error_text rpt amount db).0
  pay_back-Done id rpt none db done = done
  pay_back-Done id rpt (some amount) db done = transferred-Done id rpt (transfer rpt amount) db done

  pay_back-sent :
      (q rpt : ReceiptEverTx) (amount : Option big.Big) (db : sql.Db)
      → Memᴰ q (pay_back transfer error_text rpt amount db).1
      → q ≡ rpt
  pay_back-sent q rpt none db m = absurd (Memᴰ.not-nil m)
  pay_back-sent q rpt (some amount) db m = Memᴰ.eq_of_singleton m

  refund_one-Done :
      (id : ℕ) (rpt : ReceiptEverTx) (db : sql.Db)
      → Done id db
      → Done id (refund_one transfer error_text rpt db).0
  unfolding refund_one update_receipt_status
  refund_one-Done id rpt db done =
      let p = λ (r : ReceiptEverTx). r.raw_id == rpt.raw_id in
      let f = λ (r : ReceiptEverTx). record r { status = refunded } in
      let marked = update-Done p f (λ x. (refl, refunded-un_refund)) id db done in
      elim (Result-cases (sql.update receipt_table p f db).1) [
        | inl (u, good) ↦
            rw (refund_one, good)
              (pay_back-Done id rpt (big.set_string rpt.amount) (sql.update receipt_table p f db).0
                marked)
        | inr (e, failed) ↦ rw (refund_one, failed) marked
      ]

  refund_one-sent :
      (q rpt : ReceiptEverTx) (db : sql.Db)
      → Memᴰ q (refund_one transfer error_text rpt db).1
      → Done q.raw_id (refund_one transfer error_text rpt db).0
  unfolding refund_one update_receipt_status
  refund_one-sent q rpt db m =
      let p = λ (r : ReceiptEverTx). r.raw_id == rpt.raw_id in
      let f = λ (r : ReceiptEverTx). record r { status = refunded } in
      let db' = (sql.update receipt_table p f db).0 in
      let amount = big.set_string rpt.amount in
      elim (Result-cases (sql.update receipt_table p f db).1) [
        | inl (u, good) ↦
            let same = pay_back-sent q rpt amount db' (rw (refund_one, good) at m) in
            let done : Done rpt.raw_id db' =
              update-Done_self p f (λ x. (refl, refunded-un_refund)) rpt.raw_id db
                (λ x miss e. ground arith) good in
            subst (λ r. Done r.raw_id (refund_one transfer error_text rpt db).0) (sym same)
              (rw (refund_one, good) (pay_back-Done rpt.raw_id rpt amount db' done))
        | inr (e, failed) ↦ absurd (Memᴰ.not-nil (rw (refund_one, failed) at m))
      ]

  refund_rows-Done :
      (id : ℕ) (rows : List ReceiptEverTx) (db : sql.Db)
      → Done id db
      → Done id (refund_rows transfer error_text rows db).0
  unfolding refund_rows
  refund_rows-Done id [] db done = done
  refund_rows-Done id (rpt ∷ rows) db done =
      refund_rows-Done id rows (refund_one transfer error_text rpt db).0
        (refund_one-Done id rpt db done)

  refund_rows-sent :
      (q : ReceiptEverTx) (rows : List ReceiptEverTx) (db : sql.Db)
      → Memᴰ q (refund_rows transfer error_text rows db).1
      → Done q.raw_id (refund_rows transfer error_text rows db).0
  unfolding refund_rows
  refund_rows-sent q [] db m = absurd (Memᴰ.not-nil m)
  refund_rows-sent q (rpt ∷ rows) db m =
      let db' = (refund_one transfer error_text rpt db).0 in
      elim (Memᴰ.append_cases (refund_one transfer error_text rpt db).1 m) [
        | inl this ↦ refund_rows-Done q.raw_id rows db' (refund_one-sent q rpt db this)
        | inr later ↦ refund_rows-sent q rows db' later
      ]

  found-sent :
      (q : ReceiptEverTx) (now : ℕ) (db : sql.Db) (r : Result (List ReceiptEverTx))
      → get_receipts_by_status now un_refund db ≡ r
      → Memᴰ q (refund_receipt transfer error_text now db).1
      → Done q.raw_id (refund_receipt transfer error_text now db).0
  unfolding refund_receipt
  found-sent q now db (ok rows) h m =
      rw (refund_receipt, h) (refund_rows-sent q rows db (rw (refund_receipt, h) at m))
  found-sent q now db (err e) h m = absurd (Memᴰ.not-nil (rw (refund_receipt, h) at m))

-- After `refund_receipt` no receipt with the id of one whose amount was sent waits for a refund,
-- whatever the transfers and the database answer: the next run does not send it again.
pub refund_receipt-once :
    ⦃sql : SqlDb⦄ ⦃big : BigInts⦄ (transfer : ReceiptEverTx → big.Big → Result (Unit {0}))
    (error_text : ReceiptEverTx → Text) (now : ℕ) (db : sql.Db) (sent : ReceiptEverTx)
    → Memᴰ sent (refund_receipt transfer error_text now db).1
    → (q : ReceiptEverTx) → Memᴰ q (receipts (refund_receipt transfer error_text now db).0)
    → q.raw_id ≡ sent.raw_id
    → q.status ≢ un_refund
refund_receipt-once transfer error_text now db sent m =
    found-sent transfer error_text sent now db (get_receipts_by_status now un_refund db) refl m
