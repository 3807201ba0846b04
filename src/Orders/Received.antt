-- ===== src/Orders/Received.antt =====
-- jobs.go: what `watchEverReceiptTxs` leaves in the table of receipts.
use arseeding.Prelude.{
  ℕ, Text, text_eq, text_eq_iff, ◌≡◌, ◌≢◌, refl, sym, ap, subst, ◌∙◌, inl, inr, Bool-cases, All,
  List, [], ◌∷◌, ◌++◌,
}
use arseeding.Effect.{Result, ok, err, bind_result, bind_result-ok, Result-cases}
use arseeding.Orders.Types.{
  ReceiptEverTx, receipt_table, receipts, select, add_new, SqlDb, un_spent,
}
use arseeding.Orders.Submit.{Signers}
use arseeding.Orders.EverTxs.{
  EverTx, EverPay, insert_receipt_tx, receipt_of, receipt_from, insert_found, receive_tx,
  receive_txs, watch_from, watch_ever_receipt_txs, get_last_ever_raw_id,
}

-- Different transactions are behind the receipts.
abbrev pub HasHashes : List ReceiptEverTx → Type 0
HasHashes [] = Unit {0}
HasHashes (r ∷ rs) = All (λ s. s.ever_hash ≢ r.ever_hash) rs × HasHashes rs

-- the rows, with unspent receipts of different transactions behind them
abbrev pub Grown : List ReceiptEverTx → List ReceiptEverTx → Type 0
Grown old rows =
    (new : List ReceiptEverTx) × (rows ≡ old ++ new)
    × All (λ r. r.status ≡ un_spent) new
    × HasHashes rows

append_assoc : (xs ys zs : List ReceiptEverTx) → (xs ++ ys) ++ zs ≡ xs ++ (ys ++ zs)
append_assoc [] ys zs = refl
append_assoc (x ∷ xs) ys zs = ap (λ l. x ∷ l) (append_assoc xs ys zs)

append_nil : (xs : List ReceiptEverTx) → xs ≡ xs ++ []
append_nil [] = refl
append_nil (x ∷ xs) = ap (λ l. x ∷ l) (append_nil xs)

All-append :
    (P : ReceiptEverTx → Type 0) (xs ys : List ReceiptEverTx)
    → All P xs
    → All P ys
    → All P (xs ++ ys)
All-append P [] ys h k = k
All-append P (x ∷ xs) ys (px, h) k = (px, All-append P xs ys h k)

Grown-refl : (rows : List ReceiptEverTx) → HasHashes rows → Grown rows rows
Grown-refl rows h = ([], append_nil rows, tt, h)

Grown-trans : (a b c : List ReceiptEverTx) → Grown a b → Grown b c → Grown a c
Grown-trans a b c (new1, e1, u1, h1) (new2, e2, u2, h2) = (
  new1 ++ new2,
  e2 ∙ ap (λ l. l ++ new2) e1 ∙ append_assoc a new1 new2,
  All-append (λ r. r.status ≡ un_spent) new1 new2 u1 u2,
  h2,
)

select_none :
    (hash : Text) (rows : List ReceiptEverTx)
    → select (λ r. text_eq r.ever_hash hash) rows ≡ []
    → All (λ r. r.ever_hash ≢ hash) rows
unfolding select
select_none hash [] h = tt
select_none hash (r ∷ rows) h = elim (Bool-cases (text_eq r.ever_hash hash)) [
  | inl same ↦ let k = rw same at h in absurd cc
  | inr other ↦ (
    λ e. let t = (text_eq_iff r.ever_hash hash).1 e in absurd cc,
    select_none hash rows (rw other at h),
  )
]

HasHashes-append :
    (rows : List ReceiptEverTx) (r : ReceiptEverTx)
    → HasHashes rows
    → All (λ s. s.ever_hash ≢ r.ever_hash) rows
    → HasHashes (rows ++ r ∷ [])
HasHashes-append [] r h new = (tt, tt)
HasHashes-append (s ∷ rows) r (apart, h) (ne, new) = (
  All-append (λ q. q.ever_hash ≢ s.ever_hash) rows (r ∷ []) apart ((λ e. ne (sym e)), tt),
  HasHashes-append rows r h new,
)

add_new-Grown :
    (rows : List ReceiptEverTx) (r : ReceiptEverTx) (conflicting : List ReceiptEverTx)
    → select (λ s. text_eq s.ever_hash r.ever_hash) rows ≡ conflicting
    → HasHashes rows
    → r.status ≡ un_spent
    → Grown rows (add_new conflicting r rows)
add_new-Grown rows r [] none_same h status =
    (r ∷ [], refl, (status, tt), HasHashes-append rows r h (select_none r.ever_hash rows none_same))
add_new-Grown rows r (s ∷ conflicting) some_same h status = Grown-refl rows h

module _ ⦃sql : SqlDb⦄ where
  insert_receipt_tx-Grown :
      (r : ReceiptEverTx) (db : sql.Db)
      → HasHashes (receipts db)
      → r.status ≡ un_spent
      → Grown (receipts db) (receipts (insert_receipt_tx r db).0)
  unfolding insert_receipt_tx
  insert_receipt_tx-Grown r db h status =
      let same = λ (s : ReceiptEverTx). text_eq s.ever_hash r.ever_hash in
      elim (Result-cases (insert_receipt_tx r db).1) [
        | inl (u, done) ↦
            subst (Grown (receipts db))
              (sym (sql.create_new_ok receipt_table same (λ id. r) db done).1)
              (add_new-Grown (receipts db) r (select same (receipts db)) refl h status)
        | inr (e, failed) ↦
            subst (λ d. Grown (receipts db) (receipts d))
              (sym (sql.create_new_err receipt_table same (λ id. r) db failed))
              (Grown-refl (receipts db) h)
      ]

  module _ ⦃pay : EverPay⦄ ⦃k : Signers⦄ (bundler : Text) where
    insert_found-Grown :
        (tx : EverTx) (r : Result ReceiptEverTx) (db : sql.Db)
        → receipt_from tx ≡ r
        → HasHashes (receipts db)
        → Grown (receipts db) (receipts (insert_found r db))
    unfolding receipt_from receipt_of
    insert_found-Grown tx (err e) db made h = Grown-refl (receipts db) h
    insert_found-Grown tx (ok r) db made h =
        let (from, known, read) =
          bind_result-ok (k.id_check tx.from)
            (λ f. bind_result (pay.payment_meta tx.json) (λ d. ok (receipt_of tx f d))) made in
        let (new_data, parsed, is_r) =
          bind_result-ok (pay.payment_meta tx.json) (λ d. ok (receipt_of tx from d)) read in
        let same : receipt_of tx from new_data ≡ r = cc in
        insert_receipt_tx-Grown r db h (subst (λ q. q.status ≡ un_spent) same refl)

    receive_tx-Grown :
        (tx : EverTx) (db : sql.Db)
        → HasHashes (receipts db)
        → Grown (receipts db) (receipts (receive_tx bundler tx db))
    unfolding receive_tx
    receive_tx-Grown tx db h = elim (Bool-cases (text_eq tx.to bundler)) [
      | inl ours ↦ rw ours (insert_found-Grown tx (receipt_from tx) db refl h)
      | inr other ↦ rw other (Grown-refl (receipts db) h)
    ]

    receive_txs-Grown :
        (txs : List EverTx) (db : sql.Db)
        → HasHashes (receipts db)
        → Grown (receipts db) (receipts (receive_txs bundler txs db))
    unfolding receive_txs
    receive_txs-Grown [] db h = Grown-refl (receipts db) h
    receive_txs-Grown (tx ∷ txs) db h =
        let first = receive_tx-Grown tx db h in
        let (new, added, unspent, keyed) = first in
        Grown-trans (receipts db) (receipts (receive_tx bundler tx db))
          (receipts (receive_txs bundler (tx ∷ txs) db)) first
          (receive_txs-Grown txs (receive_tx bundler tx db) keyed)

    watch_from-Grown :
        (start : Result ℕ) (db : sql.Db)
        → HasHashes (receipts db)
        → Grown (receipts db) (receipts (watch_from bundler start db).0)
    watch_from-Grown (ok start_cursor) db h =
        receive_txs-Grown (pay.subscribe_txs start_cursor bundler) db h
    watch_from-Grown (err e) db h = Grown-refl (receipts db) h

-- Where the receipts are those of different transactions, `watch_ever_receipt_txs`, over any transactions
-- that are delivered, also again and out of order, keeps every receipt as it is, adds unspent receipts
-- only, and leaves receipts of different transactions: a payment is recorded at most once.
pub watch_ever_receipt_txs-Grown :
    ⦃sql : SqlDb⦄ ⦃pay : EverPay⦄ ⦃k : Signers⦄ (bundler : Text) (db : sql.Db)
    → HasHashes (receipts db)
    → Grown (receipts db) (receipts (watch_ever_receipt_txs bundler db).0)
unfolding watch_ever_receipt_txs
watch_ever_receipt_txs-Grown bundler db = watch_from-Grown bundler (get_last_ever_raw_id db) db
