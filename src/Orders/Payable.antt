-- ===== src/Orders/Payable.antt =====
-- bundle.go and wdb.go: `GetUnPaidOrder` finds the order that `ProcessSubmitItem` recorded.
use arseeding.Prelude.{
  ℕ, Text, text_eq, text_eq_refl, Bool, true, false, ◌&&◌, ◌≡◌, refl, sym, ◌∙◌, ap, inl, inr,
  Bool-cases, List, [], ◌∷◌, ◌++◌, if◌then◌else◌,
}
use arseeding.Prelude.Maps.{Dict}
use arseeding.Effect.{Result, ok, err, bind_result-ok}
use arseeding.Rawdb.Interface.{KeyValueDb}
use arseeding.Fees.Types.{Decimals, Fee}
use arseeding.Bundle.Types.{BundleItem, BundleUtils, ManifestTable}
use arseeding.Orders.Types.{
  Order, order_table, orders, select, SqlDb, BigInts, un_payment, succ_payment,
}
use arseeding.Orders.Wdb.{get_un_paid_order, last_row}
use arseeding.Orders.Chain.{Bundler}
use arseeding.Orders.Expiry.{Site}
use arseeding.Orders.Submit.{Signers, Submission, Reading, process_submit_item}
use arseeding.Orders.Submitted.{Submitted, process_submit_item-Submitted}

module _ {ℓ} {A : Type ℓ} where
  last_row-++ : (xs : List A) (x : A) → last_row (xs ++ x ∷ []) ≡ ok x
  unfolding last_row
  last_row-++ [] x = refl
  last_row-++ (y ∷ []) x = refl
  last_row-++ (y ∷ z ∷ xs) x = last_row-++ (z ∷ xs) x

  select-++ :
      (p : A → Bool) (xs : List A) (x : A)
      → p x ≡ true
      → select p (xs ++ x ∷ []) ≡ select p xs ++ x ∷ []
  unfolding select
  select-++ p [] x h = rw h refl
  select-++ p (y ∷ xs) x h = elim (Bool-cases (p y)) [
    | inl chosen ↦ rw chosen (ap (λ l. y ∷ l) (select-++ p xs x h))
    | inr other ↦ rw other (select-++ p xs x h)
  ]

-- the query for an unpaid order, where the last order is one
module _ ⦃sql : SqlDb⦄ where
  get_un_paid_order-last :
      (item_id : Text) (db : sql.Db) (before : List Order) (order found : Order)
      → orders db ≡ before ++ order ∷ []
      → order.item_id ≡ item_id
      → order.payment_status ≡ un_payment
      → get_un_paid_order item_id db ≡ ok found
      → found ≡ order
  unfolding get_un_paid_order
  get_un_paid_order-last item_id db before order found rows same unpaid h =
      let wanted =
        λ (o : Order). text_eq o.item_id item_id && text_eq o.payment_status un_payment in
      let (selected, queried, h1) = bind_result-ok (sql.find order_table wanted db) last_row h in
      let fits : wanted order ≡ true =
        rw (same, unpaid, text_eq_refl item_id, text_eq_refl un_payment) refl in
      let listed : selected ≡ select wanted before ++ order ∷ [] =
        sql.find_ok order_table wanted db selected queried
        ∙ ap (select wanted) rows
        ∙ select-++ wanted before order fits in
      let last : ok found ≡ ok order =
        sym h1 ∙ ap last_row listed ∙ last_row-++ (select wanted before) order in
      cc

module _ ⦃dec : Decimals⦄ ⦃big : BigInts⦄ ⦃k : Signers⦄ ⦃sql : SqlDb⦄ ⦃kv : KeyValueDb⦄
    ⦃m : ManifestTable⦄ ⦃u : BundleUtils⦄ ⦃b : Bundler⦄ (per_fees : Dict Fee) (sub : Submission)
    (node : Reading) (item : BundleItem) (s : Site) where
  Submitted-payable :
      (out : Site × Result Order) (order found : Order)
      → Submitted per_fees sub node item s out
      → sub.is_no_fee_mode ≡ false
      → out.1 ≡ ok order
      → get_un_paid_order item.id out.0.wdb ≡ ok found
      → (id : ℕ) × (found ≡ record order { id = id })
  Submitted-payable (s', err e) order found done paying h query = absurd cc
  Submitted-payable (s', ok new) order found (_, _, (same, _, status, _), (id, added)) paying h
        query =
      let unpaid : new.payment_status ≡ un_payment =
        status ∙ ap (λ c. if c then succ_payment else un_payment) paying in
      let is_new : new ≡ order = cc in
      (
        id,
        get_un_paid_order-last item.id s'.wdb (orders s.wdb) (record new { id = id }) found added
              same unpaid query
            ∙ ap (λ (o : Order). record o { id = id }) is_new,
      )

  -- Where `process_submit_item` succeeds outside the mode without fees, a query for the unpaid order of
  -- the item that succeeds finds the order that was returned, up to its id: a payment for the item is
  -- checked against this order, also where the item has older ones.
  pub get_un_paid_order-process_submit_item :
      (order found : Order)
      → sub.is_no_fee_mode ≡ false
      → (process_submit_item per_fees sub node item s).1 ≡ ok order
      → get_un_paid_order item.id (process_submit_item per_fees sub node item s).0.wdb ≡ ok found
      → (id : ℕ) × (found ≡ record order { id = id })
  get_un_paid_order-process_submit_item order found =
      Submitted-payable (process_submit_item per_fees sub node item s) order found
        (process_submit_item-Submitted per_fees sub node item s)
