-- ===== src/Orders/Submitted.antt =====
-- bundle.go: what `ProcessSubmitItem` leaves behind.
use arseeding.Prelude.{ℕ, ◌≡◌, refl, ◌∙◌, ap, subst, inl, inr, [], ◌∷◌, ◌++◌, if◌then◌else◌}
use arseeding.Prelude.Int.{pos}
use arseeding.Prelude.Maps.{Dict}
use arseeding.Effect.{Error, Result, ok, err, bind_result-ok, pure, lift, ◌>>◌, >>=-cases}
use arseeding.Rawdb.Interface.{KeyValueDb}
use arseeding.Fees.Types.{Decimals, Fee, RespFee}
use arseeding.Fees.Price.{calc_item_fee}
use arseeding.Bundle.Types.{BundleItem, BundleUtils, ManifestTable}
use arseeding.Bundle.Items.{save_item}
use arseeding.Bundle.Parse.{at_db}
use arseeding.Orders.Types.{
  Order, order_table, orders, SqlDb, BigInts, wait_on_chain, un_payment, succ_payment,
}
use arseeding.Orders.Wdb.{insert_order}
use arseeding.Orders.Chain.{Bundler}
use arseeding.Orders.Expiry.{Site, at_node}
use arseeding.Orders.Submit.{
  Signers, Submission, Reading, rewind, new_order, order_for_account, order_for_signer, order_of,
  at_wdb, record_order, process_submit_item,
}

module _ ⦃dec : Decimals⦄ ⦃big : BigInts⦄ where
  -- an order for the item that waits, for the fee of the item
  abbrev pub OrderFor : Dict Fee → Submission → BundleItem → Order → Type 0
  OrderFor per_fees sub item order =
      (order.item_id ≡ item.id)
      × (order.on_chain_status ≡ wait_on_chain)
      × (order.payment_status ≡ (if sub.is_no_fee_mode then succ_payment else un_payment))
      × ((fee : RespFee) × (calc_item_fee big.to_upper per_fees sub.currency (pos sub.size)
            ≡ ok fee)
          × (order.fee ≡ fee.final_fee))

  order_of-OrderFor :
      ⦃k : Signers⦄ (per_fees : Dict Fee) (sub : Submission) (node : Reading) (item : BundleItem)
      (order : Order)
      → order_of per_fees sub node item ≡ ok order
      → OrderFor per_fees sub item order
  unfolding order_of new_order
  order_of-OrderFor ⦃k = k⦄ per_fees sub node item order h =
      let (addr, _, h1) =
        bind_result-ok (k.item_signer_addr item) (order_for_signer per_fees sub node item) h in
      let (acc, _, h2) =
        bind_result-ok (k.id_check addr) (order_for_account per_fees sub node item) h1 in
      let (fee, priced, h3) =
        bind_result-ok (calc_item_fee big.to_upper per_fees sub.currency (pos sub.size))
          (λ f. ok (new_order acc sub node (big.to_upper sub.currency) item f)) h2 in
      let made = λ (f : RespFee). new_order acc sub node (big.to_upper sub.currency) item f in
      let same : made fee ≡ order = cc in
      subst (OrderFor per_fees sub item) same (refl, refl, refl, (fee, priced, refl))

module _ ⦃sql : SqlDb⦄ (order : Order) (db : sql.Db) where
  insert_order-created :
      (insert_order order db).1 ≡ ok tt
      → (id : ℕ) × (orders (insert_order order db).0 ≡ orders db ++ record order { id = id } ∷ [])
  unfolding insert_order
  insert_order-created = sql.create_ok order_table (λ id. record order { id = id }) db

  insert_order-failed :
      {e : Error} → (insert_order order db).1 ≡ err e → (insert_order order db).0 ≡ db
  unfolding insert_order
  insert_order-failed = sql.create_err order_table (λ id. record order { id = id }) db

module _ ⦃dec : Decimals⦄ ⦃big : BigInts⦄ ⦃k : Signers⦄ ⦃sql : SqlDb⦄ ⦃kv : KeyValueDb⦄
    ⦃m : ManifestTable⦄ ⦃u : BundleUtils⦄ ⦃b : Bundler⦄ (per_fees : Dict Fee) (sub : Submission)
    (node : Reading) (item : BundleItem) where
  -- what a call may leave behind, beside an order and beside an error
  abbrev pub Submitted : Site → Site × Result Order → Type 0
  Submitted s (s', ok order) =
      (b.verify_bundle_item item ≡ ok tt)
      × (save_item item s.node.db ≡ (s'.node.db, ok tt))
      × OrderFor per_fees sub item order
      × ((id : ℕ) × (orders s'.wdb ≡ orders s.wdb ++ record order { id = id } ∷ []))
  Submitted s (s', err e) = s'.wdb ≡ s.wdb

  -- an order that may be recorded
  record_order-Submitted :
      (s : Site) (r : Result Order)
      → b.verify_bundle_item item ≡ ok tt
      → (n : Site) → n.wdb ≡ s.wdb
      → save_item item s.node.db ≡ (n.node.db, ok tt)
      → order_of per_fees sub node item ≡ r
      → Submitted s (record_order r n)
  record_order-Submitted s (err e) verified n same saved made = same
  record_order-Submitted s (ok order) verified n same saved made =
      elim (>>=-cases (at_wdb (insert_order order)) (λ v. pure order) n) [
        | inl (v, done, out) ↦
            let (id, created) = insert_order-created order n.wdb done in
            rw out (
              verified,
              saved,
              order_of-OrderFor per_fees sub node item order made,
              (id, created ∙ ap (λ w. orders w ++ record order { id = id } ∷ []) same),
            )
        | inr (e, failed, out) ↦ rw out (insert_order-failed order n.wdb failed ∙ same)
      ]

  save_then-Submitted :
      (s : Site)
      → b.verify_bundle_item item ≡ ok tt
      → Submitted s
          ((at_node (at_db (save_item item)) >> record_order (order_of per_fees sub node item)) s)
  save_then-Submitted s verified =
      elim (>>=-cases (at_node (at_db (save_item item)))
        (λ v. record_order (order_of per_fees sub node item)) s) [
          | inl (v, done, out) ↦ rw out (
              record_order-Submitted s (order_of per_fees sub node item) verified
                (at_node (at_db (save_item item)) s).0 refl
                (ap (λ r. ((save_item item s.node.db).0, r)) done) refl)
          | inr (e, failed, out) ↦ rw out refl
        ]

  rewind_then-Submitted :
      (s : Site) (r : Result (Unit {0}))
      → b.verify_bundle_item item ≡ ok tt
      → Submitted s (
          (lift r
              >> (at_node (at_db (save_item item))
                  >> record_order (order_of per_fees sub node item)))
            s)
  rewind_then-Submitted s (ok v) verified = save_then-Submitted s verified
  rewind_then-Submitted s (err e) verified = refl

  verify_then-Submitted :
      (s : Site) (r : Result (Unit {0}))
      → b.verify_bundle_item item ≡ r
      → Submitted s (
          (lift r
              >> (lift (rewind item.data_reader)
                  >> (at_node (at_db (save_item item))
                      >> record_order (order_of per_fees sub node item))))
            s)
  verify_then-Submitted s (ok v) verified =
      rewind_then-Submitted s (rewind item.data_reader) verified
  verify_then-Submitted s (err e) failed = refl

-- Where `process_submit_item` succeeds, the item is verified and saved, and one order for it is added to
-- the table of orders: it waits to go on chain, costs the fee that `calc_item_fee` computes of the size,
-- and is paid in the mode without fees and unpaid otherwise. Where it fails, the SQL database is as it
-- was.
pub process_submit_item-Submitted :
    ⦃dec : Decimals⦄ ⦃big : BigInts⦄ ⦃k : Signers⦄ ⦃sql : SqlDb⦄ ⦃kv : KeyValueDb⦄
    ⦃m : ManifestTable⦄ ⦃u : BundleUtils⦄ ⦃b : Bundler⦄ (per_fees : Dict Fee) (sub : Submission)
    (node : Reading) (item : BundleItem) (s : Site)
    → Submitted per_fees sub node item s (process_submit_item per_fees sub node item s)
unfolding process_submit_item
process_submit_item-Submitted ⦃b = b⦄ per_fees sub node item s =
    verify_then-Submitted per_fees sub node item s (b.verify_bundle_item item) refl
