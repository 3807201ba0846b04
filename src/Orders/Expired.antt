-- ===== src/Orders/Expired.antt =====
-- What `processExpiredOrd` (jobs.go) keeps of the data of the items.
use mathlib.Core.List.{Memᴰ}
use arseeding.Prelude.{
  ℕ, ◌≤◌, arith, Text, text_eq, text_eq_refl, text_eq_iff, ◌≡◌, ◌≢◌, refl, sym, ap, ◌∙◌, ◌⊎◌, inl,
  inr, subst, true, false, not, ◌&&◌, ◌==◌, ltb, Bool-cases, List, [], ◌∷◌,
}
use arseeding.Effect.{Result, ok, err}
use arseeding.Rawdb.Interface.{KeyValueDb, Bucket}
use arseeding.Bundle.Types.{ManifestTable}
use arseeding.Bundle.Items.{del_item}
use arseeding.Bundle.Parse.{at_db}
use arseeding.Bundle.Removed.{get-del_item_other}
use arseeding.Orders.Types.{
  Order, order_table, SqlDb, orders, un_payment, succ_payment, expired_payment, failed_on_chain,
}
use arseeding.Orders.Wdb.{
  get_expired_orders, exist_paid_ord, is_latest_unpaid_ord, update_ord_to_expired_status,
}
use arseeding.Orders.Rows.{Mem-update, is_not_found-find, find-Mem, both_true}
use arseeding.Orders.Expiry.{
  Site, at_node, manifest_of_deleted, del_expired_item, expired_item, expire_order, expire_orders,
  expire_found, process_expired_ord,
}

-- The order keeps its item: it is paid, or it still may be paid at `now`.
abbrev pub Standing : ℕ → Order → Type 0
Standing now k =
    (k.payment_status ≡ succ_payment)
    ⊎ ((k.payment_status ≡ un_payment) × (now ≤ k.payment_expired_time))

expired-not-Standing :
    (now : ℕ) (o : Order)
    → (text_eq o.payment_status un_payment && ltb o.payment_expired_time now) ≡ true
    → Standing now o
    → ⊥
expired-not-Standing now o h (inl paid) =
    let unpaid = (text_eq_iff o.payment_status un_payment).0 (both_true _ _ h).0 in absurd cc
expired-not-Standing now o h (inr (unpaid, later)) =
    let late = (both_true (text_eq o.payment_status un_payment) _ h).1 in ground arith

module _ ⦃sql : SqlDb⦄ ⦃kv : KeyValueDb⦄ ⦃m : ManifestTable⦄ where
  manifest_of_deleted-node :
      (b : Bucket) (j item_id : Text) (out : Site × Result (Unit {0}))
      → kv.get b j (manifest_of_deleted item_id out).node.db ≡ kv.get b j out.0.node.db
  unfolding manifest_of_deleted
  manifest_of_deleted-node b j item_id (s, ok u) = refl
  manifest_of_deleted-node b j item_id (s, err e) = refl

  manifest_of_deleted-wdb :
      (item_id : Text) (out : Site × Result (Unit {0}))
      → (manifest_of_deleted item_id out).wdb ≡ out.0.wdb
  unfolding manifest_of_deleted
  manifest_of_deleted-wdb item_id (s, ok u) = refl
  manifest_of_deleted-wdb item_id (s, err e) = refl

  get-del_expired_item_other :
      (b : Bucket) (item_id j : Text) (s : Site)
      → item_id ≢ j
      → kv.get b j (del_expired_item item_id s).node.db ≡ kv.get b j s.node.db
  unfolding del_expired_item
  get-del_expired_item_other b item_id j s ne =
      manifest_of_deleted-node b j item_id (at_node (at_db (del_item item_id)) s)
      ∙ get-del_item_other b item_id j s.node.db ne

  del_expired_item-wdb : (item_id : Text) (s : Site) → (del_expired_item item_id s).wdb ≡ s.wdb
  unfolding del_expired_item
  del_expired_item-wdb item_id s =
      manifest_of_deleted-wdb item_id (at_node (at_db (del_item item_id)) s)

  expired_item-wdb :
      (ord : Order) (out : Site × Result (Unit {0})) → (expired_item ord out).wdb ≡ out.0.wdb
  unfolding expired_item
  expired_item-wdb ord (s, err e) = refl
  expired_item-wdb ord (s, ok u) = ground (arith, del_expired_item-wdb ord.item_id s)

  -- An order of the item that is paid, or that expires later, stops the removal.
  Standing-kept :
      (now : ℕ) (ord k : Order) (db : sql.Db)
      → Memᴰ k (orders db)
      → Standing now k
      → ltb ord.payment_expired_time now ≡ true
      → ord.item_id ≡ k.item_id
      → (exist_paid_ord ord.item_id db ≡ true)
        ⊎ (is_latest_unpaid_ord ord.item_id ord.payment_expired_time db ≡ false)
  unfolding exist_paid_ord is_latest_unpaid_ord
  Standing-kept now ord k db there (inl paid) late same =
      let p =
        λ (o : Order). text_eq o.item_id ord.item_id && text_eq o.payment_status succ_payment in
      inl (
        ap not (
          is_not_found-find order_table p db k there
            (rw (sym same, text_eq_refl ord.item_id, paid) (text_eq_refl succ_payment))))
  Standing-kept now ord k db there (inr (unpaid, later)) late same =
      let t = ord.payment_expired_time in
      let p = λ (o : Order).
        text_eq o.item_id ord.item_id
        && text_eq o.payment_status un_payment
        && ltb t o.payment_expired_time in
      let after : ltb t k.payment_expired_time ≡ true = ground arith in
      inr (
        is_not_found-find order_table p db k there
          (rw (sym same, text_eq_refl ord.item_id, unpaid, text_eq_refl un_payment) after))

  expired_item-keeps :
      (now : ℕ) (ord k : Order) (b : Bucket) (out : Site × Result (Unit {0}))
      → Memᴰ k (orders out.0.wdb)
      → Standing now k
      → ltb ord.payment_expired_time now ≡ true
      → kv.get b k.item_id (expired_item ord out).node.db ≡ kv.get b k.item_id out.0.node.db
  unfolding expired_item
  expired_item-keeps now ord k b (s, err e) there stands late = refl
  expired_item-keeps now ord k b (s, ok u) there stands late =
      elim (Bool-cases (text_eq ord.item_id k.item_id)) [
        | inl same ↦
            let kept = Standing-kept now ord k s.wdb there stands late ((text_eq_iff _ _).0 same) in
            ground (arith, kept)
        | inr other ↦
            let ne : ord.item_id ≢ k.item_id =
              λ e. let t = (text_eq_iff ord.item_id k.item_id).1 e in absurd cc in
            ground (arith, get-del_expired_item_other b ord.item_id k.item_id s ne)
      ]

  expire_order-keeps :
      (now : ℕ) (ord k : Order) (b : Bucket) (s : Site)
      → Memᴰ k (orders s.wdb)
      → Standing now k
      → ltb ord.payment_expired_time now ≡ true
      → k.id ≢ ord.id
      → Memᴰ k (orders (expire_order ord s).wdb)
        × (kv.get b k.item_id (expire_order ord s).node.db ≡ kv.get b k.item_id s.node.db)
  unfolding expire_order update_ord_to_expired_status
  expire_order-keeps now ord k b s there stands late ne =
      let p = λ (o : Order). o.id == ord.id in
      let f = λ (o : Order). record o {
        payment_status = expired_payment;
        on_chain_status = failed_on_chain;
      } in
      let step = sql.update order_table p f s.wdb in
      let out : Site × Result (Unit {0}) = (record s { wdb = step.0 }, step.1) in
      let other : p k ≡ false = ground arith in
      let moved = Mem-update order_table p f s.wdb k there other in
      (
        subst (λ d. Memᴰ k (orders d)) (sym (expired_item-wdb ord out)) moved,
        expired_item-keeps now ord k b out moved stands late,
      )

  expire_orders-keeps :
      (now : ℕ) (k : Order) (b : Bucket) (ords : List Order) (s : Site)
      → Memᴰ k (orders s.wdb)
      → Standing now k
      → ((o : Order) → Memᴰ o ords → (ltb o.payment_expired_time now ≡ true) × (k.id ≢ o.id))
      → kv.get b k.item_id (expire_orders ords s).node.db ≡ kv.get b k.item_id s.node.db
  unfolding expire_orders
  expire_orders-keeps now k b [] s there stands each = refl
  expire_orders-keeps now k b (ord ∷ ords) s there stands each =
      let this = each ord (Memᴰ.head refl) in
      let one = expire_order-keeps now ord k b s there stands this.0 this.1 in
      expire_orders-keeps now k b ords (expire_order ord s) one.0 stands
        (λ o mem. each o (Memᴰ.tail mem))
      ∙ one.1

  expire_found-keeps :
      (now : ℕ) (k : Order) (b : Bucket) (s : Site) (r : Result (List Order))
      → get_expired_orders now s.wdb ≡ r
      → Memᴰ k (orders s.wdb)
      → Standing now k
      → ((o : Order) → Memᴰ o (orders s.wdb) → o.id ≡ k.id → o ≡ k)
      → kv.get b k.item_id (expire_found r s).node.db ≡ kv.get b k.item_id s.node.db
  unfolding expire_found get_expired_orders
  expire_found-keeps now k b s (err e) h there stands key = refl
  expire_found-keeps now k b s (ok ords) h there stands key =
      expire_orders-keeps now k b ords s there stands (λ o mem.
        let (row, expired) =
          find-Mem order_table
            (λ q. text_eq q.payment_status un_payment && ltb q.payment_expired_time now) s.wdb o
            ords h mem in
        (
          (both_true _ _ expired).1,
          λ e.
              expired-not-Standing now o expired
                (subst (λ q. Standing now q) (sym (key o row (sym e))) stands),
        ))

-- An order that is paid, or that is unpaid and may still be paid at the time `now`, keeps the data of
-- its item: where no other order has its id, `process_expired_ord` leaves the binary and the meta data
-- of the item as they are in every bucket, whatever other orders of the same item expire.
pub process_expired_ord-keeps :
    ⦃sql : SqlDb⦄ ⦃kv : KeyValueDb⦄ ⦃m : ManifestTable⦄ (now : ℕ) (k : Order) (b : Bucket)
    (s : Site)
    → Memᴰ k (orders s.wdb)
    → Standing now k
    → ((o : Order) → Memᴰ o (orders s.wdb) → o.id ≡ k.id → o ≡ k)
    → kv.get b k.item_id (process_expired_ord now s).node.db ≡ kv.get b k.item_id s.node.db
unfolding process_expired_ord
process_expired_ord-keeps now k b s there stands key =
    expire_found-keeps now k b s (get_expired_orders now s.wdb) refl there stands key
