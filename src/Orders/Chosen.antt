-- ===== src/Orders/Chosen.antt =====
-- jobs.go: which orders `onChainOrds` chooses, and that an item that has been recorded is not chosen
-- again.
use mathlib.Core.List.{Memᴰ}
use mathlib.Core.List.Memᴰ
use arseeding.Prelude.{
  ℕ, ◌+◌, ◌≤◌, ◌<◌, ◌^◌, arith, Text, ◌≡◌, sym, ap, ◌∙◌, subst, ◌⊎◌, inl, inr, false, List, [], ◌∷◌,
  All, none, some, if◌then◌else◌, Bool-cases, Option-cases,
}
use arseeding.Orders.Types.{
  Order, OnChainTx, order_table, on_chain_tx_table, SqlDb, orders, max_per_on_chain_size,
}
use arseeding.Orders.Wdb.{exist_processed_order_item, update_ord_on_chain_status, insert_ar_tx}
use arseeding.Orders.Chain.{too_big, choose_orders, set_on_chain_status}
use arseeding.Orders.Processed.{
  OnChain, Ordered, Processed, QueryFails, UpdateFails, update-Processed, update-Ordered,
  update-Processed_self, exist_processed-some, none_on_chain,
}

abbrev pub total_size : List Order → ℕ
total_size [] = 0
total_size (o ∷ ords) = o.size + total_size ords

too_big-false :
    (total size : ℕ)
    → too_big total size ≡ false
    → total ≤ max_per_on_chain_size
    → size < 2 ^ 62
    → total + size ≤ max_per_on_chain_size
unfolding too_big
too_big-false total size h fits small = ground arith

module _ ⦃sql : SqlDb⦄ where
  -- the size so far and the state, behind one order
  abbrev pub after_one : ℕ → Order → sql.Db → ℕ × sql.Db
  after_one total ord db =
      if too_big total ord.size
      then (total, db)
      else elim (exist_processed_order_item ord.item_id db) [
        | none ↦ (total + ord.size, db)
        | some od ↦ (total, (update_ord_on_chain_status od.item_id od.on_chain_status db).0)
      ]

  -- The items that `onChainOrds` chooses are of at most 2 GB together with the size it starts from,
  -- where that is at most 2 GB and each order's size is below 2^62.
  pub choose_orders-size :
      (total : ℕ) (ords : List Order) (db : sql.Db)
      → total ≤ max_per_on_chain_size
      → All (λ o. o.size < 2 ^ 62) ords
      → total + total_size (choose_orders total ords db).1 ≤ max_per_on_chain_size
  unfolding choose_orders
  choose_orders-size total [] db fits small = ground arith
  choose_orders-size total (ord ∷ ords) db fits (one, small) =
      elim (Bool-cases (too_big total ord.size)) [
        | inl big ↦ rw (choose_orders, big) (choose_orders-size total ords db fits small)
        | inr room ↦ elim (Option-cases (exist_processed_order_item ord.item_id db)) [
          | inl new ↦
              let rest =
                choose_orders-size (total + ord.size) ords db
                  (too_big-false total ord.size room fits one) small in
              rw (choose_orders, room, new) (omega (arith, rest))
          | inr (od, seen) ↦
              rw (choose_orders, room, seen)
                (choose_orders-size total ords
                  (update_ord_on_chain_status od.item_id od.on_chain_status db).0 fits small)
        ]
      ]

  -- In a run of `choose_orders`, a query for the item fails, in the state in which it is asked.
  abbrev pub AskFails : Text → ℕ → List Order → sql.Db → Type 0
  AskFails id total [] db = ⊥
  AskFails id total (ord ∷ ords) db =
      let (total', db') = after_one total ord db in
      ((too_big total ord.size ≡ false) × (ord.item_id ≡ id) × QueryFails id db)
      ⊎ AskFails id total' ords db'

  pub choose_orders-Processed :
      (id : Text) (total : ℕ) (ords : List Order) (db : sql.Db) (o : Order)
      → Processed id db
      → Memᴰ o (choose_orders total ords db).1
      → o.item_id ≡ id
      → AskFails id total ords db
  unfolding choose_orders
  choose_orders-Processed id total [] db o done m same = absurd (Memᴰ.not-nil m)
  choose_orders-Processed id total (ord ∷ ords) db o done m same =
      elim (Bool-cases (too_big total ord.size)) [
        | inl big ↦ rw big (
            inr
              (choose_orders-Processed id total ords db o done (rw (choose_orders, big) at m) same))
        | inr room ↦ elim (Option-cases (exist_processed_order_item ord.item_id db)) [
          | inl new ↦ elim (Memᴰ.cases_cons (rw (choose_orders, room, new) at m)) [
            | inl this ↦
                let is_id : ord.item_id ≡ id = ap (λ q. q.item_id) (sym this) ∙ same in
                inl (
                  room,
                  is_id,
                  subst (λ i. QueryFails i db) is_id
                      (none_on_chain ord.item_id db (subst (λ i. Processed i db) (sym is_id) done)
                        new),
                )
            | inr later ↦
                rw (room, new)
                  (inr (choose_orders-Processed id (total + ord.size) ords db o done later same))
          ]
          | inr (od, seen) ↦
              rw (room, seen)
                (inr (
                  choose_orders-Processed id total ords
                    (update_ord_on_chain_status od.item_id od.on_chain_status db).0 o
                    (update-Processed id od.item_id od.on_chain_status db
                      (λ e. (exist_processed-some ord.item_id db od seen).1) done)
                    (rw (choose_orders, room, seen) at m) same))
        ]
      ]

  set_on_chain_status-keeps :
      (id status : Text) (ids : List Text) (db : sql.Db)
      → OnChain status
      → Processed id db
      → Processed id (set_on_chain_status ids status db)
  unfolding set_on_chain_status
  set_on_chain_status-keeps id status [] db good done = done
  set_on_chain_status-keeps id status (j ∷ ids) db good done =
      set_on_chain_status-keeps id status ids (update_ord_on_chain_status j status db).0 good
        (update-Processed id j status db (λ e. good) done)

  -- In a run of `set_on_chain_status`, an update of the item fails, in the state in which it is made.
  abbrev pub MarkFails : Text → Text → List Text → sql.Db → Type 0
  MarkFails id status [] db = ⊥
  MarkFails id status (j ∷ ids) db =
      ((j ≡ id) × UpdateFails id status db)
      ⊎ MarkFails id status ids (update_ord_on_chain_status j status db).0

  pub set_on_chain_status-Processed :
      (id status : Text) (ids : List Text) (db : sql.Db)
      → OnChain status
      → Memᴰ id ids
      → Ordered id db
      → Processed id (set_on_chain_status ids status db) ⊎ MarkFails id status ids db
  unfolding set_on_chain_status
  set_on_chain_status-Processed id status [] db good m has = absurd (Memᴰ.not-nil m)
  set_on_chain_status-Processed id status (j ∷ ids) db good (Memᴰ.head e) has =
      elim (update-Processed_self j status db good (subst (λ i. Ordered i db) e has)) [
        | inl done ↦ inl (
            set_on_chain_status-keeps id status ids (update_ord_on_chain_status j status db).0 good
              (subst (λ i. Processed i (update_ord_on_chain_status j status db).0) (sym e) done))
        | inr fails ↦ inr (inl (sym e, subst (λ i. UpdateFails i status db) (sym e) fails))
      ]
  set_on_chain_status-Processed id status (j ∷ ids) db good (Memᴰ.tail m) has =
      elim (set_on_chain_status-Processed id status ids (update_ord_on_chain_status j status db).0
        good m (update-Ordered id j status db has)) [
          | inl done ↦ inl done
          | inr fails ↦ inr (inr fails)
        ]

  pub insert_ar_tx-orders :
      (row : OnChainTx) (db : sql.Db) → orders (insert_ar_tx row db).0 ≡ orders db
  unfolding insert_ar_tx
  insert_ar_tx-orders row db =
      sql.create_other on_chain_tx_table (λ id. record row { id = id }) db order_table
        (λ h. absurd cc)
