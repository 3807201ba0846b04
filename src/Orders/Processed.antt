-- ===== src/Orders/Processed.antt =====
-- wdb.go: what the updates of `on_chain_status` and the query for a processed order tell of an item.
use mathlib.Core.List.{Memᴰ}
use mathlib.Core.List.Memᴰ
use arseeding.Prelude.{
  Text, text_eq, text_eq_refl, text_eq_iff, ◌≡◌, ◌≢◌, refl, sym, ◌∙◌, subst, ◌⊎◌, inl, inr, Bool,
  true, false, ◌&&◌, ◌||◌, none, some, List, [], ◌∷◌, Bool-cases,
}
use arseeding.Effect.{Error, err, Result-cases}
use arseeding.Orders.Types.{Order, order_table, SqlDb, orders, pending_on_chain, succ_on_chain}
use arseeding.Orders.Wdb.{exist_processed_order_item, update_ord_on_chain_status, first_row, found}
use arseeding.Orders.Rows.{Mem-change_to, Mem-update, Mem-select, find-Mem, both_true}

or_true : (a : Bool) → (a || true) ≡ true
or_true true = refl
or_true false = refl

abbrev pub OnChain : Text → Type 0
OnChain status = (status ≡ pending_on_chain) ⊎ (status ≡ succ_on_chain)

-- the condition of the query for a processed order
abbrev pub processed_row : Text → Order → Bool
processed_row id o =
    text_eq o.item_id id
    && (text_eq o.on_chain_status pending_on_chain || text_eq o.on_chain_status succ_on_chain)

module _ ⦃sql : SqlDb⦄ where
  -- An order of the item, one that is pending or on chain, and calls of the database that fail.
  abbrev pub Ordered : Text → sql.Db → Type 0
  Ordered id db = (k : Order) × Memᴰ k (orders db) × (k.item_id ≡ id)

  abbrev pub Processed : Text → sql.Db → Type 0
  Processed id db = (k : Order) × Memᴰ k (orders db) × (k.item_id ≡ id) × OnChain k.on_chain_status

  -- The query for a processed order of an item, in a state, fails, and the update of its orders does.
  abbrev pub QueryFails : Text → sql.Db → Type 0
  QueryFails id db = (e : Error) × (sql.find order_table (processed_row id) db ≡ err e)

  abbrev pub UpdateFails : Text → Text → sql.Db → Type 0
  UpdateFails id status db = (e : Error) × ((update_ord_on_chain_status id status db).1 ≡ err e)

  abbrev of_item : Text → Order → Bool
  of_item j o = text_eq o.item_id j

  abbrev marked : Text → Order → Order
  marked status o = record o { on_chain_status = status }

  pub update-Processed :
      (id j status : Text) (db : sql.Db)
      → (j ≡ id → OnChain status)
      → Processed id db
      → Processed id (update_ord_on_chain_status j status db).0
  unfolding update_ord_on_chain_status
  update-Processed id j status db good (k, there, same, done) = elim (Bool-cases (of_item j k)) [
    | inl hit ↦ elim (Result-cases (sql.update order_table (of_item j) (marked status) db).1) [
      | inl (u, h) ↦ (
        marked status k,
        subst (λ l. Memᴰ (marked status k) l)
            (sym (sql.update_ok order_table (of_item j) (marked status) db h))
            (Mem-change_to (of_item j) (marked status) (orders db) there hit),
        same,
        good (sym ((text_eq_iff k.item_id j).0 hit) ∙ same),
      )
      | inr (e, h) ↦
          subst (λ d. Processed id d)
            (sym (sql.update_err order_table (of_item j) (marked status) db h))
            (k, there, same, done)
    ]
    | inr miss ↦ (k, Mem-update order_table (of_item j) (marked status) db k there miss, same, done)
  ]

  pub update-Ordered :
      (id j status : Text) (db : sql.Db)
      → Ordered id db
      → Ordered id (update_ord_on_chain_status j status db).0
  unfolding update_ord_on_chain_status
  update-Ordered id j status db (k, there, same) = elim (Bool-cases (of_item j k)) [
    | inl hit ↦ elim (Result-cases (sql.update order_table (of_item j) (marked status) db).1) [
      | inl (u, h) ↦ (
        marked status k,
        subst (λ l. Memᴰ (marked status k) l)
            (sym (sql.update_ok order_table (of_item j) (marked status) db h))
            (Mem-change_to (of_item j) (marked status) (orders db) there hit),
        same,
      )
      | inr (e, h) ↦
          subst (λ d. Ordered id d)
            (sym (sql.update_err order_table (of_item j) (marked status) db h)) (k, there, same)
    ]
    | inr miss ↦ (k, Mem-update order_table (of_item j) (marked status) db k there miss, same)
  ]

  -- The update of the item's own orders.
  pub update-Processed_self :
      (id status : Text) (db : sql.Db)
      → OnChain status
      → Ordered id db
      → Processed id (update_ord_on_chain_status id status db).0 ⊎ UpdateFails id status db
  unfolding update_ord_on_chain_status
  update-Processed_self id status db good (k, there, same) =
      elim (Result-cases (sql.update order_table (of_item id) (marked status) db).1) [
        | inl (u, h) ↦ inl (
          marked status k,
          subst (λ l. Memᴰ (marked status k) l)
              (sym (sql.update_ok order_table (of_item id) (marked status) db h))
              (Mem-change_to (of_item id) (marked status) (orders db) there
                (rw same (text_eq_refl id))),
          same,
          good,
        )
        | inr (e, h) ↦ inr (e, h)
      ]

  processed_row-OnChain :
      (id : Text) (o : Order)
      → processed_row id o ≡ true
      → (o.item_id ≡ id) × OnChain o.on_chain_status
  processed_row-OnChain id o h =
      let b = both_true (text_eq o.item_id id) _ h in
      (
        (text_eq_iff o.item_id id).0 b.0,
        elim (Bool-cases (text_eq o.on_chain_status pending_on_chain)) [
          | inl y ↦ inl ((text_eq_iff o.on_chain_status pending_on_chain).0 y)
          | inr n ↦ inr ((text_eq_iff o.on_chain_status succ_on_chain).0 (let c = b.1 in rw n at c))
        ],
      )

  OnChain-processed_row :
      (id : Text) (o : Order)
      → o.item_id ≡ id
      → OnChain o.on_chain_status
      → processed_row id o ≡ true
  OnChain-processed_row id o same (inl s) =
      rw (same, text_eq_refl id, s, text_eq_refl pending_on_chain) refl
  OnChain-processed_row id o same (inr s) =
      rw (same, text_eq_refl id, s, text_eq_refl succ_on_chain)
        (or_true (text_eq succ_on_chain pending_on_chain))

  found-first : (rows : List Order) (od : Order) → found (first_row rows) ≡ some od → Memᴰ od rows
  unfolding found first_row
  found-first [] od h = absurd cc
  found-first (x ∷ rows) od h = Memᴰ.head cc

  pub exist_processed-some :
      (id : Text) (db : sql.Db) (od : Order)
      → exist_processed_order_item id db ≡ some od
      → (od.item_id ≡ id) × OnChain od.on_chain_status
  unfolding exist_processed_order_item found
  exist_processed-some id db od h =
      elim (Result-cases (sql.find order_table (processed_row id) db)) [
        | inl (rows, e) ↦
            processed_row-OnChain id od
              (find-Mem order_table (processed_row id) db od rows e
                (found-first rows od (rw (exist_processed_order_item, e) at h))).1
        | inr (e, failed) ↦ let k = rw (exist_processed_order_item, failed) at h in absurd cc
      ]

  found-none : (rows : List Order) (k : Order) → Memᴰ k rows → found (first_row rows) ≢ none
  unfolding found first_row
  found-none [] k m h = Memᴰ.not-nil m
  found-none (x ∷ rows) k m h = absurd cc

  pub none_on_chain :
      (id : Text) (db : sql.Db)
      → Processed id db
      → exist_processed_order_item id db ≡ none
      → QueryFails id db
  unfolding exist_processed_order_item found
  none_on_chain id db (k, there, same, done) h =
      elim (Result-cases (sql.find order_table (processed_row id) db)) [
        | inl (rows, e) ↦
            let m =
              subst (λ l. Memᴰ k l) (sym (sql.find_ok order_table (processed_row id) db rows e))
                (Mem-select (processed_row id) (orders db) there
                  (OnChain-processed_row id k same done)) in
            absurd (found-none rows k m (rw (exist_processed_order_item, e) at h))
        | inr (e, failed) ↦ (e, failed)
      ]
