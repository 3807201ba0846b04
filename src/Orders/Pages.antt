-- ===== src/Orders/Pages.antt =====
-- wdb.go: a client that follows the cursor of `GetOrdersBySigner` sees every order once.
use arseeding.Prelude.{
  ℕ, zero, suc, ◌≡◌, refl, ◌<◌, ap, ◌∙◌, sym, subst, arith, Text, Bool, true, ◌&&◌, ltb, lt→ltb,
  length, All, List, [], ◌∷◌, ◌++◌,
}
use arseeding.Prelude.Int.{pos}
use arseeding.Prelude.Slices.{drop}
use arseeding.Effect.{Result, ok, bind_result}
use arseeding.Orders.Types.{Order, order_table, orders, select, SqlDb}
use arseeding.Orders.Wdb.{limit}
use arseeding.Orders.Lists.{
  QueryLimit, order_by, id_desc, of_signer, get_orders_by_signer, cursor_or, max_int64,
}
use arseeding.Orders.Descending.{
  IsDescending, HasKeys, All-mono, All-select, All-order_by, order_by-IsDescending, order_by-select,
  select-IsDescending, HasKeys-select,
}
use arseeding.Orders.Selecting.{
  last_of, last_id, under, select-&&, select-weaker, select_passing, All-last, All-limit,
  under-last, limit-++-drop, length-drop-le, length-select, length-order_by, from_id, trans_under,
  All-pass,
}

abbrev pub and_rest : List Order → Result (List Order) → Result (List Order)
and_rest [] rest = ok []
and_rest (x ∷ xs) rest = bind_result rest (λ others. ok (x ∷ xs ++ others))

-- the pages of `suc n` orders from a cursor on, the next cursor being the last id of a page, up to an
-- empty page
unfoldable pub all_pages :
    ⦃sql : SqlDb⦄ ⦃lim : QueryLimit⦄ → Text → ℕ → ℕ → ℕ → sql.Db → Result (List Order)
all_pages signer n zero cursor db = ok []
all_pages signer n (suc fuel) cursor db =
    bind_result (get_orders_by_signer signer (pos cursor) (pos (suc n)) db)
      (λ page. and_rest page (all_pages signer n fuel (last_id page) db))

-- ids as the database assigns them
abbrev pub IsId : Order → Type 0
IsId o = (0 < o.id) × (o.id < max_int64)

module _ ⦃sql : SqlDb⦄ ⦃lim : QueryLimit⦄ (signer : Text) (n : ℕ) (db : sql.Db)
    (keys : HasKeys (orders db)) (ids : All IsId (orders db))
    (finds : (p : Order → Bool) → sql.find order_table p db ≡ ok (select p (orders db))) where
  -- the orders of the signer, in descending order
  abbrev of_all : List Order
  of_all = order_by id_desc (select (of_signer signer) (orders db))

  abbrev from : ℕ → ℕ
  from cursor = cursor_or max_int64 (pos cursor)

  page-at :
      (cursor : ℕ)
      → get_orders_by_signer signer (pos cursor) (pos (suc n)) db
        ≡ ok (limit (suc n) (select (under (from cursor)) of_all))
  unfolding get_orders_by_signer
  page-at cursor =
      let mine = select (of_signer signer) (orders db) in
      rw
        (
          finds (λ o. ltb o.id (from cursor) && of_signer signer o),
          lim.limited-suc n (
              order_by id_desc
                (select (λ o. ltb o.id (from cursor) && of_signer signer o) (orders db))),
          select-&& (under (from cursor)) (of_signer signer) (orders db),
          order_by-select (under (from cursor)) mine
              (HasKeys-select (of_signer signer) (orders db) keys),
        )
        refl

  of_all-IsDescending : IsDescending of_all
  of_all-IsDescending =
      order_by-IsDescending (select (of_signer signer) (orders db))
        (HasKeys-select (of_signer signer) (orders db) keys)

  of_all-IsId : All IsId of_all
  of_all-IsId =
      All-order_by IsId (select (of_signer signer) (orders db))
        (All-select IsId (of_signer signer) (orders db) ids)

  all_pages-from :
      (fuel cursor : ℕ) (rows : List Order)
      → select (under (from cursor)) of_all ≡ rows
      → length rows < fuel
      → all_pages signer n fuel cursor db ≡ ok rows
  unfolding all_pages limit
  all_pages-from zero cursor rows e h = absurd (omega arith)
  all_pages-from (suc fuel) cursor [] e h = rw (page-at cursor, e) refl
  all_pages-from (suc fuel) cursor (x ∷ xs) e h =
      let last = last_of x (limit n xs) in
      let passed : All (λ o. under (from cursor) o ≡ true) (x ∷ xs) =
        subst (All (λ o. under (from cursor) o ≡ true)) e (All-pass (under (from cursor)) of_all) in
      let is_ids : All IsId (x ∷ xs) =
        subst (All IsId) e (All-select IsId (under (from cursor)) of_all of_all-IsId) in
      let descending : IsDescending (x ∷ xs) =
        subst IsDescending e
          (select-IsDescending (under (from cursor)) of_all of_all-IsDescending) in
      let last_under : under (from cursor) last ≡ true =
        All-last (λ o. under (from cursor) o ≡ true) x (limit n xs) passed.0
          (All-limit (λ o. under (from cursor) o ≡ true) n xs passed.1) in
      let last_id : IsId last =
        All-last IsId x (limit n xs) is_ids.0 (All-limit IsId n xs is_ids.1) in
      let next : from last.id ≡ last.id = from_id last.id last_id.0 in
      let behind : select (under (from last.id)) of_all ≡ drop n xs =
        ap (λ c. select (under c) of_all) next
        ∙ sym (
            select-weaker (under last.id) (under (from cursor)) of_all
              (λ o lower. trans_under o.id last.id (from cursor) lower last_under))
        ∙ ap (select (under last.id)) e
        ∙ under-last n x xs descending in
      rw
        (
          page-at cursor,
          e,
          all_pages-from fuel last.id (drop n xs) behind (omega (arith, length-drop-le n xs)),
          limit-++-drop n xs,
        )
        refl

-- Following the cursor of `get_orders_by_signer` from its first page, with pages of any size from 1 on,
-- up to an empty page, lists all orders of the signer that are not failed, in descending order of their
-- ids, each of them once, in at most one page for each order and one more. The queries succeed, nothing
-- is written meanwhile, and the ids are different, positive and below the greatest int64.
pub all_pages-order_by :
    ⦃sql : SqlDb⦄ ⦃lim : QueryLimit⦄ (signer : Text) (n : ℕ) (db : sql.Db)
    → HasKeys (orders db)
    → All IsId (orders db)
    → ((p : Order → Bool) → sql.find order_table p db ≡ ok (select p (orders db)))
    → (fuel : ℕ) → length (orders db) < fuel
    → all_pages signer n fuel 0 db ≡ ok (order_by id_desc (select (of_signer signer) (orders db)))
all_pages-order_by signer n db keys ids finds fuel h =
    let rows = order_by id_desc (select (of_signer signer) (orders db)) in
    all_pages-from signer n db keys ids finds fuel 0 rows
      (select_passing (under max_int64) rows
        (All-mono (λ o i. lt→ltb o.id max_int64 i.1) rows (of_all-IsId signer n db keys ids finds)))
      (omega (
        arith,
        length-order_by (select (of_signer signer) (orders db)),
        length-select (of_signer signer) (orders db),
      ))
