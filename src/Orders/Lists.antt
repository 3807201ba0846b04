-- ===== src/Orders/Lists.antt =====
-- wdb.go: the queries for lists of orders and of deposits, page by page (`GetOrdersBySigner`,
-- `GetOrdersByApiKey`, `GetApiKeyDepositRecords`).
use arseeding.Prelude.{
  ℕ, zero, suc, ◌-◌, ◌^◌, Text, codes, text_eq, ◌≡◌, Bool, not, ◌&&◌, ltb, List, [], ◌∷◌,
  if◌then◌else◌,
}
use arseeding.Prelude.Int.{ℤ, pos, negsuc}
use arseeding.Effect.{Result, ok, err, panic, bind_result}
use arseeding.Orders.Types.{
  Order, ReceiptEverTx, order_table, receipt_table, SqlDb, BigInts, failed_on_chain,
}
use arseeding.Orders.Wdb.{limit}

-- gorm's `Limit`; what a limit of 0 means is its choice.
pub record QueryLimit : Type 1 where
  pub limited : {A : Type 0} → ℕ → List A → List A
  pub limited-suc : {A : Type 0} (n : ℕ) (rows : List A) → limited (suc n) rows ≡ limit (suc n) rows

-- `math.MaxInt64`
abbrev pub max_int64 : ℕ
max_int64 = 2 ^ 63 - 1

-- `Order` of a query: `before a b` tells that `a` comes first
module _ {A : Type 0} (before : A → A → Bool) where
  unfoldable pub insert_by : A → List A → List A
  insert_by x [] = x ∷ []
  insert_by x (y ∷ ys) = let rest = insert_by x ys in if before x y then x ∷ y ∷ ys else y ∷ rest

  unfoldable pub order_by : List A → List A
  order_by [] = []
  order_by (x ∷ xs) = insert_by x (order_by xs)

abbrev pub id_desc : Order → Order → Bool
id_desc a b = ltb b.id a.id

abbrev pub id_asc : Order → Order → Bool
id_asc a b = ltb a.id b.id

abbrev pub raw_id_desc : ReceiptEverTx → ReceiptEverTx → Bool
raw_id_desc a b = ltb b.raw_id a.raw_id

-- a cursor that is not positive means the first page
abbrev pub cursor_or : ℕ → ℤ → ℕ
cursor_or first (pos (suc n)) = suc n
cursor_or first (pos zero) = first
cursor_or first (negsuc n) = first

module _ ⦃sql : SqlDb⦄ ⦃lim : QueryLimit⦄ where
  -- The room for the result is made first, which panics at a negative number.
  abbrev pub page_of_rows : {A : Type 0} → (A → A → Bool) → ℤ → Result (List A) → Result (List A)
  page_of_rows before (negsuc n) found = err panic
  page_of_rows before (pos num) found =
      bind_result found (λ rows. ok (lim.limited num (order_by before rows)))

  abbrev pub of_signer : Text → Order → Bool
  of_signer signer o = text_eq o.signer signer && not (text_eq o.on_chain_status failed_on_chain)

  unfoldable pub get_orders_by_signer : Text → ℤ → ℤ → sql.Db → Result (List Order)
  get_orders_by_signer signer cursor_id num db = page_of_rows id_desc num (
      sql.find order_table (λ o. ltb o.id (cursor_or max_int64 cursor_id) && of_signer signer o) db)

  unfoldable pub get_orders_by_api_key :
      ⦃big : BigInts⦄ → Text → ℤ → ℤ → Text → sql.Db → Result (List Order)
  get_orders_by_api_key ⦃big⦄ api_key cursor_id page_size sort db =
      if text_eq (big.to_upper sort) (codes "ASC")
      then page_of_rows id_asc page_size (
          sql.find order_table (λ o. text_eq o.api_key api_key && ltb (cursor_or 0 cursor_id) o.id)
            db)
      else page_of_rows id_desc page_size (
          sql.find order_table
            (λ o. text_eq o.api_key api_key && ltb o.id (cursor_or max_int64 cursor_id)) db)

  -- `is_deposit` is the test of the JSON in the column `data`, which the database evaluates.
  unfoldable pub get_api_key_deposit_records :
      (Text → Bool) → Text → ℤ → ℤ → sql.Db → Result (List ReceiptEverTx)
  get_api_key_deposit_records is_deposit addr cursor_id num db = page_of_rows raw_id_desc num (
      sql.find receipt_table
        (λ r.
          ltb r.raw_id (cursor_or max_int64 cursor_id)
          && (text_eq r.sender addr && is_deposit r.json))
        db)
