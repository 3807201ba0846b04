-- ===== src/Orders/Spending.antt =====
-- api.go: how `processApikeySpendBal` ends.
use arseeding.Prelude.{
  Text, text_eq, text_eq_refl, ◌≡◌, ◌≢◌, refl, ap, ◌∙◌, inl, inr, false, some, List, Bool-cases,
}
use arseeding.Prelude.Int.{ℤ}
use arseeding.Prelude.Maps.{Dict, lookup, insert, lookup-insert}
use arseeding.Effect.{Error, Result, ok, err, bind_result, bind_result-ok}
use arseeding.Fees.Types.{Decimals, Fee}
use arseeding.Orders.Types.{
  AutoApiKey, receipt_table, api_key_table, SqlDb, BigInts, receipts, change,
}
use arseeding.Orders.Wdb.{update_apikey_token_bal, get_api_key_detail}
use arseeding.Orders.ApiKeys.{
  left_balance, balance_of, fee_of, spent_balance, update_spent, spend_from,
  process_apikey_spend_bal,
}

pub receipt_not_key : receipt_table ≢ api_key_table
receipt_not_key h = absurd cc

pub key_not_receipt : api_key_table ≢ receipt_table
key_not_receipt h = absurd cc

-- the rows once a balance is written
abbrev pub with_balance : Text → Dict Text → List AutoApiKey → List AutoApiKey
with_balance addr balance rows =
    change (λ ak. text_eq ak.address addr) (λ ak. record ak { token_balance = balance }) rows

module _ ⦃sql : SqlDb⦄ where
  abbrev pub api_keys : sql.Db → List AutoApiKey
  api_keys db = sql.rows api_key_table db

  module _ ⦃dec : Decimals⦄ ⦃big : BigInts⦄ where
    -- The key pays the fee from its balance in the currency, which is enough for it.
    abbrev pub Spent : Dict Fee → Text → Text → ℤ → sql.Db → sql.Db → Type 0
    Spent per_fees currency apikey data_size db db' =
        (ak : AutoApiKey) × (balance : dec.Decimal) × (fee : dec.Decimal) × (left : Dict Text)
        × (get_api_key_detail apikey db ≡ ok ak)
        × (balance_of (lookup (big.to_upper currency) ak.token_balance) ≡ ok balance)
        × (fee_of per_fees currency data_size ≡ ok fee)
        × (dec.is_negative (dec.sub_decimal balance fee) ≡ false)
        × (balance_of (lookup (big.to_upper currency) left) ≡ ok (dec.sub_decimal balance fee))
        × (api_keys db' ≡ with_balance ak.address left (api_keys db))
        × (receipts db' ≡ receipts db)

    abbrev pub SpendEnds : Dict Fee → Text → Text → ℤ → sql.Db → sql.Db × Result (Unit {0}) → Type 0
    SpendEnds per_fees currency apikey data_size db (db', ok u) =
        Spent per_fees currency apikey data_size db db'
    SpendEnds per_fees currency apikey data_size db (db', err e) = db' ≡ db

    left_balance-ok :
        (balance fee left : dec.Decimal)
        → left_balance balance fee ≡ ok left
        → (dec.is_negative (dec.sub_decimal balance fee) ≡ false)
          × (left ≡ dec.sub_decimal balance fee)
    unfolding left_balance
    left_balance-ok balance fee left h =
        elim (Bool-cases (dec.is_negative (dec.sub_decimal balance fee))) [
          | inl short ↦ let k = rw (left_balance, short) at h in absurd cc
          | inr enough ↦ let k = rw (left_balance, enough) at h in (enough, cc)
        ]

    module _ (per_fees : Dict Fee) (currency apikey : Text) (data_size : ℤ) (db : sql.Db)
        (ak : AutoApiKey) (found : get_api_key_detail apikey db ≡ ok ak) where
      spent_balance-ok :
          (left : Dict Text)
          → spent_balance per_fees currency data_size ak ≡ ok left
          → (balance : dec.Decimal) × (fee : dec.Decimal) × (balance_of
                (lookup (big.to_upper currency) ak.token_balance)
              ≡ ok balance)
            × (fee_of per_fees currency data_size ≡ ok fee)
            × (dec.is_negative (dec.sub_decimal balance fee) ≡ false)
            × (balance_of (lookup (big.to_upper currency) left) ≡ ok (dec.sub_decimal balance fee))
      unfolding spent_balance
      spent_balance-ok left h =
          let symbol = big.to_upper currency in
          let (b, e1, h1) =
            bind_result-ok (balance_of (lookup symbol ak.token_balance))
              (λ b. bind_result (fee_of per_fees currency data_size) λ fee.
                bind_result (left_balance b fee)
                  λ l. ok (insert symbol (dec.decimal_string l) ak.token_balance))
              h in
          let (fee, e2, h2) =
            bind_result-ok (fee_of per_fees currency data_size)
              (λ f.
                bind_result (left_balance b f)
                  λ l. ok (insert symbol (dec.decimal_string l) ak.token_balance))
              h1 in
          let (l, e3, h3) =
            bind_result-ok (left_balance b fee)
              (λ l. ok (insert symbol (dec.decimal_string l) ak.token_balance)) h2 in
          let (enough, value) = left_balance-ok b fee l e3 in
          let written : left ≡ insert symbol (dec.decimal_string l) ak.token_balance = cc h3 in
          let read : lookup symbol left ≡ some (dec.decimal_string l) =
            ap (lookup symbol) written
            ∙ rw
                (
                  lookup-insert symbol symbol (dec.decimal_string l) ak.token_balance,
                  text_eq_refl symbol,
                )
                refl in
          (
            b,
            fee,
            e1,
            e2,
            enough,
            ap balance_of read ∙ dec.decimal_from_string-decimal_string l ∙ ap (λ x. ok x) value,
          )

      -- by what the update returned
      ends-by :
          (left : Dict Text) (out : sql.Db × Result (Unit {0}))
          → spent_balance per_fees currency data_size ak ≡ ok left
          → (out.1 ≡ ok tt
              → (api_keys out.0 ≡ with_balance ak.address left (api_keys db))
                × (receipts out.0 ≡ receipts db))
          → ((e : Error) → out.1 ≡ err e → out.0 ≡ db)
          → SpendEnds per_fees currency apikey data_size db out
      ends-by left (db', ok u) h good bad =
          let (b, fee, e1, e2, enough, value) = spent_balance-ok left h in
          (ak, b, fee, left, found, e1, e2, enough, value, (good refl).0, (good refl).1)
      ends-by left (db', err e) h good bad = bad e refl

      update_spent-ends :
          (r : Result (Dict Text))
          → spent_balance per_fees currency data_size ak ≡ r
          → SpendEnds per_fees currency apikey data_size db (update_spent ak r db)
      unfolding update_apikey_token_bal
      update_spent-ends (err e) h = refl
      update_spent-ends (ok left) h =
          let p = λ (k : AutoApiKey). text_eq k.address ak.address in
          let f = λ (k : AutoApiKey). record k { token_balance = left } in
          ends-by left (sql.update api_key_table p f db) h
            (λ done. (
              sql.update_ok api_key_table p f db done,
              sql.update_other api_key_table p f db receipt_table receipt_not_key,
            ))
            (λ e failed. sql.update_err api_key_table p f db failed)

    spend_from-ends :
        (per_fees : Dict Fee) (currency apikey : Text) (data_size : ℤ) (db : sql.Db)
        (r : Result AutoApiKey)
        → get_api_key_detail apikey db ≡ r
        → SpendEnds per_fees currency apikey data_size db
            (spend_from per_fees currency data_size r db)
    spend_from-ends per_fees currency apikey data_size db (err e) h = refl
    spend_from-ends per_fees currency apikey data_size db (ok ak) h =
        update_spent-ends per_fees currency apikey data_size db ak h
          (spent_balance per_fees currency data_size ak) refl

-- Where `process_apikey_spend_bal` returns an error, nothing is changed. Where it returns none, the key
-- had a balance in the currency from which the fee of the data can be taken without falling below zero,
-- and the rows of its address now hold the balance less the fee; no receipt is changed.
pub process_apikey_spend_bal-SpendEnds :
    ⦃sql : SqlDb⦄ ⦃dec : Decimals⦄ ⦃big : BigInts⦄ (per_fees : Dict Fee) (currency apikey : Text)
    (data_size : ℤ) (db : sql.Db)
    → SpendEnds per_fees currency apikey data_size db
        (process_apikey_spend_bal per_fees currency apikey data_size db)
unfolding process_apikey_spend_bal
process_apikey_spend_bal-SpendEnds per_fees currency apikey data_size db =
    spend_from-ends per_fees currency apikey data_size db (get_api_key_detail apikey db) refl
