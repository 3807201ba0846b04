-- ===== src/Tests/Accounts.antt =====
-- Receipts, API keys and fees at small inputs.
use mathlib.Core.List.{Memᴰ}
use arseeding.Prelude.{
  ℕ, ◌+◌, ◌*◌, ◌^◌, ◌<◌, ◌≤◌, ◌≡◌, ◌≢◌, refl, some, codes, text_eq, List, [], ◌∷◌, arith,
}
use arseeding.Prelude.Int.{pos}
use arseeding.Prelude.Maps.{Dict}
use arseeding.Effect.{Result, ok, err, not_exist}
use arseeding.Fees.Types.{ArFee, Fee}
use arseeding.Fees.Price.{max_chunk_size, fee_chunks, calculate_price}
use arseeding.Fees.Chunks.{calculate_price-least}
use arseeding.Fees.Plain.{naturals}
use arseeding.Orders.Types.{
  AutoApiKey, ReceiptEverTx, receipts, un_refund, refund_err, select, change,
}
use arseeding.Orders.Wdb.{get_receipts_by_status, update_receipt_status, update_refund_err}
use arseeding.Orders.Plain.{plain_sql, unary}
use arseeding.Orders.ApiKeys.{KeyMaker, process_pay_apikey, process_apikey_spend_bal}
use arseeding.Orders.Receipts.{refund_receipt, refund_rows, refund_one}
use arseeding.Orders.Refunded.{refund_receipt-once}
use arseeding.Orders.Spending.{SpendEnds, process_apikey_spend_bal-SpendEnds}
use arseeding.Orders.Credited.{PayEnds, process_pay_apikey-PayEnds}
use arseeding.Tests.Orders.{receipt, tables}

abbrev one_key : KeyMaker
one_key = record {
  address_of = λ t. t;
  new_uuid = ok (codes "key");
  ecrecover_pubkey = λ hash sig. ok (codes "pub");
  encrypt_for = λ public key. ok key;
}

-- a balance of 10
abbrev account : AutoApiKey
account = record {
  api_key = codes "key";
  pub_key = codes "pub";
  address = codes "sender";
  encrypted_key = codes "key";
  token_balance = (codes "AR", 10 ∷ []) ∷ [];
}

abbrev accounts : plain_sql.Db
unfolding plain_sql
accounts = record (tables [] (receipt un_refund ∷ [])) { api_keys = account ∷ [] }

abbrev per_fees : Dict (Fee ⦃dec = naturals⦄)
unfolding naturals
per_fees =
    (codes "AR", record { currency = codes "AR"; decimals = 12; base = some 3; per_chunk = some 2 })
    ∷ []

process_apikey_spend_bal-SpendEnds_example :
    SpendEnds ⦃sql = plain_sql⦄ ⦃dec = naturals⦄ ⦃big = unary⦄ per_fees
      (codes "AR")
      (codes "key")
      (pos 5)
      accounts
      (process_apikey_spend_bal ⦃sql = plain_sql⦄ ⦃dec = naturals⦄ ⦃big = unary⦄ per_fees
        (codes "AR")
        (codes "key")
        (pos 5)
        accounts)
process_apikey_spend_bal-SpendEnds_example =
    process_apikey_spend_bal-SpendEnds ⦃sql = plain_sql⦄ ⦃dec = naturals⦄ ⦃big = unary⦄ per_fees
      (codes "AR") (codes "key") (pos 5) accounts

process_pay_apikey-PayEnds_example :
    PayEnds ⦃sql = plain_sql⦄ ⦃dec = naturals⦄ ⦃big = unary⦄ ⦃keys = one_key⦄
      (receipt un_refund)
      accounts
      (process_pay_apikey ⦃sql = plain_sql⦄ ⦃dec = naturals⦄ ⦃big = unary⦄ ⦃keys = one_key⦄
        (receipt un_refund)
        accounts)
process_pay_apikey-PayEnds_example =
    process_pay_apikey-PayEnds ⦃sql = plain_sql⦄ ⦃dec = naturals⦄ ⦃big = unary⦄ ⦃keys = one_key⦄
      (receipt un_refund) accounts

-- Every transfer fails.
abbrev failing : ReceiptEverTx → unary.Big → Result (Unit {0})
failing rpt amount = err not_exist

abbrev refunding : plain_sql.Db × List ReceiptEverTx
refunding =
    refund_receipt ⦃sql = plain_sql⦄ ⦃big = unary⦄ failing (λ rpt. codes "failed") 2000 accounts

transfer_sent : Memᴰ (receipt un_refund) refunding.1
unfolding unary accounts plain_sql refund_receipt refund_rows refund_one get_receipts_by_status
    update_receipt_status update_refund_err select change text_eq
transfer_sent = Memᴰ.head refl

-- the receipt after the transfer
abbrev marked : ReceiptEverTx
marked = record (receipt refund_err) { err_msg = codes "failed" }

marked_there : Memᴰ marked (receipts ⦃sql = plain_sql⦄ refunding.0)
unfolding unary accounts plain_sql refund_receipt refund_rows refund_one get_receipts_by_status
    update_receipt_status update_refund_err select change text_eq
marked_there = Memᴰ.head refl

refund_receipt-once_example : refund_err ≢ un_refund
refund_receipt-once_example =
    refund_receipt-once ⦃sql = plain_sql⦄ ⦃big = unary⦄ failing (λ rpt. codes "failed") 2000
      accounts (receipt un_refund) transfer_sent marked marked_there refl

abbrev ar_fee : ArFee
ar_fee = record { base = 100; per_chunk = 7 }

price_small : 100 + fee_chunks (pos 300000) * 7 < 2 ^ 63
unfolding fee_chunks
price_small = omega arith

calculate_price-least_example :
    (k : ℕ) × (calculate_price ar_fee (pos 300000) ≡ pos (100 + k * 7))
    × (300000 ≤ k * max_chunk_size)
    × (k * max_chunk_size < 300000 + max_chunk_size)
calculate_price-least_example = calculate_price-least ar_fee 300000 price_small
