-- ===== src/Orders/ApiKeys.antt =====
-- jobs.go and api.go: the balance of an API key is paid in and spent (`processPayApikey`,
-- `processApikeySpendBal`).
use arseeding.Prelude.{Text, codes, text_eq, Option, none, some, [], ◌∷◌, if◌then◌else◌}
use arseeding.Prelude.Int.{ℤ}
use arseeding.Prelude.Maps.{Dict, lookup, insert}
use arseeding.Effect.{Result, ok, err, other, bind_result, Eff}
use arseeding.Fees.Types.{Decimals, Fee}
use arseeding.Fees.Price.{calc_item_fee}
use arseeding.Orders.Types.{AutoApiKey, ReceiptEverTx, SqlDb, BigInts, spent, un_refund}
use arseeding.Orders.Wdb.{
  exist_apikey, insert_api_key, update_apikey_token_bal, update_receipt_status, get_api_key_detail,
}

-- the functions on keys of go-ethereum and google/uuid
pub record KeyMaker : Type 0 where
  -- `common.HexToAddress(from).String()`
  pub address_of : Text → Text
  pub new_uuid : Result Text
  -- `ecrecoverPubkey`, and `ecies.Encrypt` under the key that it returns, in hexadecimal
  pub ecrecover_pubkey : Text → Text → Result Text
  pub encrypt_for : Text → Text → Result Text

module _ ⦃dec : Decimals⦄ where
  -- `NewFromString` with its error dropped
  abbrev pub decimal_or_zero : Result dec.Decimal → dec.Decimal
  decimal_or_zero (ok d) = d
  decimal_or_zero (err e) = dec.zero_decimal

  unfoldable pub add_balance : Option Text → Text → Text
  add_balance (some old) amount = dec.decimal_string (
      dec.add_decimal (decimal_or_zero (dec.decimal_from_string amount))
        (decimal_or_zero (dec.decimal_from_string old)))
  add_balance none amount = amount

  unfoldable pub add_token : Text → Text → Dict Text → Dict Text
  add_token symbol amount balance =
      insert symbol (add_balance (lookup symbol balance) amount) balance

module _ ⦃sql : SqlDb⦄ ⦃dec : Decimals⦄ ⦃big : BigInts⦄ ⦃keys : KeyMaker⦄ where
  -- the row for the first payment of an address
  unfoldable pub new_apikey : ReceiptEverTx → Result AutoApiKey
  new_apikey urtx = bind_result keys.new_uuid λ key.
      bind_result (keys.ecrecover_pubkey urtx.ever_hash urtx.sig) λ public.
        bind_result (keys.encrypt_for public key) λ encrypted. ok (record {
          api_key = key;
          pub_key = public;
          address = keys.address_of urtx.sender;
          encrypted_key = encrypted;
          token_balance = (big.to_upper urtx.symbol, urtx.amount) ∷ [];
        })

  unfoldable pub insert_apikey : Result AutoApiKey → Eff sql.Db (Unit {0})
  insert_apikey (ok ak) = insert_api_key ak
  insert_apikey (err e) = λ db. (db, err e)

  unfoldable pub credit : ReceiptEverTx → Option AutoApiKey → Eff sql.Db (Unit {0})
  credit urtx none = insert_apikey (new_apikey urtx)
  credit urtx (some ak) =
      update_apikey_token_bal (keys.address_of urtx.sender)
        (add_token (big.to_upper urtx.symbol) urtx.amount ak.token_balance)

  -- The status of the receipt is a second update, outside any transaction.
  unfoldable pub spend_receipt :
      ReceiptEverTx → sql.Db × Result (Unit {0}) → sql.Db × Result (Unit {0})
  spend_receipt urtx (db, err e) = (db, err e)
  spend_receipt urtx (db, ok u) = update_receipt_status urtx.raw_id spent db

  unfoldable pub process_pay_apikey : ReceiptEverTx → Eff sql.Db (Unit {0})
  process_pay_apikey urtx db =
      if text_eq urtx.amount (codes "0")
      then (
        (update_receipt_status urtx.raw_id un_refund db).0,
        err (other (codes "amount can not be 0")),
      )
      else spend_receipt urtx (credit urtx (exist_apikey (keys.address_of urtx.sender) db) db)

module _ ⦃sql : SqlDb⦄ ⦃dec : Decimals⦄ ⦃big : BigInts⦄ where
  -- `processApikeySpendBal`: the balance that is left
  unfoldable pub left_balance : dec.Decimal → dec.Decimal → Result dec.Decimal
  left_balance balance fee =
      let left = dec.sub_decimal balance fee in
      if dec.is_negative left then err (other (codes "balance is insufficient")) else ok left

  abbrev pub balance_of : Option Text → Result dec.Decimal
  balance_of none = err (other (codes "apiKey not the currency balance"))
  balance_of (some text) = dec.decimal_from_string text

  abbrev pub fee_of : Dict Fee → Text → ℤ → Result dec.Decimal
  fee_of per_fees currency data_size =
      bind_result (calc_item_fee big.to_upper per_fees currency data_size)
        (λ fee. dec.decimal_from_string fee.final_fee)

  unfoldable pub spent_balance : Dict Fee → Text → ℤ → AutoApiKey → Result (Dict Text)
  spent_balance per_fees currency data_size ak =
      bind_result (balance_of (lookup (big.to_upper currency) ak.token_balance)) λ balance.
        bind_result (fee_of per_fees currency data_size) λ fee.
          bind_result (left_balance balance fee)
            λ left. ok (insert (big.to_upper currency) (dec.decimal_string left) ak.token_balance)

  abbrev pub update_spent : AutoApiKey → Result (Dict Text) → Eff sql.Db (Unit {0})
  update_spent ak (ok balance) = update_apikey_token_bal ak.address balance
  update_spent ak (err e) = λ db. (db, err e)

  abbrev pub spend_from : Dict Fee → Text → ℤ → Result AutoApiKey → Eff sql.Db (Unit {0})
  spend_from per_fees currency data_size (err e) = λ db. (db, err e)
  spend_from per_fees currency data_size (ok ak) =
      update_spent ak (spent_balance per_fees currency data_size ak)

  unfoldable pub process_apikey_spend_bal : Dict Fee → Text → Text → ℤ → Eff sql.Db (Unit {0})
  process_apikey_spend_bal per_fees currency apikey data_size db =
      spend_from per_fees currency data_size (get_api_key_detail apikey db) db
