-- ===== src/Orders/Wdb.antt =====
-- wdb.go: the queries and updates of the SQL database.
use arseeding.Prelude.{
  ℕ, zero, suc, ◌+◌, ◌*◌, Text, text_eq, Bool, true, false, not, ◌&&◌, ◌||◌, ◌==◌, ltb, Option,
  none, some, List, [], ◌∷◌, if◌then◌else◌,
}
use arseeding.Prelude.Maps.{Dict}
use arseeding.Effect.{Result, ok, err, record_not_found, bind_result, Eff}
use arseeding.Orders.Types.{
  Order, ReceiptEverTx, OnChainTx, AutoApiKey, order_table, receipt_table, on_chain_tx_table,
  api_key_table, SqlDb, wait_on_chain, pending_on_chain, succ_on_chain, failed_on_chain, un_payment,
  succ_payment, expired_payment, refund_err,
}

module _ {ℓ} {A : Type ℓ} where
  -- `First` of a query, which is in the order of the primary key
  unfoldable pub first_row : List A → Result A
  first_row [] = err record_not_found
  first_row (x ∷ rows) = ok x

  -- `Last` of a query
  unfoldable pub last_row : List A → Result A
  last_row [] = err record_not_found
  last_row (x ∷ []) = ok x
  last_row (x ∷ y ∷ rows) = last_row (y ∷ rows)

  -- `Limit` of a query
  unfoldable pub limit : ℕ → List A → List A
  limit zero rows = []
  limit (suc n) [] = []
  limit (suc n) (x ∷ rows) = x ∷ limit n rows

  -- the test `err == gorm.ErrRecordNotFound`
  unfoldable pub is_not_found : Result A → Bool
  is_not_found (err record_not_found) = true
  is_not_found _ = false

  -- `Scan` into a row that stays empty where none is found
  unfoldable pub found : Result A → Option A
  found (ok a) = some a
  found (err e) = none

-- what the network tells of a transaction's block is written where it is given
abbrev pub at_block : Option (Text × ℕ) → OnChainTx → OnChainTx
at_block none tx = tx
at_block (some (block_id, block_height)) tx = record tx {
  block_id = block_id;
  block_height = block_height;
}

module _ ⦃sql : SqlDb⦄ where
  unfoldable pub insert_order : Order → Eff sql.Db (Unit {0})
  insert_order order = sql.create order_table (λ id. record order { id = id })

  unfoldable pub get_un_paid_order : Text → sql.Db → Result Order
  get_un_paid_order item_id db =
      bind_result
        (sql.find order_table
          (λ o. text_eq o.item_id item_id && text_eq o.payment_status un_payment) db)
        last_row

  -- `now` is the time of the call, in seconds
  unfoldable pub get_expired_orders : ℕ → sql.Db → Result (List Order)
  get_expired_orders now db =
      sql.find order_table
        (λ o. text_eq o.payment_status un_payment && ltb o.payment_expired_time now) db

  unfoldable pub exist_paid_ord : Text → sql.Db → Bool
  exist_paid_ord item_id db = not (
      is_not_found (
        bind_result
          (sql.find order_table
            (λ o. text_eq o.item_id item_id && text_eq o.payment_status succ_payment) db)
          first_row))

  unfoldable pub is_latest_unpaid_ord : Text → ℕ → sql.Db → Bool
  is_latest_unpaid_ord item_id cur_expired_time db = is_not_found (
      bind_result
        (sql.find order_table
          (λ o.
            text_eq o.item_id item_id
            && text_eq o.payment_status un_payment
            && ltb cur_expired_time o.payment_expired_time)
          db)
        first_row)

  unfoldable pub update_ord_to_expired_status : ℕ → Eff sql.Db (Unit {0})
  update_ord_to_expired_status id =
      sql.update order_table (λ o. o.id == id)
        (λ o. record o { payment_status = expired_payment; on_chain_status = failed_on_chain })

  unfoldable pub update_order_pay : ℕ → Text → Text → Eff sql.Db (Unit {0})
  update_order_pay id ever_hash payment_status =
      sql.update order_table (λ o. o.id == id)
        (λ o. record o { payment_status = payment_status; payment_id = ever_hash })

  -- the two queries for the orders that go on chain
  abbrev to_chain : Bool → sql.Db → Result (List Order)
  to_chain sorted db =
      bind_result
        (sql.find order_table
          (λ o.
            text_eq o.payment_status succ_payment
            && text_eq o.on_chain_status wait_on_chain
            && (if sorted then o.sort else not o.sort))
          db)
        (λ rows. ok (limit 2000 rows))

  unfoldable pub get_need_on_chain_orders : sql.Db → Result (List Order)
  get_need_on_chain_orders = to_chain false

  unfoldable pub get_need_on_chain_orders_sorted : sql.Db → Result (List Order)
  get_need_on_chain_orders_sorted = to_chain true

  unfoldable pub update_ord_on_chain_status : Text → Text → Eff sql.Db (Unit {0})
  update_ord_on_chain_status item_id status =
      sql.update order_table (λ o. text_eq o.item_id item_id)
        (λ o. record o { on_chain_status = status })

  unfoldable pub exist_processed_order_item : Text → sql.Db → Option Order
  exist_processed_order_item item_id db = found (
      bind_result
        (sql.find order_table
          (λ o.
            text_eq o.item_id item_id
            && (text_eq o.on_chain_status pending_on_chain
                || text_eq o.on_chain_status succ_on_chain))
          db)
        first_row)

  -- `now` is in milliseconds; the receipts of the latest day
  unfoldable pub get_receipts_by_status : ℕ → Text → sql.Db → Result (List ReceiptEverTx)
  get_receipts_by_status now status db =
      sql.find receipt_table
        (λ r. text_eq r.status status && ltb now (r.nonce + 24 * 60 * 60 * 1000)) db

  unfoldable pub update_receipt_status : ℕ → Text → Eff sql.Db (Unit {0})
  update_receipt_status raw_id status =
      sql.update receipt_table (λ r. r.raw_id == raw_id) (λ r. record r { status = status })

  unfoldable pub update_refund_err : ℕ → Text → Eff sql.Db (Unit {0})
  update_refund_err raw_id err_msg =
      sql.update receipt_table (λ r. r.raw_id == raw_id)
        (λ r. record r { status = refund_err; err_msg = err_msg })

  unfoldable pub insert_ar_tx : OnChainTx → Eff sql.Db (Unit {0})
  insert_ar_tx tx = sql.create on_chain_tx_table (λ id. record tx { id = id })

  unfoldable pub get_ar_tx_by_status : Text → sql.Db → Result (List OnChainTx)
  get_ar_tx_by_status status db = sql.find on_chain_tx_table (λ tx. text_eq tx.status status) db

  unfoldable pub update_ar_tx_status : Text → Text → Option (Text × ℕ) → Eff sql.Db (Unit {0})
  update_ar_tx_status ar_id status ar_tx_status =
      sql.update on_chain_tx_table (λ tx. text_eq tx.ar_id ar_id)
        (λ tx. at_block ar_tx_status (record tx { status = status }))

  unfoldable pub update_ar_tx : ℕ → Text → ℕ → Text → Text → Text → Eff sql.Db (Unit {0})
  update_ar_tx id ar_id cur_height data_size reward status =
      sql.update on_chain_tx_table (λ tx. tx.id == id)
        (λ tx. record tx {
          ar_id = ar_id;
          cur_height = cur_height;
          data_size = data_size;
          reward = reward;
          status = status;
        })

  unfoldable pub insert_api_key : AutoApiKey → Eff sql.Db (Unit {0})
  insert_api_key ak = sql.create api_key_table (λ id. ak)

  unfoldable pub get_api_key_detail : Text → sql.Db → Result AutoApiKey
  get_api_key_detail key db =
      bind_result (sql.find api_key_table (λ ak. text_eq ak.api_key key) db) first_row

  unfoldable pub get_api_key_detail_by_address : Text → sql.Db → Result AutoApiKey
  get_api_key_detail_by_address addr db =
      bind_result (sql.find api_key_table (λ ak. text_eq ak.address addr) db) first_row

  -- The error of the query is read as "no such key".
  unfoldable pub exist_apikey : Text → sql.Db → Option AutoApiKey
  exist_apikey addr db = found (get_api_key_detail_by_address addr db)

  unfoldable pub update_apikey_token_bal : Text → Dict Text → Eff sql.Db (Unit {0})
  update_apikey_token_bal addr new_tok_bal =
      sql.update api_key_table (λ ak. text_eq ak.address addr)
        (λ ak. record ak { token_balance = new_tok_bal })
