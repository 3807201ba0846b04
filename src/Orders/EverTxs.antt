-- ===== src/Orders/EverTxs.antt =====
-- jobs.go and wdb.go: the payments to the node are recorded (`watchEverReceiptTxs`, `InsertReceiptTx`,
-- `GetLastEverRawId`).
use arseeding.Prelude.{ℕ, Text, text_eq, true, not, List, [], ◌∷◌, if◌then◌else◌}
use arseeding.Effect.{Result, ok, err, record_not_found, panic, bind_result, Eff}
use arseeding.Orders.Types.{ReceiptEverTx, receipt_table, SqlDb, un_spent}
use arseeding.Orders.Wdb.{first_row}
use arseeding.Orders.Lists.{order_by, raw_id_desc}
use arseeding.Orders.Submit.{Signers}

-- the transaction of everPay, the fields that are read
pub record EverTx : Type 0 where
  pub raw_id : ℕ
  pub to : Text
  pub from : Text
  pub json : Text  -- `Data`
  pub ever_hash : Text
  pub nonce : ℕ
  pub chain_type : Text
  pub token_symbol : Text
  pub token_id : Text
  pub amount : Text
  pub sig : Text

pub record EverPay : Type 0 where
  -- `json.Unmarshal` into a `PaymentMeta` and `json.Marshal` of it
  pub payment_meta : Text → Result Text
  -- `tokUtils.Tag`
  pub tag : Text → Text → Text → Text
  -- the transactions that `SubscribeTxs` delivers behind a cursor for an address
  pub subscribe_txs : ℕ → Text → List EverTx

module _ ⦃sql : SqlDb⦄ where
  -- a receipt with the hash of another one is left out
  unfoldable pub insert_receipt_tx : ReceiptEverTx → Eff sql.Db (Unit {0})
  insert_receipt_tx tx =
      sql.create_new receipt_table (λ r. text_eq r.ever_hash tx.ever_hash) (λ id. tx)

  abbrev pub raw_id_or_zero : Result ReceiptEverTx → Result ℕ
  raw_id_or_zero (ok tx) = ok tx.raw_id
  raw_id_or_zero (err record_not_found) = ok 0
  raw_id_or_zero (err e) = err e

  -- gorm's `Last` goes by the first column, since the table has no primary key.
  unfoldable pub get_last_ever_raw_id : sql.Db → Result ℕ
  get_last_ever_raw_id db = raw_id_or_zero (
      bind_result (sql.find receipt_table (λ r. true) db)
        (λ rows. first_row (order_by raw_id_desc rows)))

  module _ ⦃pay : EverPay⦄ where
    -- the receipt of a transaction, by its sender's id and the payment in its data
    unfoldable pub receipt_of : EverTx → Text → Text → ReceiptEverTx
    receipt_of ever_tx from new_data = record {
      raw_id = ever_tx.raw_id;
      ever_hash = ever_tx.ever_hash;
      nonce = ever_tx.nonce;
      symbol = ever_tx.token_symbol;
      token_tag = pay.tag ever_tx.chain_type ever_tx.token_symbol ever_tx.token_id;
      sender = from;
      amount = ever_tx.amount;
      json = new_data;
      sig = ever_tx.sig;
      status = un_spent;
      err_msg = [];
    }

    unfoldable pub receipt_from : ⦃k : Signers⦄ → EverTx → Result ReceiptEverTx
    receipt_from ⦃k = k⦄ tx =
        bind_result (k.id_check tx.from) λ from.
          bind_result (pay.payment_meta tx.json) λ new_data. ok (receipt_of tx from new_data)

    abbrev pub insert_found : Result ReceiptEverTx → sql.Db → sql.Db
    insert_found (ok receipt) db = (insert_receipt_tx receipt db).0
    insert_found (err e) db = db

    -- one round of the loop; errors are logged
    unfoldable pub receive_tx : ⦃k : Signers⦄ → Text → EverTx → sql.Db → sql.Db
    receive_tx bundler tx db =
        let received = insert_found (receipt_from tx) db in
        if not (text_eq tx.to bundler) then db else received

    unfoldable pub receive_txs : ⦃k : Signers⦄ → Text → List EverTx → sql.Db → sql.Db
    receive_txs bundler [] db = db
    receive_txs bundler (tx ∷ txs) db = receive_txs bundler txs (receive_tx bundler tx db)

    abbrev pub watch_from : ⦃k : Signers⦄ → Text → Result ℕ → sql.Db → sql.Db × Result (Unit {0})
    watch_from bundler (err e) db = (db, err panic)
    watch_from bundler (ok start_cursor) db =
        (receive_txs bundler (pay.subscribe_txs start_cursor bundler) db, ok tt)

    unfoldable pub watch_ever_receipt_txs : ⦃k : Signers⦄ → Text → Eff sql.Db (Unit {0})
    watch_ever_receipt_txs bundler db = watch_from bundler (get_last_ever_raw_id db) db
