-- ===== src/Orders/Plain.antt =====
-- Values of the interfaces for the tests: a list of rows for each table, where every call succeeds, and
-- numbers written in unary.
use arseeding.Prelude.{ℕ, ◌+◌, ◌≡◌, ◌≢◌, refl, some, List, [], ◌∷◌, ◌++◌, ltb, length}
use arseeding.Effect.{ok}
use arseeding.Orders.Types.{
  Order, ReceiptEverTx, OnChainTx, AutoApiKey, TableName, order_table, receipt_table,
  on_chain_tx_table, api_key_table, Row, select, change, add_new, SqlDb, BigInts,
}

pub record Tables : Type 0 where
  pub orders : List Order
  pub receipts : List ReceiptEverTx
  pub on_chain_txs : List OnChainTx
  pub api_keys : List AutoApiKey

abbrev rows_of : (t : TableName) → Tables → List (Row t)
rows_of order_table db = db.orders
rows_of receipt_table db = db.receipts
rows_of on_chain_tx_table db = db.on_chain_txs
rows_of api_key_table db = db.api_keys

abbrev with_rows : (t : TableName) → List (Row t) → Tables → Tables
with_rows order_table rows db = record db { orders = rows }
with_rows receipt_table rows db = record db { receipts = rows }
with_rows on_chain_tx_table rows db = record db { on_chain_txs = rows }
with_rows api_key_table rows db = record db { api_keys = rows }

pub rows_of-with_rows :
    (t : TableName) (rows : List (Row t)) (db : Tables) → rows_of t (with_rows t rows db) ≡ rows
rows_of-with_rows order_table rows db = refl
rows_of-with_rows receipt_table rows db = refl
rows_of-with_rows on_chain_tx_table rows db = refl
rows_of-with_rows api_key_table rows db = refl

pub rows_of-with_rows_other :
    (t s : TableName) (rows : List (Row t)) (db : Tables)
    → s ≢ t
    → rows_of s (with_rows t rows db) ≡ rows_of s db
rows_of-with_rows_other order_table order_table rows db ne = absurd (ne refl)
rows_of-with_rows_other order_table receipt_table rows db ne = refl
rows_of-with_rows_other order_table on_chain_tx_table rows db ne = refl
rows_of-with_rows_other order_table api_key_table rows db ne = refl
rows_of-with_rows_other receipt_table order_table rows db ne = refl
rows_of-with_rows_other receipt_table receipt_table rows db ne = absurd (ne refl)
rows_of-with_rows_other receipt_table on_chain_tx_table rows db ne = refl
rows_of-with_rows_other receipt_table api_key_table rows db ne = refl
rows_of-with_rows_other on_chain_tx_table order_table rows db ne = refl
rows_of-with_rows_other on_chain_tx_table receipt_table rows db ne = refl
rows_of-with_rows_other on_chain_tx_table on_chain_tx_table rows db ne = absurd (ne refl)
rows_of-with_rows_other on_chain_tx_table api_key_table rows db ne = refl
rows_of-with_rows_other api_key_table order_table rows db ne = refl
rows_of-with_rows_other api_key_table receipt_table rows db ne = refl
rows_of-with_rows_other api_key_table on_chain_tx_table rows db ne = refl
rows_of-with_rows_other api_key_table api_key_table rows db ne = absurd (ne refl)

-- The id of a new row is 0.
unfoldable pub plain_sql : SqlDb
plain_sql = record {
  Db = Tables;
  rows = rows_of;
  find = λ t p db. ok (select p (rows_of t db));
  update = λ t p f db. (with_rows t (change p f (rows_of t db)) db, ok tt);
  create = λ t row db. (with_rows t (rows_of t db ++ row 0 ∷ []) db, ok tt);
  create_new = λ t conflicts row db.
      (with_rows t (add_new (select conflicts (rows_of t db)) (row 0) (rows_of t db)) db, ok tt);
  commit = λ t db. (t, ok tt);
  find_ok = λ t p db found h. cc;
  find_err = λ t p db h. absurd cc;
  update_ok = λ t p f db h. rows_of-with_rows t (change p f (rows_of t db)) db;
  update_other = λ t p f db s ne. rows_of-with_rows_other t s (change p f (rows_of t db)) db ne;
  update_err = λ t p f db h. absurd cc;
  create_ok = λ t row db h. (0, rows_of-with_rows t (rows_of t db ++ row 0 ∷ []) db);
  create_other = λ t row db s ne. rows_of-with_rows_other t s (rows_of t db ++ row 0 ∷ []) db ne;
  create_err = λ t row db h. absurd cc;
  create_new_ok = λ t conflicts row db h. (
    0,
    rows_of-with_rows t (add_new (select conflicts (rows_of t db)) (row 0) (rows_of t db)) db,
  );
  create_new_other = λ t conflicts row db s ne.
      rows_of-with_rows_other t s (add_new (select conflicts (rows_of t db)) (row 0) (rows_of t db))
        db ne;
  create_new_err = λ t conflicts row db h. absurd cc;
  commit_ok = λ t db h. refl;
  commit_err = λ t db h. absurd cc;
}

unfoldable pub unary : BigInts
unary = record {
  Big = ℕ;
  zero_big = 0;
  add_big = λ a b. a + b;
  less_big = ltb;
  set_string = λ t. some (length t);
  to_upper = λ t. t;
}
