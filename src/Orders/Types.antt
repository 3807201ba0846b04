-- ===== src/Orders/Types.antt =====
-- schema/db.go, and the interface of the SQL database as gorm reads and writes it.
use arseeding.Prelude.{
  ℕ, ◌*◌, Text, Bytes, codes, Bool, ◌≡◌, ◌≢◌, Option, List, [], ◌∷◌, ◌++◌, if◌then◌else◌,
}
use arseeding.Prelude.Maps.{Dict}
use arseeding.Effect.{Error, Result, ok, err, record_not_found, Eff}

-- OnChainStatus
abbrev pub wait_on_chain : Text
wait_on_chain = codes "waiting"

abbrev pub pending_on_chain : Text
pending_on_chain = codes "pending"

abbrev pub succ_on_chain : Text
succ_on_chain = codes "success"

abbrev pub failed_on_chain : Text
failed_on_chain = codes "failed"

abbrev pub un_payment : Text
un_payment = codes "unpaid"

abbrev pub succ_payment : Text
succ_payment = codes "paid"

abbrev pub expired_payment : Text
expired_payment = codes "expired"

abbrev pub un_spent : Text
un_spent = codes "unspent"

abbrev pub spent : Text
spent = codes "spent"

abbrev pub un_refund : Text
un_refund = codes "unrefund"

abbrev pub refunded : Text
refunded = codes "refunded"

abbrev pub refund_err : Text
refund_err = codes "refundErr"

-- 2 GB
abbrev pub max_per_on_chain_size : ℕ
max_per_on_chain_size = 2 * 1024 * 1024 * 1024

-- the columns that the jobs read and write; sizes and times are int64, and never negative
pub record Order : Type 0 where
  pub id : ℕ
  pub item_id : Text
  pub signer : Text
  pub sign_type : ℕ
  pub size : ℕ
  pub currency : Text
  pub decimals : ℕ
  pub fee : Text
  pub payment_expired_time : ℕ
  pub expected_block : ℕ
  pub payment_status : Text
  pub payment_id : Text
  pub on_chain_status : Text
  pub api_key : Text
  pub sort : Bool
  pub kafka : Bool

pub record ReceiptEverTx : Type 0 where
  pub raw_id : ℕ
  pub ever_hash : Text
  pub nonce : ℕ  -- ms
  pub symbol : Text
  pub token_tag : Text
  pub sender : Text  -- `From`
  pub amount : Text
  pub json : Text  -- `Data`
  pub sig : Text
  pub status : Text
  pub err_msg : Text

pub record OnChainTx : Type 0 where
  pub id : ℕ
  pub ar_id : Text
  pub cur_height : ℕ
  pub block_id : Text
  pub block_height : ℕ
  pub data_size : Text
  pub reward : Text
  pub status : Text
  pub item_ids : Bytes  -- json.Marshal of the ids
  pub item_num : ℕ
  pub kafka : Bool

pub record AutoApiKey : Type 0 where
  pub api_key : Text
  pub pub_key : Text
  pub address : Text
  pub encrypted_key : Text
  pub token_balance : Dict Text

pub data TableName : Type 0 where
  order_table receipt_table on_chain_tx_table api_key_table : TableName

abbrev pub Row : TableName → Type 0
Row order_table = Order
Row receipt_table = ReceiptEverTx
Row on_chain_tx_table = OnChainTx
Row api_key_table = AutoApiKey

module _ {ℓ} {A : Type ℓ} where
  -- the rows with a condition
  unfoldable pub select : (A → Bool) → List A → List A
  select p [] = []
  select p (x ∷ xs) = let rest = select p xs in if p x then x ∷ rest else rest

  -- the rows with a condition changed
  unfoldable pub change : (A → Bool) → (A → A) → List A → List A
  change p f [] = []
  change p f (x ∷ xs) = (if p x then f x else x) ∷ change p f xs

  -- the rows with one more, unless there is one that it conflicts with
  abbrev pub add_new : List A → A → List A → List A
  add_new [] x rows = rows ++ x ∷ []
  add_new (y ∷ conflicting) x rows = rows

-- A query or an update may fail; an update that fails changes nothing. A row that is created takes the
-- id that the database assigns. A transaction works on a copy of the database, which takes its place
-- when the commit succeeds.
pub record SqlDb : Type 1 where
  pub Db : Type 0
  pub rows : (t : TableName) → Db → List (Row t)
  pub find : (t : TableName) → (Row t → Bool) → Db → Result (List (Row t))
  pub update : (t : TableName) → (Row t → Bool) → (Row t → Row t) → Eff Db (Unit {0})
  pub create : (t : TableName) → (ℕ → Row t) → Eff Db (Unit {0})
  -- `OnConflict{DoNothing: true}`, by the rows that a new one conflicts with
  pub create_new : (t : TableName) → (Row t → Bool) → (ℕ → Row t) → Eff Db (Unit {0})
  pub commit : Db → Eff Db (Unit {0})
  pub find_ok :
      (t : TableName) (p : Row t → Bool) (db : Db) (found : List (Row t))
      → find t p db ≡ ok found
      → found ≡ select p (rows t db)
  -- `Find` returns no row without an error.
  pub find_err : (t : TableName) (p : Row t → Bool) (db : Db) → find t p db ≢ err record_not_found
  pub update_ok :
      (t : TableName) (p : Row t → Bool) (f : Row t → Row t) (db : Db)
      → (update t p f db).1 ≡ ok tt
      → rows t (update t p f db).0 ≡ change p f (rows t db)
  pub update_other :
      (t : TableName) (p : Row t → Bool) (f : Row t → Row t) (db : Db) (s : TableName)
      → s ≢ t
      → rows s (update t p f db).0 ≡ rows s db
  pub update_err :
      (t : TableName) (p : Row t → Bool) (f : Row t → Row t) (db : Db) {e : Error}
      → (update t p f db).1 ≡ err e
      → (update t p f db).0 ≡ db
  pub create_ok :
      (t : TableName) (row : ℕ → Row t) (db : Db)
      → (create t row db).1 ≡ ok tt
      → (id : ℕ) × (rows t (create t row db).0 ≡ rows t db ++ row id ∷ [])
  pub create_other :
      (t : TableName) (row : ℕ → Row t) (db : Db) (s : TableName)
      → s ≢ t
      → rows s (create t row db).0 ≡ rows s db
  pub create_err :
      (t : TableName) (row : ℕ → Row t) (db : Db) {e : Error}
      → (create t row db).1 ≡ err e
      → (create t row db).0 ≡ db
  pub create_new_ok :
      (t : TableName) (conflicts : Row t → Bool) (row : ℕ → Row t) (db : Db)
      → (create_new t conflicts row db).1 ≡ ok tt
      → (id : ℕ) × (rows t (create_new t conflicts row db).0
          ≡ add_new (select conflicts (rows t db)) (row id) (rows t db))
  pub create_new_other :
      (t : TableName) (conflicts : Row t → Bool) (row : ℕ → Row t) (db : Db) (s : TableName)
      → s ≢ t
      → rows s (create_new t conflicts row db).0 ≡ rows s db
  pub create_new_err :
      (t : TableName) (conflicts : Row t → Bool) (row : ℕ → Row t) (db : Db) {e : Error}
      → (create_new t conflicts row db).1 ≡ err e
      → (create_new t conflicts row db).0 ≡ db
  pub commit_ok : (t db : Db) → (commit t db).1 ≡ ok tt → (commit t db).0 ≡ t
  pub commit_err : (t db : Db) {e : Error} → (commit t db).1 ≡ err e → (commit t db).0 ≡ db

module _ ⦃sql : SqlDb⦄ where
  abbrev pub orders : sql.Db → List Order
  orders db = sql.rows order_table db

  abbrev pub receipts : sql.Db → List ReceiptEverTx
  receipts db = sql.rows receipt_table db

-- math/big and strings
pub record BigInts : Type 1 where
  pub Big : Type 0
  pub zero_big : Big
  pub add_big : Big → Big → Big
  pub less_big : Big → Big → Bool
  -- `SetString` at base 10
  pub set_string : Text → Option Big
  pub to_upper : Text → Text
