-- ===== src/Rawdb/Interface.antt =====
-- The interface `KeyValueDB` of rawdb/database.go with its laws.
use arseeding.Prelude.{ℕ, Text, Bytes, text_eq, Bool, true, ◌&&◌, ◌≡◌, List, ◌==◌, if◌then◌else◌}
use arseeding.Effect.{Error, Result, ok, err, is_ok, Eff}

-- schema/store.go
pub data Bucket : Type 0 where
  chunk_bucket tx_data_end_offset_bucket tx_meta_bucket constants_bucket : Bucket
  task_id_pending_pool_bucket task_bucket : Bucket
  bundle_item_binary bundle_item_meta : Bucket
  bundle_wait_parse_ar_id_bucket bundle_ar_id_to_item_ids_bucket statistic_bucket : Bucket

abbrev pub bucket_number : Bucket → ℕ
bucket_number chunk_bucket = 0
bucket_number tx_data_end_offset_bucket = 1
bucket_number tx_meta_bucket = 2
bucket_number constants_bucket = 3
bucket_number task_id_pending_pool_bucket = 4
bucket_number task_bucket = 5
bucket_number bundle_item_binary = 6
bucket_number bundle_item_meta = 7
bucket_number bundle_wait_parse_ar_id_bucket = 8
bucket_number bundle_ar_id_to_item_ids_bucket = 9
bucket_number statistic_bucket = 10

abbrev pub place_eq : ℕ → Text → ℕ → Text → Bool
place_eq m k n k' = (m == n) && text_eq k k'

-- Whether two places, each a bucket and a key, are one.
abbrev pub same_place : Bucket → Text → Bucket → Text → Bool
same_place b k b' k' = place_eq (bucket_number b) k (bucket_number b') k'

pub record KeyValueDb : Type 1 where
  pub Db : Type 0
  pub put : Bucket → Text → Bytes → Eff Db (Unit {0})
  -- Every read of one state has one answer.
  pub get : Bucket → Text → Db → Result Bytes
  -- the error of `Get` for a key that is not there: `ErrNotExist`, or that of the driver
  pub missing : Error
  pub get_all_key : Bucket → Db → Result (List Text)
  pub delete : Bucket → Text → Eff Db (Unit {0})
  pub exist : Bucket → Text → Db → Bool
  -- `Type() == S3Type`, and the content of the file that `GetStream` returns
  pub is_s3 : Bool
  pub get_stream : Bucket → Text → Db → Result Bytes
  pub get-put :
      (b : Bucket) (k : Text) (v : Bytes) (db : Db) (b' : Bucket) (k' : Text)
      → (put b k v db).1 ≡ ok tt
      → get b' k' (put b k v db).0 ≡ (if same_place b k b' k' then ok v else get b' k' db)
  pub get-put_err :
      (b : Bucket) (k : Text) (v : Bytes) (db : Db) (b' : Bucket) (k' : Text) {e : Error}
      → (put b k v db).1 ≡ err e
      → get b' k' (put b k v db).0 ≡ get b' k' db
  pub get-delete :
      (b : Bucket) (k : Text) (db : Db) (b' : Bucket) (k' : Text)
      → (delete b k db).1 ≡ ok tt
      → get b' k' (delete b k db).0 ≡ (if same_place b k b' k' then err missing else get b' k' db)
  pub get-delete_err :
      (b : Bucket) (k : Text) (db : Db) (b' : Bucket) (k' : Text) {e : Error}
      → (delete b k db).1 ≡ err e
      → get b' k' (delete b k db).0 ≡ get b' k' db
  pub get_stream-get :
      (b : Bucket) (k : Text) (db : Db) → is_s3 ≡ true → get_stream b k db ≡ get b k db
  pub exist_lem : (b : Bucket) (k : Text) (db : Db) → exist b k db ≡ is_ok (get b k db)
