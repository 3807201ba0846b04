-- ===== src/Sync/Again.antt =====
-- submit.go: a transaction that was submitted with its data is fetched again, and another one with the
-- same data is submitted.
use arseeding.Prelude.{
  ℕ, ◌<◌, Text, Bytes, text_eq_refl, ◌≡◌, ◌≢◌, refl, sym, ap, ◌∙◌, Bool, true, false, some, List,
  [], length, inl, inr, arith, ◌==◌,
}
use arseeding.Effect.{ok, Result-cases}
use arseeding.Rawdb.Interface.{KeyValueDb, tx_meta_bucket, bundle_wait_parse_ar_id_bucket}
use arseeding.Goar.Types.{Goar, Transaction, GetChunk}
use arseeding.Store.Numbers.{parse_uint}
use arseeding.Store.Offsets.{load_tx_data_end_offset, is_exist_tx_data_end_offset}
use arseeding.Store.Records.{load_tx_meta, is_exist_tx_meta, save_tx_meta}
use arseeding.Submit.Read.{get_ar_tx_data}
use arseeding.Submit.Transactions.{save_submit_tx, save_new_tx}
use arseeding.Submit.EndToEnd.{IsFresh, save_submit_tx-eq, save_submit_tx-read}
use arseeding.Submit.Kept.{load_tx-put, chunk_bytes-put, get_ar_tx_data-same}
use arseeding.Bundle.Types.{BundleUtils, ManifestTable}
use arseeding.Orders.Types.{BigInts}
use arseeding.Sync.Fetch.{Answers, Syncer, has_data, fetch_and_store_tx}
use arseeding.Sync.Local.{fetch_and_store_tx-local}
use arseeding.Api.RoundTrip.{header, load_tx_meta-save_new_tx}

module _ ⦃kv : KeyValueDb⦄ ⦃g : Goar⦄ where
  -- data that are read and not empty have an end offset
  end-read :
      (fuel n : ℕ) (root size : Text) (bytes : Bytes) (db : kv.Db)
      → parse_uint size ≡ ok n
      → 0 < n
      → get_ar_tx_data fuel root size db ≡ some (ok bytes)
      → (end : ℕ) × (load_tx_data_end_offset root size db ≡ ok end)
  unfolding get_ar_tx_data
  end-read fuel n root size bytes db sized some_data read =
      elim (Result-cases (load_tx_data_end_offset root size db)) [
        | inl (end, loaded) ↦ (end, loaded)
        | inr (e, failed) ↦
            let going : (n == 0) ≡ false = ground arith in
            let h = rw (sized, going, failed) at read in absurd cc
      ]

  meta-save_submit_tx :
      (all : ℕ) (tx : Transaction) (bytes : Bytes) (cs : List GetChunk) (db : kv.Db)
      → IsFresh all tx bytes cs db
      → (save_submit_tx tx db).1 ≡ ok tt
      → load_tx_meta tx.id (save_submit_tx tx db).0 ≡ ok (header tx)
  meta-save_submit_tx all tx bytes cs db fresh done =
      let new = save_submit_tx-eq all tx bytes cs db fresh in
      ap (λ r. load_tx_meta tx.id r.0) new
      ∙ load_tx_meta-save_new_tx tx db (ap (λ r. r.1) (sym new) ∙ done)

  -- the header that is saved, and what the save leaves alone
  save_tx_meta-leaves :
      (fuel : ℕ) (tx : Transaction) (db : kv.Db)
      → (save_tx_meta tx db).1 ≡ ok tt
      → (load_tx_meta tx.id (save_tx_meta tx db).0 ≡ ok (header tx))
        × (get_ar_tx_data fuel tx.data_root tx.data_size (save_tx_meta tx db).0
            ≡ get_ar_tx_data fuel tx.data_root tx.data_size db)
        × (kv.get bundle_wait_parse_ar_id_bucket tx.id (save_tx_meta tx db).0
            ≡ kv.get bundle_wait_parse_ar_id_bucket tx.id db)
  unfolding save_tx_meta load_tx_meta
  save_tx_meta-leaves fuel tx db saved =
      let meta = g.marshal_tx (header tx) in
      let db' = (kv.put tx_meta_bucket tx.id meta db).0 in
      (
        rw (kv.get-put tx_meta_bucket tx.id meta db tx_meta_bucket tx.id saved, text_eq_refl tx.id)
            (g.unmarshal-marshal_tx (header tx)),
        get_ar_tx_data-same fuel tx.data_root tx.data_size db db'
            (chunk_bytes-put tx_meta_bucket tx.id meta db saved refl)
            (load_tx-put tx_meta_bucket tx.id meta db saved refl tx.data_root tx.data_size),
        kv.get-put tx_meta_bucket tx.id meta db bundle_wait_parse_ar_id_bucket tx.id saved,
      )

-- Of a transaction that verifies and has no meta data, but whose end offset is known, `save_submit_tx`
-- saves the meta data and no more: what it leaves and returns is what `save_tx_meta` does, so the data
-- of the transaction is not stored and a bundle is not put on the list of waiting ones.
save_submit_tx_known :
    ⦃kv : KeyValueDb⦄ ⦃g : Goar⦄ (tx : Transaction) (end : ℕ) (db : kv.Db)
    → g.verify_transaction tx ≡ ok tt
    → is_exist_tx_meta tx.id db ≡ ok false
    → load_tx_data_end_offset tx.data_root tx.data_size db ≡ ok end
    → ((save_submit_tx tx db).0 ≡ (save_tx_meta tx db).0)
      × ((save_submit_tx tx db).1 ≡ (save_tx_meta tx db).1)
unfolding save_submit_tx save_new_tx is_exist_tx_data_end_offset save_tx_meta
save_submit_tx_known ⦃kv⦄ ⦃g⦄ tx end db verified no_meta known =
    let meta = g.marshal_tx (record tx { data_text = [] }) in
    elim (Result-cases (kv.put tx_meta_bucket tx.id meta db).1) [
      | inl (u, saved) ↦
          rw
            (
              verified,
              no_meta,
              saved,
              load_tx-put tx_meta_bucket tx.id meta db saved refl tx.data_root tx.data_size,
              known,
            )
            (refl, refl)
      | inr (e, failed) ↦ rw (verified, no_meta, failed) (refl, refl)
    ]

-- Let a transaction be new to the store, verify, have data above 0 bytes that are cut into chunks of two
-- bytes or more, and be accepted by `save_submit_tx`. Then `fetch_and_store_tx` of its id, with as many
-- rounds as the data have bytes, ends without an error and leaves the store, the manifests and the tasks
-- as the submission left them, whatever the network answers: nothing is fetched again.
pub fetch_and_store_tx-save_submit_tx :
    ⦃kv : KeyValueDb⦄ ⦃g : Goar⦄ ⦃m : ManifestTable⦄ ⦃u : BundleUtils⦄ ⦃big : BigInts⦄
    (all fuel : ℕ) (enable_manifest : Bool) (net : Answers) (tx : Transaction) (bytes : Bytes)
    (cs : List GetChunk) (db : kv.Db) (s : Syncer)
    → IsFresh all tx bytes cs db
    → length bytes < fuel
    → tx.id ≢ []
    → has_data (big.set_string tx.data_size) ≡ ok true
    → (save_submit_tx tx db).1 ≡ ok tt
    → s.node.db ≡ (save_submit_tx tx db).0
    → fetch_and_store_tx fuel enable_manifest net tx.id s ≡ some (s, ok tt)
fetch_and_store_tx-save_submit_tx all fuel enable_manifest net tx bytes cs db s fresh enough named
      sized done same =
    let read =
      ap (get_ar_tx_data fuel tx.data_root tx.data_size) same
      ∙ save_submit_tx-read all fuel tx bytes cs db fresh enough done in
    let meta = ap (load_tx_meta tx.id) same ∙ meta-save_submit_tx all tx bytes cs db fresh done in
    let (end, ends) =
      end-read fuel (length bytes) tx.data_root tx.data_size bytes s.node.db fresh.sized
        fresh.some_data read in
    fetch_and_store_tx-local fuel end enable_manifest net tx.id (header tx) s bytes meta named ends
      sized read

-- Let a transaction be new to the store, verify, have data that are cut into chunks of two bytes or
-- more, and be accepted by `save_submit_tx`. Then let another one, which verifies and has no meta data,
-- with the same data root and size, be accepted as well. The store then returns the header of the second
-- one, and `get_ar_tx_data` the data of the first for it; but the second one is not put on the list of
-- waiting bundles, also where it is a bundle: its entry there is as it was before.
pub save_submit_tx-twice :
    ⦃kv : KeyValueDb⦄ ⦃g : Goar⦄ (all fuel : ℕ) (tx other : Transaction) (bytes : Bytes)
    (cs : List GetChunk) (db : kv.Db)
    → IsFresh all tx bytes cs db
    → length bytes < fuel
    → (save_submit_tx tx db).1 ≡ ok tt
    → other.data_root ≡ tx.data_root
    → other.data_size ≡ tx.data_size
    → g.verify_transaction other ≡ ok tt
    → is_exist_tx_meta other.id (save_submit_tx tx db).0 ≡ ok false
    → (save_submit_tx other (save_submit_tx tx db).0).1 ≡ ok tt
    → (load_tx_meta other.id (save_submit_tx other (save_submit_tx tx db).0).0 ≡ ok (header other))
      × (get_ar_tx_data fuel other.data_root other.data_size
            (save_submit_tx other (save_submit_tx tx db).0).0
          ≡ some (ok bytes))
      × (kv.get bundle_wait_parse_ar_id_bucket other.id
            (save_submit_tx other (save_submit_tx tx db).0).0
          ≡ kv.get bundle_wait_parse_ar_id_bucket other.id (save_submit_tx tx db).0)
save_submit_tx-twice ⦃kv⦄ all fuel tx other bytes cs db fresh enough done root size verified no_meta
      again =
    let db1 = (save_submit_tx tx db).0 in
    let read : get_ar_tx_data fuel other.data_root other.data_size db1 ≡ some (ok bytes) =
      rw (root, size) (save_submit_tx-read all fuel tx bytes cs db fresh enough done) in
    let (end, ends) =
      end-read fuel (length bytes) other.data_root other.data_size bytes db1
        (ap parse_uint size ∙ fresh.sized) fresh.some_data read in
    let (left, result) = save_submit_tx_known other end db1 verified no_meta ends in
    let (meta, content, waiting) = save_tx_meta-leaves fuel other db1 (sym result ∙ again) in
    (
      ap (load_tx_meta other.id) left ∙ meta,
      ap (get_ar_tx_data fuel other.data_root other.data_size) left ∙ content ∙ read,
      ap (kv.get bundle_wait_parse_ar_id_bucket other.id) left ∙ waiting,
    )
