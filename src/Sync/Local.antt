-- ===== src/Sync/Local.antt =====
-- submit.go: `FetchAndStoreTx` of a transaction that the store has.
use arseeding.Prelude.{
  ℕ, Text, Bytes, ◌≡◌, ◌≢◌, refl, Bool, true, false, some, [], ◌∷◌, length, ◌==◌, arith,
}
use arseeding.Effect.{ok}
use arseeding.Rawdb.Interface.{KeyValueDb}
use arseeding.Goar.Types.{Goar, Transaction}
use arseeding.Store.Offsets.{is_exist_tx_data_end_offset, load_tx_data_end_offset}
use arseeding.Store.Records.{load_tx_meta, is_exist_tx_meta}
use arseeding.Submit.Read.{get_ar_tx_data}
use arseeding.Bundle.Types.{BundleUtils, ManifestTable}
use arseeding.Orders.Types.{BigInts}
use arseeding.Sync.Fetch.{
  Answers, Syncer, meta_or_fetched, not_null_tx, store_meta, store_end_offset, sync_meta, has_data,
  fetch_and_store_tx,
}

length-not_nil : (t : Text) → t ≢ [] → (length t == 0) ≡ false
length-not_nil [] ne = absurd (ne refl)
length-not_nil (c ∷ rest) ne = ground arith

module _ ⦃kv : KeyValueDb⦄ ⦃g : Goar⦄ ⦃m : ManifestTable⦄ ⦃u : BundleUtils⦄ ⦃big : BigInts⦄
    (net : Answers) (ar_id : Text) (tx : Transaction) (s : Syncer) (offset : ℕ)
    (meta : load_tx_meta ar_id s.node.db ≡ ok tx) (named : tx.id ≢ [])
    (ends : load_tx_data_end_offset tx.data_root tx.data_size s.node.db ≡ ok offset) where
  not_null_tx-local : not_null_tx ar_id tx s ≡ (s, ok tx)
  unfolding not_null_tx
  not_null_tx-local = rw (not_null_tx, length-not_nil tx.id named) refl

  store_meta-local : store_meta ar_id tx s ≡ (s, ok tt)
  unfolding store_meta is_exist_tx_meta
  store_meta-local = rw (store_meta, is_exist_tx_meta, meta) refl

  store_end_offset-local : store_end_offset tx s ≡ (s, ok tt)
  unfolding store_end_offset is_exist_tx_data_end_offset
  store_end_offset-local = rw (store_end_offset, is_exist_tx_data_end_offset, ends) refl

  sync_meta-local : sync_meta net ar_id s ≡ (s, ok tx)
  unfolding sync_meta meta_or_fetched
  sync_meta-local =
      rw
        (
          sync_meta, meta, meta_or_fetched, not_null_tx-local, store_meta-local,
          store_end_offset-local,
        )
        refl

-- `fetch_and_store_tx` of a transaction whose header, which has an id, whose end offset and whose data
-- the store has, and whose size is written as a number above 0, ends without an error and changes
-- neither the store, the manifests nor the tasks, whatever the network would answer.
pub fetch_and_store_tx-local :
    ⦃kv : KeyValueDb⦄ ⦃g : Goar⦄ ⦃m : ManifestTable⦄ ⦃u : BundleUtils⦄ ⦃big : BigInts⦄
    (fuel offset : ℕ) (enable_manifest : Bool) (net : Answers) (ar_id : Text) (tx : Transaction)
    (s : Syncer) (bytes : Bytes)
    → load_tx_meta ar_id s.node.db ≡ ok tx
    → tx.id ≢ []
    → load_tx_data_end_offset tx.data_root tx.data_size s.node.db ≡ ok offset
    → has_data (big.set_string tx.data_size) ≡ ok true
    → get_ar_tx_data fuel tx.data_root tx.data_size s.node.db ≡ some (ok bytes)
    → fetch_and_store_tx fuel enable_manifest net ar_id s ≡ some (s, ok tt)
unfolding fetch_and_store_tx
fetch_and_store_tx-local fuel offset enable_manifest net ar_id tx s bytes meta named ends sized
      read =
    rw (fetch_and_store_tx, sync_meta-local net ar_id tx s offset meta named ends, sized, read) refl
