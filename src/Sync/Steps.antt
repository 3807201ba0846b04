-- ===== src/Sync/Steps.antt =====
-- submit.go: what the steps of `FetchAndStoreTx` leave as it is.
use arseeding.Prelude.{
  Text, codes, ◌≡◌, refl, Bool, false, ◌==◌, ◌&&◌, text_eq, length, if◌then◌else◌,
}
use arseeding.Effect.{Result, ok, err, other, Eff, pure, throw, reads, ◌>>=◌, ◌>>◌}
use arseeding.Rawdb.Interface.{
  KeyValueDb, Bucket, bucket_number, tx_meta_bucket, bundle_wait_parse_ar_id_bucket,
}
use arseeding.Goar.Types.{Goar, Transaction}
use arseeding.Store.Frame.{Untouched, >>=-Untouched, if-Untouched, put-Untouched}
use arseeding.Store.Offsets.{is_exist_tx_data_end_offset}
use arseeding.Store.Records.{
  load_tx_meta, is_exist_tx_meta, save_tx_meta, save_wait_parse_bundle_ar_id,
}
use arseeding.Submit.Chunks.{sync_add_tx_data_end_offset, set_tx_data_chunks}
use arseeding.Submit.Transactions.{is_bundle_tx}
use arseeding.Submit.Frame.{OfNoData, sync_add-Untouched, set_tx_data_chunks-Untouched}
use arseeding.Tasks.Manager.{TaskMap}
use arseeding.Tasks.Id.{task_type_sync}
use arseeding.Tasks.Peers.{get_tx_data_from_peers, get_unconfirmed_tx_from_peers}
use arseeding.Bundle.Types.{BundleUtils, ManifestTable}
use arseeding.Bundle.Parse.{
  get_manifest_id, insert_if, expected_tx_sandbox, get_tag_value, content_type, manifest_type,
  at_manifests,
}
use arseeding.Orders.Types.{BigInts}
use arseeding.Sync.Fetch.{
  Answers, Syncer, on_node, on_store, or_peers, meta_or_fetched, not_null_tx, store_meta,
  store_end_offset, sync_meta, insert_tx_manifest, sync_data,
}

-- a bucket that has no part in a transaction: neither its header nor its data nor its place in the list
-- of bundles to be parsed
abbrev pub Foreign : Bucket → Type 0
Foreign b =
    OfNoData b
    × ((bucket_number tx_meta_bucket == bucket_number b) ≡ false)
    × ((bucket_number bundle_wait_parse_ar_id_bucket == bucket_number b) ≡ false)

module _ ⦃kv : KeyValueDb⦄ ⦃m : ManifestTable⦄ where
  abbrev pub store_of : Syncer → kv.Db
  store_of s = s.node.db

  on_store-Untouched :
      (b : Bucket) {A : Type 0} (f : Eff kv.Db A)
      → Untouched (λ db. db) b f
      → Untouched store_of b (on_store f)
  on_store-Untouched b f h k s = h k s.node.db

  or_peers-Untouched :
      (b : Bucket) {A : Type 0} (r : Result A) (peers : TaskMap → TaskMap × Result A)
      → Untouched store_of b (or_peers r peers)
  unfolding or_peers
  or_peers-Untouched b (ok a) peers k s = refl
  or_peers-Untouched b (err e) peers k s = refl

module _ ⦃kv : KeyValueDb⦄ ⦃g : Goar⦄ ⦃m : ManifestTable⦄ ⦃u : BundleUtils⦄ ⦃big : BigInts⦄
    (b : Bucket) (apart : Foreign b) where
  meta_or_fetched-Untouched :
      (net : Answers) (ar_id : Text) (r : Result Transaction)
      → Untouched store_of b (meta_or_fetched net ar_id r)
  unfolding meta_or_fetched
  meta_or_fetched-Untouched net ar_id (ok tx) k s = refl
  meta_or_fetched-Untouched net ar_id (err e) k s =
      or_peers-Untouched b net.unconfirmed
        (get_unconfirmed_tx_from_peers ar_id task_type_sync net.tx_peers) k s

  not_null_tx-Untouched :
      (ar_id : Text) (tx : Transaction) → Untouched store_of b (not_null_tx ar_id tx)
  unfolding not_null_tx
  not_null_tx-Untouched ar_id tx =
      if-Untouched store_of b (length tx.id == 0) (throw (other (codes "get arTxMeta failed")))
        (pure tx) (λ k s. refl) (λ k s. refl)

  store_meta-Untouched :
      (ar_id : Text) (tx : Transaction) → Untouched store_of b (store_meta ar_id tx)
  unfolding store_meta save_tx_meta
  store_meta-Untouched ar_id tx =
      >>=-Untouched store_of b (on_store (reads (is_exist_tx_meta ar_id)))
        (λ known. if known then pure tt else on_store (save_tx_meta tx)) (λ k s. refl)
        (λ known.
          if-Untouched store_of b known (pure tt) (on_store (save_tx_meta tx)) (λ k s. refl)
            (on_store-Untouched b (save_tx_meta tx) (put-Untouched b tx_meta_bucket _ _ apart.1)))

  store_end_offset-Untouched : (tx : Transaction) → Untouched store_of b (store_end_offset tx)
  unfolding store_end_offset
  store_end_offset-Untouched tx =
      let add = sync_add_tx_data_end_offset tx.data_root tx.data_size in
      >>=-Untouched store_of b
        (on_store (reads (is_exist_tx_data_end_offset tx.data_root tx.data_size)))
        (λ known. if known then pure tt else on_store add) (λ k s. refl)
        (λ known.
          if-Untouched store_of b known (pure tt) (on_store add) (λ k s. refl)
            (on_store-Untouched b add (sync_add-Untouched b apart.0 tx.data_root tx.data_size)))

  pub sync_meta-Untouched :
      (net : Answers) (ar_id : Text) → Untouched store_of b (sync_meta net ar_id)
  unfolding sync_meta
  sync_meta-Untouched net ar_id k s =
      >>=-Untouched store_of b (meta_or_fetched net ar_id (load_tx_meta ar_id s.node.db))
        (λ tx. not_null_tx ar_id tx >>= λ tx'.
          store_meta ar_id tx' >> (store_end_offset tx' >> pure tx'))
        (meta_or_fetched-Untouched net ar_id (load_tx_meta ar_id s.node.db))
        (λ tx.
          >>=-Untouched store_of b (not_null_tx ar_id tx)
            (λ tx'. store_meta ar_id tx' >> (store_end_offset tx' >> pure tx'))
            (not_null_tx-Untouched ar_id tx)
            (λ tx'.
              >>=-Untouched store_of b (store_meta ar_id tx')
                (λ v. store_end_offset tx' >> pure tx') (store_meta-Untouched ar_id tx')
                (λ v.
                  >>=-Untouched store_of b (store_end_offset tx') (λ w. pure tx')
                    (store_end_offset-Untouched tx') (λ w k s. refl))))
        k s

  insert_tx_manifest-Untouched :
      (enable : Bool) (ar_id : Text) (tx : Transaction)
      → Untouched store_of b (insert_tx_manifest enable ar_id tx)
  unfolding insert_tx_manifest
  insert_tx_manifest-Untouched enable ar_id tx =
      if-Untouched store_of b
        (enable && text_eq (get_tag_value (g.tags_decode tx.tags).0 content_type) manifest_type)
        (on_node (
          at_manifests (λ t.
            insert_if (expected_tx_sandbox ar_id) ar_id
              (get_manifest_id (expected_tx_sandbox ar_id) t) t)))
        (pure tt) (λ k s. refl) (λ k s. refl)

  waiting-Untouched :
      (ar_id : Text) (tx : Transaction)
      → Untouched store_of b
          (if is_bundle_tx tx.tags then on_store (save_wait_parse_bundle_ar_id ar_id) else pure tt)
  unfolding save_wait_parse_bundle_ar_id
  waiting-Untouched ar_id tx =
      if-Untouched store_of b (is_bundle_tx tx.tags) (on_store (save_wait_parse_bundle_ar_id ar_id))
        (pure tt)
        (on_store-Untouched b (save_wait_parse_bundle_ar_id ar_id)
          (put-Untouched b bundle_wait_parse_ar_id_bucket _ _ apart.2))
        (λ k s. refl)

  pub sync_data-Untouched :
      (enable : Bool) (net : Answers) (ar_id : Text) (tx : Transaction)
      → Untouched store_of b (sync_data enable net ar_id tx)
  unfolding sync_data
  sync_data-Untouched enable net ar_id tx =
      let peers = get_tx_data_from_peers ar_id task_type_sync net.data_peers in
      let last : Eff Syncer (Unit {0}) =
        if is_bundle_tx tx.tags then on_store (save_wait_parse_bundle_ar_id ar_id) else pure tt in
      >>=-Untouched store_of b (or_peers net.gateway peers)
        (λ bytes.
          on_store (set_tx_data_chunks tx bytes) >> (insert_tx_manifest enable ar_id tx >> last))
        (or_peers-Untouched b net.gateway peers)
        (λ bytes.
          >>=-Untouched store_of b (on_store (set_tx_data_chunks tx bytes))
            (λ v. insert_tx_manifest enable ar_id tx >> last)
            (on_store-Untouched b (set_tx_data_chunks tx bytes)
              (set_tx_data_chunks-Untouched b apart.0 tx bytes))
            (λ v.
              >>=-Untouched store_of b (insert_tx_manifest enable ar_id tx) (λ w. last)
                (insert_tx_manifest-Untouched enable ar_id tx) (λ w. waiting-Untouched ar_id tx)))
