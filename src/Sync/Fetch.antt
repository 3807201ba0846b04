-- ===== src/Sync/Fetch.antt =====
-- submit.go: `FetchAndStoreTx`. What the gateway and the peers answer are inputs.
use arseeding.Prelude.{
  ℕ, Text, Bytes, codes, text_eq, Bool, true, false, ◌&&◌, ◌==◌, length, Option, none, some, List,
  if◌then◌else◌,
}
use arseeding.Prelude.Maps.{map_option}
use arseeding.Effect.{Result, ok, err, other, Eff, pure, throw, reads, ◌>>=◌, ◌>>◌}
use arseeding.Rawdb.Interface.{KeyValueDb}
use arseeding.Goar.Types.{Goar, Transaction}
use arseeding.Store.Offsets.{is_exist_tx_data_end_offset}
use arseeding.Store.Records.{
  load_tx_meta, is_exist_tx_meta, save_tx_meta, save_wait_parse_bundle_ar_id,
}
use arseeding.Submit.Chunks.{sync_add_tx_data_end_offset, set_tx_data_chunks}
use arseeding.Submit.Transactions.{is_bundle_tx}
use arseeding.Submit.Read.{get_ar_tx_data}
use arseeding.Tasks.Id.{task_type_sync}
use arseeding.Tasks.Manager.{TaskMap}
use arseeding.Tasks.Peers.{Fetch, get_unconfirmed_tx_from_peers, get_tx_data_from_peers}
use arseeding.Bundle.Types.{BundleUtils, ManifestTable}
use arseeding.Bundle.Parse.{
  Node, at_db, at_manifests, get_manifest_id, insert_if, expected_tx_sandbox, get_tag_value,
  content_type, manifest_type,
}
use arseeding.Orders.Types.{BigInts}

-- the answers to one call of `FetchAndStoreTx`
pub record Answers : Type 0 where
  -- `arCli.GetUnconfirmedTx`, and the peers that are asked after it
  pub unconfirmed : Result Transaction
  pub tx_peers : List (Fetch Transaction)
  -- `arCli.GetTransactionDataByGateway`, and the peers
  pub gateway : Result Bytes
  pub data_peers : List (Fetch Bytes)

module _ ⦃kv : KeyValueDb⦄ ⦃m : ManifestTable⦄ where
  pub record Syncer : Type 0 where
    pub tasks : TaskMap
    pub node : Node

  abbrev pub on_node {ℓ} : {A : Type ℓ} → Eff Node A → Eff Syncer A
  on_node f s = let (n, r) = f s.node in (record s { node = n }, r)

  abbrev pub on_store {ℓ} : {A : Type ℓ} → Eff kv.Db A → Eff Syncer A
  on_store f = on_node (at_db f)

  -- a result of the gateway, or else that of the peers, whose loop may change the task
  unfoldable pub or_peers {ℓ} :
      {A : Type ℓ} → Result A → (TaskMap → TaskMap × Result A) → Eff Syncer A
  or_peers (ok a) peers s = (s, ok a)
  or_peers (err e) peers s = let (tasks', r) = peers s.tasks in (record s { tasks = tasks' }, r)

module _ ⦃kv : KeyValueDb⦄ ⦃g : Goar⦄ ⦃m : ManifestTable⦄ ⦃u : BundleUtils⦄ ⦃big : BigInts⦄ where
  unfoldable pub meta_or_fetched : Answers → Text → Result Transaction → Eff Syncer Transaction
  meta_or_fetched net ar_id (ok tx) = pure tx
  meta_or_fetched net ar_id (err e) =
      or_peers net.unconfirmed (get_unconfirmed_tx_from_peers ar_id task_type_sync net.tx_peers)

  unfoldable pub not_null_tx : Text → Transaction → Eff Syncer Transaction
  not_null_tx ar_id tx =
      if length tx.id == 0 then throw (other (codes "get arTxMeta failed")) else pure tx

  -- The header is stored under the id that it has itself.
  unfoldable pub store_meta : Text → Transaction → Eff Syncer (Unit {0})
  store_meta ar_id tx = do
    known ← on_store (reads (is_exist_tx_meta ar_id))
    if known then pure tt else on_store (save_tx_meta tx)

  unfoldable pub store_end_offset : Transaction → Eff Syncer (Unit {0})
  store_end_offset tx = do
    known ← on_store (reads (is_exist_tx_data_end_offset tx.data_root tx.data_size))
    if known then pure tt else on_store (sync_add_tx_data_end_offset tx.data_root tx.data_size)

  -- the first part: the header and the end offset
  unfoldable pub sync_meta : Answers → Text → Eff Syncer Transaction
  sync_meta net ar_id s =
      (do
        tx ← meta_or_fetched net ar_id (load_tx_meta ar_id s.node.db)
        tx ← not_null_tx ar_id tx
        store_meta ar_id tx
        store_end_offset tx
        pure tx)
        s

  unfoldable pub has_data : Option big.Big → Result Bool
  has_data none = err (other (codes "new(big.Int).SetString(arTxMeta.DataSize,10) failed"))
  has_data (some size) = ok (big.less_big big.zero_big size)

  unfoldable pub insert_tx_manifest : Bool → Text → Transaction → Eff Syncer (Unit {0})
  insert_tx_manifest enable_manifest ar_id tx =
      if enable_manifest
        && text_eq (get_tag_value (g.tags_decode tx.tags).0 content_type) manifest_type
      then on_node (
          at_manifests (λ t.
            insert_if (expected_tx_sandbox ar_id) ar_id
              (get_manifest_id (expected_tx_sandbox ar_id) t) t))
      else pure tt

  -- the last part: the data from the network, the manifest and the bundle
  unfoldable pub sync_data : Bool → Answers → Text → Transaction → Eff Syncer (Unit {0})
  sync_data enable_manifest net ar_id tx = do
    bytes ← or_peers net.gateway (get_tx_data_from_peers ar_id task_type_sync net.data_peers)
    on_store (set_tx_data_chunks tx bytes)
    insert_tx_manifest enable_manifest ar_id tx
    if is_bundle_tx tx.tags then on_store (save_wait_parse_bundle_ar_id ar_id) else pure tt

  -- by what the store has of the data
  abbrev pub unless_local :
      Bool → Answers → Text → Transaction → Syncer → Result Bytes → Syncer × Result (Unit {0})
  unless_local enable_manifest net ar_id tx s (ok bytes) = (s, ok tt)
  unless_local enable_manifest net ar_id tx s (err e) = sync_data enable_manifest net ar_id tx s

  -- `none` stands for a read loop that needs more fuel
  abbrev pub when_sized :
      ℕ
      → Bool
      → Answers
      → Text
      → Transaction
      → Syncer
      → Result Bool
      → Option (Syncer × Result (Unit {0}))
  when_sized fuel enable_manifest net ar_id tx s (err e) = some (s, err e)
  when_sized fuel enable_manifest net ar_id tx s (ok false) = some (s, ok tt)
  when_sized fuel enable_manifest net ar_id tx s (ok true) =
      map_option (unless_local enable_manifest net ar_id tx s)
        (get_ar_tx_data fuel tx.data_root tx.data_size s.node.db)

  abbrev pub when_synced :
      ℕ → Bool → Answers → Text → Syncer × Result Transaction → Option (Syncer × Result (Unit {0}))
  when_synced fuel enable_manifest net ar_id (s, err e) = some (s, err e)
  when_synced fuel enable_manifest net ar_id (s, ok tx) =
      when_sized fuel enable_manifest net ar_id tx s (has_data (big.set_string tx.data_size))

  unfoldable pub fetch_and_store_tx :
      ℕ → Bool → Answers → Text → Syncer → Option (Syncer × Result (Unit {0}))
  fetch_and_store_tx fuel enable_manifest net ar_id s =
      when_synced fuel enable_manifest net ar_id (sync_meta net ar_id s)
