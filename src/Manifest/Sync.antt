-- ===== src/Manifest/Sync.antt =====
-- manifest.go: the items that a manifest names are fetched and saved (`syncManifestData`), on the
-- answers of the gateway, and the task that does so (`syncManifestTask` of task.go).
use arseeding.Prelude.{
  ℕ, zero, suc, Text, Bytes, text_eq, Bool, true, length, none, some, List, [], ◌∷◌, ◌++◌,
  if◌then◌else◌,
}
use arseeding.Prelude.Maps.{Dict, lookup, insert}
use arseeding.Prelude.Slices.{take, drop}
use arseeding.Effect.{Result, ok, err, bind_result, Eff, pure, lift, throw, ◌>>=◌, ◌>>◌}
use arseeding.Rawdb.Interface.{KeyValueDb}
use arseeding.Tasks.Id.{task_type_sync_manifest}
use arseeding.Tasks.Manager.{is_closed, inc_successed, close_task}
use arseeding.Tasks.Service.{Service, on_tasks, on_db}
use arseeding.Bundle.Types.{BundleItem, BundleUtils}
use arseeding.Bundle.Items.{save_item, is_exist_item_binary}
use arseeding.Bundle.Parse.{manifest_type}
use arseeding.Manifest.Resolve.{ManifestData}
use arseeding.Manifest.Items.{ManifestJson, get_nest_bundle}

-- a transaction that the query finds, and the bundle that it is in: the empty id for none
pub record TxNode : Type 0 where
  pub id : Text
  pub bundled_in : Text

-- arweave.net, its GraphQL service and `goar.Client`
pub record Gateway : Type 0 where
  -- `getRawById`: the data and the content type
  pub get_raw_by_id : Text → Result (Bytes × Text)
  -- `BatchGetItemsBundleIn`: the transactions with some ids, on a page of a size, behind a cursor
  pub batch_get_items_bundle_in : List Text → ℕ → Text → Result (List TxNode)
  -- whether a bundle is in another one, by `checkNestBundle`
  pub check_nest_bundle : Text → Result Bool
  pub get_bundle_items : Text → List Text → Result (List BundleItem)

-- the ids of the paths, in the order in which the map is ranged over
unfoldable pub path_ids : Dict Text → List Text
path_ids [] = []
path_ids ((path, tx_id) ∷ paths) = tx_id ∷ path_ids paths

unfoldable pub without_stored : ⦃kv : KeyValueDb⦄ → kv.Db → List Text → List Text
without_stored db [] = []
without_stored db (i ∷ ids) =
    let rest = without_stored db ids in if is_exist_item_binary i db then rest else i ∷ rest

-- the map from bundles to their items; transactions outside of bundles are left out
unfoldable pub in_bundles : List TxNode → Dict (List Text) → Dict (List Text)
in_bundles [] m = m
in_bundles (tx ∷ txs) m = in_bundles txs (elim tx.bundled_in [
  | [] ↦ m
  | c ∷ bundle ↦
      insert (c ∷ bundle)
        (elim (lookup (c ∷ bundle) m) [ none ↦ tx.id ∷ [] | some ids ↦ ids ++ (tx.id ∷ []) ]) m
])

module _ ⦃j : ManifestJson⦄ ⦃gw : Gateway⦄ where
  abbrev pub ids_of_manifest : Text → Result ManifestData → Result (List Text)
  ids_of_manifest id (ok mani) = ok (id ∷ path_ids mani.paths)
  ids_of_manifest id (err e) = err e

  -- the id itself, and those that it names if it is a manifest
  unfoldable pub all_item_ids : Text → Bytes → Text → Result (List Text)
  all_item_ids id bytes content_type =
      if text_eq content_type manifest_type
      then ids_of_manifest id (j.unmarshal_manifest bytes)
      else ok (id ∷ [])

  -- 90 ids for each query: as many rounds as there are ids are enough
  unfoldable pub query_batches : ℕ → List Text → Result (List TxNode)
  query_batches zero ids = ok []
  query_batches (suc fuel) [] = ok []
  query_batches (suc fuel) (i ∷ ids) =
      let rest = query_batches fuel (drop 90 (i ∷ ids)) in
      bind_result (gw.batch_get_items_bundle_in (take 90 (i ∷ ids)) 90 [])
        λ txs. bind_result rest λ others. ok (txs ++ others)

  module _ ⦃kv : KeyValueDb⦄ ⦃u : BundleUtils⦄ where
    abbrev pub raw_bytes : Result (Bytes × Text) → Result Bytes
    raw_bytes (ok (bytes, content_type)) = ok bytes
    raw_bytes (err e) = err e

    abbrev pub by_nesting : Text → List Text → Result Bool → Result (List BundleItem)
    by_nesting bundle_id ids (ok true) =
        get_nest_bundle (raw_bytes (gw.get_raw_by_id bundle_id)) ids
    by_nesting bundle_id ids _ = gw.get_bundle_items bundle_id ids

    unfoldable pub save_all : List BundleItem → Eff kv.Db (Unit {0})
    save_all [] = pure tt
    save_all (item ∷ items) = do save_item item; save_all items

    unfoldable pub save_bundles : Dict (List Text) → Eff kv.Db (Unit {0})
    save_bundles [] = pure tt
    save_bundles ((bundle_id, ids) ∷ bundles) = do
      items ← lift (by_nesting bundle_id ids (gw.check_nest_bundle bundle_id))
      save_all items
      save_bundles bundles

    unfoldable pub missing_txs : Text → kv.Db → Result (List TxNode)
    missing_txs id db = bind_result (gw.get_raw_by_id id) λ raw.
        bind_result (all_item_ids id raw.0 raw.1)
          λ ids. query_batches (length (without_stored db ids)) (without_stored db ids)

    abbrev pub save_found : Result (List TxNode) → Eff kv.Db (Unit {0})
    save_found (ok txs) = save_bundles (in_bundles txs [])
    save_found (err e) = throw e

    unfoldable pub sync_manifest_data : Text → Eff kv.Db (Unit {0})
    sync_manifest_data id db = save_found (missing_txs id db) db

    -- task.go: `syncManifestTask`; a task that cannot be closed is only logged
    abbrev pub finish_manifest : Text → Service × Result (Unit {0}) → Service × Result (Unit {0})
    finish_manifest ar_id (s, err e) = (s, err e)
    finish_manifest ar_id (s, ok v) = (
      on_tasks
          (λ t.
            (close_task ar_id task_type_sync_manifest
              (inc_successed ar_id task_type_sync_manifest t)).0)
          s,
      ok tt,
    )

    unfoldable pub sync_manifest_task : Text → Eff Service (Unit {0})
    sync_manifest_task ar_id s =
        let synced = finish_manifest ar_id (on_db (sync_manifest_data ar_id) s) in
        if is_closed ar_id task_type_sync_manifest s.tasks then (s, ok tt) else synced
