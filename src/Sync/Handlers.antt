-- ===== src/Sync/Handlers.antt =====
-- task.go: `syncTask`, `broadcastTxTask` and `broadcastTxMetaTask`.
use arseeding.Prelude.{ℕ, Text, Bytes, Bool, true, false, Option, none, some, List, if◌then◌else◌}
use arseeding.Prelude.Maps.{map_option}
use arseeding.Effect.{Result, ok, err, not_exist}
use arseeding.Rawdb.Interface.{KeyValueDb}
use arseeding.Goar.Types.{Goar, Transaction}
use arseeding.Store.Records.{load_tx_meta, is_exist_tx_meta}
use arseeding.Submit.Read.{get_ar_tx_data}
use arseeding.Tasks.Id.{task_type_sync, task_type_broadcast, task_type_broadcast_meta}
use arseeding.Tasks.Manager.{TaskMap, task_begin_set, is_closed, inc_successed, close_task}
use arseeding.Tasks.Peers.{MetaReply, DataReply, broadcast_tx_meta, broadcast_data}
use arseeding.Bundle.Types.{BundleUtils, ManifestTable}
use arseeding.Orders.Types.{BigInts}
use arseeding.Sync.Fetch.{Answers, Syncer, fetch_and_store_tx}

-- What a handler leaves: `none` where a read loop needs more fuel.
abbrev pub Run : Type 0 → Type 0 → Type 0
Run S A = S → Option (S × Result A)

module _ {S A B : Type 0} where
  abbrev pub and_then : Option (S × Result A) → (A → Run S B) → Option (S × Result B)
  and_then none f = none
  and_then (some (s, err e)) f = some (s, err e)
  and_then (some (s, ok a)) f = f a s

module _ ⦃kv : KeyValueDb⦄ ⦃m : ManifestTable⦄ where
  abbrev pub with_tasks : (TaskMap → TaskMap) → Syncer → Syncer
  with_tasks f s = record s { tasks = f s.tasks }

  -- a task that is not closed begins, with the time and the number of peers
  unfoldable pub begin_task : Text → Text → ℕ → ℕ → Run Syncer (Unit {0}) → Run Syncer (Unit {0})
  begin_task ar_id task_type now total run s =
      let (tasks', r) = task_begin_set ar_id task_type now total s.tasks in
      let begun = and_then (some (record s { tasks = tasks' }, r)) (λ u. run) in
      if is_closed ar_id task_type s.tasks then some (s, ok tt) else begun

  -- a task that has been fetched is counted and closed
  unfoldable pub finish_sync : Text → Syncer × Result (Unit {0}) → Syncer × Result (Unit {0})
  finish_sync ar_id (s, err e) = (s, err e)
  finish_sync ar_id (s, ok u) = (
    with_tasks (λ t. (close_task ar_id task_type_sync (inc_successed ar_id task_type_sync t)).0) s,
    ok tt,
  )

module _ ⦃kv : KeyValueDb⦄ ⦃g : Goar⦄ ⦃m : ManifestTable⦄ ⦃u : BundleUtils⦄ ⦃big : BigInts⦄
    (fuel now total : ℕ) (enable_manifest : Bool) where
  unfoldable pub sync_task : Answers → Text → Run Syncer (Unit {0})
  sync_task net ar_id =
      begin_task ar_id task_type_sync now total
        (λ s. map_option (finish_sync ar_id) (fetch_and_store_tx fuel enable_manifest net ar_id s))

  -- the header, fetched where the store has none
  unfoldable pub ensure_meta : Answers → Text → Run Syncer (Unit {0})
  ensure_meta net ar_id s = elim (is_exist_tx_meta ar_id s.node.db) [
    | err e ↦ some (s, err e)
    | ok known ↦
        let fetched = fetch_and_store_tx fuel enable_manifest net ar_id s in
        if known then some (s, ok tt) else fetched
  ]

  abbrev pub read_data : Transaction → Syncer → Option (Syncer × Result Bytes)
  read_data tx s =
      map_option (λ r. (s, r)) (get_ar_tx_data fuel tx.data_root tx.data_size s.node.db)

  -- The data, fetched where a chunk is missing and read again.
  unfoldable pub data_or_fetched :
      Answers → Text → Transaction → Option (Syncer × Result Bytes) → Option (Syncer × Result Bytes)
  data_or_fetched net ar_id tx none = none
  data_or_fetched net ar_id tx (some (s, ok bytes)) = some (s, ok bytes)
  data_or_fetched net ar_id tx (some (s, err not_exist)) =
      and_then (fetch_and_store_tx fuel enable_manifest net ar_id s) (λ u. read_data tx)
  data_or_fetched net ar_id tx (some (s, err e)) = some (s, err e)

  -- `status` is what `GetTransactionStatus` returns, where "pending" and "not found" are no error: the
  -- task returns it, and sends the data all the same.
  unfoldable pub send_data :
      Text → List DataReply → Result (Unit {0}) → Bytes → Run Syncer (Unit {0})
  send_data ar_id replies status bytes s =
      some (with_tasks (broadcast_data ar_id task_type_broadcast replies) s, status)

  -- `net` and `again` are the answers to the two calls of `FetchAndStoreTx`
  unfoldable pub broadcast_tx_task :
      Answers → Answers → List DataReply → Result (Unit {0}) → Text → Run Syncer (Unit {0})
  broadcast_tx_task net again replies status ar_id =
      begin_task ar_id task_type_broadcast now total λ s. and_then (ensure_meta net ar_id s) λ v s1.
        and_then (some (s1, load_tx_meta ar_id s1.node.db)) λ tx s2.
          and_then (data_or_fetched again ar_id tx (read_data tx s2))
            (send_data ar_id replies status)

module _ ⦃kv : KeyValueDb⦄ ⦃g : Goar⦄ ⦃m : ManifestTable⦄ where
  abbrev pub when_known :
      ℕ → ℕ → List MetaReply → Text → Syncer → Result Bool → Option (Syncer × Result (Unit {0}))
  when_known now total replies ar_id s (err e) = some (s, err e)
  when_known now total replies ar_id s (ok false) = some (s, err not_exist)
  when_known now total replies ar_id s (ok true) =
      and_then (some (s, load_tx_meta ar_id s.node.db)) (λ tx.
        begin_task ar_id task_type_broadcast_meta now total (λ s'.
          some (with_tasks (broadcast_tx_meta ar_id task_type_broadcast_meta replies) s', ok tt)))

  unfoldable pub broadcast_tx_meta_task : ℕ → ℕ → List MetaReply → Text → Run Syncer (Unit {0})
  broadcast_tx_meta_task now total replies ar_id s =
      when_known now total replies ar_id s (is_exist_tx_meta ar_id s.node.db)
