-- ===== src/Tasks/Service.antt =====
-- The life of a task between memory and store: `InitTaskMg` (taskmanager.go), `registerTask` and
-- the task handlers of api.go, `processTask` and `setProcessedTask` (task.go), and
-- `watcherAndCloseTasks` (jobs.go). A handler's network calls are behind the four functions that
-- `processTask` selects, which are parameters here.
use arseeding.Prelude.{
  ℕ, ◌+◌, Text, text_eq, ◌||◌, ◌==◌, ltb, Option, none, some, List, [], ◌∷◌, ◌++◌, if◌then◌else◌,
}
use arseeding.Effect.{Result, ok, err, not_exist, Eff, pure, ◌>>=◌}
use arseeding.Rawdb.Interface.{KeyValueDb, task_id_pending_pool_bucket}
use arseeding.Goar.Types.{Goar, Task}
use arseeding.Store.Records.{put_task_pending_pool, del_pending_pool_task_id, save_task}
use arseeding.Tasks.Id.{
  assemble_task_id, split_task_id, task_type_sync, task_type_broadcast, task_type_broadcast_meta,
  task_type_sync_manifest,
}
use arseeding.Tasks.Manager.{TaskMap, add_task, del_task, get_task, get_tasks, close_task}

module _ ⦃kv : KeyValueDb⦄ where
  -- The map of tasks, the store, and the ids sent to the channel, in the order of the calls. The
  -- channel has no buffer: the order in which they are received is the choice of the runtime.
  pub record Service : Type 0 where
    pub tasks : TaskMap
    pub db : kv.Db
    pub tk_chan : List Text

  -- a method of the task map, and one of the store
  abbrev pub on_tasks : (TaskMap → TaskMap) → Service → Service
  on_tasks f s = record s { tasks = f s.tasks }

  unfoldable pub on_db {ℓ} : {A : Type ℓ} → Eff kv.Db A → Eff Service A
  on_db m s = let (db', r) = m s.db in (record s { db = db' }, r)

  unfoldable pub put_to_tk_chan : Text → Text → Service → Service
  put_to_tk_chan ar_id task_type s = record s {
    tk_chan = s.tk_chan ++ (assemble_task_id ar_id task_type ∷ []);
  }

  -- store.go
  pending_or_none : Result (List Text) → Result (List Text)
  pending_or_none (err not_exist) = ok []
  pending_or_none r = r

  unfoldable pub load_all_pending_task_ids : kv.Db → Result (List Text)
  unfolding pending_or_none
  load_all_pending_task_ids db = pending_or_none (kv.get_all_key task_id_pending_pool_bucket db)

  -- one round of the loop of `InitTaskMg`; an id that does not split is passed over
  unfoldable pub restore : Result (Text × Text) → Service → Service
  restore (err e) s = s
  restore (ok (ar_id, task_type)) s =
      put_to_tk_chan ar_id task_type (on_tasks (add_task ar_id task_type) s)

  unfoldable pub restore_all : List Text → Service → Service
  unfolding restore
  restore_all [] s = s
  restore_all (id ∷ ids) s = restore_all ids (restore (split_task_id id) s)

  restored : Result (List Text) → Eff Service (Unit {0})
  restored (err e) s = (s, err e)
  restored (ok ids) s = (restore_all ids s, ok tt)

  unfoldable pub init_task_mg : Eff Service (Unit {0})
  unfolding restored
  init_task_mg s = restored (load_all_pending_task_ids s.db) s

module _ ⦃kv : KeyValueDb⦄ ⦃g : Goar⦄ where
  registered : Text → Text → Result (Unit {0}) → Eff Service (Unit {0})
  registered ar_id tktype (err e) s = (on_tasks (del_task ar_id tktype) s, err e)
  registered ar_id tktype (ok u) s = (put_to_tk_chan ar_id tktype s, ok tt)

  unfoldable pub register_task : Text → Text → Eff Service (Unit {0})
  unfolding registered on_db
  register_task ar_id tktype s =
      let (s', r) =
        on_db (put_task_pending_pool (assemble_task_id ar_id tktype))
          (on_tasks (add_task ar_id tktype) s) in
      registered ar_id tktype r s'

  save_if : Text → Option Task → Eff Service (Unit {0})
  save_if task_id none = pure tt
  save_if task_id (some tk) = on_db (save_task task_id tk)

  unfoldable pub set_processed_task : Text → Text → Eff Service (Unit {0})
  unfolding save_if on_db
  set_processed_task ar_id tktype s =
      (save_if (assemble_task_id ar_id tktype) (get_task ar_id tktype s.tasks) >>= λ u s'.
      on_db (del_pending_pool_task_id (assemble_task_id ar_id tktype))
        (on_tasks (del_task ar_id tktype) s'))
        s

  -- the four tasks that `processTask` can start
  pub record Handlers : Type 0 where
    pub sync_task : Text → Eff Service (Unit {0})
    pub broadcast_tx_task : Text → Eff Service (Unit {0})
    pub broadcast_tx_meta_task : Text → Eff Service (Unit {0})
    pub sync_manifest_task : Text → Eff Service (Unit {0})

  -- the `switch`; another task type starts nothing
  unfoldable pub start_task : Handlers → Text → Text → Eff Service (Unit {0})
  start_task h ar_id task_type =
      if text_eq task_type task_type_sync
      then h.sync_task ar_id
      else if text_eq task_type task_type_broadcast
      then h.broadcast_tx_task ar_id
      else if text_eq task_type task_type_broadcast_meta
      then h.broadcast_tx_meta_task ar_id
      else if text_eq task_type task_type_sync_manifest
      then h.sync_manifest_task ar_id
      else pure tt

  -- An id that does not split leaves both parts empty, and the errors are only logged.
  unfoldable pub split_or_empty : Result (Text × Text) → Text × Text
  split_or_empty (ok parts) = parts
  split_or_empty (err e) = ([], [])

  unfoldable pub process_task : Handlers → Text → Service → Service
  unfolding split_or_empty
  process_task h task_id s =
      let (ar_id, task_type) = split_or_empty (split_task_id task_id) in
      (set_processed_task ar_id task_type (start_task h ar_id task_type s).0).0

-- jobs.go: the loop of `watcherAndCloseTasks`
unfoldable pub close_overdue : ℕ → List Task → TaskMap → TaskMap
close_overdue now [] m = m
close_overdue now (tk ∷ tasks) m = close_overdue now tasks (
    if tk.close || tk.timestamp == 0
    then m
    else if ltb (tk.timestamp + 1800) now
    then (close_task tk.ar_id tk.task_type m).0
    else m)

unfoldable pub watcher_and_close_tasks : ℕ → TaskMap → TaskMap
unfolding close_overdue
watcher_and_close_tasks now m = close_overdue now (get_tasks m) m
