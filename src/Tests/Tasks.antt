-- ===== src/Tests/Tasks.antt =====
-- The life of one task: taskmanager.go, task.go and `registerTask` of api.go.
use arseeding.Prelude.{Bool, ◌↔◌, Text, codes, text_eq, ◌≡◌, refl, true, false, List, [], ◌∷◌, some}
use arseeding.Prelude.Maps.{lookup, map_option}
use arseeding.Effect.{ok}
use arseeding.Rawdb.Memory.{memory}
use arseeding.Goar.Plain.{plain}
use arseeding.Store.Records.{put_task_pending_pool}
use arseeding.Tasks.Id.{assemble_task_id, to_lower}
use arseeding.Tasks.Manager.{TaskMap, fresh_task, get_tasks}
use arseeding.Tasks.Peers.{MetaReply, meta_accepted, broadcast_tx_meta, contains}
use arseeding.Tasks.Counts.{reached, count_if, count_unless, tallied, broadcast_tx_meta-lookup}
use arseeding.Tasks.Service.{
  watcher_and_close_tasks, Service, put_to_tk_chan, register_task, set_processed_task, init_task_mg,
  load_all_pending_task_ids,
}
use arseeding.Tasks.Lifecycle.{
  Registered, register_task-Registered, Processed, set_processed_task-Processed,
}
use arseeding.Tasks.Watcher.{Overdue, closed_if, lookup-watcher_and_close_tasks}
use arseeding.Tasks.Restart.{AllWait, init_task_mg-Waits}

abbrev ar_id : Text
ar_id = codes "a-1"

abbrev sync : Text
sync = codes "sync"

empty_db : memory.Db
unfolding memory
empty_db = []

abbrev idle : Service ⦃kv = memory⦄
idle = record { tasks = []; db = empty_db; tk_chan = [] }

register_task-Registered_example :
    Registered ⦃kv = memory⦄ ⦃g = plain⦄ ar_id sync idle
      (register_task ⦃kv = memory⦄ ⦃g = plain⦄ ar_id sync idle)
register_task-Registered_example =
    register_task-Registered ⦃kv = memory⦄ ⦃g = plain⦄ ar_id sync idle

abbrev registered : Service ⦃kv = memory⦄
registered = (register_task ⦃kv = memory⦄ ⦃g = plain⦄ ar_id sync idle).0

set_processed_task-Processed_example :
    Processed ⦃kv = memory⦄ ⦃g = plain⦄ ar_id sync registered
      (set_processed_task ⦃kv = memory⦄ ⦃g = plain⦄ ar_id sync registered)
set_processed_task-Processed_example =
    set_processed_task-Processed ⦃kv = memory⦄ ⦃g = plain⦄ ar_id sync registered

pending :
    load_all_pending_task_ids ⦃kv = memory⦄ registered.db ≡ ok (assemble_task_id ar_id sync ∷ [])
unfolding load_all_pending_task_ids memory register_task empty_db put_task_pending_pool
    put_to_tk_chan
pending = refl

init_task_mg-Waits_example :
    ((init_task_mg ⦃kv = memory⦄ registered).1 ≡ ok tt)
    × AllWait ⦃kv = memory⦄
        (init_task_mg ⦃kv = memory⦄ registered).0
        (assemble_task_id ar_id sync ∷ [])
init_task_mg-Waits_example =
    init_task_mg-Waits ⦃kv = memory⦄ registered (assemble_task_id ar_id sync ∷ []) pending

abbrev one_task : TaskMap
one_task = (assemble_task_id ar_id sync, fresh_task ar_id sync) ∷ []

there : lookup (assemble_task_id ar_id sync) one_task ≡ some (fresh_task ar_id sync)
unfolding lookup text_eq assemble_task_id to_lower
there = refl

abbrev replies : List MetaReply
replies =
    record { code = 200; status = []; killed = false }
    ∷ record { code = 400; status = []; killed = true }
    ∷ record { code = 208; status = []; killed = false }
    ∷ []

broadcast_tx_meta-lookup_example :
    lookup (assemble_task_id ar_id sync) (broadcast_tx_meta ar_id sync replies one_task)
    ≡ some (
        tallied
          (fresh_task ar_id sync)
          true
          (count_if meta_accepted (reached replies))
          (count_unless meta_accepted (reached replies)))
broadcast_tx_meta-lookup_example =
    broadcast_tx_meta-lookup ar_id sync replies one_task (fresh_task ar_id sync) there refl

-- One peer is served, one refuses, and the last one is not reached.
counted :
    (count_if meta_accepted (reached replies) ≡ 1)
    × (count_unless meta_accepted (reached replies) ≡ 1)
unfolding count_if count_unless meta_accepted reached contains
counted = (refl, refl)

-- a task that began at second 1 and one that has not begun
abbrev begun : TaskMap
begun =
    (assemble_task_id ar_id sync, record (fresh_task ar_id sync) { timestamp = 1 })
    ∷ (assemble_task_id ar_id (codes "broadcast"), fresh_task ar_id (codes "broadcast"))
    ∷ []

lookup-watcher_and_close_tasks_example :
    (late : Bool) × (lookup (assemble_task_id ar_id sync) (watcher_and_close_tasks 2000 begun)
      ≡ map_option (closed_if late) (lookup (assemble_task_id ar_id sync) begun))
    × ((late ≡ true) ↔ Overdue 2000 (assemble_task_id ar_id sync) (get_tasks begun))
lookup-watcher_and_close_tasks_example =
    lookup-watcher_and_close_tasks 2000 (assemble_task_id ar_id sync) begun
