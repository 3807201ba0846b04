-- ===== src/Tasks/Manager.antt =====
-- taskmanager.go: `TaskManager` and its methods on the map of tasks. The map holds pointers, and
-- every method runs under its lock.
use arseeding.Prelude.{ℕ, ◌+◌, Text, Bool, true, false, Option, none, some, List, [], ◌∷◌}
use arseeding.Prelude.Maps.{Dict, lookup, insert, remove, modify}
use arseeding.Effect.{Result, ok, err, not_found, Eff}
use arseeding.Goar.Types.{Task}
use arseeding.Tasks.Id.{assemble_task_id}

abbrev pub TaskMap : Type 0
TaskMap = Dict Task

abbrev pub fresh_task : Text → Text → Task
fresh_task ar_id task_type = record {
  ar_id = ar_id;
  task_type = task_type;
  count_successed = 0;
  count_failed = 0;
  total_peer = 0;
  timestamp = 0;
  close = false;
}

unless_present : Text → Task → TaskMap → Option Task → TaskMap
unless_present id tk m (some old) = m
unless_present id tk m none = insert id tk m

-- the task behind `ok` where the id is known, `ErrNotFound` where it is not
found : TaskMap → Option Task → Result (Unit {0})
found m (some tk) = ok tt
found m none = err not_found

close_of : Option Task → Bool
close_of (some tk) = tk.close
close_of none = false

module _ (ar_id task_type : Text) where
  unfoldable pub add_task : TaskMap → TaskMap
  unfolding unless_present
  add_task m =
      unless_present (assemble_task_id ar_id task_type) (fresh_task ar_id task_type) m
        (lookup (assemble_task_id ar_id task_type) m)

  unfoldable pub del_task : TaskMap → TaskMap
  del_task m = remove (assemble_task_id ar_id task_type) m

  unfoldable pub inc_successed : TaskMap → TaskMap
  inc_successed m =
      modify (assemble_task_id ar_id task_type)
        (λ s. record s { count_successed = s.count_successed + 1 }) m

  unfoldable pub inc_failed : TaskMap → TaskMap
  inc_failed m =
      modify (assemble_task_id ar_id task_type)
        (λ s. record s { count_failed = s.count_failed + 1 }) m

  -- `now` is what the clock reads, in seconds.
  unfoldable pub task_begin_set : ℕ → ℕ → Eff TaskMap (Unit {0})
  unfolding found
  task_begin_set now total_peer m =
      let id = assemble_task_id ar_id task_type in
      (
        modify id (λ tk. record tk { timestamp = now; total_peer = total_peer }) m,
        found m (lookup id m),
      )

  -- a copy of the record
  unfoldable pub get_task : TaskMap → Option Task
  get_task m = lookup (assemble_task_id ar_id task_type) m

  unfoldable pub close_task : Eff TaskMap (Unit {0})
  unfolding found
  close_task m =
      let id = assemble_task_id ar_id task_type in
      (modify id (λ tk. record tk { close = true }) m, found m (lookup id m))

  unfoldable pub is_closed : TaskMap → Bool
  unfolding close_of
  is_closed m = close_of (lookup (assemble_task_id ar_id task_type) m)

-- a copy of the records
unfoldable pub get_tasks : TaskMap → List Task
get_tasks [] = []
get_tasks ((id, tk) ∷ m) = tk ∷ get_tasks m
