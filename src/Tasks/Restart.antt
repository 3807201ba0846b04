-- ===== src/Tasks/Restart.antt =====
-- `InitTaskMg` (taskmanager.go): a restart takes up every task of the pending pool.
use arseeding.Prelude.{
  Text, text_eq_iff, ◌≡◌, refl, ◌⊎◌, inl, inr, some, List, [], ◌∷◌, ◌++◌, All, arith, Option-cases,
}
use arseeding.Prelude.Maps.{lookup, lookup-insert}
use arseeding.Effect.{Result, ok, err}
use arseeding.Rawdb.Interface.{KeyValueDb}
use arseeding.Goar.Types.{Task}
use arseeding.Tasks.Id.{assemble_task_id, split_task_id}
use arseeding.Tasks.Manager.{TaskMap, add_task, get_task, fresh_task}
use arseeding.Tasks.Service.{
  Service, put_to_tk_chan, restore, restore_all, init_task_mg, load_all_pending_task_ids,
}
use arseeding.Tasks.Lifecycle.{get_task-add_task, kept_or_fresh}

abbrev pub In : Text → List Text → Type 0
In id [] = ⊥
In id (j ∷ ids) = (j ≡ id) ⊎ In id ids

In-append_left : (id : Text) (ids js : List Text) → In id ids → In id (ids ++ js)
In-append_left id [] js h = absurd h
In-append_left id (j ∷ ids) js (inl e) = inl e
In-append_left id (j ∷ ids) js (inr h) = inr (In-append_left id ids js h)

In-append_last : (id : Text) (ids : List Text) → In id (ids ++ (id ∷ []))
In-append_last id [] = inl refl
In-append_last id (j ∷ ids) = inr (In-append_last id ids)

-- No task leaves the map when another, or the same, is added.
get_task-add_task_kept :
    (a t b u : Text) (m : TaskMap) (tk : Task)
    → get_task a t m ≡ some tk
    → get_task a t (add_task b u m) ≡ some tk
unfolding get_task add_task
get_task-add_task_kept a t b u m tk h = elim (Option-cases (lookup (assemble_task_id b u) m)) [
  | inl absent ↦ rw absent (
      ground (
        arith,
        lookup-insert (assemble_task_id b u) (assemble_task_id a t) (fresh_task b u) m,
        text_eq_iff (assemble_task_id b u) (assemble_task_id a t),
      ))
  | inr (old, present) ↦ rw present h
]

module _ ⦃kv : KeyValueDb⦄ where
  -- The task waits in the map and in the channel.
  abbrev pub Waits : Text → Text → Service → Type 0
  Waits a t s =
      ((tk : Task) × (get_task a t s.tasks ≡ some tk)) × In (assemble_task_id a t) s.tk_chan

  restore-Waits :
      (r : Result (Text × Text)) (a t : Text) (s : Service) → Waits a t s → Waits a t (restore r s)
  unfolding restore put_to_tk_chan
  restore-Waits (err e) a t s w = w
  restore-Waits (ok (b, u)) a t s ((tk, h), q) =
      ((tk, get_task-add_task_kept a t b u s.tasks tk h), In-append_left _ s.tk_chan _ q)

  restore_all-Waits :
      (ids : List Text) (a t : Text) (s : Service) → Waits a t s → Waits a t (restore_all ids s)
  unfolding restore_all
  restore_all-Waits [] a t s w = w
  restore_all-Waits (id ∷ ids) a t s w =
      restore_all-Waits ids a t (restore (split_task_id id) s)
        (restore-Waits (split_task_id id) a t s w)

  -- The task of an id waits; an id that does not split is no task.
  abbrev pub WaitsAs : Service → Result (Text × Text) → Type 0
  WaitsAs s (err e) = Unit
  WaitsAs s (ok (a, t)) = Waits a t s

  restored-WaitsAs :
      (r : Result (Text × Text)) (ids : List Text) (s : Service)
      → WaitsAs (restore_all ids (restore r s)) r
  unfolding restore put_to_tk_chan
  restored-WaitsAs (err e) ids s = tt
  restored-WaitsAs (ok (a, t)) ids s = restore_all-Waits ids a t (restore (ok (a, t)) s) (
    (kept_or_fresh a t (get_task a t s.tasks), get_task-add_task a t s.tasks),
    In-append_last (assemble_task_id a t) s.tk_chan,
  )

  abbrev pub AllWait : Service → List Text → Type 0
  AllWait s ids = All (λ id. WaitsAs s (split_task_id id)) ids

  restore_all-all : (ids : List Text) (s : Service) → AllWait (restore_all ids s) ids
  unfolding restore_all
  restore_all-all [] s = tt
  restore_all-all (id ∷ ids) s = (
    restored-WaitsAs (split_task_id id) ids s,
    restore_all-all ids (restore (split_task_id id) s),
  )

-- Where the ids of the pending pool can be listed, `init_task_mg` reports success, and each of them
-- that splits into a transaction and a task type then waits as such in the map and in the channel.
pub init_task_mg-Waits :
    ⦃kv : KeyValueDb⦄ (s : Service) (ids : List Text)
    → load_all_pending_task_ids s.db ≡ ok ids
    → ((init_task_mg s).1 ≡ ok tt) × AllWait (init_task_mg s).0 ids
unfolding init_task_mg
init_task_mg-Waits s ids h = rw h (refl, restore_all-all ids s)
