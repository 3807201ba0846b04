-- ===== src/Tasks/Watcher.antt =====
-- Which tasks `watcherAndCloseTasks` (jobs.go) closes.
use mathlib.Core.List.{Memᴰ}
use mathlib.Core.List.Memᴰ
use arseeding.Prelude.{
  ℕ, ◌+◌, ◌<◌, Text, text_eq, text_eq_iff, ◌≡◌, ◌↔◌, refl, subst, Bool, true, false, not, ltb, ◌==◌,
  ◌&&◌, ◌||◌, List, [], ◌∷◌, arith, Bool-cases, inl, inr,
}
use arseeding.Prelude.Maps.{map_option, lookup, modify, lookup-modify}
use arseeding.Goar.Types.{Task}
use arseeding.Tasks.Id.{assemble_task_id}
use arseeding.Tasks.Manager.{TaskMap, close_task, get_tasks}
use arseeding.Orders.Rows.{both_true}
use arseeding.Tasks.Service.{close_overdue, watcher_and_close_tasks}

-- A task that is open has begun more than 1800 seconds ago; a time of 0 stands for one that has not.
abbrev pub IsOverdue : ℕ → Task → Type 0
IsOverdue now tk = (tk.close ≡ false) × (0 < tk.timestamp) × (tk.timestamp + 1800 < now)

is_overdue : ℕ → Task → Bool
is_overdue now tk = not (tk.close || tk.timestamp == 0) && ltb (tk.timestamp + 1800) now

is_overdue-IsOverdue : (now : ℕ) (tk : Task) → (is_overdue now tk ≡ true) ↔ IsOverdue now tk
unfolding is_overdue
is_overdue-IsOverdue now tk = (λ h. (ground arith, ground arith, ground arith), λ h. ground arith)

-- Some task of the list has the id and is overdue.
unfoldable has_overdue : ℕ → Text → List Task → Bool
unfolding is_overdue
has_overdue now id [] = false
has_overdue now id (tk ∷ tasks) =
    (is_overdue now tk && text_eq (assemble_task_id tk.ar_id tk.task_type) id)
    || has_overdue now id tasks

abbrev pub Overdue : ℕ → Text → List Task → Type 0
Overdue now id tasks =
    (tk : Task) × Memᴰ tk tasks × (assemble_task_id tk.ar_id tk.task_type ≡ id) × IsOverdue now tk

has_overdue_sound :
    (now : ℕ) (id : Text) (tasks : List Task)
    → has_overdue now id tasks ≡ true
    → Overdue now id tasks
unfolding has_overdue
has_overdue_sound now id [] h = absurd cc
has_overdue_sound now id (tk ∷ tasks) h =
    let t = assemble_task_id tk.ar_id tk.task_type in
    elim (Bool-cases (is_overdue now tk && text_eq t id)) [
      | inl this ↦
          let (late, same) = both_true (is_overdue now tk) (text_eq t id) this in
          (tk, Memᴰ.head refl, (text_eq_iff t id).0 same, (is_overdue-IsOverdue now tk).0 late)
      | inr other ↦
          let (q, m, same, late) = has_overdue_sound now id tasks (rw other at h) in
          (q, Memᴰ.tail m, same, late)
    ]

has_overdue-here :
    (now : ℕ) (id : Text) (tk : Task) (tasks : List Task)
    → text_eq (assemble_task_id tk.ar_id tk.task_type) id ≡ true
    → is_overdue now tk ≡ true
    → has_overdue now id (tk ∷ tasks) ≡ true
unfolding has_overdue
has_overdue-here now id tk tasks same late = rw (late, same) refl

has_overdue_complete :
    (now : ℕ) (id : Text) (tasks : List Task)
    → Overdue now id tasks
    → has_overdue now id tasks ≡ true
unfolding has_overdue
has_overdue_complete now id [] (tk, m, same, late) = absurd (Memᴰ.not-nil m)
has_overdue_complete now id (x ∷ tasks) (tk, Memᴰ.head e, same, late) =
    let h =
      has_overdue-here now id tk tasks ((text_eq_iff _ id).1 same)
        ((is_overdue-IsOverdue now tk).1 late) in
    subst (λ q. has_overdue now id (q ∷ tasks) ≡ true) e h
has_overdue_complete now id (x ∷ tasks) (tk, Memᴰ.tail m, same, late) =
    let h = has_overdue_complete now id tasks (tk, m, same, late) in ground (arith, h)

abbrev pub closed_if : Bool → Task → Task
closed_if b tk = record tk { close = tk.close || b }

lookup-close_overdue :
    (now : ℕ) (id : Text) (tasks : List Task) (m : TaskMap)
    → lookup id (close_overdue now tasks m)
      ≡ map_option (closed_if (has_overdue now id tasks)) (lookup id m)
unfolding close_overdue has_overdue is_overdue close_task
lookup-close_overdue now id [] m = ground arith
lookup-close_overdue now id (tk ∷ tasks) m =
    let t = assemble_task_id tk.ar_id tk.task_type in
    ground (
      arith,
      text_eq_iff t id,
      lookup-close_overdue now id tasks m,
      lookup-close_overdue now id tasks (modify t (λ q. record q { close = true }) m),
      lookup-modify t id (λ (q : Task). record q { close = true }) m,
    )

-- For any id, `watcher_and_close_tasks` closes the task that the map has for it exactly where some task
-- of the map with this id is open and began, at a second other than 0, more than 1800 seconds ago; it
-- changes nothing else of it, and no task comes or goes.
pub lookup-watcher_and_close_tasks :
    (now : ℕ) (id : Text) (m : TaskMap)
    → (late : Bool) × (lookup id (watcher_and_close_tasks now m)
        ≡ map_option (closed_if late) (lookup id m))
      × ((late ≡ true) ↔ Overdue now id (get_tasks m))
unfolding watcher_and_close_tasks
lookup-watcher_and_close_tasks now id m =
    let tasks = get_tasks m in
    (
      has_overdue now id tasks,
      lookup-close_overdue now id tasks m,
      (has_overdue_sound now id tasks, has_overdue_complete now id tasks),
    )
