-- ===== src/Tasks/Id.antt =====
-- taskmanager.go: `assembleTaskId` and `splitTaskId`; the task types of schema/task.go.
use arseeding.Prelude.{
  ℕ, ◌+◌, Text, codes, ◌≡◌, ◌≢◌, refl, ap, Option, none, some, [], ◌∷◌, ◌++◌, map, All, arith, leb,
  ◌&&◌, ◌==◌, if◌then◌else◌,
}
use arseeding.Effect.{Result, ok, err, other}

abbrev pub task_type_broadcast : Text
task_type_broadcast = codes "broadcast"

abbrev pub task_type_broadcast_meta : Text
task_type_broadcast_meta = codes "broadcast_meta"

abbrev pub task_type_sync : Text
task_type_sync = codes "sync"

abbrev pub task_type_sync_manifest : Text
task_type_sync_manifest = codes "sync_manifest"

lower_byte : ℕ → ℕ
lower_byte c = if leb b'A' c && leb c b'Z' then c + 32 else c

-- `strings.ToLower`, on ASCII
unfoldable pub to_lower : Text → Text
unfolding lower_byte
to_lower t = map lower_byte t

-- `strings.SplitN(taskId, "-", 2)`, where it has two parts
split_dash : Text → Option (Text × Text)
split_dash [] = none
split_dash (c ∷ t) =
    let rest = split_dash t in
    if c == b'-' then some ([], t) else elim rest [ none ↦ none | some (a, b) ↦ some (c ∷ a, b) ]

abbrev pub dash : ℕ
dash = b'-'

unfoldable pub assemble_task_id : Text → Text → Text
assemble_task_id ar_id task_type = to_lower task_type ++ (dash ∷ ar_id)

swapped : Option (Text × Text) → Result (Text × Text)
swapped none = err (other (codes "taskId incorrect"))
swapped (some (task_type, ar_id)) = ok (ar_id, task_type)

-- the transaction's id and the task type
unfoldable pub split_task_id : Text → Result (Text × Text)
unfolding split_dash swapped
split_task_id task_id = swapped (split_dash task_id)

-- No byte of the text is a dash.
abbrev pub Dashless : Text → Type 0
Dashless t = All (λ c. c ≢ dash) t

split_dash-append : (t a : Text) → Dashless t → split_dash (t ++ (dash ∷ a)) ≡ some (t, a)
unfolding split_dash
split_dash-append [] a h = refl
split_dash-append (c ∷ t) a h = ground (arith, split_dash-append t a h.1)

lower_byte-ne-dash : (c : ℕ) → c ≢ dash → lower_byte c ≢ dash
unfolding lower_byte
lower_byte-ne-dash c h = ground arith

to_lower-Dashless : (t : Text) → Dashless t → Dashless (to_lower t)
unfolding to_lower
to_lower-Dashless [] h = tt
to_lower-Dashless (c ∷ t) h = (lower_byte-ne-dash c h.0, to_lower-Dashless t h.1)

-- A task type without a dash, as all four are, comes back from its task id in lower case, with the
-- id of the transaction unchanged, whatever dashes that holds.
pub split-assemble :
    (ar_id task_type : Text)
    → Dashless task_type
    → split_task_id (assemble_task_id ar_id task_type) ≡ ok (ar_id, to_lower task_type)
unfolding split_task_id assemble_task_id
split-assemble ar_id task_type h =
    ap swapped (split_dash-append (to_lower task_type) ar_id (to_lower-Dashless task_type h))

-- Two tasks with one task id have one transaction and, up to case, one task type: no task takes the
-- place of another in the map or the pool.
pub assemble_injective :
    (a b t u : Text)
    → Dashless t
    → Dashless u
    → assemble_task_id a t ≡ assemble_task_id b u
    → (a ≡ b) × (to_lower t ≡ to_lower u)
assemble_injective a b t u ht hu e =
    let p = split-assemble a t ht in
    let q = split-assemble b u hu in
    let r : ◌≡◌ {A = Result (Text × Text)} (ok (a, to_lower t)) (ok (b, to_lower u)) =
      cc (p, q, ap split_task_id e) in
    (cc r, cc r)
