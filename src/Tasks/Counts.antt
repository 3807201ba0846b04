-- ===== src/Tasks/Counts.antt =====
-- What the broadcast loops of taskmanager.go leave in the record of their task.
use arseeding.Prelude.{
  ℕ, ◌+◌, Text, ◌≡◌, Bool, true, false, ◌&&◌, ◌||◌, some, List, [], ◌∷◌, arith, if◌then◌else◌,
}
use arseeding.Prelude.Maps.{lookup, lookup-modify_self}
use arseeding.Goar.Types.{Task}
use arseeding.Tasks.Id.{assemble_task_id}
use arseeding.Tasks.Manager.{TaskMap, inc_successed, inc_failed, close_task, is_closed}
use arseeding.Tasks.Peers.{
  MetaReply, DataReply, meta_accepted, killed_if, count_reply, broadcast_tx_meta, broadcast_data,
}

-- The replies up to the first during which the task was closed, that one included: the peers that
-- `BroadcastTxMeta` asks.
unfoldable pub reached : List MetaReply → List MetaReply
reached [] = []
reached (r ∷ replies) = let rest = reached replies in if r.killed then r ∷ [] else r ∷ rest

-- `BroadcastData` looks at the flag only behind a peer whose uploader was created.
unfoldable pub reached_data : Bool → List DataReply → List DataReply
reached_data killed [] = []
reached_data killed (r ∷ replies) =
    let rest = reached_data (killed || r.killed) replies in
    if r.created && (killed || r.killed) then r ∷ [] else r ∷ rest

module _ {ℓ} {A : Type ℓ} (test : A → Bool) where
  unfoldable pub count_if : List A → ℕ
  count_if [] = 0
  count_if (x ∷ xs) = if test x then count_if xs + 1 else count_if xs

  unfoldable pub count_unless : List A → ℕ
  count_unless [] = 0
  count_unless (x ∷ xs) = if test x then count_unless xs else count_unless xs + 1

abbrev pub data_accepted : DataReply → Bool
data_accepted r = r.created && r.uploaded

abbrev pub tallied : Task → Bool → ℕ → ℕ → Task
tallied tk closed successed failed = record tk {
  count_successed = tk.count_successed + successed;
  count_failed = tk.count_failed + failed;
  close = closed;
}

module _ (ar_id task_type : Text) where
  abbrev id : Text
  id = assemble_task_id ar_id task_type

  lookup-close :
      (m : TaskMap) (tk : Task)
      → lookup id m ≡ some tk
      → lookup id (close_task ar_id task_type m).0 ≡ some (record tk { close = true })
  unfolding close_task
  lookup-close m tk h = lookup-modify_self id (λ t. record t { close = true }) m tk h

  lookup-killed_if :
      (k : Bool) (m : TaskMap) (tk : Task)
      → lookup id m ≡ some tk
      → lookup id (killed_if ar_id task_type k m) ≡ some (record tk { close = tk.close || k })
  unfolding killed_if
  lookup-killed_if true m tk h = ground (arith, lookup-close m tk h)
  lookup-killed_if false m tk h = ground arith

  lookup-count_reply :
      (a : Bool) (m : TaskMap) (tk : Task)
      → lookup id m ≡ some tk
      → lookup id (count_reply ar_id task_type a m)
        ≡ some (if a then tallied tk tk.close 1 0 else tallied tk tk.close 0 1)
  unfolding count_reply inc_successed inc_failed
  lookup-count_reply true m tk h = ground (
    arith,
    lookup-modify_self id (λ (t : Task). record t { count_successed = t.count_successed + 1 }) m tk
        h,
  )
  lookup-count_reply false m tk h = ground (
    arith,
    lookup-modify_self id (λ (t : Task). record t { count_failed = t.count_failed + 1 }) m tk h,
  )

  abbrev visit : Bool → Bool → TaskMap → TaskMap
  visit killed accepted m =
      count_reply ar_id task_type accepted (killed_if ar_id task_type killed m)

  abbrev visited : Bool → Bool → Task → Task
  visited killed accepted tk =
      if accepted then tallied tk (tk.close || killed) 1 0 else tallied tk (tk.close || killed) 0 1

  lookup-visit :
      (k a : Bool) (m : TaskMap) (tk : Task)
      → lookup id m ≡ some tk
      → lookup id (visit k a m) ≡ some (visited k a tk)
  lookup-visit k a m tk h =
      lookup-count_reply a (killed_if ar_id task_type k m) (record tk { close = tk.close || k })
        (lookup-killed_if k m tk h)

  is_closed_of_lookup :
      (m : TaskMap) (tk : Task) → lookup id m ≡ some tk → is_closed ar_id task_type m ≡ tk.close
  unfolding is_closed
  is_closed_of_lookup m tk h = rw h

  -- Let the map have an open record for the task. After `broadcast_tx_meta` it has the same record,
  -- closed, with the accepted replies added to its successes and the others to its failures, where
  -- only the replies up to the first during which the task was closed count.
  pub broadcast_tx_meta-lookup :
      (replies : List MetaReply) (m : TaskMap) (tk : Task)
      → lookup id m ≡ some tk
      → tk.close ≡ false
      → lookup id (broadcast_tx_meta ar_id task_type replies m)
        ≡ some (
            tallied tk true
              (count_if meta_accepted (reached replies))
              (count_unless meta_accepted (reached replies)))
  unfolding broadcast_tx_meta reached count_if count_unless
  broadcast_tx_meta-lookup [] m tk h open_task = ground (arith, lookup-close m tk h)
  broadcast_tx_meta-lookup (r ∷ replies) m tk h open_task =
      let a = meta_accepted r in
      let seen = lookup-visit r.killed a m tk h in
      let flag = is_closed_of_lookup (visit r.killed a m) (visited r.killed a tk) seen in
      ground (
        arith,
        seen,
        flag,
        broadcast_tx_meta-lookup replies (visit r.killed a m) (visited r.killed a tk) seen,
      )

  -- Let the map have a record for the task. After `broadcast_data` it has the same record, closed,
  -- with the peers that took all chunks added to its successes and the others to its failures, where
  -- the peers count up to the first that got its uploader when the task was closed.
  pub broadcast_data-lookup :
      (replies : List DataReply) (m : TaskMap) (tk : Task)
      → lookup id m ≡ some tk
      → lookup id (broadcast_data ar_id task_type replies m)
        ≡ some (
            tallied tk true
              (count_if data_accepted (reached_data tk.close replies))
              (count_unless data_accepted (reached_data tk.close replies)))
  unfolding broadcast_data reached_data count_if count_unless
  broadcast_data-lookup [] m tk h = ground (arith, lookup-close m tk h)
  broadcast_data-lookup (r ∷ replies) m tk h =
      let a = data_accepted r in
      let seen = lookup-visit r.killed a m tk h in
      let flag = is_closed_of_lookup (visit r.killed a m) (visited r.killed a tk) seen in
      ground (
        arith,
        seen,
        flag,
        broadcast_data-lookup replies (visit r.killed a m) (visited r.killed a tk) seen,
      )
