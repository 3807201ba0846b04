-- ===== src/Tasks/Peers.antt =====
-- taskmanager.go: the loops over the peers. What a peer answers is an input. So is `killed`: whether
-- another goroutine, of `killTask` or `watcherAndCloseTasks`, closes the task while the peer is
-- asked.
use arseeding.Prelude.{
  ℕ, Text, codes, Bool, true, false, not, ◌&&◌, ◌||◌, ◌==◌, Option, none, some, List, [], ◌∷◌,
  if◌then◌else◌,
}
use arseeding.Effect.{Result, ok, err, task_closed, fetch_data, other}
use arseeding.Tasks.Manager.{TaskMap, inc_successed, inc_failed, close_task, is_closed}

-- `strings.HasPrefix`, `strings.Contains`
has_prefix : Text → Text → Bool
has_prefix t [] = true
has_prefix [] (d ∷ p) = false
has_prefix (c ∷ t) (d ∷ p) = (c == d) && has_prefix t p

unfoldable pub contains : Text → Text → Bool
unfolding has_prefix
contains [] p = has_prefix [] p
contains (c ∷ t) p = has_prefix (c ∷ t) p || contains t p

-- what `SubmitTransaction` to one peer returns
pub record MetaReply : Type 0 where
  pub code : ℕ
  pub status : Text
  pub killed : Bool

-- what `CreateUploader` and `uploader.Once` of one peer return
pub record DataReply : Type 0 where
  pub created : Bool
  pub uploaded : Bool
  pub killed : Bool

-- what a download from one peer returns
pub record Fetch {ℓ} (A : Type ℓ) : Type ℓ where
  pub fetched : Option A
  pub killed : Bool

unfoldable pub meta_accepted : MetaReply → Bool
unfolding contains
meta_accepted r = not (
    not (r.code == 200)
    && not (r.code == 208)
    && not (contains r.status (codes "Transaction is already in the mempool.")))

module _ (ar_id task_type : Text) where
  unfoldable pub killed_if : Bool → TaskMap → TaskMap
  killed_if k m = if k then (close_task ar_id task_type m).0 else m

  unfoldable pub count_reply : Bool → TaskMap → TaskMap
  count_reply accepted m =
      if accepted then inc_successed ar_id task_type m else inc_failed ar_id task_type m

  unfoldable pub broadcast_tx_meta : List MetaReply → TaskMap → TaskMap
  broadcast_tx_meta [] m = (close_task ar_id task_type m).0
  broadcast_tx_meta (r ∷ replies) m =
      let m' = count_reply (meta_accepted r) (killed_if r.killed m) in
      let rest = broadcast_tx_meta replies m' in if is_closed ar_id task_type m' then m' else rest

  -- The post of the header, where the transaction is not on chain, has no bearing on the task.
  unfoldable pub broadcast_data : List DataReply → TaskMap → TaskMap
  broadcast_data [] m = (close_task ar_id task_type m).0
  broadcast_data (r ∷ replies) m =
      let m' = count_reply (r.created && r.uploaded) (killed_if r.killed m) in
      let rest = broadcast_data replies m' in
      if r.created then (if is_closed ar_id task_type m' then m' else rest) else rest

  module _ {ℓ} {A : Type ℓ} where
    -- A failed download is counted, and so is the one that succeeds.
    unfoldable pub get_tx_data_from_peers : List (Fetch A) → TaskMap → TaskMap × Result A
    get_tx_data_from_peers [] m = (m, err fetch_data)
    get_tx_data_from_peers (f ∷ fetches) m =
        let m' = killed_if f.killed m in
        let rest = get_tx_data_from_peers fetches (inc_failed ar_id task_type m') in
        if is_closed ar_id task_type m
        then (m, err task_closed)
        else elim f.fetched [ none ↦ rest | some a ↦ (inc_successed ar_id task_type m', ok a) ]

    unfoldable pub get_unconfirmed_tx_from_peers : List (Fetch A) → TaskMap → TaskMap × Result A
    get_unconfirmed_tx_from_peers [] m = (m, err (other (codes "get unconfirmed tx failed")))
    get_unconfirmed_tx_from_peers (f ∷ fetches) m =
        let m' = killed_if f.killed m in
        let rest = get_unconfirmed_tx_from_peers fetches m' in
        if is_closed ar_id task_type m
        then (m, err task_closed)
        else elim f.fetched [ none ↦ rest | some a ↦ (m', ok a) ]
