-- ===== src/Tasks/Lifecycle.antt =====
-- No task is lost between its registration and the end of its processing.
use arseeding.Prelude.{
  Text, Bytes, codes, text_eq_refl, ◌≡◌, refl, ap, ◌∙◌, ◌⊎◌, inl, inr, Option, none, some, [], ◌∷◌,
  ◌++◌, Option-cases,
}
use arseeding.Prelude.Maps.{lookup, lookup-insert, lookup-remove}
use arseeding.Effect.{Error, Result, ok, err, Result-cases}
use arseeding.Rawdb.Interface.{KeyValueDb, task_id_pending_pool_bucket, task_bucket}
use arseeding.Goar.Types.{Goar, Task}
use arseeding.Store.Records.{put_task_pending_pool, del_pending_pool_task_id, save_task, load_task}
use arseeding.Tasks.Id.{assemble_task_id, split_task_id}
use arseeding.Tasks.Manager.{TaskMap, add_task, del_task, get_task, fresh_task}
use arseeding.Tasks.Service.{
  Service, put_to_tk_chan, register_task, set_processed_task, Handlers, start_task, process_task,
  split_or_empty,
}

-- the record that the map keeps, or a new one
abbrev pub kept_or_fresh : Text → Text → Option Task → Task
kept_or_fresh ar_id tktype none = fresh_task ar_id tktype
kept_or_fresh ar_id tktype (some tk) = tk

module _ (ar_id tktype : Text) (m : TaskMap) where
  pub get_task-add_task :
      get_task ar_id tktype (add_task ar_id tktype m)
      ≡ some (kept_or_fresh ar_id tktype (get_task ar_id tktype m))
  unfolding get_task add_task
  get_task-add_task = elim (Option-cases (lookup (assemble_task_id ar_id tktype) m)) [
    | inl absent ↦ rw (
      absent,
      lookup-insert (assemble_task_id ar_id tktype) (assemble_task_id ar_id tktype)
          (fresh_task ar_id tktype) m,
      text_eq_refl (assemble_task_id ar_id tktype),
    )
    | inr (tk, present) ↦ rw (present, present)
  ]

  pub get_task-del_task : get_task ar_id tktype (del_task ar_id tktype m) ≡ none
  unfolding get_task del_task
  get_task-del_task = rw (
    lookup-remove (assemble_task_id ar_id tktype) (assemble_task_id ar_id tktype) m,
    text_eq_refl (assemble_task_id ar_id tktype),
  )

module _ ⦃kv : KeyValueDb⦄ ⦃g : Goar⦄ where
  -- The pool of pending tasks holds the task id.
  abbrev pub IsPending : Text → kv.Db → Type 0
  IsPending id db = (v : Bytes) × (kv.get task_id_pending_pool_bucket id db ≡ ok v)

  -- what `register_task` ends with: a task that waits in the map, the pool and the channel, or an
  -- error with the task dropped and the pool as it was
  abbrev pub Registered : Text → Text → Service → Service × Result (Unit {0}) → Type 0
  Registered ar_id tktype s (s', ok u) =
      IsPending (assemble_task_id ar_id tktype) s'.db
      × (get_task ar_id tktype s'.tasks
          ≡ some (kept_or_fresh ar_id tktype (get_task ar_id tktype s.tasks)))
      × (s'.tk_chan ≡ s.tk_chan ++ (assemble_task_id ar_id tktype ∷ []))
  Registered ar_id tktype s (s', err e) =
      (get_task ar_id tktype s'.tasks ≡ none)
      × ((id : Text)
          → kv.get task_id_pending_pool_bucket id s'.db
            ≡ kv.get task_id_pending_pool_bucket id s.db)
      × (s'.tk_chan ≡ s.tk_chan)

-- A task that `register_task` accepts is in the pool of pending tasks, in the map, with its old
-- record where it had one, and last in the channel. Where it returns an error, the task is not in
-- the map, and the pool and the channel are as before.
pub register_task-Registered :
    ⦃kv : KeyValueDb⦄ ⦃g : Goar⦄ (ar_id tktype : Text) (s : Service)
    → Registered ar_id tktype s (register_task ar_id tktype s)
unfolding register_task put_task_pending_pool put_to_tk_chan
register_task-Registered ⦃kv⦄ ⦃g⦄ ar_id tktype s =
    let id = assemble_task_id ar_id tktype in
    let v : Bytes = codes "0x01" in
    let pool = task_id_pending_pool_bucket in
    elim (Result-cases (kv.put pool id v s.db).1) [
      | inl (u, saved) ↦ rw saved (
        (v, rw (kv.get-put pool id v s.db pool id saved, text_eq_refl id)),
        get_task-add_task ar_id tktype s.tasks,
        refl,
      )
      | inr (e, failed) ↦ rw failed (
        get_task-del_task ar_id tktype (add_task ar_id tktype s.tasks),
        λ j. kv.get-put_err pool id v s.db pool j failed,
        refl,
      )
    ]

module _ ⦃kv : KeyValueDb⦄ ⦃g : Goar⦄ where
  abbrev pub kept_or_stored : Option Task → Result Task → Result Task
  kept_or_stored none stored = stored
  kept_or_stored (some tk) stored = ok tk

  -- what `set_processed_task` ends with
  abbrev pub Processed : Text → Text → Service → Service × Result (Unit {0}) → Type 0
  Processed ar_id tktype s (s', ok u) =
      (get_task ar_id tktype s'.tasks ≡ none)
      × (kv.get task_id_pending_pool_bucket (assemble_task_id ar_id tktype) s'.db ≡ err kv.missing)
      × (load_task (assemble_task_id ar_id tktype) s'.db
          ≡ kept_or_stored (get_task ar_id tktype s.tasks)
              (load_task (assemble_task_id ar_id tktype) s.db))
  Processed ar_id tktype s (s', err e) =
      kv.get task_id_pending_pool_bucket (assemble_task_id ar_id tktype) s'.db
      ≡ kv.get task_id_pending_pool_bucket (assemble_task_id ar_id tktype) s.db

  module _ (id : Text) (db : kv.Db) where
    pool-save_task :
        (tk : Task)
        → kv.get task_id_pending_pool_bucket id (save_task id tk db).0
          ≡ kv.get task_id_pending_pool_bucket id db
    unfolding save_task
    pool-save_task tk = elim (Result-cases (kv.put task_bucket id (g.marshal_task tk) db).1) [
      | inl (u, saved) ↦
          rw (kv.get-put task_bucket id (g.marshal_task tk) db task_id_pending_pool_bucket id saved)
      | inr (e, failed) ↦ rw (
          kv.get-put_err task_bucket id (g.marshal_task tk) db task_id_pending_pool_bucket id
            failed)
    ]

    load_task-save_task :
        (tk : Task) → (save_task id tk db).1 ≡ ok tt → load_task id (save_task id tk db).0 ≡ ok tk
    unfolding save_task load_task
    load_task-save_task tk saved =
        rw (kv.get-put task_bucket id (g.marshal_task tk) db task_bucket id saved, text_eq_refl id)
          (g.unmarshal-marshal_task tk)

    pool-del_pending :
        (del_pending_pool_task_id id db).1 ≡ ok tt
        → kv.get task_id_pending_pool_bucket id (del_pending_pool_task_id id db).0 ≡ err kv.missing
    unfolding del_pending_pool_task_id
    pool-del_pending done = rw (
      kv.get-delete task_id_pending_pool_bucket id db task_id_pending_pool_bucket id done,
      text_eq_refl id,
    )

    pool-del_pending_err :
        {e : Error}
        → (del_pending_pool_task_id id db).1 ≡ err e
        → kv.get task_id_pending_pool_bucket id (del_pending_pool_task_id id db).0
          ≡ kv.get task_id_pending_pool_bucket id db
    unfolding del_pending_pool_task_id
    pool-del_pending_err failed =
        kv.get-delete_err task_id_pending_pool_bucket id db task_id_pending_pool_bucket id failed

    load_task-del_pending : load_task id (del_pending_pool_task_id id db).0 ≡ load_task id db
    unfolding del_pending_pool_task_id load_task
    load_task-del_pending = elim (Result-cases (kv.delete task_id_pending_pool_bucket id db).1) [
      | inl (u, done) ↦ rw (kv.get-delete task_id_pending_pool_bucket id db task_bucket id done)
      | inr (e, failed) ↦
          rw (kv.get-delete_err task_id_pending_pool_bucket id db task_bucket id failed)
    ]

-- Where `set_processed_task` reports success, the task has left the map and the pool of pending
-- tasks, and the store returns for its id the record that the map had, or, if it had none, what the
-- store returned before. Where it reports an error, the entry of the task in the pool is as before,
-- so that a restart takes the task up.
pub set_processed_task-Processed :
    ⦃kv : KeyValueDb⦄ ⦃g : Goar⦄ (ar_id tktype : Text) (s : Service)
    → Processed ar_id tktype s (set_processed_task ar_id tktype s)
unfolding set_processed_task
set_processed_task-Processed ar_id tktype s =
    let id = assemble_task_id ar_id tktype in
    elim (Option-cases (get_task ar_id tktype s.tasks)) [
      | inl absent ↦ rw absent (elim (Result-cases (del_pending_pool_task_id id s.db).1) [
        | inl (u, done) ↦ rw done (
          get_task-del_task ar_id tktype s.tasks,
          pool-del_pending id s.db done,
          rw absent (load_task-del_pending id s.db),
        )
        | inr (e, failed) ↦ rw failed (pool-del_pending_err id s.db failed)
      ])
      | inr (tk, present) ↦ rw present (elim (Result-cases (save_task id tk s.db).1) [
        | inl (u, saved) ↦
            rw saved (elim (Result-cases (del_pending_pool_task_id id (save_task id tk s.db).0).1) [
              | inl (v, done) ↦ rw done (
                get_task-del_task ar_id tktype s.tasks,
                pool-del_pending id (save_task id tk s.db).0 done,
                rw present (
                    load_task-del_pending id (save_task id tk s.db).0
                    ∙ load_task-save_task id s.db tk saved),
              )
              | inr (e, failed) ↦ rw failed (
                  pool-del_pending_err id (save_task id tk s.db).0 failed
                  ∙ pool-save_task id s.db tk)
            ])
        | inr (e, failed) ↦ rw failed (pool-save_task id s.db tk)
      ])
    ]

process_task-eq :
    ⦃kv : KeyValueDb⦄ ⦃g : Goar⦄ (h : Handlers) (id a t : Text) (s : Service)
    → split_task_id id ≡ ok (a, t)
    → process_task h id s ≡ (set_processed_task a t (start_task h a t s).0).0
unfolding process_task
process_task-eq h id a t s splits =
    ap (λ r. let p = split_or_empty r in (set_processed_task p.0 p.1 (start_task h p.0 p.1 s).0).0)
      splits

-- what `process_task` ends with, `before` being the state that the handler of the task left
abbrev pub Ended : ⦃kv : KeyValueDb⦄ ⦃g : Goar⦄ → Text → Text → Service → Service → Type 0
Ended ⦃kv⦄ a t before after =
    ((get_task a t after.tasks ≡ none)
      × (kv.get task_id_pending_pool_bucket (assemble_task_id a t) after.db ≡ err kv.missing))
    ⊎ (kv.get task_id_pending_pool_bucket (assemble_task_id a t) after.db
        ≡ kv.get task_id_pending_pool_bucket (assemble_task_id a t) before.db)

Ended-Processed :
    ⦃kv : KeyValueDb⦄ ⦃g : Goar⦄ (a t : Text) (before : Service) (r : Service × Result (Unit {0}))
    → Processed a t before r
    → Ended a t before r.0
Ended-Processed a t before (s', ok u) p = inl (p.0, p.1)
Ended-Processed a t before (s', err e) p = inr p

-- For an id that splits into the two parts it is made of: whatever the handler of the task does,
-- after `process_task` the task has left the map and the pool of pending tasks, or its entry in the
-- pool is as the handler left it.
pub process_task-ends :
    ⦃kv : KeyValueDb⦄ ⦃g : Goar⦄ (h : Handlers) (a t : Text) (s : Service)
    → split_task_id (assemble_task_id a t) ≡ ok (a, t)
    → Ended a t (start_task h a t s).0 (process_task h (assemble_task_id a t) s)
process_task-ends h a t s splits =
    let s' = (start_task h a t s).0 in
    rw (process_task-eq h (assemble_task_id a t) a t s splits)
      (Ended-Processed a t s' (set_processed_task a t s') (set_processed_task-Processed a t s'))
