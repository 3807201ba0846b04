-- ===== src/Tasks/Api.antt =====
-- api.go: the handlers `postTask`, `killTask` and `getTask`.
use arseeding.Prelude.{
  Text, Bytes, codes, Bool, false, not, ◌==◌, Option, none, some, ◌++◌, length, if◌then◌else◌,
}
use arseeding.Effect.{Error, Result, ok, err}
use arseeding.Rawdb.Interface.{KeyValueDb}
use arseeding.Goar.Types.{Goar, Task}
use arseeding.Store.Records.{load_task}
use arseeding.Tasks.Id.{
  assemble_task_id, task_type_sync, task_type_broadcast, task_type_broadcast_meta,
  task_type_sync_manifest,
}
use arseeding.Tasks.Manager.{get_task, close_task}
use arseeding.Tasks.Peers.{contains}
use arseeding.Tasks.Service.{Service, register_task}

-- the status codes 400, 404 and 200
pub data Response {ℓ} (A : Type ℓ) : Type ℓ where
  error_response : Error → Response A
  refused : Text → Response A
  not_found_response : Error → Response A
  success : A → Response A

abbrev pub respond {ℓ} : {A : Type ℓ} → Result A → Response A
respond (ok a) = success a
respond (err e) = error_response e

abbrev pub respond_or_404 {ℓ} : {A : Type ℓ} → Result A → Response A
respond_or_404 (ok a) = success a
respond_or_404 (err e) = not_found_response e

abbrev pub all_types : Text
all_types =
    task_type_sync ++ (task_type_broadcast ++ (task_type_broadcast_meta ++ task_type_sync_manifest))

abbrev pub killable_types : Text
killable_types = task_type_sync ++ (task_type_broadcast ++ task_type_broadcast_meta)

module _ ⦃kv : KeyValueDb⦄ ⦃g : Goar⦄ where
  -- The id decodes to 32 bytes.
  ar_id_of : Result Bytes → Bool
  ar_id_of (ok b) = length b == 32
  ar_id_of (err e) = false

  unfoldable pub is_ar_id : Text → Bool
  unfolding ar_id_of
  is_ar_id ar_id = ar_id_of (g.base64_decode ar_id)

  unfoldable pub post_task : Text → Text → Service → Service × Response (Unit {0})
  post_task ar_id tktype s =
      let (s', r) = register_task ar_id tktype s in
      if not (is_ar_id ar_id)
      then (s, refused (codes "arId incorrect"))
      else if not (contains all_types tktype)
      then (s, refused (codes "tktype not exist"))
      else (s', respond r)

  unfoldable pub kill_task : Text → Text → Service → Service × Response (Unit {0})
  kill_task ar_id tktype s =
      let (m, r) = close_task ar_id tktype s.tasks in
      if not (contains killable_types tktype)
      then (s, refused (codes "tktype not exist"))
      else if not (is_ar_id ar_id)
      then (s, refused (codes "arId incorrect"))
      else (record s { tasks = m }, respond_or_404 r)

  cached_or_stored : Option Task → Result Task → Response Task
  cached_or_stored (some tk) r = success tk
  cached_or_stored none r = respond r

  unfoldable pub get_task_handler : Text → Text → Service → Response Task
  unfolding cached_or_stored
  get_task_handler ar_id tktype s =
      if not (contains all_types tktype)
      then refused (codes "tktype not exist")
      else if not (is_ar_id ar_id)
      then refused (codes "arId incorrect")
      else cached_or_stored (get_task ar_id tktype s.tasks)
          (load_task (assemble_task_id ar_id tktype) s.db)
