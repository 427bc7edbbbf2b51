-- ===== src/Pipeline/WorkerManager.antt =====
-- services/worker_manager.py and services/credit_basculer.py
pub mod Capacity
pub mod Exhaustion
use roles.Prelude.{
  ℕ, zero, suc, ◌+◌, ◌-◌, String, Bool, true, false, not, ◌&&◌, ◌||◌, Option, none, some, List, [],
  ◌∷◌, ◌++◌, ◌==◌, nat_eq, string_eq, ltb, if◌then◌else◌, find_where, update_where, select_where,
  count_where, length,
}
use roles.Outside.{Outside}
use roles.Db.Schema.{Db, TranscriptionKey, TranscriptionWorker, WorkerStatus, worker_status_eq}
use roles.Db.TranscriptionKeys.{get_primary_key}
use roles.Db.TranscriptionJobs.{reassign_pending_to_shared, shared_default}

-- What `docker run` answers for an instance: the container, or an exception (an empty answer raises as
-- well). An exception of `docker stop` is caught, and leaves no trace in the tables.
pub record Docker : Type 0 where
  pub run : ℕ → Option String
  pub worker_name : ℕ → String

abbrev pub is_over : WorkerStatus → Bool
is_over s = s == WorkerStatus.stopped || s == WorkerStatus.failed

abbrev pub is_active_worker : String → String → TranscriptionWorker → Bool
is_active_worker pool provider w =
    w.worker_pool_id == pool && w.provider == provider && not (is_over w.status)

unfoldable pub count_active_workers : String → String → Db → ℕ
count_active_workers pool provider db =
    count_where (is_active_worker pool provider) db.transcription_workers

abbrev pub new_worker : String → String → String → String → Db → TranscriptionWorker
new_worker pool provider container_id name db = record {
  id = db.next_id;
  worker_pool_id = pool;
  container_id = some container_id;
  container_name = some name;
  provider = provider;
  status = WorkerStatus.starting;
  last_activity_at = some db.now;
}

unfoldable pub insert_worker_row : String → String → String → String → Db → Db
insert_worker_row pool provider container_id name db = record db {
  transcription_workers =
      db.transcription_workers ++ new_worker pool provider container_id name db ∷ [];
  next_id = db.next_id + 1;
}

-- `false` is an exception.
unfoldable pub spawn_worker : Docker → String → String → ℕ → Db → Bool × Db
spawn_worker d pool provider index db = elim (d.run index) [
  | none ↦ (false, db)
  | some container_id ↦
      (true, insert_worker_row pool provider container_id (d.worker_name index) db)
]

-- The loop, with the instances that are left; an exception ends it, and the call.
unfoldable pub spawn_workers : Docker → String → String → ℕ → ℕ → Db → Bool × Db
spawn_workers d pool provider zero index db = (true, db)
spawn_workers d pool provider (suc left) index db =
    let (spawned, db') = spawn_worker d pool provider index db in
    let rest = spawn_workers d pool provider left (suc index) db' in
    if spawned then rest else (false, db')

-- `int(primary.get("workers_count") or 1)`
unfoldable pub target_of : TranscriptionKey → ℕ
target_of k = if k.workers_count == 0 then 1 else k.workers_count

-- The number of workers spawned; `none` is an exception.
abbrev spawned_count : ℕ → Bool × Db → Option ℕ × Db
spawned_count delta (true, db) = (some delta, db)
spawned_count delta (false, db) = (none, db)

unfoldable pub ensure_for : Outside → Docker → ℕ → TranscriptionKey → Db → Option ℕ × Db
unfolding target_of
ensure_for o d user_id k db =
    let pool = o.user_pool user_id in
    let active = count_active_workers pool k.provider db in
    let delta = target_of k - active in
    spawned_count delta (spawn_workers d pool k.provider delta active db)

unfoldable pub ensure_user_workers_running : Outside → Docker → ℕ → Db → Option ℕ × Db
unfolding ensure_for
ensure_user_workers_running o d user_id db = elim (get_primary_key user_id db) [
  | none ↦ (some 0, db)
  | some k ↦ ensure_for o d user_id k db
]

abbrev pub stopped : TranscriptionWorker → TranscriptionWorker
stopped w = record w { status = WorkerStatus.stopped }

-- The loop of _stop_and_mark: each worker of the list is marked by its id.
unfoldable pub stop_all :
    List TranscriptionWorker → List TranscriptionWorker → List TranscriptionWorker
stop_all [] rows = rows
stop_all (w ∷ ws) rows = stop_all ws (update_where (λ x. x.id == w.id) stopped rows)

unfoldable pub stop_and_mark : List TranscriptionWorker → Db → ℕ × Db
unfolding stop_all
stop_and_mark ws db =
    (length ws, record db { transcription_workers = stop_all ws db.transcription_workers })

unfoldable pub stop_workers_for_key : Outside → ℕ → Db → ℕ × Db
stop_workers_for_key o key_id db = elim (find_where (λ k. k.id == key_id) db.transcription_keys) [
  | none ↦ (0, db)
  | some k ↦
      stop_and_mark
        (select_where (is_active_worker (o.user_pool k.user_id) k.provider)
          db.transcription_workers)
        db
]

-- `last_activity_at < now() - threshold`; a comparison with NULL is not true.
abbrev pub is_older_than : ℕ → ℕ → Option ℕ → Bool
is_older_than now threshold none = false
is_older_than now threshold (some t) = ltb (t + threshold) now

abbrev pub is_idle_too_long : ℕ → ℕ → TranscriptionWorker → Bool
is_idle_too_long now threshold w =
    w.status == WorkerStatus.idle
    && not (w.worker_pool_id == shared_default)
    && is_older_than now threshold w.last_activity_at

unfoldable pub auto_stop_idle : ℕ → Db → ℕ × Db
auto_stop_idle threshold db =
    stop_and_mark (select_where (is_idle_too_long db.now threshold) db.transcription_workers) db

-- credit_basculer.py
unfoldable pub handle_key_exhausted : Outside → ℕ → ℕ → Db → Db
handle_key_exhausted o key_id user_id db =
    (reassign_pending_to_shared (o.user_pool user_id) (stop_workers_for_key o key_id db).1).1
