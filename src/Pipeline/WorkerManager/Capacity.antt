-- ===== src/Pipeline/WorkerManager/Capacity.antt =====
-- How many workers a user has after ensure_user_workers_running.
use roles.Prelude.{
  ℕ, zero, suc, ◌+◌, ◌-◌, ◌≡◌, refl, max, String, true, some, [], ◌∷◌, arith, count_where-append,
  beq_refl, string_eq, nat_eq,
}
use roles.Outside.{Outside}
use roles.Db.Schema.{Db, TranscriptionKey, worker_status_eq}
use roles.Db.TranscriptionKeys.{get_primary_key}
use roles.Pipeline.WorkerManager.{
  Docker, is_active_worker, count_active_workers, new_worker, insert_worker_row, spawn_worker,
  spawn_workers, target_of, ensure_for, ensure_user_workers_running,
}

-- `docker run` succeeds for every instance.
abbrev pub Runs : Docker → Type 0
Runs d = (index : ℕ) → (container : String) × (d.run index ≡ some container)

insert-count :
    (pool provider container name : String) (db : Db)
    → count_active_workers pool provider (insert_worker_row pool provider container name db)
      ≡ suc (count_active_workers pool provider db)
unfolding count_active_workers insert_worker_row
insert-count pool provider container name db = ground (
  arith,
  beq_refl pool,
  beq_refl provider,
  count_where-append (is_active_worker pool provider) db.transcription_workers
      (new_worker pool provider container name db ∷ []),
)

spawn_worker-runs :
    (d : Docker) (pool provider container : String) (index : ℕ) (db : Db)
    → d.run index ≡ some container
    → spawn_worker d pool provider index db
      ≡ (true, insert_worker_row pool provider container (d.worker_name index) db)
unfolding spawn_worker
spawn_worker-runs d pool provider container index db e = rw (e, spawn_worker)

spawn_workers-count :
    (d : Docker) (pool provider : String) (left index : ℕ) (db : Db)
    → Runs d
    → ((spawn_workers d pool provider left index db).0 ≡ true)
      × (count_active_workers pool provider (spawn_workers d pool provider left index db).1
          ≡ count_active_workers pool provider db + left)
unfolding spawn_workers
spawn_workers-count d pool provider zero index db r = (refl, omega arith)
spawn_workers-count d pool provider (suc left) index db r =
    let (container, e) = r index in
    let here = insert-count pool provider container (d.worker_name index) db in
    let rest =
      spawn_workers-count d pool provider left (suc index)
        (insert_worker_row pool provider container (d.worker_name index) db) r in
    rw (spawn_worker-runs d pool provider container index db e)
      (rest.0, omega (arith, rest.1, here))

-- With a primary key, and as long as docker runs what it is asked for, the call returns the number of
-- workers that were missing, and the user then has as many active workers as the key asks for, or as
-- many as there were if there were more.
pub ensure_user_workers_running-count :
    (o : Outside) (d : Docker) (user_id : ℕ) (k : TranscriptionKey) (db : Db)
    → get_primary_key user_id db ≡ some k
    → Runs d
    → let active = λ (x : Db). count_active_workers (o.user_pool user_id) k.provider x in
      let end = ensure_user_workers_running o d user_id db in
      (end.0 ≡ some (target_of k - active db)) × (active end.1 ≡ max (target_of k) (active db))
unfolding ensure_user_workers_running ensure_for
ensure_user_workers_running-count o d user_id k db found runs =
    rw (found, ensure_user_workers_running)
      (let spawned =
          spawn_workers-count d (o.user_pool user_id) k.provider
            (target_of k - count_active_workers (o.user_pool user_id) k.provider db)
            (count_active_workers (o.user_pool user_id) k.provider db) db runs in
        rw (spawned.0) (refl, omega (arith, spawned.1)))
