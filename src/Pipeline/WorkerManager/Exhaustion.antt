-- ===== src/Pipeline/WorkerManager/Exhaustion.antt =====
-- What handle_key_exhausted leaves.
use roles.Prelude.{
  ℕ, ◌≡◌, refl, String, Bool, true, false, some, List, [], ◌∷◌, arith, All, All-mono, update_where,
  update_where-All, select_where, find_where, Bool-cases, inl, inr, ◌==◌, nat_eq, string_eq,
  beq_refl, eq_of_beq, any_where, subst,
}
use roles.Outside.{Outside}
use roles.Db.Schema.{Db, TranscriptionKey, TranscriptionWorker, worker_status_eq, job_status_eq}
use roles.Db.TranscriptionJobs.{reassign_pending_to_shared, is_pending_in, shared_default}
use roles.Pipeline.WorkerManager.{
  is_active_worker, stopped, stop_all, stop_and_mark, stop_workers_for_key, handle_key_exhausted,
}

module _ (p : TranscriptionWorker → Bool)
    (over : (w : TranscriptionWorker) → p (stopped w) ≡ false) where
  -- The row fails the test, or a worker of the list has its id.
  abbrev Covered : List TranscriptionWorker → TranscriptionWorker → Type 0
  Covered ws x = p x ≡ true → any_where (λ w. x.id == w.id) ws ≡ true

  stop_one-Covered :
      (w : TranscriptionWorker) (ws rows : List TranscriptionWorker)
      → All (Covered (w ∷ ws)) rows
      → All (Covered ws) (update_where (λ x. x.id == w.id) stopped rows)
  stop_one-Covered w ws [] h = tt
  stop_one-Covered w ws (x ∷ rows) h = elim (Bool-cases (x.id == w.id)) [
    | inl e ↦ rw e ((λ k. absurd (cc (k, over x))), stop_one-Covered w ws rows h.1)
    | inr e ↦ rw e ((λ k. rw e at (h.0 k)), stop_one-Covered w ws rows h.1)
  ]

  stop_all-over :
      (ws rows : List TranscriptionWorker)
      → All (Covered ws) rows
      → All (λ x. p x ≡ false) (stop_all ws rows)
  unfolding stop_all
  stop_all-over [] rows h = All-mono (Covered []) (λ x. p x ≡ false) rows (λ x c. not_covered x c) h
    where
      not_covered : (x : TranscriptionWorker) → Covered [] x → p x ≡ false
      not_covered x c = elim (Bool-cases (p x)) [ inl e ↦ cc (c e) | inr e ↦ e ]
  stop_all-over (w ∷ ws) rows h =
      stop_all-over ws (update_where (λ x. x.id == w.id) stopped rows)
        (stop_one-Covered w ws rows h)

  select_where-cons :
      (x : TranscriptionWorker) (rows : List TranscriptionWorker)
      → p x ≡ true
      → x ∷ select_where p rows ≡ select_where p (x ∷ rows)
  select_where-cons x rows e = rw e refl

  select_where-skip :
      (x : TranscriptionWorker) (rows : List TranscriptionWorker)
      → p x ≡ false
      → select_where p rows ≡ select_where p (x ∷ rows)
  select_where-skip x rows e = rw e refl

  select_where-Covered :
      (rows : List TranscriptionWorker) → All (Covered (select_where p rows)) rows
  select_where-Covered [] = tt
  select_where-Covered (x ∷ rows) = elim (Bool-cases (p x)) [
    | inl e ↦
        subst (λ ws. All (Covered ws) (x ∷ rows)) (select_where-cons x rows e)
          (
            (λ k. rw (beq_refl x.id) refl),
            All-mono (Covered (select_where p rows)) (Covered (x ∷ select_where p rows)) rows
                (λ y c k. ground (arith, c k)) (select_where-Covered rows),
          )
    | inr e ↦
        subst (λ ws. All (Covered ws) (x ∷ rows)) (select_where-skip x rows e)
          ((λ k. absurd (cc (e, k))), select_where-Covered rows)
  ]

stop_workers_for_key-found :
    (o : Outside) (k : TranscriptionKey) (db : Db)
    → find_where (λ x. x.id == k.id) db.transcription_keys ≡ some k
    → stop_and_mark
        (select_where
          (is_active_worker (o.user_pool k.user_id) k.provider)
          db.transcription_workers)
        db
      ≡ stop_workers_for_key o k.id db
unfolding stop_workers_for_key
stop_workers_for_key-found o k db found = rw (found, stop_workers_for_key)

-- When a key is exhausted, no worker of its user and provider stays active, and no transcription job
-- stays pending in the pool of the user, if the pool is not the shared one.
pub handle_key_exhausted-clears :
    (o : Outside) (k : TranscriptionKey) (db : Db)
    → find_where (λ x. x.id == k.id) db.transcription_keys ≡ some k
    → (o.user_pool k.user_id == shared_default) ≡ false
    → let db' = handle_key_exhausted o k.id k.user_id db in
      All
        (λ w. is_active_worker (o.user_pool k.user_id) k.provider w ≡ false)
        db'.transcription_workers
      × All (λ j. is_pending_in (o.user_pool k.user_id) j ≡ false) db'.transcription_jobs
unfolding handle_key_exhausted stop_and_mark reassign_pending_to_shared
handle_key_exhausted-clears o k db found apart = (
  subst (λ (r : ℕ × Db). All (λ w. active w ≡ false) r.1.transcription_workers)
      (stop_workers_for_key-found o k db found)
      (stop_all-over active (λ w. ground arith) (select_where active db.transcription_workers)
        db.transcription_workers
        (select_where-Covered active (λ w. ground arith) db.transcription_workers)),
  update_where-All (λ j. is_pending_in pool j ≡ false) (is_pending_in pool)
      (λ j. record j { worker_pool_id = shared_default })
      (stop_workers_for_key o k.id db).1.transcription_jobs
      (λ j e. ground (arith, apart, eq_of_beq shared_default pool, beq_refl shared_default))
      (λ j e. e),
)
  where
    pool : String
    pool = o.user_pool k.user_id

    active : TranscriptionWorker → Bool
    active w = is_active_worker pool k.provider w
