-- ===== src/Db/ScrapingJobs/Restart.antt =====
-- The queue of scraping jobs after a restart: requeue_stale_jobs, then claims.
use roles.Prelude.{
  ℕ, zero, suc, ◌+◌, ◌≤◌, String, Bool, true, false, ◌||◌, ◌==◌, nat_eq, if◌then◌else◌, Option,
  some, none, List, [], ◌∷◌, find_where, update_where, count_where, find_where-update_where,
  Option-cases, Bool-cases, inl, inr, ◌≡◌, refl, sym, arith, subst, ◌&&◌, eq_opt, beq_refl,
  string_eq,
}
use mathlib.Core.Option
use roles.Db.Schema.{Db, ScrapingJob, JobStatus, job_status_eq}
use roles.Db.ScrapingJobs.{
  with_id, is_pending, is_stale, in_flight, claim, next_pending, claim_next_pending_job,
  requeue_stale_jobs,
}
use roles.Db.ScrapingJobs.ClaimOrder.{IsClaim, claim_next_pending_job-IsClaim}

-- `n` claims of a worker, one after the other.
abbrev pub claims : ℕ → String → Db → Db
claims zero worker_id db = db
claims (suc n) worker_id db = claims n worker_id (claim_next_pending_job worker_id db).1

abbrev pub job_with_id : ℕ → Db → Option ScrapingJob
job_with_id id db = find_where (with_id id) db.scraping_jobs

abbrev pub has_job : (ScrapingJob → Bool) → ℕ → Db → Bool
has_job p id db = elim (job_with_id id db) [ none ↦ false | some j ↦ p j ]

abbrev pub is_unfinished : ScrapingJob → Bool
is_unfinished j = in_flight j.status

-- Claimed, and by this worker: not by one that is gone.
abbrev pub is_claimed_by : String → ScrapingJob → Bool
is_claimed_by worker_id j = j.status == JobStatus.claimed && eq_opt j.claimed_by worker_id

abbrev is_queued : String → ScrapingJob → Bool
is_queued worker_id j = j.status == JobStatus.pending || is_claimed_by worker_id j

-- What a statement that keeps the ids makes of the job.
has_job-update :
    (p p' : ScrapingJob → Bool) (q : ScrapingJob → Bool) (f : ScrapingJob → ScrapingJob) (id : ℕ)
    (jobs : List ScrapingJob)
    → ((j : ScrapingJob) → (f j).id ≡ j.id)
    → ((j : ScrapingJob) → p j ≡ true → p' (if q j then f j else j) ≡ true)
    → elim (find_where (with_id id) jobs) [ none ↦ false | some j ↦ p j ] ≡ true
    → elim (find_where (with_id id) (update_where q f jobs)) [ none ↦ false | some j ↦ p' j ] ≡ true
has_job-update p p' q f id jobs keep step h =
    rw (find_where-update_where (with_id id) q f jobs (λ j. rw (keep j) refl))
      (go (find_where (with_id id) jobs) h)
  where
    go :
        (r : Option ScrapingJob)
        → elim r [ none ↦ false | some j ↦ p j ] ≡ true
        → elim (Option.map (λ x. if q x then f x else x) r) [ none ↦ false | some j ↦ p' j ] ≡ true
    go none e = cc e
    go (some j) e = step j e

requeue-is_queued :
    (w : String) (id : ℕ) (db : Db)
    → has_job is_unfinished id db ≡ true
    → has_job (is_queued w) id (requeue_stale_jobs db).1 ≡ true
unfolding requeue_stale_jobs
requeue-is_queued w id db =
    has_job-update is_unfinished (is_queued w) is_stale
      (λ j. record j { status = JobStatus.pending }) id db.scraping_jobs (λ j. refl)
      (λ j e. ground arith)

claim-is_queued :
    (w : String) (id : ℕ) (db : Db)
    → has_job (is_queued w) id db ≡ true
    → has_job (is_queued w) id (claim_next_pending_job w db).1 ≡ true
unfolding claim_next_pending_job claim
claim-is_queued w id db h = elim (Option-cases (next_pending db)) [
  | inl e ↦ rw (has_job, claim_next_pending_job, e) h
  | inr (job, e) ↦
      rw (has_job, claim_next_pending_job, e)
        (has_job-update (is_queued w) (is_queued w) (with_id job.id)
          (λ j. record j {
            status = JobStatus.claimed;
            claimed_by = some w;
            attempts = j.attempts + 1;
          })
          id db.scraping_jobs (λ j. refl) (λ j k. ground (arith, beq_refl w)) h)
]

claims-is_queued :
    (n : ℕ) (w : String) (id : ℕ) (db : Db)
    → has_job (is_queued w) id db ≡ true
    → has_job (is_queued w) id (claims n w db) ≡ true
claims-is_queued zero w id db h = h
claims-is_queued (suc n) w id db h =
    claims-is_queued n w id (claim_next_pending_job w db).1 (claim-is_queued w id db h)

pending_count : Db → ℕ
pending_count db = count_where is_pending db.scraping_jobs

claim-pending_count :
    (n : ℕ) (db : Db) (r : Option ScrapingJob) (db' : Db)
    → IsClaim db r db'
    → pending_count db ≤ suc n
    → pending_count db' ≤ n
unfolding pending_count
claim-pending_count n db none db' c h =
    subst (λ d. count_where is_pending d.scraping_jobs ≤ n) (sym c.0) (omega (arith, c.1))
claim-pending_count n db (some j) db' c h = omega (arith, c.1.1)

claims-pending_count :
    (n : ℕ) (w : String) (db : Db) → pending_count db ≤ n → pending_count (claims n w db) ≡ 0
claims-pending_count zero w db h = omega arith
claims-pending_count (suc n) w db h = claims-pending_count n w (claim_next_pending_job w db).1 (
    claim-pending_count n db (claim_next_pending_job w db).0 (claim_next_pending_job w db).1
      (claim_next_pending_job-IsClaim w db) h)

queued_then_claimed :
    (w : String) (id : ℕ) (db : Db)
    → has_job (is_queued w) id db ≡ true
    → pending_count db ≡ 0
    → has_job (is_claimed_by w) id db ≡ true
unfolding pending_count
queued_then_claimed w id db h z = go db.scraping_jobs h z
  where
    go :
        (jobs : List ScrapingJob)
        → elim (find_where (with_id id) jobs) [ none ↦ false | some j ↦ is_queued w j ] ≡ true
        → count_where is_pending jobs ≡ 0
        → elim (find_where (with_id id) jobs) [ none ↦ false | some j ↦ is_claimed_by w j ] ≡ true
    go [] e k = cc e
    go (j ∷ js) e k = elim (Bool-cases (with_id id j)) [
      | inl m ↦ rw m (claimed j (rw m at e) (ground arith))
      | inr m ↦ rw m (go js (rw m at e) (ground arith))
    ]
      where
        claimed :
            (x : ScrapingJob)
            → is_queued w x ≡ true
            → is_pending x ≡ false
            → is_claimed_by w x ≡ true
        claimed x q p = ground arith

-- After a restart no work is lost: once requeue_stale_jobs has run, and as many claims as jobs are
-- then pending, or more, a job that was pending, claimed by whatever worker, or processing is claimed
-- by the worker that claims, and no job is pending any more.
pub requeue_then_claims :
    (n : ℕ) (worker_id : String) (id : ℕ) (db : Db)
    → has_job is_unfinished id db ≡ true
    → count_where is_pending (requeue_stale_jobs db).1.scraping_jobs ≤ n
    → (has_job (is_claimed_by worker_id) id (claims n worker_id (requeue_stale_jobs db).1) ≡ true)
      × (count_where is_pending (claims n worker_id (requeue_stale_jobs db).1).scraping_jobs ≡ 0)
unfolding pending_count
requeue_then_claims n w id db h z =
    let none_left = claims-pending_count n w (requeue_stale_jobs db).1 z in
    (
      queued_then_claimed w id (claims n w (requeue_stale_jobs db).1)
          (claims-is_queued n w id (requeue_stale_jobs db).1 (requeue-is_queued w id db h))
          none_left,
      none_left,
    )
