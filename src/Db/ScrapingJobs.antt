-- ===== src/Db/ScrapingJobs.antt =====
-- backend/src/role_builder/db_helpers/scraping_jobs.py
pub mod ClaimOrder
pub mod Restart
use roles.Prelude.{
  ℕ, ◌+◌, String, Bool, true, ◌&&◌, ◌||◌, Option, none, some, List, [], ◌∷◌, ◌++◌, ◌==◌, nat_eq,
  ltb, if◌then◌else◌, eq_opt, head?, update_where, select_where, count_where, any_where, order_by,
}
use roles.Db.Schema.{Db, ScrapingJob, JobStatus, job_status_eq, Command, command_eq}

-- What insert_job is given.
pub record NewScrapingJob : Type 0 where
  pub source_id : ℕ
  pub source_item_id : Option ℕ
  pub tenant_id : ℕ
  pub command : Command
  pub credentials_id : Option ℕ
  pub priority : ℕ

abbrev pub new_job : NewScrapingJob → Db → ScrapingJob
new_job n db = record {
  id = db.next_id;
  source_id = n.source_id;
  source_item_id = n.source_item_id;
  tenant_id = n.tenant_id;
  credentials_id = n.credentials_id;
  command = n.command;
  status = JobStatus.pending;
  priority = n.priority;
  claimed_by = none;
  attempts = 0;
  error = none;
  created_at = db.now;
}

unfoldable pub insert_job : NewScrapingJob → Db → ℕ × Db
insert_job n db = (
  db.next_id,
  record db { scraping_jobs = db.scraping_jobs ++ new_job n db ∷ []; next_id = db.next_id + 1 },
)

abbrev pub is_pending : ScrapingJob → Bool
is_pending j = j.status == JobStatus.pending

-- ORDER BY priority DESC, created_at ASC
abbrev pub runs_before : ScrapingJob → ScrapingJob → Bool
runs_before a b =
    ltb b.priority a.priority || (a.priority == b.priority && ltb a.created_at b.created_at)

-- _SELECT_NEXT_SQL
unfoldable pub next_pending : Db → Option ScrapingJob
next_pending db = head? (order_by runs_before (select_where is_pending db.scraping_jobs))

abbrev pub with_id : ℕ → ScrapingJob → Bool
with_id job_id j = j.id == job_id

-- _CLAIM_UPDATE_SQL
unfoldable pub claim : String → ℕ → Db → Db
claim worker_id job_id db = record db {
  scraping_jobs =
      update_where (with_id job_id)
        (λ j. record j {
          status = JobStatus.claimed;
          claimed_by = some worker_id;
          attempts = j.attempts + 1;
        })
        db.scraping_jobs;
}

-- The two statements of the transaction; the row is the one that the SELECT read.
unfoldable pub claim_next_pending_job : String → Db → Option ScrapingJob × Db
claim_next_pending_job worker_id db = elim (next_pending db) [
  | none ↦ (none, db)
  | some job ↦ (some job, claim worker_id job.id db)
]

abbrev pub set_job : ℕ → (ScrapingJob → ScrapingJob) → Db → Db
set_job job_id f db = record db { scraping_jobs = update_where (with_id job_id) f db.scraping_jobs }

unfoldable pub mark_job_processing : ℕ → Db → Db
mark_job_processing job_id = set_job job_id (λ j. record j { status = JobStatus.processing })

unfoldable pub mark_job_done : ℕ → Db → Db
mark_job_done job_id = set_job job_id (λ j. record j { status = JobStatus.done })

unfoldable pub mark_job_failed : ℕ → String → Db → Db
mark_job_failed job_id error =
    set_job job_id (λ j. record j { status = JobStatus.failed; error = some error })

abbrev pub in_flight : JobStatus → Bool
in_flight s = s == JobStatus.pending || s == JobStatus.claimed || s == JobStatus.processing

abbrev pub is_active_for : ℕ → Command → ScrapingJob → Bool
is_active_for source_item_id command j =
    eq_opt j.source_item_id source_item_id && j.command == command && in_flight j.status

unfoldable pub get_active_job_for_item : ℕ → Command → Db → Bool
get_active_job_for_item source_item_id command db =
    any_where (is_active_for source_item_id command) db.scraping_jobs

abbrev pub is_cancellable : ℕ → ScrapingJob → Bool
is_cancellable source_id j =
    j.source_id == source_id && (j.status == JobStatus.pending || j.status == JobStatus.claimed)

unfoldable pub cancel_pending_claimed : ℕ → Db → ℕ × Db
cancel_pending_claimed source_id db = (
  count_where (is_cancellable source_id) db.scraping_jobs,
  record db {
    scraping_jobs =
        update_where (is_cancellable source_id) (λ j. record j { status = JobStatus.cancelled })
          db.scraping_jobs;
  },
)

abbrev pub is_stale : ScrapingJob → Bool
is_stale j = j.status == JobStatus.claimed || j.status == JobStatus.processing

unfoldable pub requeue_stale_jobs : Db → ℕ × Db
requeue_stale_jobs db = (
  count_where is_stale db.scraping_jobs,
  record db {
    scraping_jobs =
        update_where is_stale (λ j. record j { status = JobStatus.pending }) db.scraping_jobs;
  },
)
