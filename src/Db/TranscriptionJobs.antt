-- ===== src/Db/TranscriptionJobs.antt =====
-- backend/src/role_builder/db_helpers/transcription_jobs.py, and the statements of
-- docker/transcription-worker/worker/db.py on the same tables.
pub mod Reconciliation
use roles.Prelude.{
  ℕ, ◌+◌, String, Bool, not, ◌&&◌, ◌||◌, Option, none, some, List, [], ◌∷◌, ◌++◌, ◌==◌, nat_eq,
  string_eq, ltb, coalesce, head?, update_where, select_where, count_where, any_where, order_by,
}
use roles.Db.Schema.{
  Db, SourceItem, ItemStatus, item_status_eq, TranscriptionJob, JobStatus, job_status_eq,
}

-- What insert_job is given.
pub record NewTranscriptionJob : Type 0 where
  pub source_item_id : ℕ
  pub tenant_id : ℕ
  pub audio_s3_key : String
  pub language : Option String
  pub worker_pool_id : String
  pub priority : ℕ

abbrev pub new_job : NewTranscriptionJob → Db → TranscriptionJob
new_job n db = record {
  id = db.next_id;
  source_item_id = n.source_item_id;
  tenant_id = n.tenant_id;
  audio_s3_key = n.audio_s3_key;
  language = n.language;
  worker_pool_id = n.worker_pool_id;
  status = JobStatus.pending;
  priority = n.priority;
  claimed_by = none;
  attempts = 0;
  error = none;
  error_history = [];
  provider_used = none;
  result_s3_key = none;
  created_at = db.now;
}

unfoldable pub insert_job : NewTranscriptionJob → Db → ℕ × Db
insert_job n db = (
  db.next_id,
  record db {
    transcription_jobs = db.transcription_jobs ++ new_job n db ∷ [];
    next_id = db.next_id + 1;
  },
)

unfoldable pub has_job_for_item : ℕ → Db → Bool
has_job_for_item source_item_id db =
    any_where (λ j. j.source_item_id == source_item_id && not (j.status == JobStatus.cancelled))
      db.transcription_jobs

abbrev pub shared_default : String
shared_default = "shared_default"

abbrev pub is_pending_in : String → TranscriptionJob → Bool
is_pending_in pool_id j = j.worker_pool_id == pool_id && j.status == JobStatus.pending

unfoldable pub reassign_pending_to_shared : String → Db → ℕ × Db
reassign_pending_to_shared user_pool_id db = (
  count_where (is_pending_in user_pool_id) db.transcription_jobs,
  record db {
    transcription_jobs =
        update_where (is_pending_in user_pool_id)
          (λ j. record j { worker_pool_id = shared_default }) db.transcription_jobs;
  },
)

abbrev pub belongs_to : ℕ → List SourceItem → TranscriptionJob → Bool
belongs_to source_id items j =
    any_where (λ i. i.id == j.source_item_id && i.source_id == source_id) items

abbrev pub is_cancellable : ℕ → List SourceItem → TranscriptionJob → Bool
is_cancellable source_id items j =
    (j.status == JobStatus.pending || j.status == JobStatus.claimed) && belongs_to source_id items j

unfoldable pub cancel_pending_claimed : ℕ → Db → ℕ × Db
cancel_pending_claimed source_id db = (
  count_where (is_cancellable source_id db.source_items) db.transcription_jobs,
  record db {
    transcription_jobs =
        update_where (is_cancellable source_id db.source_items)
          (λ j. record j { status = JobStatus.cancelled }) db.transcription_jobs;
  },
)

abbrev pub in_flight : JobStatus → Bool
in_flight s = s == JobStatus.pending || s == JobStatus.claimed || s == JobStatus.processing

abbrev pub is_dead : List TranscriptionJob → SourceItem → Bool
is_dead jobs i =
    (i.status == ItemStatus.queued_transcription || i.status == ItemStatus.transcribing)
    && any_where (λ j. j.source_item_id == i.id && j.status == JobStatus.failed) jobs
    && not (any_where (λ j. j.source_item_id == i.id && in_flight j.status) jobs)

unfoldable pub fail_items_with_dead_transcription_jobs : Db → ℕ × Db
fail_items_with_dead_transcription_jobs db = (
  count_where (is_dead db.transcription_jobs) db.source_items,
  record db {
    source_items =
        update_where (is_dead db.transcription_jobs)
          (λ i. record i {
            status = ItemStatus.failed;
            error = coalesce i.error (some "TRANSCRIPTION_FAILED");
            updated_at = db.now;
          })
          db.source_items;
  },
)

-- ORDER BY priority DESC, created_at ASC
abbrev pub runs_before : TranscriptionJob → TranscriptionJob → Bool
runs_before a b =
    ltb b.priority a.priority || (a.priority == b.priority && ltb a.created_at b.created_at)

abbrev pub with_id : ℕ → TranscriptionJob → Bool
with_id job_id j = j.id == job_id

abbrev pub set_job : ℕ → (TranscriptionJob → TranscriptionJob) → Db → Db
set_job job_id f db = record db {
  transcription_jobs = update_where (with_id job_id) f db.transcription_jobs;
}

-- worker/db.py: _SELECT_NEXT_JOB_SQL
unfoldable pub next_pending : String → Db → Option TranscriptionJob
next_pending pool_id db =
    head? (order_by runs_before (select_where (is_pending_in pool_id) db.transcription_jobs))

-- worker/db.py: claim_next_job
unfoldable pub claim_next_job : String → String → Db → Option TranscriptionJob × Db
claim_next_job pool_id worker_id db = elim (next_pending pool_id db) [
  | none ↦ (none, db)
  | some job ↦ (
    some job,
    set_job job.id
        (λ j. record j {
          status = JobStatus.claimed;
          claimed_by = some worker_id;
          attempts = j.attempts + 1;
        })
        db,
  )
]

-- worker/db.py: mark_job_done (the two costs are not kept)
unfoldable pub mark_job_done : ℕ → String → String → Db → Db
mark_job_done job_id provider_used result_s3_key = set_job job_id λ j. record j {
  status = JobStatus.done;
  provider_used = some provider_used;
  result_s3_key = some result_s3_key;
}

-- worker/db.py: mark_job_failed
unfoldable pub mark_job_failed : ℕ → String → String → Db → Db
mark_job_failed job_id error entry = set_job job_id λ j. record j {
  status = JobStatus.failed;
  error = some error;
  error_history = j.error_history ++ entry ∷ [];
  attempts = j.attempts + 1;
}

-- worker/db.py: update_source_item_to_transcribed
unfoldable pub update_source_item_to_transcribed : ℕ → String → Db → Db
update_source_item_to_transcribed source_item_id transcript_s3_key db = record db {
  source_items =
      update_where (λ i. i.id == source_item_id)
        (λ i. record i {
          status = ItemStatus.transcribed;
          transcript_s3_key = some transcript_s3_key;
          updated_at = db.now;
        })
        db.source_items;
}
