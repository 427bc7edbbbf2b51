-- ===== src/Transcription/Worker.antt =====
-- worker/main.py: one job, and a round of the main loop
pub mod Settle
use roles.Prelude.{ℕ, zero, suc, String, ◌<>◌, Bool, true, false, Option, none, some, List, [], ◌∷◌}
use roles.Outside.{Outside}
use roles.Db.Schema.{Db, TranscriptionJob}
use roles.Db.TranscriptionJobs.{
  claim_next_job, mark_job_done, mark_job_failed, update_source_item_to_transcribed,
}
use roles.Transcription.ErrorClassifier.{
  Json, Fields, Reply, ClassifiedError, ErrorCategory, classify_error,
}

-- What download, transcribe and upload come to; they all stand before the first write. The body of
-- an HTTP error is its JSON, `none` where response.json() raises.
pub data Attempt : Type 0 where
  transcribed : Attempt
  http_error : ℕ → Option Json → Attempt
  runtime_error : String → Attempt
  other_error : String → Attempt

pub record World : Type 0 where
  pub outside : Outside
  pub provider_name : String
  pub attempt : TranscriptionJob → Attempt
  -- _build_transcript_s3_key
  pub transcript_key : String → String
  -- the entry of error_history: the category and the message, as JSON with the time
  pub history_entry : ErrorCategory → String → String

unfoldable pub finish_job : World → TranscriptionJob → Db → Db
finish_job w job db =
    let key = w.transcript_key job.audio_s3_key in
    update_source_item_to_transcribed job.source_item_id key
      (mark_job_done job.id w.provider_name key db)

abbrev pub record_failure : World → TranscriptionJob → ErrorCategory → String → Db → Db
record_failure w job category message =
    mark_job_failed job.id message (w.history_entry category message)

-- A call returns, or an exception leaves it.
pub data Outcome : Type 0 where
  returned raised : Outcome

-- The body is {} where it is no JSON.
unfoldable pub body_of : Option Json → Json
body_of none = Json.object Fields.end
body_of (some body) = body

-- The parameter of the statement is a text: asyncpg raises a DataError for any other value.
unfoldable pub record_classified : World → TranscriptionJob → ClassifiedError → Db → Outcome × Db
record_classified w job e db = elim e.message [
  | Json.text m ↦ (Outcome.returned, record_failure w job e.category m db)
  | _ ↦ (Outcome.raised, db)
]

-- handle_error, by the exception.
unfoldable pub handle_error : World → TranscriptionJob → Attempt → Db → Outcome × Db
unfolding body_of record_classified
handle_error w job Attempt.transcribed db = (Outcome.returned, db)
handle_error w job (Attempt.http_error status body) db =
    elim (classify_error w.outside status (body_of body)) [
      | Reply.attribute_error ↦ (Outcome.raised, db)
      | Reply.value e ↦ record_classified w job e db
    ]
handle_error w job (Attempt.runtime_error m) db =
    (Outcome.returned, record_failure w job ErrorCategory.unknown m db)
handle_error w job (Attempt.other_error m) db =
    (Outcome.returned, record_failure w job ErrorCategory.transient m db)

unfoldable pub process_job : World → TranscriptionJob → Db → Outcome × Db
unfolding finish_job handle_error
process_job w job db = elim (w.attempt job) [
  | Attempt.transcribed ↦ (Outcome.returned, finish_job w job db)
  | e ↦ handle_error w job e db
]

-- A round of the loop: no job was there, one was worked on, or an exception of handle_error has left
-- the loop and ended the worker.
pub data Round : Type 0 where
  idle worked stopped : Round

abbrev after_job : Outcome → Round
after_job Outcome.returned = Round.worked
after_job Outcome.raised = Round.stopped

unfoldable pub round : World → String → String → Db → Round × Db
round w pool_id worker_id db =
    let (claimed, db') = claim_next_job pool_id worker_id db in
    elim claimed [
      | none ↦ (Round.idle, db')
      | some job ↦ let (outcome, db'') = process_job w job db' in (after_job outcome, db'')
    ]
