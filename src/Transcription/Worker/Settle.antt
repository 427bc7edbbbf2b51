-- ===== src/Transcription/Worker/Settle.antt =====
-- How a round of the transcription worker leaves the job that it claimed.
use roles.Prelude.{
  subst, arith, ℕ, ◌≡◌, refl, String, Bool, true, false, not, ◌||◌, Option, some, All, update_where,
  update_where-All, ◌==◌, nat_eq,
}
use roles.Db.Schema.{Db, ItemStatus, TranscriptionJob, JobStatus}
use roles.Db.TranscriptionJobs.{
  with_id, mark_job_done, mark_job_failed, update_source_item_to_transcribed,
}
use roles.Outside.{Outside}
use roles.Transcription.ErrorClassifier.{
  Json, Reply, ErrorCategory, ClassifiedError, error_of, message_or, classify_error,
}
use roles.Transcription.ErrorClassifier.Verdict.{
  is_malformed, is_textual, value_at, Verdict, classify_error-verdict, classify_error-message,
}
use roles.Transcription.Worker.{
  Attempt, World, Outcome, body_of, record_failure, record_classified, finish_job, handle_error,
  process_job,
}

-- Every row of the job has the status.
abbrev pub JobIs : JobStatus → ℕ → Db → Type 0
JobIs status job_id db =
    All (λ j. with_id job_id j ≡ true → j.status ≡ status) db.transcription_jobs

abbrev pub ItemHasTranscript : ℕ → String → Db → Type 0
ItemHasTranscript item_id key db =
    All
      (λ i.
        (i.id == item_id) ≡ true
        → (i.status ≡ ItemStatus.transcribed) × (i.transcript_s3_key ≡ some key))
      db.source_items

set-JobIs :
    (status : JobStatus) (job_id : ℕ) (f : TranscriptionJob → TranscriptionJob) (db : Db)
    → ((j : TranscriptionJob) → (f j).status ≡ status)
    → All
        (λ j. with_id job_id j ≡ true → j.status ≡ status)
        (update_where (with_id job_id) f db.transcription_jobs)
set-JobIs status job_id f db h =
    update_where-All (λ j. with_id job_id j ≡ true → j.status ≡ status) (with_id job_id) f
      db.transcription_jobs (λ j e k. h j) (λ j e k. absurd (cc (e, k)))

-- Failed, with the items untouched.
abbrev pub Fails : TranscriptionJob → Db → Outcome × Db → Type 0
Fails job db (outcome, db') =
    (outcome ≡ Outcome.returned)
    × JobIs JobStatus.failed job.id db'
    × (db'.source_items ≡ db.source_items)

-- An answer that handle_error cannot record: one that classify_error cannot read, or one whose
-- message is a value that is true and no text.
abbrev pub is_unrecordable : Outside → ℕ → Json → Bool
is_unrecordable o status body =
    is_malformed o status body || not (is_textual (value_at "message" (error_of body)))

-- How a job ends: done with its transcript on the item, failed with the items untouched, or, with an
-- answer that cannot be recorded, as it was, by an exception.
abbrev pub Ends : World → TranscriptionJob → Attempt → Db → Outcome × Db → Type 0
Ends w job Attempt.transcribed db (outcome, db') =
    (outcome ≡ Outcome.returned)
    × JobIs JobStatus.done job.id db'
    × ItemHasTranscript job.source_item_id (w.transcript_key job.audio_s3_key) db'
Ends w job (Attempt.http_error status body) db end =
    (is_unrecordable w.outside status (body_of body) ≡ false → Fails job db end)
    × (is_unrecordable w.outside status (body_of body) ≡ true → end ≡ (Outcome.raised, db))
Ends w job (Attempt.runtime_error m) db end = Fails job db end
Ends w job (Attempt.other_error m) db end = Fails job db end

abbrev is_text : Json → Bool
is_text (Json.text s) = true
is_text _ = false

record_failure-Fails :
    (w : World) (job : TranscriptionJob) (c : ErrorCategory) (m : String) (db : Db)
    → Fails job db (Outcome.returned, record_failure w job c m db)
unfolding mark_job_failed
record_failure-Fails w job c m db = (refl, set-JobIs JobStatus.failed job.id _ db (λ j. refl), refl)

record_text :
    (w : World) (job : TranscriptionJob) (e : ClassifiedError) (db : Db)
    → (is_text e.message ≡ true → Fails job db (record_classified w job e db))
      × (is_text e.message ≡ false → record_classified w job e db ≡ (Outcome.raised, db))
unfolding record_classified
record_text w job e db = go e.message refl
  where
    go :
        (m : Json)
        → e.message ≡ m
        → (is_text e.message ≡ true → Fails job db (record_classified w job e db))
          × (is_text e.message ≡ false → record_classified w job e db ≡ (Outcome.raised, db))
    go (Json.text s) k =
        rw (k, record_classified)
          ((λ h. record_failure-Fails w job e.category s db), (λ h. absurd (cc h)))
    go _ k = rw (k, record_classified) ((λ h. absurd (cc h)), (λ h. refl))

not-false : (b : Bool) → not b ≡ false → b ≡ true
not-false true h = refl
not-false false h = cc h

not-true : (b : Bool) → not b ≡ true → b ≡ false
not-true true h = cc h
not-true false h = refl

message_or-is_text :
    (show : ℕ → String) (v : Json) (status : ℕ) → is_text (message_or show v status) ≡ is_textual v
unfolding message_or
message_or-is_text show (Json.text s) status = ground arith
message_or-is_text show v status = ground arith

http_error-Ends :
    (w : World) (job : TranscriptionJob) (status : ℕ) (body : Option Json) (db : Db)
    → Ends w job
        (Attempt.http_error status body)
        db
        (handle_error w job (Attempt.http_error status body) db)
unfolding handle_error error_of
http_error-Ends w job status body db = go (classify_error w.outside status (body_of body)) refl
  where
    verdict :
        (r : Reply ClassifiedError)
        → classify_error w.outside status (body_of body) ≡ r
        → Verdict w.outside status (body_of body) r
    verdict r e =
        subst (λ q. Verdict w.outside status (body_of body) q) e
          (classify_error-verdict w.outside status (body_of body))

    go :
        (r : Reply ClassifiedError)
        → classify_error w.outside status (body_of body) ≡ r
        → Ends w job
            (Attempt.http_error status body)
            db
            (handle_error w job (Attempt.http_error status body) db)
    go Reply.attribute_error e =
        let malformed = verdict Reply.attribute_error e in
        rw (e, handle_error) ((λ h. absurd (cc (rw malformed at h))), (λ h. refl))
    go (Reply.value c) e =
        let read = (verdict (Reply.value c) e).0 in
        let is_text_eq : is_text c.message
            ≡ is_textual (value_at "message" (error_of (body_of body))) =
          rw (classify_error-message w.outside status (body_of body) c e) (
            message_or-is_text w.outside.show_int (value_at "message" (error_of (body_of body)))
              status) in
        rw (e, handle_error)
          (
            (λ h. (record_text w job c db).0 (cc (is_text_eq, not-false _ (rw read at h)))),
            (λ h. (record_text w job c db).1 (cc (is_text_eq, not-true _ (rw read at h)))),
          )

finish_job-Ends :
    (w : World) (job : TranscriptionJob) (db : Db)
    → Ends w job Attempt.transcribed db (Outcome.returned, finish_job w job db)
unfolding finish_job mark_job_done update_source_item_to_transcribed
finish_job-Ends w job db = (
  refl,
  set-JobIs JobStatus.done job.id _ db (λ j. refl),
  update_where-All
      (λ i.
        (i.id == job.source_item_id) ≡ true
        → (i.status ≡ ItemStatus.transcribed)
          × (i.transcript_s3_key ≡ some (w.transcript_key job.audio_s3_key)))
      (λ i. i.id == job.source_item_id) _ db.source_items (λ i e k. (refl, refl))
      (λ i e k. absurd (cc (e, k))),
)

process_job-attempt :
    (w : World) (job : TranscriptionJob) (a : Attempt) (db : Db)
    → w.attempt job ≡ a
    → Ends w job a db (process_job w job db)
unfolding process_job
process_job-attempt w job Attempt.transcribed db e = rw (e, process_job) (finish_job-Ends w job db)
process_job-attempt w job (Attempt.http_error s b) db e =
    rw (e, process_job) (http_error-Ends w job s b db)
process_job-attempt w job (Attempt.runtime_error m) db e =
    rw (e, process_job, handle_error) (record_failure-Fails w job ErrorCategory.unknown m db)
process_job-attempt w job (Attempt.other_error m) db e =
    rw (e, process_job, handle_error) (record_failure-Fails w job ErrorCategory.transient m db)

-- A job whose attempt succeeds ends done, with its transcript on the item. A job whose attempt fails
-- ends failed with no item changed, except for an HTTP error whose JSON cannot be recorded: one that
-- classify_error cannot read, or whose message is a value that is true and no text. Then an exception
-- leaves handle_error and the job stays claimed, as all the rest of the database is.
pub process_job-Ends :
    (w : World) (job : TranscriptionJob) (db : Db)
    → Ends w job (w.attempt job) db (process_job w job db)
process_job-Ends w job db = process_job-attempt w job (w.attempt job) db refl
