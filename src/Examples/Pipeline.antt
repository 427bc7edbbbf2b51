-- ===== src/Examples/Pipeline.antt =====
-- The theorems on the deposit worker, the events, the orchestrator and the transcription worker, at the
-- rows of Samples.
use roles.Prelude.{
  ℕ, zero, suc, ◌≡◌, ◌<◌, ◌+◌, refl, String, true, false, none, some, [], ◌∷◌, arith, subst, inl,
  inr, Bool-cases, eq_of_beq, string_eq, count_where, length, ◌==◌, nat_eq,
}
use roles.Samples.{
  outside, source, item, transcribed_item, download, discover, transcription, db, listing,
  done_event, container, texts, depositor, refusing_depositor, deposit_worker, error_body,
  transcriber,
}
use roles.Db.Schema.{ItemStatus, JobStatus, item_status_eq, request_status_eq, command_eq}
use roles.Db.SourceItems.{get_by_platform_id}
use roles.Db.Sources.{get_source}
use roles.Db.ScrapingJobs.{mark_job_processing}
use roles.Db.DepositQueue.{next_for_deposit, mark_deposited, mark_deposit_failed}
use roles.Db.ScrapingJobs.{claim_next_pending_job}
use roles.Db.ScrapingJobs.ClaimOrder.{IsClaim, claim_next_pending_job-IsClaim}
use roles.Acquisition.Admin.{is_set}
use roles.Pipeline.DepositWorker.{process_item, drain, attempt_deposit, deposit_pivot, Attempt}
use roles.Pipeline.DepositWorker.Outcome.{process_item-deposits, process_item-gives_up}
use roles.Pipeline.DepositWorker.Drain.{drain-empties}
use roles.Pipeline.EventHandlers.{
  Outcome, handle_item_done, record_discovered, handle_scraper_event,
}
use roles.Pipeline.EventHandlers.Replay.{UniqueItems, record_discovered_again}
use roles.Pipeline.EventHandlers.Queueing.{waits_for, AllHave, handle_item_done-queues}
use roles.Pipeline.Orchestrator.{process_one_job, fail_job}
use roles.Pipeline.Orchestrator.Loop.{
  Claim, Turn, run, turn, after_acquire, claim_errors, run-capacity,
}
use roles.Pipeline.Orchestrator.Success.{Succeeds, written}
use roles.Pipeline.Orchestrator.Settle.{
  JobIs, DiscoveryClosed, process_one_job-settles, fail_job-DiscoveryClosed,
}
use roles.Transcription.ErrorClassifier.{Json, Fields, Reply, classify_error}
use roles.Transcription.ErrorClassifier.Verdict.{Verdict, classify_error-verdict}
use roles.Transcription.Worker.{process_job}
use roles.Transcription.Worker.Settle.{Ends, process_job-Ends}

claim_example :
    IsClaim db
      (claim_next_pending_job "orchestrator" db).0
      (claim_next_pending_job "orchestrator" db).1
claim_example = claim_next_pending_job-IsClaim "orchestrator" db

refused_first :
    (m : ℕ)
    → m < 1
    → (e : String) × (attempt_deposit depositor (1 + m) transcribed_item db ≡ Attempt.refused e)
unfolding attempt_deposit deposit_pivot
refused_first zero h = ("busy", refl)
refused_first (suc m) h = absurd (omega arith)

stored_second : attempt_deposit depositor 2 transcribed_item db ≡ Attempt.stored "doc" "slug"
unfolding attempt_deposit deposit_pivot
stored_second = refl

process_item_example :
    ((process_item depositor deposit_worker transcribed_item db).db
      ≡ mark_deposited 13 "doc" "slug" db)
    × (length (process_item depositor deposit_worker transcribed_item db).waits ≡ 1)
process_item_example =
    process_item-deposits depositor deposit_worker transcribed_item db 1 "doc" "slug" (omega arith)
      refused_first stored_second

refused_always :
    (m : ℕ)
    → m < 3
    → attempt_deposit refusing_depositor (1 + m) transcribed_item db ≡ Attempt.refused "busy"
unfolding attempt_deposit deposit_pivot
refused_always m h = refl

gives_up_example :
    ((process_item refusing_depositor deposit_worker transcribed_item db).db
      ≡ mark_deposit_failed outside.dumps_error 13 "busy" db)
    × (length (process_item refusing_depositor deposit_worker transcribed_item db).waits ≡ 2)
gives_up_example =
    process_item-gives_up refusing_depositor deposit_worker transcribed_item db 2 (λ n. "busy") refl
      refused_always

drain_example : next_for_deposit (drain 1 depositor deposit_worker db) ≡ none
drain_example = drain-empties depositor deposit_worker 1 db (omega arith)

not_b_or_c : (p : String) → ("a" == p) ≡ true → (("b" == p) ≡ false) × (("c" == p) ≡ false)
not_b_or_c p h =
    subst (λ q. (("b" == q) ≡ false) × (("c" == q) ≡ false)) (eq_of_beq "a" p h) (refl, refl)

not_c : (p : String) → ("b" == p) ≡ true → ("c" == p) ≡ false
not_c p h = subst (λ q. ("c" == q) ≡ false) (eq_of_beq "b" p h) refl

unique_items : UniqueItems db
unique_items s p = elim (Bool-cases ("a" == p)) [
  | inl a ↦ rw (a, (not_b_or_c p a).0, (not_b_or_c p a).1) (ground arith)
  | inr a ↦ elim (Bool-cases ("b" == p)) [
    | inl b ↦ rw (a, b, not_c p b) (ground arith)
    | inr b ↦ rw (a, b) (ground arith)
  ]
]

record_discovered_example :
    let db' = record_discovered listing none discover db in
    UniqueItems db'
    × ((record_discovered listing none discover db').source_items ≡ db'.source_items)
record_discovered_example = record_discovered_again listing none discover db unique_items

handle_item_done_example :
    let db' = handle_item_done outside done_event 1 db in
    (is_set done_event.audio_s3_key ≡ true
      → (count_where (waits_for 11) db'.transcription_jobs
          ≡ suc (count_where (waits_for 11) db.transcription_jobs))
        × AllHave ItemStatus.queued_transcription 1 "a" db')
    × (is_set done_event.audio_s3_key ≡ false
        → (db'.transcription_jobs ≡ db.transcription_jobs) × AllHave ItemStatus.failed 1 "a" db')
unfolding get_by_platform_id
handle_item_done_example = handle_item_done-queues outside done_event 1 db item refl

process_one_job_example :
    let db' = mark_job_processing 31 db in
    let end = process_one_job outside texts container download db in
    (true ≡ true
      → (end.0 ≡ Outcome.returned)
        × (Succeeds outside download container db'
            → JobIs JobStatus.done 31 end.1
              × (end.1.source_items ≡ (written outside download container.events db').source_items))
        × (¬ (Succeeds outside download container db') → JobIs JobStatus.failed 31 end.1))
    × (true ≡ false → (end.0 ≡ Outcome.raised) × JobIs JobStatus.processing 31 end.1)
unfolding get_source
process_one_job_example = process_one_job-settles outside texts container download db source refl

-- The container of the example does its work.
container-Succeeds : Succeeds outside download container (mark_job_processing 31 db)
unfolding handle_scraper_event mark_job_processing
container-Succeeds = (refl, (refl, (refl, tt)), refl)

fail_job_example : DiscoveryClosed 1 (fail_job discover "scraper exited" db)
fail_job_example = fail_job-DiscoveryClosed discover "scraper exited" db refl

leaking_rounds :
    run (Turn.round Claim.error ∷ Turn.round Claim.job ∷ []) (record { permits = 2; in_flight = 0 })
    ≡ some (record { permits = 2; in_flight = 1 })
unfolding run turn after_acquire
leaking_rounds = refl

run_example : 2 + 1 ≡ 2 + 0 + claim_errors (Turn.round Claim.error ∷ Turn.round Claim.job ∷ [])
run_example =
    run-capacity (Turn.round Claim.error ∷ Turn.round Claim.job ∷ [])
      (record { permits = 2; in_flight = 0 }) (record { permits = 2; in_flight = 1 }) leaking_rounds

abbrev too_many_requests : ℕ
too_many_requests = 429

classify_error_example :
    Verdict outside too_many_requests error_body
      (classify_error outside too_many_requests error_body)
classify_error_example = classify_error-verdict outside too_many_requests error_body

-- {"error": "quota"}: the error is a text, and `get` an AttributeError.
classify_error_raises :
    classify_error outside 401 (Json.object (Fields.field "error" (Json.text "quota") Fields.end))
    ≡ Reply.attribute_error
unfolding classify_error
classify_error_raises = refl

process_job_example :
    Ends transcriber transcription
      (transcriber.attempt transcription)
      db
      (process_job transcriber transcription db)
process_job_example = process_job-Ends transcriber transcription db
