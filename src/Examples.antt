-- ===== src/Examples.antt =====
-- The theorems at the rows of Samples.
pub mod Secrets
pub mod Pipeline
pub mod Intake
pub mod Startup
use roles.Prelude.{
  List, ◌++◌, All, max, ◌-◌, find_where, ℕ, zero, suc, ◌≡◌, ◌≢◌, ◌↔◌, ◌≤◌, ◌<◌, ◌+◌, refl, String,
  true, false, not, none, some, [], ◌∷◌, arith, subst, inl, inr, Bool-cases, eq_of_beq, string_eq,
  count_where, select_where, length, ◌==◌, nat_eq,
}
use roles.Samples.{
  outside, source, item, transcribed_item, request, download, discover, transcription, db,
  new_request, listing, done_event, container, texts, depositor, refusing_depositor, deposit_worker,
  error_body, transcriber,
}
use roles.Samples.Intake.{
  submission, surroundings, db_with_credential, key, db_with_key, docker, upload_slot, db_with_slot,
  extractor, failing_extractor,
}
use roles.Db.Schema.{
  Db, PullCursor, RequestStatus, ItemStatus, JobStatus, SourceItem, item_status_eq,
  request_status_eq, command_eq,
}
use roles.Db.SourceItems.{count_by_status, get_by_platform_id}
use roles.Db.Requests.{get_by_key}
use roles.Db.Sources.{get_source}
use roles.Db.ScrapingJobs.{mark_job_processing}
use roles.Db.PullCursors.{upsert_cursor, get_last_pulled_at}
use roles.Db.PullCursors.Advance.{
  upsert_all, latest, as_list, own_times, get_last_pulled_at-upsert_all,
}
use roles.Db.DepositQueue.{next_for_deposit, mark_deposited, mark_deposit_failed}
use roles.Db.ScrapingJobs.{claim_next_pending_job}
use roles.Db.ScrapingJobs.ClaimOrder.{IsClaim, claim_next_pending_job-IsClaim}
use roles.Acquisition.Errors.{Code, err}
use roles.Acquisition.StatusShape.{fold_counts, derive_display_status}
use roles.Acquisition.StatusShape.Tally.{tally, fold_counts-count_by_status}
use roles.Acquisition.StatusShape.Display.{is_end, SelectedAreFinished, derive_display_status-ends}
use roles.Acquisition.Selection.{Scope, apply_selection, select_items}
use roles.Acquisition.Selection.SingleJob.{SingleDownload, select_items-SingleDownload}
use roles.Acquisition.Selection.Idempotence.{apply_selection_again}
use roles.Acquisition.Corpus.{rows_of, pull_from}
use roles.Acquisition.Corpus.Delivery.{DatedDeposits, AllAfter, pull_then_pull}
use roles.Acquisition.Admin.{cancel_request, is_set}
use roles.Acquisition.Admin.Cancel.{NoneWaiting, cancel_request_closes}
use roles.Db.UploadSlots.{is_open_slot}
use roles.Db.TranscriptionJobs.{has_job_for_item}
use roles.Acquisition.Upload.Finalize.{Checked, finish}
use roles.Acquisition.Upload.Finalize.SingleJob.{way_in, finish_twice}
use roles.Acquisition.Upload.TranscriptionEntry.{enter_transcription_pipeline}
use roles.Acquisition.Upload.Extraction
use roles.Acquisition.Upload.Extraction.{audio_key_for, give_up}
use roles.Acquisition.Upload.Extraction.Outcome.{process_item-enters, process_item-give_up}
use roles.Db.TranscriptionKeys.{get_primary_key}
use roles.Db.TranscriptionKeys.SinglePrimary.{
  KeyChange, change, SinglePrimary, UniqueIds, change-SinglePrimary,
}
use roles.Db.TranscriptionJobs.{is_pending_in}
use roles.Pipeline.WorkerManager.{
  count_active_workers, target_of, ensure_user_workers_running, is_active_worker,
  handle_key_exhausted,
}
use roles.Pipeline.WorkerManager.Capacity.{ensure_user_workers_running-count}
use roles.Pipeline.WorkerManager.Exhaustion.{handle_key_exhausted-clears}
use roles.Acquisition.Submission.{submit_acquisition}
use roles.Acquisition.Submission.Started.{IsStarted, submit_acquisition-IsStarted}
use roles.Db.TranscriptionJobs.{fail_items_with_dead_transcription_jobs}
use roles.Db.TranscriptionJobs.Reconciliation.{
  AreReconciled, has_failed, fail_items_with_dead_transcription_jobs-AreReconciled,
}
use roles.Acquisition.RequestCreation.{insert_request_with_retry}
use roles.Acquisition.RequestCreation.UniqueKey.{IsStored, insert_request_with_retry-IsStored}
use roles.Pipeline.DepositWorker.{process_item, drain, attempt_deposit, deposit_pivot, Attempt}
use roles.Pipeline.DepositWorker.Outcome.{process_item-deposits, process_item-gives_up}
use roles.Pipeline.DepositWorker.Drain.{drain-empties}
use roles.Pipeline.EventHandlers.{Outcome, handle_item_done, record_discovered}
use roles.Pipeline.EventHandlers.Replay.{UniqueItems, record_discovered_again}
use roles.Pipeline.EventHandlers.Queueing.{waits_for, AllHave, handle_item_done-queues}
use roles.Pipeline.Orchestrator.{dispatch, process_one_job, fail_job}
use roles.Pipeline.Orchestrator.Loop.{
  Claim, Turn, run, turn, after_acquire, claim_errors, run-capacity,
}
use roles.Pipeline.Orchestrator.Settle.{
  JobIs, Succeeded, DiscoveryClosed, process_one_job-settles, fail_job-DiscoveryClosed,
}
use roles.Transcription.ErrorClassifier.{Json, Fields, Reply, classify_error}
use roles.Transcription.ErrorClassifier.Verdict.{Verdict, classify_error-verdict}
use roles.Transcription.Worker.{process_job}
use roles.Transcription.Worker.Settle.{Ends, process_job-Ends}

abbrev scope : Scope
scope = record { source_id = 1; tenant_id = 9; credentials_id = none }

fold_counts_example :
    fold_counts (count_by_status 1 db)
    ≡ tally (select_where (λ i. i.source_id == 1) db.source_items)
fold_counts_example = fold_counts-count_by_status 1 db

derive_display_status_example :
    (is_end (
        derive_display_status RequestStatus.acquiring
          (tally db.source_items)
          (tally db.source_items).selected)
      ≡ true)
    ↔ SelectedAreFinished db.source_items
derive_display_status_example =
    derive_display_status-ends db.source_items
      ((λ h. absurd (cc h)), ((λ h. refl), ((λ h. refl), tt)))

no_download_yet : SingleDownload db
no_download_yet item_id = ground arith

select_items_example : SingleDownload (select_items outside "yt-c" (some (11 ∷ 13 ∷ [])) none db).1
select_items_example =
    select_items-SingleDownload outside "yt-c" (some (11 ∷ 13 ∷ [])) none db no_download_yet

apply_selection_example :
    let db' = (apply_selection scope (11 ∷ 13 ∷ []) db).1 in
    ((apply_selection scope (11 ∷ 13 ∷ []) db').0.queued_count ≡ 0)
    × ((apply_selection scope (11 ∷ 13 ∷ []) db').1.scraping_jobs ≡ db'.scraping_jobs)
apply_selection_example = apply_selection_again scope (11 ∷ 13 ∷ []) db

dated : DatedDeposits db
dated = ((λ h. absurd (cc h)), ((λ h. refl), ((λ h. absurd (cc h)), tt)))

abbrev after_pull : Db
after_pull = record db {
  now = 200;
  cursors = (pull_from outside request "docflow" none none db).1.cursors;
}

pull_example :
    AllAfter
      (rows_of request.source_id none db)
      (rows_of request.source_id (get_last_pulled_at request.id "docflow" after_pull) after_pull)
pull_example = pull_then_pull outside request "docflow" none db after_pull dated refl

-- The second upsert comes late, with an earlier time, and the third is another caller's.
abbrev cursors : List PullCursor
cursors =
    record { request_id = 21; caller = "docflow"; last_pulled_at = 40 }
    ∷ record { request_id = 21; caller = "docflow"; last_pulled_at = 30 }
    ∷ record { request_id = 21; caller = "backup"; last_pulled_at = 50 }
    ∷ []

upsert_cursors_example :
    get_last_pulled_at 21 "docflow" (upsert_all cursors db)
    ≡ latest (as_list (get_last_pulled_at 21 "docflow" db) ++ own_times 21 "docflow" cursors)
upsert_cursors_example = get_last_pulled_at-upsert_all 21 "docflow" cursors db

upsert_cursors_position : get_last_pulled_at 21 "docflow" (upsert_all cursors db) ≡ some 40
unfolding get_last_pulled_at upsert_cursor
upsert_cursors_position = refl

cancel_request_example :
    let db' = (cancel_request "yt-c" db).1 in
    NoneWaiting 1 db'
    × (db'.source_items ≡ db.source_items)
    × ((i : SourceItem) → next_for_deposit db' ≡ some i → i.source_id ≢ 1)
    × (cancel_request "yt-c" db' ≡ (err Code.already_cancelled, db'))
unfolding get_by_key
cancel_request_example = cancel_request_closes "yt-c" db request 1 refl refl refl

insert_request_example :
    let end = insert_request_with_retry (λ i. "yt-d") "yt-c" new_request db in
    IsStored new_request ("yt-c" ∷ "yt-d" ∷ "yt-d" ∷ "yt-d" ∷ "yt-d" ∷ []) db end.0 end.1
insert_request_example = insert_request_with_retry-IsStored (λ i. "yt-d") "yt-c" new_request db
