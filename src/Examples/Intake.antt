-- ===== src/Examples/Intake.antt =====
-- The theorems on uploads, keys, workers and submissions, at the rows of Samples.
use roles.Prelude.{
  count_where, All, max, ◌-◌, find_where, ℕ, zero, suc, ◌≡◌, ◌<◌, ◌+◌, refl, String, true, false,
  none, some, arith, string_eq, nat_eq,
}
use roles.Samples.{outside, db}
use roles.Samples.Intake.{
  submission, surroundings, db_with_credential, key, db_with_key, docker, upload_slot, db_with_slot,
  extractor, failing_extractor,
}
use roles.Db.Schema.{Db, SourceItem, item_status_eq, request_status_eq, command_eq}
use roles.Db.UploadSlots.{is_open_slot}
use roles.Db.TranscriptionJobs.{has_job_for_item}
use roles.Acquisition.Upload.Finalize.{Checked, finish}
use roles.Acquisition.Upload.Finalize.SingleJob.{way_in, finish_twice}
use roles.Acquisition.Upload.TranscriptionEntry.{enter_transcription_pipeline}
use roles.Acquisition.Upload.Extraction
use roles.Acquisition.Upload.Extraction.{audio_key_for, give_up}
use roles.Acquisition.Upload.Extraction.Outcome.{process_item-enters, process_item-give_up}
use roles.Db.TranscriptionKeys.{get_primary_key}
use roles.Db.TranscriptionKeys.SinglePrimary.{
  KeyChange, change, SinglePrimary, UniqueIds, change-SinglePrimary,
}
use roles.Db.TranscriptionJobs.{is_pending_in}
use roles.Pipeline.WorkerManager.{
  count_active_workers, target_of, ensure_user_workers_running, is_active_worker,
  handle_key_exhausted,
}
use roles.Pipeline.WorkerManager.Capacity.{ensure_user_workers_running-count}
use roles.Pipeline.WorkerManager.Exhaustion.{handle_key_exhausted-clears}
use roles.Acquisition.Submission.{submit_acquisition}
use roles.Acquisition.Submission.Started.{IsStarted, submit_acquisition-IsStarted}
use roles.Db.TranscriptionJobs.{fail_items_with_dead_transcription_jobs}
use roles.Db.TranscriptionJobs.Reconciliation.{
  AreReconciled, has_failed, fail_items_with_dead_transcription_jobs-AreReconciled,
}

finish_twice_example :
    let first = (finish (way_in true upload_slot) db_with_slot).1 in
    ((finish (way_in false upload_slot) first).1 ≡ first)
    × ((row : SourceItem)
        → find_where (is_open_slot 14) db_with_slot.source_items ≡ some row
        → has_job_for_item 14 (finish (Checked.direct upload_slot) db_with_slot).1 ≡ true)
finish_twice_example = finish_twice true false upload_slot db_with_slot

fails_first :
    (m : ℕ)
    → m < 1
    → (e : String) × (extractor.extract (1 + m) upload_slot ≡ Extraction.Attempt.extraction_error e)
fails_first zero h = ("no stream", refl)
fails_first (suc m) h = absurd (omega arith)

process_item-enters_example :
    (Extraction.process_item extractor upload_slot db_with_slot
      ≡ enter_transcription_pipeline upload_slot (audio_key_for extractor upload_slot) db_with_slot)
    × (has_job_for_item 14 (Extraction.process_item extractor upload_slot db_with_slot) ≡ true)
process_item-enters_example =
    process_item-enters extractor upload_slot db_with_slot 1 (omega arith) fails_first refl

fails_always :
    (m : ℕ)
    → m < 3
    → failing_extractor.extract (1 + m) upload_slot
      ≡ Extraction.Attempt.extraction_error "no stream"
fails_always m h = refl

process_item-give_up_example :
    Extraction.process_item failing_extractor upload_slot db_with_slot
    ≡ give_up upload_slot (some "no stream") db_with_slot
process_item-give_up_example =
    process_item-give_up failing_extractor upload_slot db_with_slot 2 (λ n. "no stream") refl
      fails_always

unique_ids : UniqueIds db_with_key
unique_ids key_id = ground arith

single_primary : SinglePrimary db_with_key
single_primary user = ground arith

change_example : SinglePrimary (
    change
      (KeyChange.update 61 (record {
        workers_count = none;
        is_primary = some true;
        is_fallback = none;
        monthly_cap_usd = none;
      }))
      db_with_key)
change_example =
    change-SinglePrimary
      (KeyChange.update 61 (record {
        workers_count = none;
        is_primary = some true;
        is_fallback = none;
        monthly_cap_usd = none;
      }))
      db_with_key unique_ids single_primary

ensure_workers_example :
    let active = λ (x : Db). count_active_workers "user" "openai" x in
    let end = ensure_user_workers_running outside docker 7 db_with_key in
    (end.0 ≡ some (target_of key - active db_with_key))
    × (active end.1 ≡ max (target_of key) (active db_with_key))
unfolding get_primary_key
ensure_workers_example =
    ensure_user_workers_running-count outside docker 7 key db_with_key refl
      (λ index. ("container", refl))

handle_key_exhausted_example :
    let db' = handle_key_exhausted outside 61 7 db_with_key in
    All (λ w. is_active_worker "user" "openai" w ≡ false) db'.transcription_workers
    × All (λ j. is_pending_in "user" j ≡ false) db'.transcription_jobs
handle_key_exhausted_example = handle_key_exhausted-clears outside key db_with_key refl refl

submit_acquisition_example :
    let end = submit_acquisition surroundings submission db_with_credential in
    IsStarted db_with_credential end.0 end.1
submit_acquisition_example = submit_acquisition-IsStarted surroundings submission db_with_credential

reconciliation_example :
    let (count, db') = fail_items_with_dead_transcription_jobs db in
    AreReconciled db.transcription_jobs db.now db.source_items db'.source_items
    × (db'.transcription_jobs ≡ db.transcription_jobs)
    × (count_where has_failed db'.source_items ≡ count_where has_failed db.source_items + count)
    × ((fail_items_with_dead_transcription_jobs db').0 ≡ 0)
reconciliation_example = fail_items_with_dead_transcription_jobs-AreReconciled db
