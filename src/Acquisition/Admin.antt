-- ===== src/Acquisition/Admin.antt =====
-- services/acquisition/admin.py, and the table of services/acquisition/upload/media_types.py that
-- it asks.
pub mod Cancel
use roles.Prelude.{
  ℕ, ◌+◌, String, Bool, true, false, ◌&&◌, ◌||◌, Option, none, some, List, [], ◌∷◌, ◌==◌, nat_eq,
  string_eq, if◌then◌else◌, select_where,
}
use roles.Outside.{Outside}
use roles.Db.Schema.{
  Db, SourceItem, ItemStatus, item_status_eq, Request, RequestStatus, request_status_eq, Kind,
  kind_eq, Command,
}
use roles.Db.Sources.{get_source, credentials_of}
use roles.Db.SourceItems.{
  StatusCount, ItemFilter, no_filter, no_extra, count_by_status, list_items_by_source, member,
  reset_for_retry, update_source_item_status,
}
use roles.Db.ScrapingJobs
use roles.Db.TranscriptionJobs
use roles.Db.TranscriptionJobs.{shared_default}
use roles.Db.Requests.{get_by_key, update_status}
use roles.Db.DepositQueue.{reset_failed_deposit}
use roles.Acquisition.Errors.{Code, Result, ok, err}
use roles.Acquisition.Selection.{Scope, download_job, with_source}

-- A source that a NULL source_id does not have is skipped by the callers.
unfoldable pub sum_deposited : List StatusCount → ℕ
sum_deposited [] = 0
sum_deposited (row ∷ rows) =
    (if row.status == ItemStatus.deposited then row.n else 0) + sum_deposited rows

unfoldable pub count_deposited : ℕ → Db → ℕ
unfolding sum_deposited
count_deposited source_id db = sum_deposited (count_by_status source_id db)

pub record Cancelled : Type 0 where
  pub cancelled_jobs : ℕ
  pub deposited_kept : ℕ

-- The two updates of the job tables.
unfoldable pub cancel_jobs : ℕ → Db → ℕ × Db
cancel_jobs source_id db =
    let (scraping, db') = ScrapingJobs.cancel_pending_claimed source_id db in
    let (transcription, db'') = TranscriptionJobs.cancel_pending_claimed source_id db' in
    (scraping + transcription, db'')

unfoldable pub cancel_known : Request → Db → Cancelled × Db
cancel_known r db =
    let (jobs, db') = with_source r.source_id (0, db) (λ s. cancel_jobs s db) in
    (
      record {
        cancelled_jobs = jobs;
        deposited_kept = with_source r.source_id 0 (λ s. count_deposited s db');
      },
      update_status r.request_key RequestStatus.cancelled db',
    )

unfoldable pub cancel_request : String → Db → Result Cancelled × Db
cancel_request request_key db = elim (get_by_key request_key db) [
  | none ↦ (err Code.unknown_request, db)
  | some r ↦
      if r.status == RequestStatus.cancelled
      then (err Code.already_cancelled, db)
      else (let (c, db') = cancel_known r db in (ok c, db'))
]

-- A text column that Python takes for true.
abbrev pub is_set : Option String → Bool
is_set none = false
is_set (some s) = if s == "" then false else true

-- media_types.is_video: `none` is the KeyError of a type that the table lacks.
unfoldable pub is_video : String → Option Bool
is_video t =
    if t == "audio/mpeg"
      || t == "audio/wav"
      || t == "audio/mp4"
      || t == "audio/ogg"
      || t == "audio/flac"
    then some false
    else if t == "video/mp4" || t == "video/quicktime" || t == "video/webm"
    then some true
    else none

-- `media_type and is_video(media_type)`
unfoldable pub needs_extraction : Option String → Option Bool
needs_extraction none = some false
needs_extraction (some t) = if t == "" then some false else is_video t

-- `row.get("audio_s3_key") or row["upload_s3_key"]`
abbrev pub audio_key_of : SourceItem → Option String
audio_key_of row = if is_set row.audio_s3_key then row.audio_s3_key else row.upload_s3_key

abbrev pub retry_job : SourceItem → String → TranscriptionJobs.NewTranscriptionJob
retry_job row key = record {
  source_item_id = row.id;
  tenant_id = row.tenant_id;
  audio_s3_key = key;
  language = none;
  worker_pool_id = shared_default;
  priority = 0;
}

-- The audio branch of _retry_upload_item. Without a key the INSERT breaks the NOT NULL constraint,
-- when the first update has been written already.
unfoldable pub retry_audio : SourceItem → Option String → Db → Result (Unit {0}) × Db
retry_audio row none db = (
  err Code.integrity,
  update_source_item_status row.source_id row.platform_item_id ItemStatus.audio_ready no_extra db,
)
retry_audio row (some key) db =
    let db1 =
      update_source_item_status row.source_id row.platform_item_id ItemStatus.audio_ready
        (record no_extra { audio_s3_key = some key }) db in
    let db2 = (TranscriptionJobs.insert_job (retry_job row key) db1).1 in
    (
      ok tt,
      update_source_item_status row.source_id row.platform_item_id ItemStatus.queued_transcription
          no_extra db2,
    )

unfoldable pub retry_upload_item : SourceItem → Db → Result (Unit {0}) × Db
unfolding needs_extraction
retry_upload_item row db = elim (needs_extraction row.upload_media_type) [
  | none ↦ (err Code.key_error, db)
  | some true ↦ (
    ok tt,
    update_source_item_status row.source_id row.platform_item_id ItemStatus.pending_extraction
        no_extra db,
  )
  | some false ↦ retry_audio row (audio_key_of row) db
]

unfoldable pub retry_download : Scope → SourceItem → Db → ℕ × Db
retry_download c row db =
    if ScrapingJobs.get_active_job_for_item row.id Command.download db then (0, db) else (
      1,
      (ScrapingJobs.insert_job (download_job c row.id)
          (reset_for_retry c.source_id row.platform_item_id db)).1,
    )

abbrev counted : Result (Unit {0}) × Db → Result ℕ × Db
counted (err e, db) = (err e, db)
counted (ok u, db) = (ok 1, db)

-- One round of the loop of retry_failed.
unfoldable pub retry_row : Kind → Scope → SourceItem → Db → Result ℕ × Db
retry_row kind c row db =
    if is_set row.transcript_s3_key
    then (ok 1, reset_failed_deposit row.id db)
    else if kind == Kind.upload
    then counted (retry_upload_item row db)
    else (let (n, db') = retry_download c row db in (ok n, db'))

abbrev add_retried : ℕ → Result ℕ × Db → Result ℕ × Db
add_retried n (ok m, db) = (ok (n + m), db)
add_retried n (err e, db) = (err e, db)

unfoldable pub retry_rows : Kind → Scope → List SourceItem → Db → Result ℕ × Db
retry_rows kind c [] db = (ok 0, db)
retry_rows kind c (row ∷ rows) db =
    let (r, db') = retry_row kind c row db in
    elim r [ ok n ↦ add_retried n (retry_rows kind c rows db') | err e ↦ (err e, db') ]

abbrev wanted : Option (List ℕ) → List SourceItem → List SourceItem
wanted none rows = rows
wanted (some ids) rows = select_where (λ i. member i.id ids) rows

abbrev pub only_failed : ItemFilter
only_failed = record no_filter { status = some ItemStatus.failed }

unfoldable pub rows_to_retry : Outside → ℕ → Option (List ℕ) → Db → List SourceItem
rows_to_retry o source_id item_ids db =
    wanted item_ids (list_items_by_source o.ilike source_id only_failed 10000 0 db)

unfoldable pub retry_known : Outside → Request → Option (List ℕ) → Db → Result ℕ × Db
retry_known o r item_ids db =
    with_source r.source_id (ok 0, db)
      (λ s.
        let scope : Scope = record {
          source_id = s;
          tenant_id = r.tenant_id;
          credentials_id = credentials_of (get_source s db);
        } in
        retry_rows r.kind scope (rows_to_retry o s item_ids db) db)

unfoldable pub retry_failed : Outside → String → Option (List ℕ) → Db → Result ℕ × Db
retry_failed o request_key item_ids db = elim (get_by_key request_key db) [
  | none ↦ (err Code.unknown_request, db)
  | some r ↦
      if r.status == RequestStatus.cancelled
      then (err Code.already_cancelled, db)
      else retry_known o r item_ids db
]
