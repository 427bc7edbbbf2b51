-- ===== src/Acquisition/Upload/TranscriptionEntry.antt =====
-- services/acquisition/upload/transcription_entry.py. The raw object is removed after the writes and
-- its errors are caught: nothing of it shows in the tables.
use roles.Prelude.{String, none, some, if◌then◌else◌, nat_eq}
use roles.Db.Schema.{Db, SourceItem, ItemStatus, job_status_eq}
use roles.Db.SourceItems.{no_extra, update_source_item_status}
use roles.Db.TranscriptionJobs.{NewTranscriptionJob, insert_job, has_job_for_item, shared_default}

abbrev pub upload_job : SourceItem → String → NewTranscriptionJob
upload_job item audio_key = record {
  source_item_id = item.id;
  tenant_id = item.tenant_id;
  audio_s3_key = audio_key;
  language = none;
  worker_pool_id = shared_default;
  priority = 0;
}

unfoldable pub insert_job_once : SourceItem → String → Db → Db
insert_job_once item audio_key db =
    if has_job_for_item item.id db then db else (insert_job (upload_job item audio_key) db).1

unfoldable pub enter_transcription_pipeline : SourceItem → String → Db → Db
unfolding insert_job_once
enter_transcription_pipeline item audio_key db =
    update_source_item_status item.source_id item.platform_item_id ItemStatus.queued_transcription
      no_extra
      (insert_job_once item audio_key (
        update_source_item_status item.source_id item.platform_item_id ItemStatus.audio_ready
          (record no_extra { audio_s3_key = some audio_key }) db))
