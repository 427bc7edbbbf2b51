-- ===== src/Pipeline/EventHandlers.antt =====
-- services/event_handlers.py
pub mod Replay
pub mod Queueing
use roles.Prelude.{
  ℕ, String, Bool, true, false, Option, none, some, List, [], ◌∷◌, option_or, length, if◌then◌else◌,
  ◌==◌, string_eq,
}
use roles.Outside.{Outside}
use roles.Db.Schema.{Db, Source, SourceItem, SourceStatus, ItemStatus, ScrapingJob, Request}
use roles.Db.Sources.{update_source_status, get_source}
use roles.Db.SourceItems.{
  Discovered, Extra, no_extra, insert_source_items_bulk, get_by_platform_id,
  update_source_item_status,
}
use roles.Db.TranscriptionJobs.{NewTranscriptionJob, insert_job, shared_default}
use roles.Db.TranscriptionKeys.{get_user_id_for_project, get_primary_key}
use roles.Db.Requests.{get_by_source_id}
use roles.Acquisition.Admin.{is_set}
use roles.Acquisition.AutoSelect.{on_discovery_complete}

pub record ItemDone : Type 0 where
  pub item_id : String
  pub audio_s3_key : Option String
  pub language : Option String
  pub priority : ℕ

-- The returncode of a process; a signal's is negative.
pub data Returncode : Type 0 where
  code : ℕ → Returncode
  signal : ℕ → Returncode

-- The events by their type. The items of `discovered` are as _normalize_item leaves them.
pub data Event : Type 0 where
  started progress complete failure invalid_line unknown : Event
  exited : Returncode → Event
  discovered : List Discovered → Option ℕ → Event
  item_done : ItemDone → Event
  item_failed : String → Option String → Event

-- A handler returns or raises; what it wrote before it raised stays written.
pub data Outcome : Type 0 where
  returned raised : Outcome

unfoldable pub user_of : Option Source → Db → Option ℕ
user_of none db = none
user_of (some s) db = elim s.role_project_id [ none ↦ none | some p ↦ get_user_id_for_project p db ]

-- The pool that transcribes the items of a source.
unfoldable pub worker_pool_for : Outside → ℕ → Db → String
unfolding user_of
worker_pool_for o source_id db = elim (user_of (get_source source_id db) db) [
  | none ↦ shared_default
  | some user ↦ elim (get_primary_key user db) [ none ↦ shared_default | some k ↦ o.user_pool user ]
]

abbrev pub without_audio : Extra
without_audio = record no_extra {
  error = some "ITEM_DONE_WITHOUT_AUDIO: scraper reported item_done without audio_s3_key";
}

abbrev pub done_job : Outside → ItemDone → SourceItem → String → ℕ → Db → NewTranscriptionJob
done_job o e row key source_id db = record {
  source_item_id = row.id;
  tenant_id = row.tenant_id;
  audio_s3_key = key;
  language = e.language;
  worker_pool_id = worker_pool_for o source_id db;
  priority = e.priority;
}

-- The two writes of an item that is done with its audio.
unfoldable pub queue_transcription : Outside → ItemDone → SourceItem → String → ℕ → Db → Db
queue_transcription o e row key source_id db =
    update_source_item_status source_id e.item_id ItemStatus.queued_transcription
      (record no_extra { audio_s3_key = some key })
      (insert_job (done_job o e row key source_id db) db).1

unfoldable pub done_with : Outside → ItemDone → SourceItem → ℕ → Db → Db
unfolding queue_transcription
done_with o e row source_id db =
    if is_set e.audio_s3_key
    then queue_transcription o e row (option_or e.audio_s3_key "") source_id db
    else update_source_item_status source_id e.item_id ItemStatus.failed without_audio db

unfoldable pub handle_item_done : Outside → ItemDone → ℕ → Db → Db
handle_item_done o e source_id db = elim (get_by_platform_id source_id e.item_id db) [
  | none ↦ db
  | some row ↦ done_with o e row source_id db
]

-- The writes of a `discovered` event before the request is looked up.
unfoldable pub record_discovered : List Discovered → Option ℕ → ScrapingJob → Db → Db
record_discovered items total job db =
    update_source_status job.source_id SourceStatus.discovered
      (some (option_or total (length items))) none
      (insert_source_items_bulk items job.source_id job.tenant_id db).1

unfoldable pub notify_request : Outside → Option Request → ScrapingJob → Db → Outcome × Db
notify_request o none job db = (Outcome.returned, db)
notify_request o (some r) job db = elim (on_discovery_complete o r job.source_id job.tenant_id db) [
  | none ↦ (Outcome.raised, db)
  | some db' ↦ (Outcome.returned, db')
]

unfoldable pub handle_discovered :
    Outside → List Discovered → Option ℕ → ScrapingJob → Db → Outcome × Db
handle_discovered o items total job db =
    let db' = record_discovered items total job db in
    notify_request o (get_by_source_id job.source_id db') job db'

unfoldable pub handle_scraper_event : Outside → Event → ScrapingJob → Db → Outcome × Db
unfolding handle_item_done done_with
handle_scraper_event o (Event.discovered items total) job db =
    handle_discovered o items total job db
handle_scraper_event o (Event.item_done e) job db =
    (Outcome.returned, handle_item_done o e job.source_id db)
handle_scraper_event o (Event.item_failed item_id error) job db = (
  Outcome.returned,
  update_source_item_status job.source_id item_id ItemStatus.failed
      (record no_extra { error = error }) db,
)
handle_scraper_event o _ job db = (Outcome.returned, db)
