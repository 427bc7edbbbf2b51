-- ===== src/Samples.antt =====
-- A small database and its surroundings, on which the examples run.
pub mod Vault
pub mod Intake
use roles.Prelude.{ℕ, zero, suc, true, false, none, some, List, [], ◌∷◌, ◌==◌, string_eq}
use roles.Outside.{Outside}
use roles.Acquisition.PlatformDetection.{Urls}
use roles.Acquisition.RequestKey.{Texts}
use roles.Acquisition.Submission.{Submission, Surroundings}
use roles.Db.Schema.{
  TranscriptionKey, KeyStatus, CredentialStatus, Db, Source, SourceStatus, SourceItem, ItemStatus,
  ScrapingJob, TranscriptionJob, JobStatus, Command, Request, RequestStatus, Kind, Mode,
}
use roles.Db.SourceItems.{Discovered}
use roles.Acquisition.Upload.Extraction
use roles.Acquisition.Upload.Extraction.{Extractor}
use roles.Pipeline.WorkerManager.{Docker}
use roles.Db.Requests.{NewRequest}
use roles.Pipeline.DepositWorker
use roles.Pipeline.DepositWorker.{Worker}
use roles.Pipeline.EventHandlers.{ItemDone, Event, Returncode}
use roles.Pipeline.Orchestrator.{Container, ErrorTexts}
use roles.Transcription.ErrorClassifier.{Json, Fields}
use roles.Transcription.Worker as TranscriptionWorker

abbrev pub outside : Outside
outside = record {
  ilike = λ title pattern. title == pattern;
  parse_iso = λ text. none;
  isoformat = λ t. "t";
  parse_int = λ text. none;
  show_int = λ n. "n";
  dumps_error = λ code message. message;
  user_pool = λ user. "user";
  lower = λ s. s;
  strip = λ s. s;
  contains = λ needle s. needle == s;
}

abbrev pub source : Source
source = record {
  id = 1;
  role_project_id = none;
  tenant_id = 9;
  platform = "youtube";
  source_type = "channel";
  url = some "https://example.org/c";
  status = SourceStatus.discovered;
  credentials_id = none;
  discovered_count = some 3;
  error = none;
}

abbrev pub item : SourceItem
item = record {
  id = 11;
  source_id = 1;
  tenant_id = 9;
  platform_item_id = "a";
  title = some "A";
  duration_s = some 60;
  published_at = some 5;
  status = ItemStatus.pending_download;
  audio_s3_key = none;
  transcript_s3_key = none;
  upload_s3_key = none;
  upload_media_type = none;
  upload_expires_at = none;
  selected = false;
  error = none;
  docflow_doc_id = none;
  docflow_slug = none;
  deposited_at = none;
  updated_at = 3;
}

abbrev pub deposited_item : SourceItem
deposited_item = record item {
  id = 12;
  platform_item_id = "b";
  status = ItemStatus.deposited;
  selected = true;
  deposited_at = some 40;
}

abbrev pub transcribed_item : SourceItem
transcribed_item = record item {
  id = 13;
  platform_item_id = "c";
  status = ItemStatus.transcribed;
  selected = true;
  transcript_s3_key = some "c.json";
}

abbrev pub request : Request
request = record {
  id = 21;
  request_key = "yt-c";
  tenant_id = 9;
  submitted_by = "docflow";
  kind = Kind.scrape;
  source_id = some 1;
  mode = some Mode.auto;
  filters = none;
  status = RequestStatus.acquiring;
  created_at = 2;
}

abbrev pub download : ScrapingJob
download = record {
  id = 31;
  source_id = 1;
  source_item_id = some 12;
  tenant_id = 9;
  credentials_id = none;
  command = Command.download;
  status = JobStatus.done;
  priority = 0;
  claimed_by = none;
  attempts = 1;
  error = none;
  created_at = 4;
}

abbrev pub discover : ScrapingJob
discover = record download {
  id = 32;
  source_item_id = none;
  command = Command.discover;
  status = JobStatus.pending;
  priority = 5;
}

abbrev pub transcription : TranscriptionJob
transcription = record {
  id = 41;
  source_item_id = 13;
  tenant_id = 9;
  audio_s3_key = "c.mp3";
  language = none;
  worker_pool_id = "shared_default";
  status = JobStatus.claimed;
  priority = 0;
  claimed_by = some "w";
  attempts = 1;
  error = none;
  error_history = [];
  provider_used = none;
  result_s3_key = none;
  created_at = 6;
}

abbrev pub db : Db
db = record {
  now = 100;
  next_id = 50;
  sources = source ∷ [];
  source_items = item ∷ deposited_item ∷ transcribed_item ∷ [];
  scraping_jobs = download ∷ discover ∷ [];
  transcription_jobs = transcription ∷ [];
  requests = request ∷ [];
  cursors = [];
  role_projects = [];
  credentials = [];
  transcription_keys = [];
  transcription_workers = [];
  user_wallets = [];
  user_secrets = [];
}

abbrev pub new_request : NewRequest
new_request = record {
  tenant_id = 9;
  submitted_by = "docflow";
  kind = Kind.scrape;
  source_id = some 1;
  mode = some Mode.auto;
  filters = none;
  status = RequestStatus.discovering;
}

abbrev pub listing : List Discovered
listing =
    record { id = "a"; title = some "A"; duration_s = none; published_at = none }
    ∷ record { id = "d"; title = none; duration_s = none; published_at = none }
    ∷ record { id = "d"; title = none; duration_s = none; published_at = none }
    ∷ []

abbrev pub done_event : ItemDone
done_event = record { item_id = "a"; audio_s3_key = some "a.mp3"; language = none; priority = 0 }

abbrev pub container : Container
container = record {
  environment = true;
  events = Event.item_done done_event ∷ Event.exited (Returncode.code 0) ∷ [];
  crashes = false;
}

abbrev pub texts : ErrorTexts
texts = record {
  source_missing = "source missing";
  orchestrator_error = "orchestrator error";
  scraper_exited = λ code. "scraper exited";
}

-- The first attempt of a deposit is refused, the second is stored.
abbrev second_try : ℕ → DepositWorker.Attempt
second_try (suc zero) = DepositWorker.Attempt.refused "busy"
second_try _ = DepositWorker.Attempt.stored "doc" "slug"

abbrev pub depositor : DepositWorker.World
depositor = record {
  outside = outside;
  pivot = λ n key. some (record { segment_texts = "hello" ∷ []; provider = none });
  deposit = λ n i text metadata. second_try n;
  no_transcript_key = "no transcript";
  unreadable_pivot = "unreadable";
}

abbrev pub refusing_depositor : DepositWorker.World
refusing_depositor = record depositor {
  deposit = λ n i text metadata. DepositWorker.Attempt.refused "busy";
}

abbrev pub deposit_worker : Worker
deposit_worker = record { max_attempts = 3; backoff_base_s = 1 }

abbrev pub error_body : Json
error_body = Json.object (
    Fields.field "error"
      (Json.object (Fields.field "code" (Json.text "insufficient_quota") Fields.end)) Fields.end)

abbrev pub transcriber : TranscriptionWorker.World
transcriber = record {
  outside = outside;
  provider_name = "openai";
  attempt = λ job. TranscriptionWorker.Attempt.transcribed;
  transcript_key = λ key. key;
  history_entry = λ category message. message;
}
