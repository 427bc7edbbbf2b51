-- ===== src/Samples/Intake.antt =====
-- A key with its user, an upload slot with its extractor, and a submission with its surroundings.
use roles.Prelude.{ℕ, zero, suc, true, false, none, some, [], ◌∷◌, ◌==◌, string_eq}
use roles.Acquisition.PlatformDetection.{Urls}
use roles.Acquisition.RequestKey.{Texts}
use roles.Acquisition.Submission.{Submission, Surroundings}
use roles.Db.Schema.{
  TranscriptionKey, KeyStatus, CredentialStatus, Db, SourceItem, ItemStatus, Mode,
}
use roles.Acquisition.Upload.Extraction
use roles.Acquisition.Upload.Extraction.{Extractor}
use roles.Pipeline.WorkerManager.{Docker}
use roles.Samples.{outside, item, db}

abbrev pub key : TranscriptionKey
key = record {
  id = 61;
  tenant_id = 9;
  user_id = 7;
  provider = "openai";
  secret_id = some 62;
  status = KeyStatus.active;
  is_primary = true;
  is_fallback = false;
  workers_count = 2;
  monthly_cap_usd = none;
  current_month_spend_usd = 0;
  current_balance_usd = none;
  last_balance_check_at = none;
  last_validated_at = none;
  created_at = 1;
}

abbrev pub db_with_key : Db
db_with_key = record db { transcription_keys = key ∷ [] }

abbrev pub docker : Docker
docker = record { run = λ index. some "container"; worker_name = λ index. "worker" }

abbrev pub upload_slot : SourceItem
upload_slot = record item {
  id = 14;
  platform_item_id = "upload-14";
  status = ItemStatus.awaiting_upload;
  upload_s3_key = some "upload/yt-c/14.mp3";
  upload_media_type = some "audio/mpeg";
  upload_expires_at = some 120;
}

abbrev pub db_with_slot : Db
db_with_slot = record db { source_items = upload_slot ∷ [] }

-- The first extraction fails, the second succeeds.
abbrev second_extraction : ℕ → Extraction.Attempt
second_extraction (suc zero) = Extraction.Attempt.extraction_error "no stream"
second_extraction _ = Extraction.Attempt.extracted

abbrev pub extractor : Extractor
extractor = record { max_attempts = 3; extract = λ n i. second_extraction n; stem = λ key. key }

abbrev pub failing_extractor : Extractor
failing_extractor = record extractor {
  extract = λ n i. Extraction.Attempt.extraction_error "no stream";
}

abbrev pub submission : Submission
submission = record {
  url = "https://youtube.com/@clea";
  submitted_by = "docflow";
  tenant_id = 9;
  platform = none;
  mode = Mode.auto;
  filters = none;
  note = none;
  today = "2026-07-04";
}

abbrev urls : Urls
urls = record {
  netloc = λ url. "youtube.com";
  hostname = λ url. some "youtube.com";
  path = λ url. "/@clea";
  lower = λ s. s;
  contains = λ needle s. needle == s;
  ends_with = λ suffix s. suffix == s;
  first_segment = λ url. "https:";
}

abbrev names : Texts
names = record {
  slugify = λ s. s;
  cut_hint = λ s. s;
  segments = λ url. "@clea" ∷ [];
  is_handle = λ s. s == "@clea";
  strip_at = λ s. "clea";
}

abbrev pub surroundings : Surroundings
surroundings = record {
  outside = outside;
  urls = urls;
  texts = names;
  suffixed = λ i. "yt-clea-a3f2";
}

abbrev pub db_with_credential : Db
db_with_credential = record db {
  credentials =
      record {
        id = 71;
        tenant_id = 9;
        user_id = 7;
        platform = "youtube";
        secret_id = some 63;
        status = CredentialStatus.active;
        last_validated_at = none;
        expires_at = none;
        created_at = 1;
      }
      ∷ [];
}
