-- ===== src/Acquisition/Upload/Extraction.antt =====
-- services/acquisition/upload/extraction_worker.py
pub mod Outcome
use roles.Prelude.{
  ℕ, zero, suc, ◌+◌, String, ◌<>◌, Bool, true, false, Option, none, some, option_or, List, [], ◌∷◌,
  if◌then◌else◌, ◌==◌, string_eq,
}
use roles.Db.Schema.{Db, SourceItem, ItemStatus}
use roles.Db.SourceItems.{no_extra, update_source_item_status}
use roles.Db.UploadSlots.{claim_next_for_extraction, requeue_stale_extracting}
use roles.Acquisition.Upload.TranscriptionEntry.{enter_transcription_pipeline}

-- extract_audio_to_mp3: done, an AudioExtractionError with its text, or another exception, which the
-- loop of the worker logs.
pub data Attempt : Type 0 where
  extracted : Attempt
  extraction_error : String → Attempt
  crashed : Attempt

pub record Extractor : Type 0 where
  pub max_attempts : ℕ
  -- the n-th attempt on an item
  pub extract : ℕ → SourceItem → Attempt
  -- upload_key.rsplit(".", 1)[0]
  pub stem : String → String

unfoldable pub audio_key_for : Extractor → SourceItem → String
audio_key_for x i = x.stem (option_or i.upload_s3_key "") <> ".mp3"

-- `str(last_error) or "AudioExtractionError"`
abbrev pub message_of : Option String → String
message_of none = "None"
message_of (some m) = if m == "" then "AudioExtractionError" else m

unfoldable pub give_up : SourceItem → Option String → Db → Db
give_up i last db =
    update_source_item_status i.source_id i.platform_item_id ItemStatus.failed
      (record no_extra { error = some ("AUDIO_EXTRACTION_FAILED: " <> message_of last) }) db

-- Rounds `attempt` to `attempt + left - 1`.
unfoldable pub rounds : Extractor → SourceItem → ℕ → ℕ → Option String → Db → Db
unfolding give_up
rounds x i zero attempt last db = give_up i last db
rounds x i (suc left) attempt last db = elim (x.extract attempt i) [
  | Attempt.extracted ↦ enter_transcription_pipeline i (audio_key_for x i) db
  | Attempt.extraction_error m ↦ rounds x i left (suc attempt) (some m) db
  | Attempt.crashed ↦ db
]

unfoldable pub process_item : Extractor → SourceItem → Db → Db
unfolding rounds
process_item x i db = rounds x i x.max_attempts 1 none db

unfoldable pub recover : Db → ℕ × Db
recover db = requeue_stale_extracting db

unfoldable pub tick : Extractor → Db → Bool × Db
tick x db =
    let (claimed, db') = claim_next_for_extraction db in
    elim claimed [ none ↦ (false, db') | some i ↦ (true, process_item x i db') ]
