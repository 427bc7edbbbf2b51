-- ===== src/Pipeline/DepositWorker.antt =====
-- services/deposit/worker.py
pub mod Outcome
pub mod Drain
use roles.Prelude.{
  ℕ, zero, suc, ◌+◌, ◌-◌, ◌*◌, ◌^◌, String, ◌<>◌, Bool, true, false, Option, none, some, List, [],
  ◌∷◌, ◌==◌, string_eq, if◌then◌else◌, leb, option_or,
}
use roles.Outside.{Outside}
use roles.Db.Schema.{Db, Source, SourceItem, Request}
use roles.Db.Sources.{get_source}
use roles.Db.Requests.{get_by_source_id}
use roles.Db.DepositQueue.{
  claim_next_for_deposit, mark_deposited, mark_deposit_failed, requeue_stale_depositing,
}
use roles.Acquisition.Admin.{is_set}

-- The lines of the transcript that are not blank, joined by newlines.
unfoldable pub kept_lines : Outside → List String → List String
kept_lines o [] = []
kept_lines o (text ∷ texts) =
    let line = o.strip text in if line == "" then kept_lines o texts else line ∷ kept_lines o texts

unfoldable pub join_lines : List String → String
join_lines [] = ""
join_lines (line ∷ []) = line
join_lines (line ∷ next ∷ lines) = line <> "\n" <> join_lines (next ∷ lines)

-- The argument is the text of each segment, "" where there is none.
unfoldable pub extract_transcript_text : Outside → List String → String
unfolding kept_lines join_lines
extract_transcript_text o texts = join_lines (kept_lines o texts)

pub record Pivot : Type 0 where
  pub segment_texts : List String
  pub provider : Option String

pub record Metadata : Type 0 where
  pub platform : Option String
  pub source_url : Option String
  pub title : Option String
  pub duration_s : Option ℕ
  pub published_at : Option ℕ
  pub request_key : Option String
  pub provider : Option String

abbrev request_of : Option Source → SourceItem → Db → Option Request
request_of none i db = none
request_of (some s) i db = get_by_source_id i.source_id db

abbrev key_of : Option Request → Option String
key_of none = none
key_of (some r) = some r.request_key

abbrev platform_of : Option Source → Option String
platform_of none = none
platform_of (some s) = some s.platform

abbrev url_of : Option Source → Option String
url_of none = none
url_of (some s) = s.url

unfoldable pub build_metadata : SourceItem → Pivot → Db → Metadata
build_metadata i pivot db =
    let source = get_source i.source_id db in
    record {
      platform = platform_of source;
      source_url = url_of source;
      title = i.title;
      duration_s = i.duration_s;
      published_at = i.published_at;
      request_key = key_of (request_of source i db);
      provider = pivot.provider;
    }

-- What an attempt comes to: the references of the document, or the text of the exception.
pub data Attempt : Type 0 where
  stored : String → String → Attempt
  refused : String → Attempt

-- MinIO and the depositor, which may answer differently at each attempt (the first argument).
pub record World : Type 0 where
  pub outside : Outside
  -- download_bytes and json.loads; `none` is an exception
  pub pivot : ℕ → String → Option Pivot
  pub deposit : ℕ → SourceItem → String → Metadata → Attempt
  -- the texts of the exceptions that the attempt itself raises
  pub no_transcript_key : String
  pub unreadable_pivot : String

unfoldable pub deposit_pivot : World → ℕ → SourceItem → Option Pivot → Db → Attempt
deposit_pivot w n i none db = Attempt.refused w.unreadable_pivot
deposit_pivot w n i (some p) db =
    w.deposit n i (extract_transcript_text w.outside p.segment_texts) (build_metadata i p db)

unfoldable pub attempt_deposit : World → ℕ → SourceItem → Db → Attempt
unfolding deposit_pivot
attempt_deposit w n i db =
    if is_set i.transcript_s3_key
    then deposit_pivot w n i (w.pivot n (option_or i.transcript_s3_key "")) db
    else Attempt.refused w.no_transcript_key

-- `str(last_error) or class name`; an exception whose text is empty is not told apart.
abbrev pub message_of : Option String → String
message_of none = "None"
message_of (some m) = m

pub record Worker : Type 0 where
  pub max_attempts : ℕ
  pub backoff_base_s : ℕ

-- The waits between the attempts, and the state at the end.
pub record Trace : Type 0 where
  pub waits : List ℕ
  pub db : Db

-- Rounds `attempt` to `attempt + left - 1`; a wait follows each failure but the last.
unfoldable pub rounds : World → Worker → SourceItem → ℕ → ℕ → Option String → Db → Trace
rounds w k i zero attempt last_error db = record {
  waits = [];
  db = mark_deposit_failed w.outside.dumps_error i.id (message_of last_error) db;
}
rounds w k i (suc left) attempt last_error db = elim (attempt_deposit w attempt i db) [
  | Attempt.stored doc_id slug ↦ record { waits = []; db = mark_deposited i.id doc_id slug db }
  | Attempt.refused e ↦
      let rest = rounds w k i left (suc attempt) (some e) db in
      elim left [
        | zero ↦ rest
        | suc m ↦ record rest { waits = (k.backoff_base_s * 2 ^ (attempt - 1)) ∷ rest.waits }
      ]
]

unfoldable pub process_item : World → Worker → SourceItem → Db → Trace
unfolding rounds
process_item w k i db = rounds w k i k.max_attempts 1 none db

unfoldable pub tick_claimed : World → Worker → Option SourceItem → Db → Bool × Db
tick_claimed w k none db = (false, db)
tick_claimed w k (some i) db = (true, (process_item w k i db).db)

unfoldable pub tick : World → Worker → Db → Bool × Db
tick w k db = let (claimed, db') = claim_next_for_deposit db in tick_claimed w k claimed db'

unfoldable pub recover : Db → ℕ × Db
recover db = requeue_stale_depositing db

-- The loop after recover(): rounds until the queue is empty, or the fuel.
unfoldable pub drain : ℕ → World → Worker → Db → Db
drain zero w k db = db
drain (suc fuel) w k db =
    let (processed, db') = tick w k db in
    let rest = drain fuel w k db' in if processed then rest else db'
