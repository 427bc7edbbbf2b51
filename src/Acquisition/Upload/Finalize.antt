-- ===== src/Acquisition/Upload/Finalize.antt =====
-- services/acquisition/upload/finalize.py and cleanup.py
pub mod SingleJob
use roles.Prelude.{
  ℕ, ◌+◌, String, Bool, true, false, not, Option, none, some, List, [], ◌∷◌, ◌==◌, nat_eq, ltb,
  eq_opt, option_or, if◌then◌else◌,
}
use roles.Db.Schema.{
  Db, SourceItem, ItemStatus, item_status_eq, Request, RequestStatus, request_status_eq, Kind,
  kind_eq,
}
use roles.Db.SourceItems.{get_by_id}
use roles.Db.Requests.{get_by_key}
use roles.Db.UploadSlots.{list_expired_awaiting_upload, delete_item, claim_finalize_slot}
use roles.Acquisition.Errors.{Code, Result, ok, err}
use roles.Acquisition.Admin.{is_video}
use roles.Acquisition.Upload.TranscriptionEntry.{enter_transcription_pipeline}

-- MinIO: whether an object is there, and whether its removal succeeds. A key that is NULL is asked for
-- as it is.
pub record Storage : Type 0 where
  pub object_exists : Option String → Bool
  pub remove_object : Option String → Bool

-- What the checks of finalize_upload come to, when they do not raise: the status to answer with, or the
-- way in of a media. `none` is the answer "unknown".
pub data Checked : Type 0 where
  answered : ItemStatus → Checked
  extract direct : SourceItem → Checked

abbrev media_of : SourceItem → Option String → Result Checked
media_of i none = err Code.key_error
media_of i (some media) = elim (is_video media) [
  | none ↦ err Code.key_error
  | some true ↦ ok (Checked.extract i)
  | some false ↦ ok (Checked.direct i)
]

unfoldable pub check_object : Storage → SourceItem → Result Checked
check_object s i =
    if s.object_exists i.upload_s3_key
    then media_of i i.upload_media_type
    else err Code.upload_not_found

-- The slot that expired is deleted, whether or not its object could be removed. A slot without an
-- expiry is compared with a datetime: TypeError.
unfoldable pub check_expiry : Storage → SourceItem → ℕ → Option ℕ → Db → Result Checked × Db
check_expiry s i now none db = (err Code.type_error, db)
check_expiry s i now (some expires_at) db =
    if ltb expires_at now
    then (err Code.upload_expired, delete_item i.id db)
    else (check_object s i, db)

unfoldable pub check_slot : Storage → SourceItem → ℕ → Db → Result Checked × Db
check_slot s i now db =
    if i.status == ItemStatus.awaiting_upload
    then check_expiry s i now i.upload_expires_at db
    else (ok (Checked.answered i.status), db)

unfoldable pub check_item : Storage → Request → ℕ → ℕ → Db → Result Checked × Db
check_item s r item_id now db = elim (get_by_id item_id db) [
  | none ↦ (err Code.upload_not_found, db)
  | some i ↦
      if eq_opt r.source_id i.source_id
      then check_slot s i now db
      else (err Code.upload_not_found, db)
]

-- All that finalize_upload does before it claims the slot.
unfoldable pub check_upload : Storage → String → ℕ → ℕ → Db → Result Checked × Db
check_upload s request_key item_id now db = elim (get_by_key request_key db) [
  | none ↦ (err Code.unknown_request, db)
  | some r ↦
      if r.kind == Kind.upload
      then (if r.status == RequestStatus.cancelled
          then (err Code.already_cancelled, db)
          else check_item s r item_id now db)
      else (err Code.unknown_request, db)
]

abbrev status_of : Option SourceItem → Option ItemStatus
status_of none = none
status_of (some i) = some i.status

-- The answer once the claim is over.
abbrev claimed_or_current :
    SourceItem → ItemStatus → Option SourceItem → Db → Option ItemStatus × Db
claimed_or_current i status none db = (status_of (get_by_id i.id db), db)
claimed_or_current i status (some row) db = (some status, db)

-- _enqueue_extraction
unfoldable pub enqueue_extraction : SourceItem → Db → Option ItemStatus × Db
enqueue_extraction i db =
    let (claimed, db') = claim_finalize_slot i.id ItemStatus.pending_extraction none db in
    claimed_or_current i ItemStatus.pending_extraction claimed db'

abbrev enter_claimed : SourceItem → Option SourceItem → Db → Option ItemStatus × Db
enter_claimed i none db = (status_of (get_by_id i.id db), db)
enter_claimed i (some row) db = (
  some ItemStatus.queued_transcription,
  enter_transcription_pipeline row (option_or i.upload_s3_key "") db,
)

-- _enter_pipeline_direct
unfoldable pub enter_pipeline_direct : SourceItem → Db → Option ItemStatus × Db
enter_pipeline_direct i db =
    let (claimed, db') = claim_finalize_slot i.id ItemStatus.audio_ready i.upload_s3_key db in
    enter_claimed i claimed db'

-- The rest of finalize_upload; the database may have moved on since the checks.
unfoldable pub finish : Checked → Db → Option ItemStatus × Db
unfolding enqueue_extraction enter_pipeline_direct
finish (Checked.answered status) db = (some status, db)
finish (Checked.extract i) db = enqueue_extraction i db
finish (Checked.direct i) db = enter_pipeline_direct i db

abbrev then_finish : Result Checked → Db → Result (Option ItemStatus) × Db
then_finish (err e) db = (err e, db)
then_finish (ok c) db = let (status, db') = finish c db in (ok status, db')

-- A call that nothing else steps into.
unfoldable pub finalize_upload : Storage → String → ℕ → ℕ → Db → Result (Option ItemStatus) × Db
finalize_upload s request_key item_id now db =
    let (checked, db') = check_upload s request_key item_id now db in then_finish checked db'

-- The loop of cleanup_expired_slots: a slot whose object cannot be removed is kept.
unfoldable pub cleanup_slots : Storage → List SourceItem → Db → ℕ × Db
cleanup_slots s [] db = (0, db)
cleanup_slots s (i ∷ is) db =
    let kept = cleanup_slots s is db in
    let (removed, db') = cleanup_slots s is (delete_item i.id db) in
    if s.remove_object i.upload_s3_key then (1 + removed, db') else kept

unfoldable pub cleanup_expired_slots : Storage → ℕ → Db → ℕ × Db
unfolding cleanup_slots
cleanup_expired_slots s now db = cleanup_slots s (list_expired_awaiting_upload now db) db
