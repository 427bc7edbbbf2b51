-- ===== src/Acquisition/Upload/Intake.antt =====
-- services/acquisition/upload/intake.py and media_types.py
use roles.Prelude.{
  ℕ, ◌+◌, String, ◌<>◌, Bool, ◌||◌, Option, none, some, ◌==◌, string_eq, if◌then◌else◌,
}
use roles.Db.Schema.{Db, Request, RequestStatus, request_status_eq, Kind, kind_eq}
use roles.Db.Sources.{NewSource, insert_source}
use roles.Db.Requests.{NewRequest, get_by_key, update_status}
use roles.Db.UploadSlots.{NewSlot, insert_awaiting_upload_item}
use roles.Acquisition.Errors.{Code, Result, ok, err, ◌>>=◌}
use roles.Acquisition.RequestCreation.{insert_request_with_retry}
use roles.Acquisition.Selection.{with_source}

-- The texts and services that the intake asks.
pub record Platform : Type 0 where
  -- build_request_key_base("upload", "", note=title, today=today)
  pub key_base : String → String
  -- with_random_suffix, as the i-th collision draws it
  pub suffixed : ℕ → String
  -- datetime.fromisoformat; `none` is the ValueError
  pub from_iso : String → Option ℕ
  -- str(item_id) and item_id.hex[:12]
  pub show_id : ℕ → String
  pub short_hex : ℕ → String
  -- presigned_put_url; `none` is an exception
  pub presign : String → Option String

-- SLOT_TTL_S, in the unit of the timestamps: seconds
abbrev pub slot_ttl_s : ℕ
slot_ttl_s = 3600

unfoldable pub is_supported : String → Bool
is_supported t =
    t == "audio/mpeg"
    || t == "audio/wav"
    || t == "audio/mp4"
    || t == "audio/ogg"
    || t == "audio/flac"
    || t == "video/mp4"
    || t == "video/quicktime"
    || t == "video/webm"

-- `none` is the KeyError of a type that the table lacks.
unfoldable pub extension_for : String → Option String
extension_for t =
    if t == "audio/mpeg"
    then some ".mp3"
    else if t == "audio/wav"
    then some ".wav"
    else if t == "audio/mp4"
    then some ".m4a"
    else if t == "audio/ogg"
    then some ".ogg"
    else if t == "audio/flac"
    then some ".flac"
    else if t == "video/mp4"
    then some ".mp4"
    else if t == "video/quicktime"
    then some ".mov"
    else if t == "video/webm"
    then some ".webm"
    else none

-- _get_upload_request
unfoldable pub get_upload_request : String → Db → Result Request
get_upload_request request_key db = elim (get_by_key request_key db) [
  | none ↦ err Code.unknown_request
  | some r ↦ if r.kind == Kind.upload then ok r else err Code.unknown_request
]

abbrev iso_or_error : Option ℕ → Result (Option ℕ)
iso_or_error none = err Code.invalid_published_at
iso_or_error (some t) = ok (some t)

unfoldable pub parse_published_at : Platform → Option String → Result (Option ℕ)
parse_published_at p none = ok none
parse_published_at p (some text) = iso_or_error (p.from_iso text)

abbrev pub upload_source : ℕ → NewSource
upload_source tenant_id = record {
  role_project_id = none;
  tenant_id = tenant_id;
  platform = "upload";
  source_type = "upload";
  url = none;
  credentials_id = none;
}

abbrev pub upload_request : ℕ → String → ℕ → NewRequest
upload_request tenant_id submitted_by source_id = record {
  tenant_id = tenant_id;
  submitted_by = submitted_by;
  kind = Kind.upload;
  source_id = some source_id;
  mode = none;
  filters = none;
  status = RequestStatus.open_for_upload;
}

unfoldable pub create_upload_request : Platform → String → String → ℕ → Db → Result String × Db
create_upload_request p title submitted_by tenant_id db =
    let (source_id, db') = insert_source (upload_source tenant_id) db in
    insert_request_with_retry p.suffixed (p.key_base title)
      (upload_request tenant_id submitted_by source_id) db'

-- What request_upload_slot is given.
pub record SlotRequest : Type 0 where
  pub filename : String
  pub media_type : String
  pub title : Option String
  pub published_at : Option String
  pub duration_s : Option ℕ

pub record Slot : Type 0 where
  pub item_id : ℕ
  pub upload_url : String
  pub expires_at : ℕ

-- The guards, up to the row to insert; uuid4() is the next id.
unfoldable pub slot_row : Platform → Request → SlotRequest → ℕ → ℕ → String → Db → Result NewSlot
unfolding parse_published_at
slot_row p r q now source_id extension db = do
  published ← parse_published_at p q.published_at
  ok (record {
    item_id = db.next_id;
    source_id = source_id;
    tenant_id = r.tenant_id;
    platform_item_id = "upload-" <> p.short_hex db.next_id;
    title = title_or q.title q.filename;
    duration_s = q.duration_s;
    published_at = published;
    upload_media_type = q.media_type;
    upload_s3_key = "upload/" <> r.request_key <> "/" <> p.show_id db.next_id <> extension;
    upload_expires_at = now + slot_ttl_s;
  })
  where
    title_or : Option String → String → String
    title_or none filename = filename
    title_or (some t) filename = if t == "" then filename else t

-- The insertion, and the URL that is asked for after it.
unfoldable pub open_slot : Platform → NewSlot → Db → Result Slot × Db
open_slot p row db =
    let db' = insert_awaiting_upload_item row (record db { next_id = db.next_id + 1 }) in
    elim (p.presign row.upload_s3_key) [
      | none ↦ (err Code.storage_error, db')
      | some url ↦ (
        ok (record { item_id = row.item_id; upload_url = url; expires_at = row.upload_expires_at }),
        db',
      )
    ]

abbrev then_open : Platform → Result NewSlot → Db → Result Slot × Db
then_open p (err e) db = (err e, db)
then_open p (ok row) db = open_slot p row db

-- An upload request without a source breaks the NOT NULL constraint of the item.
unfoldable pub slot_for : Platform → Request → SlotRequest → ℕ → Db → Result Slot × Db
slot_for p r q now db = elim (extension_for q.media_type) [
  | none ↦ (err Code.unsupported_media, db)
  | some extension ↦
      with_source r.source_id (err Code.integrity, db)
        (λ s. then_open p (slot_row p r q now s extension db) db)
]

unfoldable pub request_upload_slot : Platform → String → SlotRequest → ℕ → Db → Result Slot × Db
unfolding is_supported slot_for
request_upload_slot p request_key q now db = elim (get_upload_request request_key db) [
  | err e ↦ (err e, db)
  | ok r ↦
      if r.status == RequestStatus.open_for_upload
      then (if is_supported q.media_type
          then slot_for p r q now db
          else (err Code.unsupported_media, db))
      else (err Code.request_closed, db)
]

unfoldable pub close_upload_request : String → Db → Result RequestStatus × Db
close_upload_request request_key db = elim (get_upload_request request_key db) [
  | err e ↦ (err e, db)
  | ok r ↦
      if r.status == RequestStatus.open_for_upload
      then (ok RequestStatus.acquiring, update_status request_key RequestStatus.acquiring db)
      else (ok r.status, db)
]
