-- ===== src/Db/UploadSlots.antt =====
-- backend/src/role_builder/db_helpers/source_items_upload.py
use roles.Prelude.{
  ℕ, String, Bool, true, false, not, ◌&&◌, Option, none, some, List, [], ◌∷◌, ◌++◌, ◌==◌, nat_eq,
  ltb, coalesce, head?, find_where, update_where, select_where, count_where, order_by,
}
use roles.Db.Schema.{Db, SourceItem, ItemStatus, item_status_eq}

-- What insert_awaiting_upload_item is given.
pub record NewSlot : Type 0 where
  pub item_id : ℕ
  pub source_id : ℕ
  pub tenant_id : ℕ
  pub platform_item_id : String
  pub title : String
  pub duration_s : Option ℕ
  pub published_at : Option ℕ
  pub upload_media_type : String
  pub upload_s3_key : String
  pub upload_expires_at : ℕ

abbrev pub new_slot : NewSlot → Db → SourceItem
new_slot n db = record {
  id = n.item_id;
  source_id = n.source_id;
  tenant_id = n.tenant_id;
  platform_item_id = n.platform_item_id;
  title = some n.title;
  duration_s = n.duration_s;
  published_at = n.published_at;
  status = ItemStatus.awaiting_upload;
  audio_s3_key = none;
  transcript_s3_key = none;
  upload_s3_key = some n.upload_s3_key;
  upload_media_type = some n.upload_media_type;
  upload_expires_at = some n.upload_expires_at;
  selected = true;
  error = none;
  docflow_doc_id = none;
  docflow_slug = none;
  deposited_at = none;
  updated_at = db.now;
}

unfoldable pub insert_awaiting_upload_item : NewSlot → Db → Db
insert_awaiting_upload_item n db = record db {
  source_items = db.source_items ++ new_slot n db ∷ [];
}

-- A comparison with NULL is not true.
abbrev pub is_before : Option ℕ → ℕ → Bool
is_before none now = false
is_before (some t) now = ltb t now

abbrev pub is_expired : ℕ → SourceItem → Bool
is_expired now i = i.status == ItemStatus.awaiting_upload && is_before i.upload_expires_at now

abbrev pub expires_before : Option ℕ → Option ℕ → Bool
expires_before none b = false
expires_before (some s) none = true
expires_before (some s) (some t) = ltb s t

unfoldable pub list_expired_awaiting_upload : ℕ → Db → List SourceItem
list_expired_awaiting_upload now db =
    order_by (λ a b. expires_before a.upload_expires_at b.upload_expires_at)
      (select_where (is_expired now) db.source_items)

unfoldable pub delete_item : ℕ → Db → Db
delete_item item_id db = record db {
  source_items = select_where (λ i. not (i.id == item_id)) db.source_items;
}

abbrev pub is_open_slot : ℕ → SourceItem → Bool
is_open_slot item_id i = i.id == item_id && i.status == ItemStatus.awaiting_upload

abbrev pub as_claimed : ItemStatus → Option String → ℕ → SourceItem → SourceItem
as_claimed status key now i = record i {
  status = status;
  audio_s3_key = coalesce key i.audio_s3_key;
  updated_at = now;
}

-- The row is returned as the UPDATE left it (RETURNING *).
unfoldable pub claim_finalize_slot : ℕ → ItemStatus → Option String → Db → Option SourceItem × Db
claim_finalize_slot item_id status key db =
    elim (find_where (is_open_slot item_id) db.source_items) [
      | none ↦ (none, db)
      | some i ↦ (
        some (as_claimed status key db.now i),
        record db {
          source_items =
              update_where (is_open_slot item_id) (as_claimed status key db.now) db.source_items;
        },
      )
    ]

abbrev pub as_extracting : ℕ → SourceItem → SourceItem
as_extracting now i = record i { status = ItemStatus.extracting_audio; updated_at = now }

abbrev pub awaits_extraction : SourceItem → Bool
awaits_extraction i = i.status == ItemStatus.pending_extraction

unfoldable pub next_for_extraction : Db → Option SourceItem
next_for_extraction db = head? (
    order_by (λ a b. ltb a.updated_at b.updated_at)
      (select_where awaits_extraction db.source_items))

unfoldable pub claim_next_for_extraction : Db → Option SourceItem × Db
claim_next_for_extraction db = elim (next_for_extraction db) [
  | none ↦ (none, db)
  | some i ↦ (
    some (as_extracting db.now i),
    record db {
      source_items = update_where (λ x. x.id == i.id) (as_extracting db.now) db.source_items;
    },
  )
]

abbrev pub is_extracting : SourceItem → Bool
is_extracting i = i.status == ItemStatus.extracting_audio

unfoldable pub requeue_stale_extracting : Db → ℕ × Db
requeue_stale_extracting db = (
  count_where is_extracting db.source_items,
  record db {
    source_items =
        update_where is_extracting
          (λ i. record i { status = ItemStatus.pending_extraction; updated_at = db.now })
          db.source_items;
  },
)
