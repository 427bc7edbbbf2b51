-- ===== src/Acquisition/Upload/Finalize/SingleJob.antt =====
-- Two finalize_upload calls that both passed the checks on the same slot.
use roles.Prelude.{
  ℕ, ◌≡◌, refl, sym, subst, String, Bool, true, false, not, ◌&&◌, Option, none, some, List, arith,
  All, any_where_last, find_where, find_where-none, find_where_sound, update_where,
  update_where-All, All-update_where, Option-cases, Bool-cases, inl, inr, option_or, ◌==◌, nat_eq,
  beq_refl, eq_of_beq,
}
use roles.Db.Schema.{Db, SourceItem, ItemStatus, item_status_eq, JobStatus, job_status_eq}
use roles.Db.SourceItems.{Extra, has_natural_key, set_status, update_source_item_status}
use roles.Db.TranscriptionJobs.{insert_job, new_job, has_job_for_item}
use roles.Db.UploadSlots.{is_open_slot, as_claimed, claim_finalize_slot}
use roles.Acquisition.Upload.TranscriptionEntry.{
  upload_job, insert_job_once, enter_transcription_pipeline,
}
use roles.Acquisition.Upload.Finalize.{Checked, enqueue_extraction, enter_pipeline_direct, finish}

-- No row of the item is an open slot.
abbrev pub NoSlot : ℕ → List SourceItem → Type 0
NoSlot item_id = All (λ i. is_open_slot item_id i ≡ false)

claim-NoSlot :
    (item_id : ℕ) (status : ItemStatus) (key : Option String) (now : ℕ) (items : List SourceItem)
    → (status == ItemStatus.awaiting_upload) ≡ false
    → NoSlot item_id (update_where (is_open_slot item_id) (as_claimed status key now) items)
claim-NoSlot item_id status key now items h =
    update_where-All (λ i. is_open_slot item_id i ≡ false) (is_open_slot item_id)
      (as_claimed status key now) items (λ i e. ground arith) (λ i e. e)

update-NoSlot :
    (item_id s : ℕ) (p : String) (status : ItemStatus) (x : Extra) (db : Db)
    → (status == ItemStatus.awaiting_upload) ≡ false
    → NoSlot item_id db.source_items
    → NoSlot item_id (update_source_item_status s p status x db).source_items
unfolding update_source_item_status
update-NoSlot item_id s p status x db h n =
    All-update_where (λ i. is_open_slot item_id i ≡ false) (has_natural_key s p)
      (set_status status x db.now) db.source_items (λ i e k. ground (arith, h)) n

insert_job_once-items :
    (i : SourceItem) (key : String) (db : Db)
    → (insert_job_once i key db).source_items ≡ db.source_items
unfolding insert_job_once insert_job
insert_job_once-items i key db = ground arith

enter-NoSlot :
    (item_id : ℕ) (i : SourceItem) (key : String) (db : Db)
    → NoSlot item_id db.source_items
    → NoSlot item_id (enter_transcription_pipeline i key db).source_items
unfolding enter_transcription_pipeline
enter-NoSlot item_id i key db n =
    update-NoSlot item_id i.source_id i.platform_item_id ItemStatus.queued_transcription _ _ refl (
      subst (NoSlot item_id) (sym (insert_job_once-items i key _))
        (update-NoSlot item_id i.source_id i.platform_item_id ItemStatus.audio_ready _ db refl n))

insert_job_once-has_job :
    (i : SourceItem) (key : String) (db : Db)
    → has_job_for_item i.id (insert_job_once i key db) ≡ true
unfolding insert_job_once
insert_job_once-has_job i key db = elim (Bool-cases (has_job_for_item i.id db)) [
  | inl e ↦ rw e e
  | inr e ↦ rw e (
      unfold insert_job has_job_for_item in
      any_where_last (λ j. j.source_item_id == i.id && not (j.status == JobStatus.cancelled))
        db.transcription_jobs (new_job (upload_job i key) db) (rw (beq_refl i.id) refl))
]

pub enter-has_job :
    (i : SourceItem) (key : String) (db : Db)
    → has_job_for_item i.id (enter_transcription_pipeline i key db) ≡ true
unfolding enter_transcription_pipeline
enter-has_job i key db =
    (unfold update_source_item_status has_job_for_item in insert_job_once-has_job i key _)

abbrev slot : ℕ → Db → Option SourceItem
slot item_id db = find_where (is_open_slot item_id) db.source_items

claim-closed :
    (item_id : ℕ) (status : ItemStatus) (key : Option String) (db : Db)
    → slot item_id db ≡ none
    → claim_finalize_slot item_id status key db ≡ (none, db)
unfolding claim_finalize_slot
claim-closed item_id status key db h = rw (h, claim_finalize_slot)

claim-open :
    (item_id : ℕ) (status : ItemStatus) (key : Option String) (db : Db) (i : SourceItem)
    → slot item_id db ≡ some i
    → claim_finalize_slot item_id status key db ≡ (
      some (as_claimed status key db.now i),
      record db {
        source_items =
            update_where (is_open_slot item_id) (as_claimed status key db.now) db.source_items;
      },
    )
unfolding claim_finalize_slot
claim-open item_id status key db i h = rw (h, claim_finalize_slot)

-- The two ways in of a slot that passed the checks.
abbrev pub way_in : Bool → SourceItem → Checked
way_in true i = Checked.direct i
way_in false i = Checked.extract i

finish-closed :
    (b : Bool) (i : SourceItem) (db : Db) → slot i.id db ≡ none → (finish (way_in b i) db).1 ≡ db
unfolding finish enqueue_extraction enter_pipeline_direct
finish-closed true i db h = rw (claim-closed i.id ItemStatus.audio_ready i.upload_s3_key db h) refl
finish-closed false i db h = rw (claim-closed i.id ItemStatus.pending_extraction none db h) refl

finish-NoSlot :
    (b : Bool) (i : SourceItem) (db : Db) (row : SourceItem)
    → slot i.id db ≡ some row
    → NoSlot i.id (finish (way_in b i) db).1.source_items
unfolding finish enqueue_extraction enter_pipeline_direct
finish-NoSlot true i db row h =
    rw (claim-open i.id ItemStatus.audio_ready i.upload_s3_key db row h) (
      enter-NoSlot i.id _ _ _
        (claim-NoSlot i.id ItemStatus.audio_ready i.upload_s3_key db.now db.source_items refl))
finish-NoSlot false i db row h =
    rw (claim-open i.id ItemStatus.pending_extraction none db row h)
      (claim-NoSlot i.id ItemStatus.pending_extraction none db.now db.source_items refl)

direct-has_job :
    (i : SourceItem) (db : Db) (row : SourceItem)
    → slot i.id db ≡ some row
    → has_job_for_item i.id (finish (Checked.direct i) db).1 ≡ true
unfolding finish enter_pipeline_direct
direct-has_job i db row h = rw (claim-open i.id ItemStatus.audio_ready i.upload_s3_key db row h) (
    subst (λ n. has_job_for_item n (enter_transcription_pipeline claimed key after) ≡ true)
      (eq_of_beq row.id i.id (same_id row (find_where_sound (is_open_slot i.id) db.source_items h)))
      (enter-has_job claimed key after))
  where
    claimed : SourceItem
    claimed = as_claimed ItemStatus.audio_ready i.upload_s3_key db.now row

    key : String
    key = option_or i.upload_s3_key ""

    after : Db
    after = record db {
      source_items =
          update_where (is_open_slot i.id)
            (as_claimed ItemStatus.audio_ready i.upload_s3_key db.now) db.source_items;
    }

    same_id : (x : SourceItem) → is_open_slot i.id x ≡ true → (x.id == i.id) ≡ true
    same_id x e = ground arith

-- Of two finalize_upload calls that both passed the checks on a slot, whether for audio or for video,
-- the second to finish changes nothing; and when the slot is still open, the first on an audio leaves
-- a transcription job for the item.
pub finish_twice :
    (a b : Bool) (i : SourceItem) (db : Db)
    → let first = (finish (way_in a i) db).1 in
      ((finish (way_in b i) first).1 ≡ first)
      × ((row : SourceItem)
          → find_where (is_open_slot i.id) db.source_items ≡ some row
          → has_job_for_item i.id (finish (Checked.direct i) db).1 ≡ true)
finish_twice a b i db = (
  elim (Option-cases (slot i.id db)) [
    | inl e ↦ rw (finish-closed a i db e) (finish-closed b i db e)
    | inr (row, e) ↦ finish-closed b i (finish (way_in a i) db).1 (
        find_where-none (is_open_slot i.id) (finish (way_in a i) db).1.source_items
          (finish-NoSlot a i db row e))
  ],
  direct-has_job i db,
)
