-- ===== src/Pipeline/EventHandlers/Queueing.antt =====
-- What `item_done` leaves behind.
use roles.Prelude.{
  ℕ, suc, ◌≡◌, refl, String, Bool, true, false, ◌&&◌, some, [], ◌∷◌, arith, All, update_where-All,
  count_where, count_where-append, ◌==◌, nat_eq, string_eq, beq_refl, option_or,
}
use roles.Outside.{Outside}
use roles.Db.Schema.{
  Db, SourceItem, ItemStatus, item_status_eq, TranscriptionJob, JobStatus, job_status_eq,
}
use roles.Db.SourceItems.{Extra, has_natural_key, get_by_platform_id, update_source_item_status}
use roles.Db.TranscriptionJobs.{insert_job, new_job}
use roles.Acquisition.Admin.{is_set}
use roles.Pipeline.EventHandlers.{
  ItemDone, done_job, queue_transcription, done_with, handle_item_done,
}

abbrev pub waits_for : ℕ → TranscriptionJob → Bool
waits_for item_id j = j.source_item_id == item_id && j.status == JobStatus.pending

abbrev pub AllHave : ItemStatus → ℕ → String → Db → Type 0
AllHave status s p db = All (λ i. has_natural_key s p i ≡ true → i.status ≡ status) db.source_items

update-AllHave :
    (s : ℕ) (p : String) (status : ItemStatus) (x : Extra) (db : Db)
    → AllHave status s p (update_source_item_status s p status x db)
unfolding update_source_item_status
update-AllHave s p status x db =
    update_where-All (λ i. has_natural_key s p i ≡ true → i.status ≡ status) (has_natural_key s p) _
      db.source_items (λ i e k. refl) (λ i e k. absurd (cc (e, k)))

-- For an item that the table has: with an audio key exactly one more pending transcription job waits
-- for it and the item is queued; without one no job is inserted and the item is failed.
pub handle_item_done-queues :
    (o : Outside) (e : ItemDone) (s : ℕ) (db : Db) (row : SourceItem)
    → get_by_platform_id s e.item_id db ≡ some row
    → let db' = handle_item_done o e s db in
      (is_set e.audio_s3_key ≡ true
        → (count_where (waits_for row.id) db'.transcription_jobs
            ≡ suc (count_where (waits_for row.id) db.transcription_jobs))
          × AllHave ItemStatus.queued_transcription s e.item_id db')
      × (is_set e.audio_s3_key ≡ false
          → (db'.transcription_jobs ≡ db.transcription_jobs)
            × AllHave ItemStatus.failed s e.item_id db')
unfolding handle_item_done done_with
handle_item_done-queues o e s db row found =
    rw (found, handle_item_done)
      (
        (λ set.
            rw (set, done_with)
              (one_more, update-AllHave s e.item_id ItemStatus.queued_transcription _ _)),
        (λ unset.
            rw (unset, done_with)
              (
                (unfold update_source_item_status in refl),
                update-AllHave s e.item_id ItemStatus.failed _ db,
              )),
      )
  where
    key : String
    key = option_or e.audio_s3_key ""

    one_more :
        count_where (waits_for row.id) (queue_transcription o e row key s db).transcription_jobs
        ≡ suc (count_where (waits_for row.id) db.transcription_jobs)
    one_more =
        (unfold queue_transcription update_source_item_status insert_job in
          ground (
            arith,
            beq_refl row.id,
            count_where-append (waits_for row.id) db.transcription_jobs
                (new_job (done_job o e row key s db) db ∷ []),
          ))
