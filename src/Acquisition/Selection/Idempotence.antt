-- ===== src/Acquisition/Selection/Idempotence.antt =====
-- A selection that is repeated queues nothing more.
use roles.Prelude.{
  any_where_last, ℕ, ◌≡◌, refl, ap, ◌∙◌, true, false, not, ◌&&◌, Option, none, some, List, [], ◌∷◌,
  arith, if◌then◌else◌, All, any_where, any_where-append, Bool-cases, inl, inr, ◌==◌, nat_eq,
  beq_refl, find_where, find_where-update_where, All-mono,
}
use mathlib.Core.Option
use roles.Db.Schema.{Db, SourceItem, Command, command_eq, item_status_eq}
use roles.Db.ScrapingJobs.{new_job, insert_job, is_active_for, get_active_job_for_item}
use roles.Db.SourceItems
use roles.Db.SourceItems.{get_by_id, is_chosen}
use roles.Acquisition.Selection.{
  Scope, download_job, is_queueable, wants_download, enqueue_item, enqueue_items, apply_selection,
}

wants_download-enqueue_item :
    (c : Scope) (i j : ℕ) (db : Db)
    → wants_download c i db ≡ false
    → wants_download c i (enqueue_item c j db).1 ≡ false
unfolding wants_download enqueue_item insert_job get_active_job_for_item get_by_id
wants_download-enqueue_item c i j db h = ground (
  arith,
  any_where-append (is_active_for i Command.download) db.scraping_jobs
      (new_job (download_job c j) db ∷ []),
)

wants_download-enqueue_item_self :
    (c : Scope) (i : ℕ) (db : Db) → wants_download c i (enqueue_item c i db).1 ≡ false
unfolding enqueue_item
wants_download-enqueue_item_self c i db = elim (Bool-cases (wants_download c i db)) [
  | inr e ↦ rw e e
  | inl e ↦ rw e (
      unfold wants_download insert_job get_active_job_for_item in
      rw
        (any_where_last (is_active_for i Command.download) db.scraping_jobs
          (new_job (download_job c i) db) (rw (beq_refl i) refl))
        refl)
]

wants_download-enqueue_items :
    (c : Scope) (i : ℕ) (js : List ℕ) (db : Db)
    → wants_download c i db ≡ false
    → wants_download c i (enqueue_items c js db).1 ≡ false
unfolding enqueue_items
wants_download-enqueue_items c i [] db h = h
wants_download-enqueue_items c i (j ∷ js) db h =
    wants_download-enqueue_items c i js (enqueue_item c j db).1
      (wants_download-enqueue_item c i j db h)

-- Once the loop is through, no item of the list wants a job.
enqueue_items_none :
    (c : Scope) (is : List ℕ) (db : Db)
    → All (λ i. wants_download c i (enqueue_items c is db).1 ≡ false) is
unfolding enqueue_items
enqueue_items_none c [] db = tt
enqueue_items_none c (i ∷ is) db = (
  wants_download-enqueue_items c i is (enqueue_item c i db).1
      (wants_download-enqueue_item_self c i db),
  enqueue_items_none c is (enqueue_item c i db).1,
)

nothing_queued :
    (c : Scope) (is : List ℕ) (db : Db)
    → All (λ i. wants_download c i db ≡ false) is
    → enqueue_items c is db ≡ (0, db)
unfolding enqueue_items enqueue_item
nothing_queued c [] db h = refl
nothing_queued c (i ∷ is) db h = rw h.0 (rw (nothing_queued c is db h.1) refl)

-- Setting the flag of the items changes no test of the loop.
wants_download-select_items :
    (c : Scope) (i s : ℕ) (ids : List ℕ) (db : Db)
    → wants_download c i (SourceItems.select_items s ids false db).1 ≡ wants_download c i db
unfolding wants_download get_active_job_for_item SourceItems.select_items get_by_id
wants_download-select_items c i s ids db =
    rw
      (find_where-update_where (λ x. x.id == i) (is_chosen s ids)
        (λ x. record x { selected = true; updated_at = db.now }) db.source_items (λ x. refl))
      (ap (λ b. not (any_where (is_active_for i Command.download) db.scraping_jobs) && b)
        (same_test (find_where (λ x. x.id == i) db.source_items)))
  where
    same_test :
        (found : Option SourceItem)
        → is_queueable c.source_id (
            Option.map
              (λ x.
                if is_chosen s ids x then record x { selected = true; updated_at = db.now } else x)
              found)
          ≡ is_queueable c.source_id found
    same_test none = refl
    same_test (some x) = elim (Bool-cases (is_chosen s ids x)) [ inl e ↦ rw e | inr e ↦ rw e ]

-- Applying the same selection again, right after it was applied, queues no job and leaves the job
-- table as it was.
pub apply_selection_again :
    (c : Scope) (ids : List ℕ) (db : Db)
    → let db' = (apply_selection c ids db).1 in
      ((apply_selection c ids db').0.queued_count ≡ 0)
      × ((apply_selection c ids db').1.scraping_jobs ≡ db'.scraping_jobs)
unfolding apply_selection
apply_selection_again c ids db = rw again (refl, kept)
  where
    start : Db
    start = (SourceItems.select_items c.source_id ids false db).1

    after : Db
    after = (enqueue_items c ids start).1

    reselected : Db
    reselected = (SourceItems.select_items c.source_id ids false after).1

    again : enqueue_items c ids reselected ≡ (0, reselected)
    again = nothing_queued c ids reselected (
        All-mono (λ i. wants_download c i after ≡ false)
          (λ i. wants_download c i reselected ≡ false) ids
          (λ i h. wants_download-select_items c i c.source_id ids after ∙ h)
          (enqueue_items_none c ids start))

    kept : reselected.scraping_jobs ≡ after.scraping_jobs
    kept = (unfold SourceItems.select_items in refl)
