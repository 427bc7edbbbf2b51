-- ===== src/Acquisition/Selection/SingleJob.antt =====
-- At most one download job of an item is in flight.
use roles.Prelude.{
  ℕ, ◌+◌, ◌≤◌, ◌≡◌, Option, none, some, List, [], ◌∷◌, arith, if◌then◌else◌, count_where,
  count_where-append, any_where-count, Bool-cases, Option-cases, inl, inr, ◌==◌, nat_eq, eq_of_beq,
  String,
}
use roles.Outside.{Outside}
use roles.Db.Schema.{
  Db, job_status_eq, Command, command_eq, Filters, Request, RequestStatus, request_status_eq,
}
use roles.Db.ScrapingJobs.{new_job, insert_job, is_active_for, get_active_job_for_item}
use roles.Db.SourceItems
use roles.Db.Requests.{update_status, get_by_key}
use roles.Acquisition.Errors.{Result-cases}
use roles.Acquisition.Filters.{resolve_item_filters}
use roles.Acquisition.Selection.{
  Scope, download_job, wants_download, enqueue_item, enqueue_items, apply_selection, advance,
  select_resolved, select_for, select_null, select_items, resolve_ids, in_discovery, with_source,
}

abbrev pub active_downloads : ℕ → Db → ℕ
active_downloads item_id db = count_where (is_active_for item_id Command.download) db.scraping_jobs

abbrev pub SingleDownload : Db → Type 0
SingleDownload db = (item_id : ℕ) → active_downloads item_id db ≤ 1

insert_job-active :
    (c : Scope) (queued item_id : ℕ) (db : Db)
    → active_downloads item_id (insert_job (download_job c queued) db).1
      ≡ active_downloads item_id db + (if queued == item_id then 1 else 0)
unfolding insert_job
insert_job-active c queued item_id db = ground (
  arith,
  count_where-append (is_active_for item_id Command.download) db.scraping_jobs
      (new_job (download_job c queued) db ∷ []),
)

pub enqueue_item-SingleDownload :
    (c : Scope) (queued : ℕ) (db : Db)
    → SingleDownload db
    → SingleDownload (enqueue_item c queued db).1
unfolding enqueue_item wants_download get_active_job_for_item
enqueue_item-SingleDownload c queued db h item_id = ground (
  arith,
  h item_id,
  insert_job-active c queued item_id db,
  any_where-count (is_active_for queued Command.download) db.scraping_jobs,
  eq_of_beq queued item_id,
)

pub enqueue_items-SingleDownload :
    (c : Scope) (ids : List ℕ) (db : Db)
    → SingleDownload db
    → SingleDownload (enqueue_items c ids db).1
unfolding enqueue_items
enqueue_items-SingleDownload c [] db h = h
enqueue_items-SingleDownload c (i ∷ ids) db h =
    enqueue_items-SingleDownload c ids (enqueue_item c i db).1
      (enqueue_item-SingleDownload c i db h)

pub apply_selection-SingleDownload :
    (c : Scope) (ids : List ℕ) (db : Db)
    → SingleDownload db
    → SingleDownload (apply_selection c ids db).1
unfolding apply_selection SourceItems.select_items
apply_selection-SingleDownload c ids db h = enqueue_items-SingleDownload c ids _ h

advance-SingleDownload : (r : Request) (db : Db) → SingleDownload db → SingleDownload (advance r db)
unfolding advance update_status
advance-SingleDownload r db h = elim (Bool-cases (in_discovery r.status)) [
  | inl e ↦ rw e h
  | inr e ↦ rw e h
]

select_for-SingleDownload :
    (o : Outside) (r : Request) (s : ℕ) (ids : Option (List ℕ)) (f : Option Filters) (db : Db)
    → SingleDownload db
    → SingleDownload (select_for o r s ids f db).1
unfolding select_for select_resolved
select_for-SingleDownload o r s ids f db h = elim (Result-cases (resolve_ids o s ids f db)) [
  | inl (e, p) ↦ rw (p, select_for) h
  | inr (found, p) ↦
      rw (p, select_for) (advance-SingleDownload r _ (apply_selection-SingleDownload _ found db h))
]

select_null-SingleDownload :
    (o : Outside) (r : Request) (ids : Option (List ℕ)) (f : Option Filters) (db : Db)
    → SingleDownload db
    → SingleDownload (select_null o r ids f db).1
unfolding select_null
select_null-SingleDownload o r (some ids) f db h = advance-SingleDownload r db h
select_null-SingleDownload o r none f db h = elim (Result-cases (resolve_item_filters o f)) [
  | inl (e, p) ↦ rw (p, select_null) h
  | inr (found, p) ↦ rw (p, select_null) (advance-SingleDownload r db h)
]

select_known-SingleDownload :
    (o : Outside) (r : Request) (source : Option ℕ) (ids : Option (List ℕ)) (f : Option Filters)
    (db : Db)
    → SingleDownload db
    → SingleDownload
        (with_source source (select_null o r ids f db) (λ s. select_for o r s ids f db)).1
select_known-SingleDownload o r none ids f db h = select_null-SingleDownload o r ids f db h
select_known-SingleDownload o r (some s) ids f db h = select_for-SingleDownload o r s ids f db h

-- select_items, whatever it is given and whether it raises or not, keeps at most one download job
-- in flight for each item.
pub select_items-SingleDownload :
    (o : Outside) (key : String) (ids : Option (List ℕ)) (f : Option Filters) (db : Db)
    → SingleDownload db
    → SingleDownload (select_items o key ids f db).1
unfolding select_items
select_items-SingleDownload o key ids f db h = elim (Option-cases (get_by_key key db)) [
  | inl e ↦ rw (e, select_items) h
  | inr (r, e) ↦ elim (Bool-cases (r.status == RequestStatus.cancelled)) [
    | inl c ↦ rw (e, select_items, c) h
    | inr c ↦ rw (e, select_items, c) (select_known-SingleDownload o r r.source_id ids f db h)
  ]
]
