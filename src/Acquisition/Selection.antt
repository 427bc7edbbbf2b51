-- ===== src/Acquisition/Selection.antt =====
-- services/acquisition/selection.py
pub mod SingleJob
pub mod Idempotence
use roles.Prelude.{
  ℕ, ◌+◌, String, Bool, true, false, not, ◌&&◌, ◌||◌, Option, none, some, List, [], ◌∷◌, ◌==◌,
  nat_eq, if◌then◌else◌, option_or, map,
}
use roles.Outside.{Outside}
use roles.Db.Schema.{
  Db, SourceItem, ItemStatus, item_status_eq, Request, RequestStatus, request_status_eq, Command,
  Filters,
}
use roles.Db.Sources.{get_source, credentials_of}
use roles.Db.SourceItems.{get_by_id, list_items_by_source}
use roles.Db.SourceItems
use roles.Db.ScrapingJobs.{NewScrapingJob, get_active_job_for_item, insert_job}
use roles.Db.Requests.{get_by_key, update_status}
use roles.Acquisition.Errors.{Code, Result, ok, err, ◌>>=◌, ◌>>◌}
use roles.Acquisition.Filters.{Resolved, resolve_item_filters}

-- What apply_selection is given beside the items.
pub record Scope : Type 0 where
  pub source_id : ℕ
  pub tenant_id : ℕ
  pub credentials_id : Option ℕ

abbrev pub download_job : Scope → ℕ → NewScrapingJob
download_job c item_id = record {
  source_id = c.source_id;
  source_item_id = some item_id;
  tenant_id = c.tenant_id;
  command = Command.download;
  credentials_id = c.credentials_id;
  priority = 0;
}

-- The tests of the loop that skip an item.
abbrev pub is_queueable : ℕ → Option SourceItem → Bool
is_queueable source_id none = false
is_queueable source_id (some i) =
    i.source_id == source_id && i.status == ItemStatus.pending_download

unfoldable pub wants_download : Scope → ℕ → Db → Bool
wants_download c item_id db =
    not (get_active_job_for_item item_id Command.download db)
    && is_queueable c.source_id (get_by_id item_id db)

-- One round of the loop: the number of jobs queued, and the new state.
unfoldable pub enqueue_item : Scope → ℕ → Db → ℕ × Db
enqueue_item c item_id db =
    if wants_download c item_id db then (1, (insert_job (download_job c item_id) db).1) else (0, db)

unfoldable pub enqueue_items : Scope → List ℕ → Db → ℕ × Db
enqueue_items c [] db = (0, db)
enqueue_items c (item_id ∷ rest) db =
    let (n, db') = enqueue_item c item_id db in
    let (m, db'') = enqueue_items c rest db' in (n + m, db'')

pub record Selected : Type 0 where
  pub selected_count : ℕ
  pub queued_count : ℕ

unfoldable pub apply_selection : Scope → List ℕ → Db → Selected × Db
apply_selection c item_ids db =
    let (selected, db') = SourceItems.select_items c.source_id item_ids false db in
    let (queued, db'') = enqueue_items c item_ids db' in
    (record { selected_count = selected; queued_count = queued }, db'')

unfoldable pub resolve_item_ids_from_filters : Outside → ℕ → Option Filters → Db → Result (List ℕ)
resolve_item_ids_from_filters o source_id filters db = do
  kwargs ← resolve_item_filters o filters
  ok (
      map (λ (i : SourceItem). i.id)
        (list_items_by_source o.ilike source_id kwargs.filter (option_or kwargs.limit 10000) 0 db))

unfoldable pub resolve_ids : Outside → ℕ → Option (List ℕ) → Option Filters → Db → Result (List ℕ)
resolve_ids o source_id (some item_ids) filters db = ok item_ids
resolve_ids o source_id none filters db = resolve_item_ids_from_filters o source_id filters db

abbrev pub in_discovery : RequestStatus → Bool
in_discovery s = s == RequestStatus.discovering || s == RequestStatus.discovered

-- discovering/discovered → acquiring; a request that is past them stays.
unfoldable pub advance : Request → Db → Db
advance request db =
    if in_discovery request.status
    then update_status request.request_key RequestStatus.acquiring db
    else db

-- The end of select_items, once the ids are known.
unfoldable pub select_resolved : Request → ℕ → List ℕ → Db → Selected × Db
unfolding advance
select_resolved request source_id item_ids db =
    let scope : Scope = record {
      source_id = source_id;
      tenant_id = request.tenant_id;
      credentials_id = credentials_of (get_source source_id db);
    } in
    let (result, db') = apply_selection scope item_ids db in (result, advance request db')

abbrev raise_or : Result (List ℕ) → (List ℕ → Selected × Db) → Db → Result Selected × Db
raise_or (err e) f db = (err e, db)
raise_or (ok ids) f db = let (r, db') = f ids in (ok r, db')

unfoldable pub select_for :
    Outside → Request → ℕ → Option (List ℕ) → Option Filters → Db → Result Selected × Db
select_for o request source_id item_ids filters db =
    raise_or (resolve_ids o source_id item_ids filters db)
      (λ ids. select_resolved request source_id ids db) db

abbrev nothing_selected : Selected
nothing_selected = record { selected_count = 0; queued_count = 0 }

-- With a NULL source_id no row is found, and the loop queues nothing.
unfoldable pub select_null :
    Outside → Request → Option (List ℕ) → Option Filters → Db → Result Selected × Db
select_null o request (some item_ids) filters db = (ok nothing_selected, advance request db)
select_null o request none filters db =
    raise_or (do resolve_item_filters o filters; ok [])
      (λ ids. (nothing_selected, advance request db)) db

abbrev pub with_source {ℓ} : {A : Type ℓ} → Option ℕ → A → (ℕ → A) → A
with_source none a f = a
with_source (some s) a f = f s

unfoldable pub select_items :
    Outside → String → Option (List ℕ) → Option Filters → Db → Result Selected × Db
select_items o request_key item_ids filters db = elim (get_by_key request_key db) [
  | none ↦ (err Code.unknown_request, db)
  | some request ↦
      if request.status == RequestStatus.cancelled
      then (err Code.already_cancelled, db)
      else with_source request.source_id (select_null o request item_ids filters db)
          (λ s. select_for o request s item_ids filters db)
]
