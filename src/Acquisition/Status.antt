-- ===== src/Acquisition/Status.antt =====
-- services/acquisition/status.py
use roles.Prelude.{
  ℕ, ◌+◌, String, Bool, ◌&&◌, Option, none, some, List, [], ◌==◌, nat_eq, head?, select_where,
  count_where, order_by, map,
}
use roles.Outside.{Outside}
use roles.Db.Schema.{
  Db, Source, SourceItem, ItemStatus, Request, RequestStatus, Kind, ScrapingJob, JobStatus,
  job_status_eq,
}
use roles.Db.Sources.{get_source}
use roles.Db.SourceItems.{count_by_status, list_items_by_source, no_filter}
use roles.Db.Requests
use roles.Db.Requests.{get_by_key}
use roles.Db.ScrapingJobs.{runs_before}
use roles.Acquisition.Errors.{Code, Result, ok, err}
use roles.Acquisition.StatusShape.{Counts, fold_counts, derive_display_status}
use roles.Acquisition.Selection.{with_source}

pub record ItemSummary : Type 0 where
  pub item_id : ℕ
  pub title : Option String
  pub duration_s : Option ℕ
  pub status : ItemStatus
  pub error : Option String

unfoldable pub shape_item_summary : SourceItem → ItemSummary
shape_item_summary i = record {
  item_id = i.id;
  title = i.title;
  duration_s = i.duration_s;
  status = i.status;
  error = i.error;
}

-- `WHERE source_id = $1 AND status = 'pending'`
abbrev pub is_pending_of : ℕ → ScrapingJob → Bool
is_pending_of source_id j = j.source_id == source_id && j.status == JobStatus.pending

-- The jobs that the second query counts.
abbrev pub is_ahead_of : ScrapingJob → ScrapingJob → Bool
is_ahead_of head j = j.status == JobStatus.pending && runs_before j head

unfoldable pub compute_queue_position : ℕ → Db → Option ℕ
compute_queue_position source_id db =
    elim (head? (order_by runs_before (select_where (is_pending_of source_id) db.scraping_jobs))) [
      | none ↦ none
      | some head ↦ some (count_where (is_ahead_of head) db.scraping_jobs + 1)
    ]

pub record StatusReport : Type 0 where
  pub request_key : String
  pub kind : Kind
  pub status : RequestStatus
  pub submitted_by : String
  pub submitted_at : ℕ
  pub counts : Counts
  pub items : List ItemSummary
  pub queue_position : Option ℕ

-- fold_counts([]) where the request has no source.
unfoldable pub counts_of : Option ℕ → Db → Counts
counts_of source_id db =
    with_source source_id (fold_counts []) (λ s. fold_counts (count_by_status s db))

unfoldable pub display_status : Request → Db → RequestStatus
unfolding counts_of
display_status r db =
    let counts = counts_of r.source_id db in derive_display_status r.status counts counts.selected

unfoldable pub report : Outside → Request → Db → StatusReport
unfolding counts_of display_status
report o r db = record {
  request_key = r.request_key;
  kind = r.kind;
  status = display_status r db;
  submitted_by = r.submitted_by;
  submitted_at = r.created_at;
  counts = counts_of r.source_id db;
  items =
      with_source r.source_id []
        (λ s. map shape_item_summary (list_items_by_source o.ilike s no_filter 50 0 db));
  queue_position = with_source r.source_id none (λ s. compute_queue_position s db);
}

unfoldable pub request_status : Outside → String → Db → Result StatusReport
request_status o request_key db = elim (get_by_key request_key db) [
  | none ↦ err Code.unknown_request
  | some r ↦ ok (report o r db)
]

pub record RequestLine : Type 0 where
  pub request_key : String
  pub kind : Kind
  pub status : RequestStatus
  pub url : Option String
  pub counts_summary : Counts
  pub submitted_by : String
  pub submitted_at : ℕ

abbrev url_of : Option Source → Option String
url_of none = none
url_of (some s) = s.url

unfoldable pub request_line : Db → Request → RequestLine
unfolding counts_of display_status
request_line db r = record {
  request_key = r.request_key;
  kind = r.kind;
  status = display_status r db;
  url = with_source r.source_id none (λ s. url_of (get_source s db));
  counts_summary = counts_of r.source_id db;
  submitted_by = r.submitted_by;
  submitted_at = r.created_at;
}

-- The limit is the default of acquisition_requests.list_requests.
unfoldable pub list_requests : Option RequestStatus → Option String → Db → List RequestLine
unfolding request_line
list_requests status submitted_by db =
    map (request_line db) (Requests.list_requests status submitted_by 50 db)
