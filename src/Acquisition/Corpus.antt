-- ===== src/Acquisition/Corpus.antt =====
-- services/acquisition/corpus.py
pub mod Delivery
use roles.Prelude.{
  ℕ, String, Bool, true, false, Option, none, some, List, [], ◌∷◌, ◌==◌, string_eq, if◌then◌else◌,
  get_last?, map, is_some,
}
use roles.Outside.{Outside}
use roles.Db.Schema.{Db, Source, SourceItem, ItemStatus, Request, RequestStatus}
use roles.Db.Sources.{get_source}
use roles.Db.SourceItems.{ItemFilter, no_filter, list_items_by_source}
use roles.Db.Requests.{get_by_key}
use roles.Db.DepositQueue.{list_deposited_for_source}
use roles.Db.PullCursors.{get_last_pulled_at, upsert_cursor}
use roles.Acquisition.Errors.{Code, Result, ok, err, ◌>>=◌}
use roles.Acquisition.Selection.{with_source}
use roles.Acquisition.Status.{display_status}

-- _TERMINAL_DISPLAY_STATUSES
abbrev pub is_terminal : RequestStatus → Bool
is_terminal RequestStatus.completed = true
is_terminal RequestStatus.partially_failed = true
is_terminal RequestStatus.cancelled = true
is_terminal _ = false

-- `caller or _DEFAULT_CALLER`
abbrev pub caller_or_default : Option String → String
caller_or_default none = "default"
caller_or_default (some c) = if c == "" then "default" else c

pub record Document : Type 0 where
  pub item_id : ℕ
  pub doc_id : Option String
  pub slug : Option String
  pub title : Option String
  pub platform : Option String
  pub source_url : Option String
  pub duration_s : Option ℕ
  pub published_at : Option ℕ

abbrev platform_of : Option Source → Option String
platform_of none = none
platform_of (some s) = some s.platform

abbrev url_of : Option Source → Option String
url_of none = none
url_of (some s) = s.url

unfoldable pub shape_document : Option Source → SourceItem → Document
shape_document source i = record {
  item_id = i.id;
  doc_id = i.docflow_doc_id;
  slug = i.docflow_slug;
  title = i.title;
  platform = platform_of source;
  source_url = url_of source;
  duration_s = i.duration_s;
  published_at = i.published_at;
}

pub record FailedItem : Type 0 where
  pub item_id : ℕ
  pub title : Option String
  pub error : Option String

unfoldable pub shape_failed : SourceItem → FailedItem
shape_failed i = record { item_id = i.id; title = i.title; error = i.error }

pub record Pull : Type 0 where
  pub request_key : String
  pub complete : Bool
  pub documents : List Document
  pub failed_items : List FailedItem
  pub next_cursor : Option String

abbrev only_failed : ItemFilter
only_failed = record no_filter { status = some ItemStatus.failed }

abbrev pub last_deposit : Option SourceItem → Option ℕ
last_deposit none = none
last_deposit (some i) = i.deposited_at

-- `rows[-1]["deposited_at"] if rows else None`
unfoldable pub latest_of : List SourceItem → Option ℕ
latest_of rows = last_deposit (get_last? rows)

unfoldable pub rows_of : Option ℕ → Option ℕ → Db → List SourceItem
rows_of source_id since db = with_source source_id [] (λ s. list_deposited_for_source s since db)

-- Where a pull starts: the cursor given, the cursor stored, or the beginning.
unfoldable pub since_of : Outside → Request → String → Bool → Option String → Db → Result (Option ℕ)
since_of o r caller only_new none db =
    ok (if only_new then get_last_pulled_at r.id caller db else none)
since_of o r caller only_new (some text) db = elim (o.parse_iso text) [
  | none ↦ err Code.invalid_cursor
  | some t ↦ ok (some t)
]

-- A pull that was given no cursor stores the newest deposit that it served.
unfoldable pub advance_cursor : Request → String → Option String → Option ℕ → Db → Db
advance_cursor r caller none (some t) db = upsert_cursor r.id caller t db
advance_cursor r caller none none db = db
advance_cursor r caller (some text) latest db = db

unfoldable pub next_cursor_of : Outside → Option String → Option ℕ → Option ℕ → Option String
next_cursor_of o cursor since (some latest) = some (o.isoformat latest)
next_cursor_of o (some text) since none = some text
next_cursor_of o none none none = none
next_cursor_of o none (some t) none = some (o.isoformat t)

unfoldable pub pull_from : Outside → Request → String → Option String → Option ℕ → Db → Pull × Db
unfolding rows_of latest_of advance_cursor next_cursor_of
pull_from o r caller cursor since db =
    let rows = rows_of r.source_id since db in
    let latest = latest_of rows in
    (
      record {
        request_key = r.request_key;
        complete = is_terminal (display_status r db);
        documents = map (shape_document (with_source r.source_id none (λ s. get_source s db))) rows;
        failed_items =
            with_source r.source_id []
              (λ s. map shape_failed (list_items_by_source o.ilike s only_failed 10000 0 db));
        next_cursor = next_cursor_of o cursor since latest;
      },
      advance_cursor r caller cursor latest db,
    )

abbrev pulled : Result (Option ℕ) → (Option ℕ → Pull × Db) → Db → Result Pull × Db
pulled (err e) f db = (err e, db)
pulled (ok since) f db = let (p, db') = f since in (ok p, db')

unfoldable pub get_corpus :
    Outside → String → Option String → Bool → Option String → Db → Result Pull × Db
unfolding since_of
get_corpus o request_key caller only_new cursor db =
    let who = caller_or_default caller in
    elim (get_by_key request_key db) [
      | none ↦ (err Code.unknown_request, db)
      | some r ↦
          pulled (since_of o r who only_new cursor db) (λ since. pull_from o r who cursor since db)
            db
    ]
