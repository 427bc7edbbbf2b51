-- ===== src/Acquisition/Discovery.antt =====
-- services/acquisition/discovery.py
pub mod Pagination
use roles.Prelude.{
  ℕ, ◌+◌, String, Bool, true, false, Option, none, some, List, [], ◌==◌, string_eq, ltb,
  if◌then◌else◌, length, take, map, min,
}
use roles.Outside.{Outside}
use roles.Db.Schema.{Db, Source, SourceItem, SourceStatus, Request, Json}
use roles.Db.Sources.{get_source}
use roles.Db.SourceItems.{no_filter, list_items_by_source}
use roles.Db.Requests.{get_by_key}
use roles.Acquisition.Errors.{Code, Result, ok, err, ◌>>=◌}
use roles.Acquisition.Selection.{with_source}

-- The flag of a parsed number says that it is negative.
abbrev checked_offset : Option (Bool × ℕ) → Result ℕ
checked_offset none = err Code.invalid_cursor
checked_offset (some (true, n)) = err Code.invalid_cursor
checked_offset (some (false, n)) = ok n

unfoldable pub parse_cursor : Outside → Option String → Result ℕ
parse_cursor o none = ok 0
parse_cursor o (some text) = if text == "" then ok 0 else checked_offset (o.parse_int text)

unfoldable pub parse_limit : Json → Result ℕ
parse_limit (Json.num n) = if ltb n 1 then err Code.invalid_limit else ok (min n 200)
parse_limit _ = err Code.invalid_limit

pub record DiscoveredItem : Type 0 where
  pub item_id : ℕ
  pub title : Option String
  pub duration_s : Option ℕ
  pub published_at : Option ℕ
  pub already_selected : Bool

unfoldable pub shape_item : SourceItem → DiscoveredItem
shape_item i = record {
  item_id = i.id;
  title = i.title;
  duration_s = i.duration_s;
  published_at = i.published_at;
  already_selected = i.selected;
}

abbrev is_complete : Option Source → Bool
is_complete none = false
is_complete (some s) = elim s.status [ SourceStatus.pending_discovery ↦ false | _ ↦ true ]

pub record Page : Type 0 where
  pub request_key : String
  pub discovery_complete : Bool
  pub items : List DiscoveredItem
  pub next_cursor : Option String

unfoldable pub page_rows : Outside → Option ℕ → ℕ → ℕ → Db → List SourceItem
page_rows o source_id limit offset db =
    with_source source_id [] (λ s. list_items_by_source o.ilike s no_filter (limit + 1) offset db)

unfoldable pub page : Outside → Request → ℕ → ℕ → Db → Page
unfolding page_rows
page o r offset limit db =
    let rows = page_rows o r.source_id limit offset db in
    record {
      request_key = r.request_key;
      discovery_complete = with_source r.source_id false (λ s. is_complete (get_source s db));
      items = map shape_item (take limit rows);
      next_cursor = if ltb limit (length rows) then some (o.show_int (offset + limit)) else none;
    }

unfoldable pub list_discovered : Outside → String → Option String → Json → Db → Result Page
unfolding parse_cursor parse_limit
list_discovered o request_key cursor limit db = elim (get_by_key request_key db) [
  | none ↦ err Code.unknown_request
  | some r ↦ (do
    offset ← parse_cursor o cursor
    bounded ← parse_limit limit
    ok (page o r offset bounded db))
]
