-- ===== src/Acquisition/Filters.antt =====
-- services/acquisition/filters.py
use roles.Prelude.{ℕ, zero, suc, String, Option, none, some}
use roles.Outside.{Outside}
use roles.Db.Schema.{Json, Filters}
use roles.Db.SourceItems.{ItemFilter, no_filter}
use roles.Acquisition.Errors.{Code, Result, ok, err, ◌>>=◌}

-- The kwargs of list_items_by_source, and `limit` beside them.
pub record Resolved : Type 0 where
  pub filter : ItemFilter
  pub limit : Option ℕ

abbrev bad {ℓ} : {A : Type ℓ} → Result A
bad = err Code.invalid_filters

-- Each test runs only if `filters.get(key)` is not None.
unfoldable pub as_non_negative_int : Json → Result (Option ℕ)
as_non_negative_int Json.null = ok none
as_non_negative_int (Json.num n) = ok (some n)
as_non_negative_int _ = bad

unfoldable pub as_positive_int : Json → Result (Option ℕ)
as_positive_int Json.null = ok none
as_positive_int (Json.num zero) = bad
as_positive_int (Json.num (suc n)) = ok (some (suc n))
as_positive_int _ = bad

unfoldable pub as_string : Json → Result (Option String)
as_string Json.null = ok none
as_string (Json.str s) = ok (some s)
as_string _ = bad

abbrev parsed : Option ℕ → Result (Option ℕ)
parsed none = bad
parsed (some t) = ok (some t)

unfoldable pub parse_date : Outside → Json → Result (Option ℕ)
parse_date o Json.null = ok none
parse_date o (Json.str s) = parsed (o.parse_iso s)
parse_date o _ = bad

unfoldable pub resolve_keys : Outside → Filters → Result Resolved
unfolding as_non_negative_int as_positive_int as_string parse_date
resolve_keys o f = do
  min_duration ← as_non_negative_int f.min_duration_s
  max_duration ← as_non_negative_int f.max_duration_s
  title ← as_string f.title_contains
  since ← parse_date o f.since
  until ← parse_date o f.until
  limit ← as_positive_int f.max_items
  ok (record {
    filter = record {
      min_duration_s = min_duration;
      max_duration_s = max_duration;
      since_date = since;
      until_date = until;
      title_contains = title;
      status = none;
    };
    limit = limit;
  })

unfoldable pub resolve_item_filters : Outside → Option Filters → Result Resolved
unfolding resolve_keys
resolve_item_filters o none = ok (record { filter = no_filter; limit = none })
resolve_item_filters o (some f) = resolve_keys o f
