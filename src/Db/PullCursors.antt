-- ===== src/Db/PullCursors.antt =====
-- backend/src/role_builder/db_helpers/corpus_pull_cursors.py
pub mod Advance
use roles.Prelude.{
  ℕ, String, Bool, ◌&&◌, Option, none, some, List, [], ◌∷◌, ◌++◌, ◌==◌, nat_eq, string_eq, max,
  if◌then◌else◌, find_where, update_where, any_where,
}
use roles.Db.Schema.{Db, PullCursor}

abbrev pub is_cursor_of : ℕ → String → PullCursor → Bool
is_cursor_of request_id caller c = c.request_id == request_id && c.caller == caller

abbrev position : Option PullCursor → Option ℕ
position none = none
position (some c) = some c.last_pulled_at

unfoldable pub get_last_pulled_at : ℕ → String → Db → Option ℕ
get_last_pulled_at request_id caller db =
    position (find_where (is_cursor_of request_id caller) db.cursors)

-- ON CONFLICT (request_id, caller) DO UPDATE, with GREATEST
unfoldable pub upsert_cursor : ℕ → String → ℕ → Db → Db
upsert_cursor request_id caller last_pulled_at db =
    if any_where (is_cursor_of request_id caller) db.cursors
    then record db {
      cursors =
          update_where (is_cursor_of request_id caller)
            (λ c. record c { last_pulled_at = max c.last_pulled_at last_pulled_at }) db.cursors;
    }
    else record db {
      cursors =
          db.cursors
          ++ record { request_id = request_id; caller = caller; last_pulled_at = last_pulled_at }
            ∷ [];
    }
