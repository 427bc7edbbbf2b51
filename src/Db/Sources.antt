-- ===== src/Db/Sources.antt =====
-- backend/src/role_builder/db_helpers/sources.py
use roles.Prelude.{
  ℕ, ◌+◌, String, Option, none, some, [], ◌∷◌, ◌++◌, ◌==◌, nat_eq, coalesce, find_where,
  update_where,
}
use roles.Db.Schema.{Db, Source, SourceStatus}

-- What insert_source is given.
pub record NewSource : Type 0 where
  pub role_project_id : Option ℕ
  pub tenant_id : ℕ
  pub platform : String
  pub source_type : String
  pub url : Option String
  pub credentials_id : Option ℕ

unfoldable pub insert_source : NewSource → Db → ℕ × Db
insert_source n db =
    (db.next_id, record db { sources = db.sources ++ row ∷ []; next_id = db.next_id + 1 })
  where
    row : Source
    row = record {
      id = db.next_id;
      role_project_id = n.role_project_id;
      tenant_id = n.tenant_id;
      platform = n.platform;
      source_type = n.source_type;
      url = n.url;
      status = SourceStatus.pending_discovery;
      credentials_id = n.credentials_id;
      discovered_count = none;
      error = none;
    }

unfoldable pub update_source_status : ℕ → SourceStatus → Option ℕ → Option String → Db → Db
update_source_status source_id status discovered_count error db = record db {
  sources =
      update_where (λ s. s.id == source_id)
        (λ s. record s {
          status = status;
          discovered_count = coalesce discovered_count s.discovered_count;
          error = coalesce error s.error;
        })
        db.sources;
}

unfoldable pub get_source : ℕ → Db → Option Source
get_source source_id db = find_where (λ s. s.id == source_id) db.sources

-- `source.get("credentials_id") if source else None`
abbrev pub credentials_of : Option Source → Option ℕ
credentials_of none = none
credentials_of (some s) = s.credentials_id
