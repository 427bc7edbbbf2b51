-- ===== src/Db/Requests.antt =====
-- backend/src/role_builder/db_helpers/acquisition_requests.py
use roles.Prelude.{
  ℕ, ◌+◌, String, Bool, true, ◌&&◌, Option, none, some, List, [], ◌∷◌, ◌++◌, ◌==◌, nat_eq,
  string_eq, ltb, if◌then◌else◌, eq_opt, find_where, update_where, select_where, any_where,
  order_by, take,
}
use roles.Db.Schema.{Db, Request, RequestStatus, request_status_eq, Kind, Mode, Filters}

-- What insert_request is given, but for the key.
pub record NewRequest : Type 0 where
  pub tenant_id : ℕ
  pub submitted_by : String
  pub kind : Kind
  pub source_id : Option ℕ
  pub mode : Option Mode
  pub filters : Option Filters
  pub status : RequestStatus

abbrev pub with_key : String → Request → Bool
with_key key r = r.request_key == key

abbrev pub new_request : String → NewRequest → Db → Request
new_request key n db = record {
  id = db.next_id;
  request_key = key;
  tenant_id = n.tenant_id;
  submitted_by = n.submitted_by;
  kind = n.kind;
  source_id = n.source_id;
  mode = n.mode;
  filters = n.filters;
  status = n.status;
  created_at = db.now;
}

-- `none` is the UniqueViolationError of the constraint on request_key.
unfoldable pub insert_request : String → NewRequest → Db → Option Db
insert_request key n db =
    if any_where (with_key key) db.requests
    then none
    else some (record db {
      requests = db.requests ++ new_request key n db ∷ [];
      next_id = db.next_id + 1;
    })

unfoldable pub get_by_key : String → Db → Option Request
get_by_key key db = find_where (with_key key) db.requests

unfoldable pub get_by_source_id : ℕ → Db → Option Request
get_by_source_id source_id db = find_where (λ r. eq_opt r.source_id source_id) db.requests

unfoldable pub update_status : String → RequestStatus → Db → Db
update_status key status db = record db {
  requests = update_where (with_key key) (λ r. record r { status = status }) db.requests;
}

abbrev pub status_is : Option RequestStatus → Request → Bool
status_is none r = true
status_is (some s) r = r.status == s

abbrev pub submitter_is : Option String → Request → Bool
submitter_is none r = true
submitter_is (some s) r = r.submitted_by == s

-- ORDER BY created_at DESC
unfoldable pub list_requests : Option RequestStatus → Option String → ℕ → Db → List Request
list_requests status submitted_by limit db = take limit (
    order_by (λ a b. ltb b.created_at a.created_at)
      (select_where (λ r. status_is status r && submitter_is submitted_by r) db.requests))
