-- ===== src/Acquisition/Submission.antt =====
-- services/acquisition/submission.py
pub mod Started
use roles.Prelude.{ℕ, String, Bool, true, false, Option, none, some}
use roles.Outside.{Outside}
use roles.Db.Schema.{Db, Command, Kind, Mode, RequestStatus, Filters, Credential}
use roles.Db.Credentials.{get_active_credential_for_platform}
use roles.Db.Sources.{NewSource, insert_source}
use roles.Db.ScrapingJobs.{NewScrapingJob, insert_job}
use roles.Db.Requests.{NewRequest}
use roles.Acquisition.Errors.{Code, Result, ok, err, ◌>>=◌}
use roles.Acquisition.Filters.{resolve_item_filters}
use roles.Acquisition.PlatformDetection.{Urls, deduce_platform, infer_source_type}
use roles.Acquisition.RequestKey.{Texts, build_request_key_base}
use roles.Acquisition.RequestCreation.{insert_request_with_retry}

-- The arguments of submit_acquisition.
pub record Submission : Type 0 where
  pub url : String
  pub submitted_by : String
  pub tenant_id : ℕ
  pub platform : Option String
  pub mode : Mode
  pub filters : Option Filters
  pub note : Option String
  pub today : String

pub record Surroundings : Type 0 where
  pub outside : Outside
  pub urls : Urls
  pub texts : Texts
  -- with_random_suffix, as the i-th collision draws it
  pub suffixed : ℕ → String

-- A submission that passed the guards.
pub record Accepted : Type 0 where
  pub platform : String
  pub credential_id : ℕ

abbrev with_credential : String → Option Credential → Result Accepted
with_credential platform none = err Code.no_credentials
with_credential platform (some c) = ok (record { platform = platform; credential_id = c.id })

unfoldable pub accept : Surroundings → Submission → Db → Result Accepted
accept w q db = do
  platform ← deduce_platform w.urls q.url q.platform
  filters ← resolve_item_filters w.outside q.filters
  with_credential platform (get_active_credential_for_platform platform db)

abbrev pub source_row : Surroundings → Submission → Accepted → NewSource
source_row w q a = record {
  role_project_id = none;
  tenant_id = q.tenant_id;
  platform = a.platform;
  source_type = infer_source_type w.urls a.platform q.url;
  url = some q.url;
  credentials_id = some a.credential_id;
}

abbrev pub request_row : Submission → ℕ → NewRequest
request_row q source_id = record {
  tenant_id = q.tenant_id;
  submitted_by = q.submitted_by;
  kind = Kind.scrape;
  source_id = some source_id;
  mode = some q.mode;
  filters = q.filters;
  status = RequestStatus.discovering;
}

abbrev pub discover_row : Submission → Accepted → ℕ → NewScrapingJob
discover_row q a source_id = record {
  source_id = source_id;
  source_item_id = none;
  tenant_id = q.tenant_id;
  command = Command.discover;
  credentials_id = some a.credential_id;
  priority = 0;
}

-- The job, once the request is stored; an error of the storing leaves the source behind.
unfoldable pub enqueue_discovery :
    Submission → Accepted → ℕ → Result String → Db → Result String × Db
enqueue_discovery q a source_id (err e) db = (err e, db)
enqueue_discovery q a source_id (ok key) db =
    (ok key, (insert_job (discover_row q a source_id) db).1)

unfoldable pub store_request :
    Surroundings → Submission → Accepted → ℕ → Result String → Db → Result String × Db
store_request w q a source_id (err e) db = (err e, db)
store_request w q a source_id (ok base) db =
    let (key, db') = insert_request_with_retry w.suffixed base (request_row q source_id) db in
    enqueue_discovery q a source_id key db'

unfoldable pub start : Surroundings → Submission → Accepted → Db → Result String × Db
unfolding store_request enqueue_discovery
start w q a db =
    let (source_id, db') = insert_source (source_row w q a) db in
    store_request w q a source_id (build_request_key_base w.texts a.platform q.url q.note q.today)
      db'

-- The key of the request, when it is accepted.
unfoldable pub submit_acquisition : Surroundings → Submission → Db → Result String × Db
unfolding start
submit_acquisition w q db = elim (accept w q db) [ err e ↦ (err e, db) | ok a ↦ start w q a db ]
