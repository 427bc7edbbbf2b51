-- ===== src/Pipeline/Orchestrator.antt =====
-- services/scraper_orchestrator.py: one job. The loop is in Loop.
pub mod Loop
pub mod Success
pub mod Settle
use roles.Prelude.{
  ℕ, zero, suc, String, Bool, true, false, ◌||◌, Option, none, some, List, [], ◌∷◌, ◌==◌, nat_eq,
  if◌then◌else◌,
}
use roles.Outside.{Outside}
use roles.Db.Schema.{
  Db, Source, SourceStatus, ScrapingJob, Command, command_eq, Request, RequestStatus,
  request_status_eq,
}
use roles.Db.Sources.{get_source, update_source_status}
use roles.Db.ScrapingJobs.{mark_job_processing, mark_job_done, mark_job_failed}
use roles.Db.Requests.{get_by_source_id, update_status}
use roles.Acquisition.Selection.{in_discovery}
use roles.Pipeline.EventHandlers.{Event, Outcome, Returncode, handle_scraper_event}

unfoldable pub fail_request : Option Request → Db → Db
fail_request none db = db
fail_request (some r) db =
    if in_discovery r.status then update_status r.request_key RequestStatus.failed db else db

unfoldable pub propagate_discover_failure : ScrapingJob → Db → Db
propagate_discover_failure job db =
    if job.command == Command.discover
    then (let db' = update_source_status job.source_id SourceStatus.discovery_failed none none db in
        fail_request (get_by_source_id job.source_id db') db')
    else db

unfoldable pub fail_job : ScrapingJob → String → Db → Db
unfolding propagate_discover_failure fail_request
fail_job job error db = propagate_discover_failure job (mark_job_failed job.id error db)

-- What docker_runner.run_container does for one job: the events it yields, and whether it raises
-- after them. `environment` is what _build_env answers: `false` where it raises.
pub record Container : Type 0 where
  pub environment : Bool
  pub events : List Event
  pub crashes : Bool

-- The loop over the events: the last `_exit` seen, or that something raised.
unfoldable pub dispatch :
    Outside
    → ScrapingJob
    → Bool
    → Option Returncode
    → List Event
    → Db
    → (Outcome × Option Returncode) × Db
dispatch o job crashes code [] db =
    ((if crashes then Outcome.raised else Outcome.returned, code), db)
dispatch o job crashes code (Event.exited c ∷ events) db = dispatch o job crashes (some c) events db
dispatch o job crashes code (event ∷ events) db =
    let (outcome, db') = handle_scraper_event o event job db in
    elim outcome [
      | Outcome.raised ↦ ((Outcome.raised, code), db')
      | Outcome.returned ↦ dispatch o job crashes code events db'
    ]

-- The texts of the errors, which hold the exception or the code.
pub record ErrorTexts : Type 0 where
  pub source_missing : String
  pub orchestrator_error : String
  pub scraper_exited : Option Returncode → String

unfoldable pub close_job : ErrorTexts → ScrapingJob → Outcome → Option Returncode → Db → Db
unfolding fail_job
close_job t job Outcome.raised code db = fail_job job t.orchestrator_error db
close_job t job Outcome.returned (some (Returncode.code zero)) db = mark_job_done job.id db
close_job t job Outcome.returned code db = fail_job job (t.scraper_exited code) db

unfoldable pub run_job : Outside → ErrorTexts → Container → ScrapingJob → Db → Db
run_job o t c job db =
    let ((outcome, code), db') = dispatch o job c.crashes none c.events db in
    close_job t job outcome code db'

-- An exception of _build_env is caught by _process_and_release only: the job keeps its status.
unfoldable pub process_one_job : Outside → ErrorTexts → Container → ScrapingJob → Db → Outcome × Db
process_one_job o t c job db =
    let db' = mark_job_processing job.id db in
    elim (get_source job.source_id db') [
      | none ↦ (Outcome.returned, fail_job job t.source_missing db')
      | some source ↦
          if c.environment then (Outcome.returned, run_job o t c job db') else (Outcome.raised, db')
    ]
