-- ===== src/Pipeline/Orchestrator/Settle.antt =====
-- What process_one_job leaves of the job, whatever its container does.
use roles.Prelude.{
  ℕ, zero, suc, ◌≡◌, refl, sym, ap, inl, inr, String, true, false, Option, none, some, List, arith,
  All, update_where, subst, find_where-update_where, update_where-All, Bool-cases, some_inj, ◌∙◌,
  eq_opt, beq_refl, ◌==◌, nat_eq,
}
use roles.Outside.{Outside}
use roles.Db.Schema.{
  Db, Source, SourceStatus, ScrapingJob, JobStatus, Command, command_eq, Request, RequestStatus,
}
use roles.Db.Sources.{get_source, update_source_status}
use roles.Db.ScrapingJobs.{mark_job_processing, mark_job_done, mark_job_failed, with_id}
use roles.Db.Requests.{get_by_source_id, update_status, with_key}
use roles.Acquisition.Selection.{in_discovery}
use roles.Pipeline.EventHandlers.{Outcome, Returncode}
use roles.Pipeline.Orchestrator.{
  Container, ErrorTexts, fail_request, propagate_discover_failure, fail_job, dispatch, close_job,
  run_job, process_one_job,
}
use roles.Pipeline.Orchestrator.Success.{
  Succeeds, written, last_exit, last_or, dispatch-handled, dispatch-returned,
}

-- Every row of the job has the status.
abbrev pub JobIs : JobStatus → ℕ → Db → Type 0
JobIs status job_id db = All (λ j. with_id job_id j ≡ true → j.status ≡ status) db.scraping_jobs

set-JobIs :
    (status : JobStatus) (job_id : ℕ) (f : ScrapingJob → ScrapingJob) (jobs : List ScrapingJob)
    → ((j : ScrapingJob) → (f j).status ≡ status)
    → All (λ j. with_id job_id j ≡ true → j.status ≡ status) (update_where (with_id job_id) f jobs)
set-JobIs status job_id f jobs h =
    update_where-All (λ j. with_id job_id j ≡ true → j.status ≡ status) (with_id job_id) f jobs
      (λ j e k. h j) (λ j e k. absurd (cc (e, k)))

fail_request-jobs :
    (r : Option Request) (db : Db) → (fail_request r db).scraping_jobs ≡ db.scraping_jobs
unfolding fail_request update_status
fail_request-jobs none db = refl
fail_request-jobs (some r) db = ground arith

propagate-jobs :
    (job : ScrapingJob) (db : Db)
    → (propagate_discover_failure job db).scraping_jobs ≡ db.scraping_jobs
unfolding propagate_discover_failure update_source_status
propagate-jobs job db = elim (Bool-cases (job.command == Command.discover)) [
  | inl e ↦ rw e (fail_request-jobs _ _)
  | inr e ↦ rw e refl
]

fail_job-JobIs :
    (job : ScrapingJob) (error : String) (db : Db)
    → JobIs JobStatus.failed job.id (fail_job job error db)
unfolding fail_job
fail_job-JobIs job error db =
    subst (λ jobs. All (λ j. with_id job.id j ≡ true → j.status ≡ JobStatus.failed) jobs)
      (sym (propagate-jobs job _))
      (unfold mark_job_failed in set-JobIs JobStatus.failed job.id _ db.scraping_jobs (λ j. refl))

-- The container reported success: nothing raised and its last exit code is 0.
abbrev pub Succeeded : (Outcome × Option Returncode) → Type 0
Succeeded result = result ≡ (Outcome.returned, some (Returncode.code 0))

close_job-settles :
    (t : ErrorTexts) (job : ScrapingJob) (result : Outcome × Option Returncode) (db : Db)
    → (Succeeded result → JobIs JobStatus.done job.id (close_job t job result.0 result.1 db))
      × (¬ (Succeeded result)
          → JobIs JobStatus.failed job.id (close_job t job result.0 result.1 db))
unfolding close_job
close_job-settles t job (Outcome.raised, code) db =
    ((λ h. absurd (cc h)), (λ h. fail_job-JobIs job _ db))
close_job-settles t job (Outcome.returned, none) db =
    ((λ h. absurd (cc h)), (λ h. fail_job-JobIs job _ db))
close_job-settles t job (Outcome.returned, some (Returncode.signal n)) db =
    ((λ h. absurd (cc h)), (λ h. fail_job-JobIs job _ db))
close_job-settles t job (Outcome.returned, some (Returncode.code zero)) db = (
  (λ h. (unfold mark_job_done in set-JobIs JobStatus.done job.id _ db.scraping_jobs (λ j. refl))),
  (λ h. absurd (h refl)),
)
close_job-settles t job (Outcome.returned, some (Returncode.code (suc n))) db =
    ((λ h. absurd (grind arith)), (λ h. fail_job-JobIs job _ db))

module _ (o : Outside) (job : ScrapingJob) where
  run_job-Succeeds :
      (t : ErrorTexts) (c : Container) (db : Db)
      → Succeeds o job c db
      → run_job o t c job db ≡ mark_job_done job.id (written o job c.events db)
  unfolding run_job close_job
  run_job-Succeeds t c db (calm, handled, exit) =
      rw (calm, dispatch-handled o job none c.events db handled, exit) refl

  -- A job whose container does not succeed is not closed as a success.
  dispatch-Succeeds :
      (c : Container) (db : Db)
      → Succeeded (dispatch o job c.crashes none c.events db).0
      → Succeeds o job c db
  dispatch-Succeeds c db h =
      let (calm, handled) =
        dispatch-returned o job c.crashes none c.events db
          (ap (λ (r : Outcome × Option Returncode). r.0) h) in
      let end = rw (calm, dispatch-handled o job none c.events db handled) at h in
      (
        calm,
        handled,
        only_last (last_exit c.events) (ap (λ (r : Outcome × Option Returncode). r.1) end),
      )
    where
      only_last :
          (last : Option Returncode)
          → last_or none last ≡ some (Returncode.code 0)
          → last ≡ some (Returncode.code 0)
      only_last none e = cc e
      only_last (some d) e = e

  run_job-fails :
      (t : ErrorTexts) (c : Container) (db : Db)
      → ¬ (Succeeds o job c db)
      → JobIs JobStatus.failed job.id (run_job o t c job db)
  unfolding run_job
  run_job-fails t c db fails =
      (close_job-settles t job (dispatch o job c.crashes none c.events db).0
          (dispatch o job c.crashes none c.events db).1).1
        (λ h. fails (dispatch-Succeeds c db h))

  mark_job_done-JobIs : (db : Db) → JobIs JobStatus.done job.id (mark_job_done job.id db)
  unfolding mark_job_done
  mark_job_done-JobIs db = set-JobIs JobStatus.done job.id _ db.scraping_jobs (λ j. refl)

  mark_job_done-items : (db : Db) → (mark_job_done job.id db).source_items ≡ db.source_items
  unfolding mark_job_done
  mark_job_done-items db = refl

-- A job whose source exists is settled when process_one_job returns: done, with the items that the
-- handlers of all events leave, if the container does not crash, none of the handlers of its events
-- raises, and the last exit code that it reports is 0; failed if not. When the environment of the
-- container cannot be built, process_one_job raises and the job stays in processing.
pub process_one_job-settles :
    (o : Outside) (t : ErrorTexts) (c : Container) (job : ScrapingJob) (db : Db) (source : Source)
    → get_source job.source_id db ≡ some source
    → let db' = mark_job_processing job.id db in
      let end = process_one_job o t c job db in
      (c.environment ≡ true
        → (end.0 ≡ Outcome.returned)
          × (Succeeds o job c db'
              → JobIs JobStatus.done job.id end.1
                × (end.1.source_items ≡ (written o job c.events db').source_items))
          × (¬ (Succeeds o job c db') → JobIs JobStatus.failed job.id end.1))
      × (c.environment ≡ false → (end.0 ≡ Outcome.raised) × JobIs JobStatus.processing job.id end.1)
unfolding process_one_job run_job get_source mark_job_processing
process_one_job-settles o t c job db source found =
    let db' = mark_job_processing job.id db in
    rw (found, process_one_job)
      (
        (λ e. rw e (
          refl,
          (λ s.
              rw (run_job-Succeeds o job t c db' s)
                (mark_job_done-JobIs o job _, mark_job_done-items o job _)),
          run_job-fails o job t c db',
        )),
        (λ e. rw e (refl, set-JobIs JobStatus.processing job.id _ db.scraping_jobs (λ j. refl))),
      )

-- The source whose discovery failed, and the first request on it.
abbrev pub DiscoveryClosed : ℕ → Db → Type 0
DiscoveryClosed source_id db =
    All (λ s. (s.id == source_id) ≡ true → s.status ≡ SourceStatus.discovery_failed) db.sources
    × ((r : Request) → get_by_source_id source_id db ≡ some r → in_discovery r.status ≡ false)

fail_request-sources : (r : Option Request) (db : Db) → (fail_request r db).sources ≡ db.sources
unfolding fail_request update_status
fail_request-sources none db = refl
fail_request-sources (some r) db = ground arith

fail_request-found :
    (source_id : ℕ) (db : Db) (q r : Request)
    → get_by_source_id source_id db ≡ some q
    → get_by_source_id source_id (fail_request (some q) db) ≡ some r
    → in_discovery r.status ≡ false
unfolding fail_request update_status get_by_source_id
fail_request-found source_id db q r e k = elim (Bool-cases (in_discovery q.status)) [
  | inl d ↦
      let found =
        find_where-update_where (λ x. eq_opt x.source_id source_id) (with_key q.request_key)
          (λ x. record x { status = RequestStatus.failed }) db.requests (λ x. refl) in
      let changed : Request = record q { status = RequestStatus.failed } in
      let same : some changed ≡ some r =
        sym (rw (e, beq_refl q.request_key) at found) ∙ (rw d at k) in
      subst (λ x. in_discovery x.status ≡ false) (some_inj same) refl
  | inr d ↦ cc (d, some_inj (sym e ∙ (rw d at k)))
]

fail_request-closes :
    (source_id : ℕ) (db : Db) (o : Option Request) (r : Request)
    → get_by_source_id source_id db ≡ o
    → get_by_source_id source_id (fail_request o db) ≡ some r
    → in_discovery r.status ≡ false
unfolding fail_request
fail_request-closes source_id db none r e h = cc (e, h)
fail_request-closes source_id db (some q) r e h = fail_request-found source_id db q r e h

-- A discovery whose job fails leaves its source in discovery_failed and the first request on that
-- source out of discovering and discovered.
pub fail_job-DiscoveryClosed :
    (job : ScrapingJob) (error : String) (db : Db)
    → (job.command == Command.discover) ≡ true
    → DiscoveryClosed job.source_id (fail_job job error db)
unfolding fail_job propagate_discover_failure
fail_job-DiscoveryClosed job error db e =
    rw (e, propagate_discover_failure)
      (
        subst
            (λ sources.
              All (λ s. (s.id == job.source_id) ≡ true → s.status ≡ SourceStatus.discovery_failed)
                sources)
            (sym (fail_request-sources (get_by_source_id job.source_id failed) failed)) closed,
        (λ r h.
            fail_request-closes job.source_id failed (get_by_source_id job.source_id failed) r refl
              h),
      )
  where
    failed : Db
    failed =
        update_source_status job.source_id SourceStatus.discovery_failed none none
          (mark_job_failed job.id error db)

    closed :
        All
          (λ s. (s.id == job.source_id) ≡ true → s.status ≡ SourceStatus.discovery_failed)
          failed.sources
    closed =
        (unfold update_source_status in
          update_where-All
            (λ s. (s.id == job.source_id) ≡ true → s.status ≡ SourceStatus.discovery_failed)
            (λ s. s.id == job.source_id) _ (mark_job_failed job.id error db).sources (λ s p k. refl)
            (λ s p k. absurd (cc (p, k))))
