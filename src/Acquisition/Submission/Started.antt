-- ===== src/Acquisition/Submission/Started.antt =====
-- What submit_acquisition leaves.
use roles.Prelude.{
  ℕ, zero, suc, ◌≡◌, refl, ◌∙◌, ap, String, false, some, List, [], ◌∷◌, ◌++◌, Bool-cases, inl, inr,
}
use roles.Db.Schema.{Db, Request, RequestStatus, ScrapingJob, JobStatus, Command}
use roles.Db.Sources.{insert_source}
use roles.Db.ScrapingJobs.{insert_job, new_job}
use roles.Db.Requests.{NewRequest, new_request, get_by_key}
use roles.Acquisition.Errors.{Result, ok, err, Result-cases}
use roles.Acquisition.RequestCreation.{max_key_attempts, try_insert, insert_request_with_retry}
use roles.Acquisition.RequestCreation.UniqueKey.{
  is_taken, IsStored, insert_request-taken, insert_request-free, insert_request_with_retry-IsStored,
}
use roles.Acquisition.RequestKey.{build_request_key_base}
use roles.Acquisition.Submission.{
  Submission, Surroundings, Accepted, accept, source_row, request_row, discover_row,
  enqueue_discovery, store_request, start, submit_acquisition,
}

-- With a key: the key was free and now finds a request that is discovering, and one pending discovery was
-- queued, both on the source that the call created. With an error: neither a request nor a job is new.
abbrev pub IsStarted : Db → Result String → Db → Type 0
IsStarted db (ok key) db' =
    (is_taken db key ≡ false)
    × (((r : Request) × ((get_by_key key db' ≡ some r)
            × ((r.source_id ≡ some db.next_id) × (r.status ≡ RequestStatus.discovering))))
        × ((j : ScrapingJob) × ((db'.scraping_jobs ≡ db.scraping_jobs ++ j ∷ [])
              × ((j.source_id ≡ db.next_id)
                  × ((j.command ≡ Command.discover) × (j.status ≡ JobStatus.pending))))))
IsStarted db (err e) db' = (db'.scraping_jobs ≡ db.scraping_jobs) × (db'.requests ≡ db.requests)

try_insert-jobs :
    (suffixed : ℕ → String) (n : NewRequest) (k i : ℕ) (candidate : String) (db : Db)
    → (try_insert suffixed n k i candidate db).1.scraping_jobs ≡ db.scraping_jobs
unfolding try_insert
try_insert-jobs suffixed n zero i candidate db = refl
try_insert-jobs suffixed n (suc k) i candidate db = elim (Bool-cases (is_taken db candidate)) [
  | inl e ↦
      rw (insert_request-taken candidate n db e, try_insert)
        (try_insert-jobs suffixed n k (suc i) (suffixed i) db)
  | inr e ↦ rw (insert_request-free candidate n db e, try_insert) refl
]

insert_request_with_retry-jobs :
    (suffixed : ℕ → String) (base : String) (n : NewRequest) (db : Db)
    → (insert_request_with_retry suffixed base n db).1.scraping_jobs ≡ db.scraping_jobs
unfolding insert_request_with_retry
insert_request_with_retry-jobs suffixed base n db =
    try_insert-jobs suffixed n max_key_attempts 0 base db

-- The end of the call, from what the storing left.
enqueue-IsStarted :
    (q : Submission) (a : Accepted) (keys : List String) (db stored : Db) (key : Result String)
    (db' : Db)
    → stored.requests ≡ db.requests
    → db'.scraping_jobs ≡ db.scraping_jobs
    → IsStored (request_row q db.next_id) keys stored key db'
    → IsStarted db
        (enqueue_discovery q a db.next_id key db').0
        (enqueue_discovery q a db.next_id key db').1
unfolding enqueue_discovery insert_job get_by_key
enqueue-IsStarted q a keys db stored (ok key) db' same jobs h =
    let job : ScrapingJob = new_job (discover_row q a db.next_id) db' in
    (
      rw (← same) h.0,
      (
        (new_request key (request_row q db.next_id) stored, (h.1.0, (refl, refl))),
        (job, (ap (λ js. js ++ job ∷ []) jobs, (refl, (refl, refl)))),
      ),
    )
enqueue-IsStarted q a keys db stored (err e) db' same jobs h =
    (jobs, ap (λ (d : Db). d.requests) h.1.0 ∙ same)

store-IsStarted :
    (w : Surroundings) (q : Submission) (a : Accepted) (base : Result String) (db stored : Db)
    → stored.requests ≡ db.requests
    → stored.scraping_jobs ≡ db.scraping_jobs
    → IsStarted db
        (store_request w q a db.next_id base stored).0
        (store_request w q a db.next_id base stored).1
unfolding store_request
store-IsStarted w q a (err e) db stored same jobs = (jobs, same)
store-IsStarted w q a (ok base) db stored same jobs =
    enqueue-IsStarted q a (base ∷ w.suffixed 0 ∷ w.suffixed 1 ∷ w.suffixed 2 ∷ w.suffixed 3 ∷ []) db
      stored (insert_request_with_retry w.suffixed base (request_row q db.next_id) stored).0
      (insert_request_with_retry w.suffixed base (request_row q db.next_id) stored).1 same
      (insert_request_with_retry-jobs w.suffixed base (request_row q db.next_id) stored ∙ jobs)
      (insert_request_with_retry-IsStored w.suffixed base (request_row q db.next_id) stored)

start-IsStarted :
    (w : Surroundings) (q : Submission) (a : Accepted) (db : Db)
    → IsStarted db (start w q a db).0 (start w q a db).1
unfolding start insert_source
start-IsStarted w q a db =
    store-IsStarted w q a (build_request_key_base w.texts a.platform q.url q.note q.today) db
      (insert_source (source_row w q a) db).1 refl refl

-- A submission that returns a key has stored one request in discovery under it, which no request had,
-- and queued one pending discovery, both on the source that it created; one that raises leaves the
-- requests and the jobs as they were.
pub submit_acquisition-IsStarted :
    (w : Surroundings) (q : Submission) (db : Db)
    → IsStarted db (submit_acquisition w q db).0 (submit_acquisition w q db).1
unfolding submit_acquisition
submit_acquisition-IsStarted w q db = elim (Result-cases (accept w q db)) [
  | inl (e, h) ↦ rw (h, submit_acquisition) (refl, refl)
  | inr (a, h) ↦ rw (h, submit_acquisition) (start-IsStarted w q a db)
]
