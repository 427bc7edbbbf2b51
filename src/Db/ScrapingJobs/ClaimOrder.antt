-- ===== src/Db/ScrapingJobs/ClaimOrder.antt =====
-- Which job the claim of the scraping queue takes, and what it does to the rows.
use roles.Prelude.{
  ◌≡◌, refl, subst, ◌∙◌, ◌<◌, String, true, ◌&&◌, Option, none, some, arith, order_by, select_where,
  count_where, IsOrder, head?-order_by, head?-order_by-none, count_where-order_by,
  count_where-select_where, count_where-head?, count_where-update_where_lt, Option-cases, inl, inr,
  nat_eq, beq_refl,
}
use roles.Db.Schema.{Db, ScrapingJob, job_status_eq}
use roles.Db.ScrapingJobs.{
  is_pending, runs_before, next_pending, claim_next_pending_job, with_id, claim,
}

runs_before-IsOrder : IsOrder runs_before
runs_before-IsOrder = record { asym = λ x y h. ground arith; trans = λ x y z h k. ground arith }

claim-lowers :
    (w : String) (db : Db) (job : ScrapingJob)
    → next_pending db ≡ some job
    → count_where is_pending (claim w job.id db).scraping_jobs
      < count_where is_pending db.scraping_jobs
unfolding next_pending claim
claim-lowers w db job h =
    count_where-update_where_lt is_pending (with_id job.id) _ db.scraping_jobs (λ x e. refl)
      (subst (λ n. 0 < n)
        (count_where-order_by runs_before (with_id job.id)
            (select_where is_pending db.scraping_jobs)
          ∙ count_where-select_where is_pending (with_id job.id) db.scraping_jobs)
        (count_where-head? (with_id job.id)
          (order_by runs_before (select_where is_pending db.scraping_jobs)) h (beq_refl job.id)))

-- What a claim is to answer and to leave: a pending job before which no pending job runs, and fewer
-- pending jobs; or nothing, of an empty queue, and the same database.
abbrev pub IsClaim : Db → Option ScrapingJob → Db → Type 0
IsClaim db none db' = (db' ≡ db) × (count_where is_pending db.scraping_jobs ≡ 0)
IsClaim db (some job) db' =
    (is_pending job ≡ true)
    × ((count_where (λ j. is_pending j && runs_before j job) db.scraping_jobs ≡ 0)
        × (count_where is_pending db'.scraping_jobs < count_where is_pending db.scraping_jobs))

-- A claim that answers a job answers a pending one before which no pending job runs, by priority and
-- then age, and leaves fewer jobs pending; one that answers none finds no job pending and leaves the
-- database as it is.
pub claim_next_pending_job-IsClaim :
    (worker_id : String) (db : Db)
    → IsClaim db (claim_next_pending_job worker_id db).0 (claim_next_pending_job worker_id db).1
unfolding claim_next_pending_job
claim_next_pending_job-IsClaim w db = elim (Option-cases (next_pending db)) [
  | inl e ↦ rw (e, claim_next_pending_job) (refl, none_pending e)
  | inr (r, e) ↦
      rw (e, claim_next_pending_job) ((first r e).0, ((first r e).1, claim-lowers w db r e))
]
  where
    none_pending : next_pending db ≡ none → count_where is_pending db.scraping_jobs ≡ 0
    none_pending e =
        (unfold next_pending in
          head?-order_by-none runs_before runs_before-IsOrder is_pending db.scraping_jobs e)

    first :
        (r : ScrapingJob)
        → next_pending db ≡ some r
        → (is_pending r ≡ true)
          × (count_where (λ j. is_pending j && runs_before j r) db.scraping_jobs ≡ 0)
    first r e =
        (unfold next_pending in
          head?-order_by runs_before runs_before-IsOrder is_pending db.scraping_jobs e)
