-- ===== src/Acquisition/Admin/Cancel.antt =====
-- What a cancellation does to the queues.
use roles.Prelude.{
  ℕ, ◌≡◌, ◌≢◌, refl, ap, ◌∙◌, String, Bool, true, false, ◌||◌, some, List, [], ◌∷◌, arith, All,
  update_where-All, All-order_by, All-head?, select_where_sound, any_where, find_where,
  find_where_sound, find_where-update_where, update_where, select_where, order_by, Bool-cases, inl,
  inr, ◌==◌, nat_eq, string_eq, beq_refl, eq_of_beq,
}
use roles.Db.Schema.{
  Db, SourceItem, Request, RequestStatus, request_status_eq, JobStatus, job_status_eq,
}
use roles.Db.ScrapingJobs
use roles.Db.TranscriptionJobs
use roles.Db.Requests.{get_by_key, update_status, with_key}
use roles.Db.DepositQueue.{is_cancelled_for, is_claimable, older, next_for_deposit}
use roles.Acquisition.Errors.{Code, err}
use roles.Acquisition.Admin.{cancel_jobs, cancel_known, cancel_request}

-- A job that a worker has not started.
abbrev pub is_waiting : JobStatus → Bool
is_waiting s = s == JobStatus.pending || s == JobStatus.claimed

abbrev pub NoneWaiting : ℕ → Db → Type 0
NoneWaiting s db = All (λ j. j.source_id == s ≡ true → is_waiting j.status ≡ false) db.scraping_jobs

cancel_jobs-NoneWaiting : (s : ℕ) (db : Db) → NoneWaiting s (cancel_jobs s db).1
unfolding cancel_jobs ScrapingJobs.cancel_pending_claimed TranscriptionJobs.cancel_pending_claimed
cancel_jobs-NoneWaiting s db =
    update_where-All (λ j. j.source_id == s ≡ true → is_waiting j.status ≡ false)
      (ScrapingJobs.is_cancellable s) (λ j. record j { status = JobStatus.cancelled })
      db.scraping_jobs (λ j e k. refl) (λ j e k. ground arith)

-- The request of a key is cancelled for its source after the update.
cancelled_found :
    (key : String) (s : ℕ) (rs : List Request) {r : Request}
    → find_where (with_key key) rs ≡ some r
    → r.source_id ≡ some s
    → any_where
        (is_cancelled_for s)
        (update_where (with_key key) (λ x. record x { status = RequestStatus.cancelled }) rs)
      ≡ true
cancelled_found key s [] h e = cc
cancelled_found key s (x ∷ rs) {r} h e = elim (Bool-cases (with_key key x)) [
  | inl hit ↦ rw hit (ground (arith, beq_refl s))
  | inr miss ↦ rw miss (ground (arith, cancelled_found key s rs (rw miss at h) e))
]

next_for_deposit-not_cancelled :
    (s : ℕ) (db : Db) {i : SourceItem}
    → any_where (is_cancelled_for s) db.requests ≡ true
    → next_for_deposit db ≡ some i
    → i.source_id ≢ s
unfolding next_for_deposit
next_for_deposit-not_cancelled s db {i} c h e = claimable (
    All-head? (λ x. is_claimable db.requests x ≡ true)
      (order_by older (select_where (is_claimable db.requests) db.source_items))
      (All-order_by (λ x. is_claimable db.requests x ≡ true) older
        (select_where (is_claimable db.requests) db.source_items)
        (select_where_sound (is_claimable db.requests) db.source_items))
      h)
  where
    open_source : any_where (is_cancelled_for i.source_id) db.requests ≡ true
    open_source = rw e c

    claimable : is_claimable db.requests i ≡ true → ⊥
    claimable k = ground (arith, k, open_source)

abbrev closed : String → ℕ → Db → Db
closed key s db = update_status key RequestStatus.cancelled (cancel_jobs s db).1

cancel_request-state :
    (key : String) (db : Db) (r : Request) (s : ℕ)
    → get_by_key key db ≡ some r
    → r.source_id ≡ some s
    → (r.status == RequestStatus.cancelled) ≡ false
    → (cancel_request key db).1 ≡ closed key s db
unfolding cancel_request cancel_known
cancel_request-state key db r s found e live =
    rw (found, cancel_request)
      (rw live (
        rw (e, cancel_known)
          (ap (λ k. update_status k RequestStatus.cancelled (cancel_jobs s db).1)
            (eq_of_beq r.request_key key
              (unfold get_by_key in find_where_sound (with_key key) db.requests found)))))

closed-NoneWaiting : (key : String) (s : ℕ) (db : Db) → NoneWaiting s (closed key s db)
unfolding update_status
closed-NoneWaiting key s db = cancel_jobs-NoneWaiting s db

source_items-closed :
    (key : String) (s : ℕ) (db : Db) → (closed key s db).source_items ≡ db.source_items
unfolding update_status cancel_jobs ScrapingJobs.cancel_pending_claimed
    TranscriptionJobs.cancel_pending_claimed
source_items-closed key s db = refl

closed_queue :
    (key : String) (db : Db) (r : Request) (s : ℕ)
    → get_by_key key db ≡ some r
    → r.source_id ≡ some s
    → any_where (is_cancelled_for s) (closed key s db).requests ≡ true
unfolding update_status cancel_jobs ScrapingJobs.cancel_pending_claimed
    TranscriptionJobs.cancel_pending_claimed get_by_key
closed_queue key db r s found e = cancelled_found key s db.requests found e

closed_again :
    (key : String) (db : Db) (r : Request) (s : ℕ)
    → get_by_key key db ≡ some r
    → cancel_request key (closed key s db) ≡ (err Code.already_cancelled, closed key s db)
unfolding cancel_request
closed_again key db r s found = rw (found_again, cancel_request) refl
  where
    found_again :
        get_by_key key (closed key s db) ≡ some (record r { status = RequestStatus.cancelled })
    found_again =
        (unfold update_status cancel_jobs ScrapingJobs.cancel_pending_claimed
            TranscriptionJobs.cancel_pending_claimed get_by_key in
          find_where-update_where (with_key key) (with_key key)
            (λ x. record x { status = RequestStatus.cancelled }) db.requests (λ x. refl)
          ∙ rw found (rw (find_where_sound (with_key key) db.requests found) refl))

-- Cancelling a request that is not cancelled leaves no scraping job of its source pending or claimed,
-- keeps every item as it was, takes the source out of the deposit queue, and cannot be repeated: the
-- second call raises ALREADY_CANCELLED and changes nothing.
pub cancel_request_closes :
    (key : String) (db : Db) (r : Request) (s : ℕ)
    → get_by_key key db ≡ some r
    → r.source_id ≡ some s
    → (r.status == RequestStatus.cancelled) ≡ false
    → let db' = (cancel_request key db).1 in
      NoneWaiting s db'
      × (db'.source_items ≡ db.source_items)
      × ((i : SourceItem) → next_for_deposit db' ≡ some i → i.source_id ≢ s)
      × (cancel_request key db' ≡ (err Code.already_cancelled, db'))
cancel_request_closes key db r s found e live = rw (cancel_request-state key db r s found e live) (
  closed-NoneWaiting key s db,
  source_items-closed key s db,
  (λ i h. next_for_deposit-not_cancelled s (closed key s db) (closed_queue key db r s found e) h),
  closed_again key db r s found,
)
