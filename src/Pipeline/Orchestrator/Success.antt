-- ===== src/Pipeline/Orchestrator/Success.antt =====
-- When the run of a container counts as a success, said of its events and not of the loop over them.
use roles.Prelude.{◌≡◌, refl, inl, inr, ◌⊎◌, Bool, true, false, Option, none, some, List, [], ◌∷◌}
use roles.Outside.{Outside}
use roles.Db.Schema.{Db, ScrapingJob}
use roles.Pipeline.EventHandlers.{Event, Outcome, Returncode, handle_scraper_event}
use roles.Pipeline.Orchestrator.{Container, dispatch}

abbrev pub last_or : Option Returncode → Option Returncode → Option Returncode
last_or code none = code
last_or code (some d) = some d

-- The last exit code that the container reports.
abbrev pub last_exit : List Event → Option Returncode
last_exit [] = none
last_exit (Event.exited c ∷ events) = last_or (some c) (last_exit events)
last_exit (event ∷ events) = last_exit events

module _ (o : Outside) (job : ScrapingJob) where
  -- The handlers in turn, from this state on: none of them raises.
  abbrev pub AllHandled : List Event → Db → Type 0
  AllHandled [] db = Unit {0}
  AllHandled (e ∷ events) db =
      ((handle_scraper_event o e job db).0 ≡ Outcome.returned)
      × AllHandled events (handle_scraper_event o e job db).1

  -- What the handlers write, one after the other.
  abbrev pub written : List Event → Db → Db
  written [] db = db
  written (e ∷ events) db = written events (handle_scraper_event o e job db).1

  -- The container does its work: it does not crash, no handler of its events raises, and the last
  -- exit code that it reports is 0.
  abbrev pub Succeeds : Container → Db → Type 0
  Succeeds c db =
      (c.crashes ≡ false) × AllHandled c.events db × (last_exit c.events ≡ some (Returncode.code 0))

  exit_handled :
      (c : Returncode) (db : Db)
      → handle_scraper_event o (Event.exited c) job db ≡ (Outcome.returned, db)
  unfolding handle_scraper_event
  exit_handled c db = refl

  last_or_twice :
      (code : Option Returncode) (c : Returncode) (last : Option Returncode)
      → last_or code (last_or (some c) last) ≡ last_or (some c) last
  last_or_twice code c none = refl
  last_or_twice code c (some d) = refl

  outcome_cases : (r : Outcome) → (r ≡ Outcome.returned) ⊎ (r ≡ Outcome.raised)
  outcome_cases Outcome.returned = inl refl
  outcome_cases Outcome.raised = inr refl

  pub dispatch-handled :
      (code : Option Returncode) (events : List Event) (db : Db)
      → AllHandled events db
      → dispatch o job false code events db
        ≡ ((Outcome.returned, last_or code (last_exit events)), written events db)
  unfolding dispatch
  dispatch-handled code [] db h = refl
  dispatch-handled code (Event.exited c ∷ events) db h =
      rw (exit_handled c db, last_or_twice code c (last_exit events))
        (dispatch-handled (some c) events db (rw (exit_handled c db) at (h.1)))
  dispatch-handled code (e ∷ events) db h =
      rw (h.0, dispatch) (dispatch-handled code events (handle_scraper_event o e job db).1 h.1)

  pub dispatch-returned :
      (crashes : Bool) (code : Option Returncode) (events : List Event) (db : Db)
      → (dispatch o job crashes code events db).0.0 ≡ Outcome.returned
      → (crashes ≡ false) × AllHandled events db
  unfolding dispatch
  dispatch-returned true code [] db h = absurd (cc h)
  dispatch-returned false code [] db h = (refl, tt)
  dispatch-returned crashes code (Event.exited c ∷ events) db h =
      let rest = dispatch-returned crashes (some c) events db h in
      (rest.0, rw (exit_handled c db) (refl, rest.1))
  dispatch-returned crashes code (e ∷ events) db h =
      elim (outcome_cases (handle_scraper_event o e job db).0) [
        | inl k ↦
            let rest =
              dispatch-returned crashes code events (handle_scraper_event o e job db).1
                (rw (k, dispatch) at h) in
            (rest.0, (k, rest.1))
        | inr k ↦ absurd (cc (rw (k, dispatch) at h))
      ]
