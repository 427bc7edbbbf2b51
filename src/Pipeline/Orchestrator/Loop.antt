-- ===== src/Pipeline/Orchestrator/Loop.antt =====
-- The semaphore of ScraperOrchestrator.run_loop: one round of the loop, and the end of a task.
use roles.Prelude.{
  ℕ, suc, ◌+◌, ◌-◌, ◌≡◌, List, [], ◌∷◌, arith, if◌then◌else◌, leb, Option, none, some, some_inj,
  Option-cases, inl, inr, subst,
}

-- The permits that the semaphore has left, and the tasks in flight.
pub record Capacity : Type 0 where
  pub permits : ℕ
  pub in_flight : ℕ

-- What claim_next_pending_job answers in a round.
pub data Claim : Type 0 where
  job empty error : Claim

pub data Turn : Type 0 where
  round : Claim → Turn
  task_ends : Turn

-- `none` is a round that waits in acquire(), or the end of a task when none is in flight. The
-- `except` branch releases and sets `job = None`; the test on `job is None` releases again.
unfoldable pub after_acquire : Claim → Capacity → Capacity
after_acquire Claim.job c = record c { in_flight = c.in_flight + 1 }
after_acquire Claim.empty c = record c { permits = c.permits + 1 }
after_acquire Claim.error c = record c { permits = c.permits + 1 + 1 }

unfoldable pub turn : Turn → Capacity → Option Capacity
unfolding after_acquire
turn (Turn.round claim) c =
    if leb 1 c.permits
    then some (after_acquire claim (record c { permits = c.permits - 1 }))
    else none
turn Turn.task_ends c =
    if leb 1 c.in_flight
    then some (record { permits = c.permits + 1; in_flight = c.in_flight - 1 })
    else none

unfoldable pub run : List Turn → Capacity → Option Capacity
unfolding turn
run [] c = some c
run (t ∷ ts) c = elim (turn t c) [ none ↦ none | some c' ↦ run ts c' ]

unfoldable pub claim_errors : List Turn → ℕ
claim_errors [] = 0
claim_errors (Turn.round Claim.error ∷ ts) = suc (claim_errors ts)
claim_errors (t ∷ ts) = claim_errors ts

turn_errors : Turn → ℕ
turn_errors (Turn.round Claim.error) = 1
turn_errors _ = 0

claim_errors-cons :
    (t : Turn) (ts : List Turn) → claim_errors (t ∷ ts) ≡ turn_errors t + claim_errors ts
unfolding claim_errors turn_errors
claim_errors-cons (Turn.round Claim.job) ts = omega arith
claim_errors-cons (Turn.round Claim.empty) ts = omega arith
claim_errors-cons (Turn.round Claim.error) ts = omega arith
claim_errors-cons Turn.task_ends ts = omega arith

turn-total :
    (t : Turn) (c c' : Capacity)
    → turn t c ≡ some c'
    → c'.permits + c'.in_flight ≡ c.permits + c.in_flight + turn_errors t
unfolding turn turn_errors after_acquire
turn-total (Turn.round Claim.job) c c' h = grind arith
turn-total (Turn.round Claim.empty) c c' h = grind arith
turn-total (Turn.round Claim.error) c c' h = grind arith
turn-total Turn.task_ends c c' h = grind arith

-- After any rounds and ends of tasks, the permits and the tasks in flight add up to what they were
-- plus one for each claim that raised.
pub run-capacity :
    (ts : List Turn) (c c' : Capacity)
    → run ts c ≡ some c'
    → c'.permits + c'.in_flight ≡ c.permits + c.in_flight + claim_errors ts
unfolding run claim_errors
run-capacity [] c c' h = grind (arith, some_inj h)
run-capacity (t ∷ ts) c c' h = elim (Option-cases (turn t c)) [
  | inl n ↦ absurd (cc (subst (λ o. (elim o [ none ↦ none | some c' ↦ run ts c' ]) ≡ some c') n h))
  | inr (d, e) ↦ omega (
    arith,
    claim_errors-cons t ts,
    turn-total t c d e,
    run-capacity ts d c'
        (subst (λ o. (elim o [ none ↦ none | some c' ↦ run ts c' ]) ≡ some c') e h),
  )
]
