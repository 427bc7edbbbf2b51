-- ===== src/Pipeline/DepositWorker/Outcome.antt =====
-- The retry loop of process_item, on every run of answers.
use roles.Prelude.{
  ℕ, zero, suc, ◌+◌, ◌<◌, ◌≡◌, refl, ap, ◌∙◌, String, Option, none, some, arith, length, nat_eq,
}
use roles.Db.Schema.{Db, SourceItem, item_status_eq}
use roles.Db.DepositQueue.{mark_deposited, mark_deposit_failed}
use roles.Pipeline.DepositWorker.{World, Worker, Attempt, attempt_deposit, rounds, process_item}

module _ (w : World) (k : Worker) (i : SourceItem) (db : Db) where
  abbrev pub Refuses : ℕ → String → Type 0
  Refuses n e = attempt_deposit w n i db ≡ Attempt.refused e

  -- The j-th attempt from `attempt` on is the first that succeeds.
  rounds-stored :
      (left attempt j : ℕ) (last : Option String) (doc_id slug : String)
      → j < left
      → ((m : ℕ) → m < j → (e : String) × Refuses (attempt + m) e)
      → attempt_deposit w (attempt + j) i db ≡ Attempt.stored doc_id slug
      → ((rounds w k i left attempt last db).db ≡ mark_deposited i.id doc_id slug db)
        × (length (rounds w k i left attempt last db).waits ≡ j)
  unfolding rounds
  rounds-stored zero attempt j last doc_id slug h refused stored = absurd (omega arith)
  rounds-stored (suc left) attempt zero last doc_id slug h refused stored =
      let here : attempt_deposit w attempt i db ≡ Attempt.stored doc_id slug =
        ap (λ n. attempt_deposit w n i db) {x = attempt} {y = attempt + 0} (omega arith) ∙ stored in
      rw (here, rounds) (refl, refl)
  rounds-stored (suc zero) attempt (suc j) last doc_id slug h refused stored = absurd (omega arith)
  rounds-stored (suc (suc left)) attempt (suc j) last doc_id slug h refused stored =
      let (e, first) = refused 0 (omega arith) in
      let here : attempt_deposit w attempt i db ≡ Attempt.refused e =
        ap (λ n. attempt_deposit w n i db) {x = attempt} {y = attempt + 0} (omega arith) ∙ first in
      let rest =
        rounds-stored (suc left) (suc attempt) j (some e) doc_id slug (omega arith)
          (λ m lt.
            let (f, q) = refused (suc m) (omega arith) in
            (
              f,
              ap (λ n. attempt_deposit w n i db) {x = suc attempt + m} {y = attempt + suc m}
                    (omega arith)
                  ∙ q,
            ))
          (ap (λ n. attempt_deposit w n i db) {x = suc attempt + j} {y = attempt + suc j}
              (omega arith)
            ∙ stored) in
      rw (here, rounds) (rest.0, ap suc rest.1)

  -- Every attempt fails; the message is the last one's.
  rounds-refused :
      (left attempt : ℕ) (last : Option String) (errors : ℕ → String)
      → ((m : ℕ) → m < suc left → Refuses (attempt + m) (errors (attempt + m)))
      → ((rounds w k i (suc left) attempt last db).db
          ≡ mark_deposit_failed w.outside.dumps_error i.id (errors (attempt + left)) db)
        × (length (rounds w k i (suc left) attempt last db).waits ≡ left)
  unfolding rounds
  rounds-refused zero attempt last errors refused =
      let here : attempt_deposit w attempt i db ≡ Attempt.refused (errors (attempt + 0)) =
        ap (λ n. attempt_deposit w n i db) {x = attempt} {y = attempt + 0} (omega arith)
        ∙ refused 0 (omega arith) in
      rw (here, rounds) (refl, refl)
  rounds-refused (suc left) attempt last errors refused =
      let here : attempt_deposit w attempt i db ≡ Attempt.refused (errors (attempt + 0)) =
        ap (λ n. attempt_deposit w n i db) {x = attempt} {y = attempt + 0} (omega arith)
        ∙ refused 0 (omega arith) in
      let shift : (m : ℕ) → attempt + suc m ≡ suc attempt + m = λ m. omega arith in
      let rest =
        rounds-refused left (suc attempt) (some (errors (attempt + 0))) errors
          (λ m lt. rw (← shift m) (refused (suc m) (omega arith))) in
      rw (here, rounds) (rw (shift left) rest.0, ap suc rest.1)

  -- If attempt 1 + n is the first that succeeds, and the limit allows it, the item is marked deposited
  -- with the references of that attempt, after n waits.
  pub process_item-deposits :
      (n : ℕ) (doc_id slug : String)
      → n < k.max_attempts
      → ((m : ℕ) → m < n → (e : String) × Refuses (1 + m) e)
      → attempt_deposit w (1 + n) i db ≡ Attempt.stored doc_id slug
      → ((process_item w k i db).db ≡ mark_deposited i.id doc_id slug db)
        × (length (process_item w k i db).waits ≡ n)
  unfolding process_item
  process_item-deposits n doc_id slug h refused stored =
      rounds-stored k.max_attempts 1 n none doc_id slug h refused stored

  -- If all of the attempts that the limit allows fail, the item is marked failed with the message of the
  -- last attempt, and there was one wait fewer than attempts.
  pub process_item-gives_up :
      (limit : ℕ) (errors : ℕ → String)
      → k.max_attempts ≡ suc limit
      → ((m : ℕ) → m < suc limit → Refuses (1 + m) (errors (1 + m)))
      → ((process_item w k i db).db
          ≡ mark_deposit_failed w.outside.dumps_error i.id (errors (1 + limit)) db)
        × (length (process_item w k i db).waits ≡ limit)
  unfolding process_item
  process_item-gives_up limit errors h refused = rw h (rounds-refused limit 1 none errors refused)
