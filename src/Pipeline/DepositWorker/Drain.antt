-- ===== src/Pipeline/DepositWorker/Drain.antt =====
-- The loop empties the queue: each round takes an item out of it for good.
use roles.Prelude.{
  ℕ, zero, suc, ◌≤◌, ◌<◌, ◌≡◌, refl, ◌∙◌, subst, String, true, false, Option, none, some, arith,
  count_where, count_where-update_where_lt, count_where-update_where_le, count_where-select_where,
  count_where-order_by, count_where-head?, select_where-nil, select_where, order_by, ◌==◌, nat_eq,
  beq_refl, Option-cases, ◌⊎◌, inl, inr,
}
use Prim.Native.Nat.{suc-le-suc}
use native.Mathlib.Nat.{le_trans}
use roles.Db.Schema.{Db, SourceItem, item_status_eq}
use roles.Db.DepositQueue.{
  is_claimable, older, next_for_deposit, set_item, as_depositing, claim_next_for_deposit,
  mark_deposited, mark_deposit_failed,
}
use roles.Pipeline.DepositWorker.{
  World, Worker, Attempt, attempt_deposit, rounds, process_item, tick_claimed, tick, drain,
}

abbrev pub claimable_count : Db → ℕ
claimable_count db = count_where (is_claimable db.requests) db.source_items

-- The states that a run of rounds can leave: the same requests, and no more claimable items.
record Settled (a b : Db) : Type 0 where
  requests : b.requests ≡ a.requests
  count : count_where (is_claimable a.requests) b.source_items ≤ claimable_count a

mark_deposited-Settled :
    (id : ℕ) (doc_id slug : String) (db : Db) → Settled db (mark_deposited id doc_id slug db)
unfolding mark_deposited
mark_deposited-Settled id doc_id slug db = record {
  requests = refl;
  count =
      count_where-update_where_le (is_claimable db.requests) (λ i. i.id == id) _ db.source_items
        (λ x e k. cc k);
}

mark_deposit_failed-Settled :
    (d : String → String → String) (id : ℕ) (m : String) (db : Db)
    → Settled db (mark_deposit_failed d id m db)
unfolding mark_deposit_failed
mark_deposit_failed-Settled d id m db = record {
  requests = refl;
  count =
      count_where-update_where_le (is_claimable db.requests) (λ i. i.id == id) _ db.source_items
        (λ x e k. cc k);
}

Attempt-cases :
    (a : Attempt)
    → ((d : String) × (s : String) × (a ≡ Attempt.stored d s))
      ⊎ ((e : String) × (a ≡ Attempt.refused e))
Attempt-cases (Attempt.stored d s) = inl (d, s, refl)
Attempt-cases (Attempt.refused e) = inr (e, refl)

rounds-Settled :
    (w : World) (k : Worker) (i : SourceItem) (left attempt : ℕ) (last : Option String) (db : Db)
    → Settled db (rounds w k i left attempt last db).db
unfolding rounds
rounds-Settled w k i zero attempt last db = mark_deposit_failed-Settled _ i.id _ db
rounds-Settled w k i (suc zero) attempt last db =
    elim (Attempt-cases (attempt_deposit w attempt i db)) [
      | inl (d, s, e) ↦ rw (e, rounds) (mark_deposited-Settled i.id d s db)
      | inr (m, e) ↦ rw (e, rounds) (rounds-Settled w k i zero (suc attempt) (some m) db)
    ]
rounds-Settled w k i (suc (suc left)) attempt last db =
    elim (Attempt-cases (attempt_deposit w attempt i db)) [
      | inl (d, s, e) ↦ rw (e, rounds) (mark_deposited-Settled i.id d s db)
      | inr (m, e) ↦ rw (e, rounds) (rounds-Settled w k i (suc left) (suc attempt) (some m) db)
    ]

-- The claim takes the item out of the queue.
claim-lowers :
    (db : Db) (i : SourceItem)
    → next_for_deposit db ≡ some i
    → claimable_count (set_item i.id (as_depositing db.now) db) < claimable_count db
unfolding next_for_deposit
claim-lowers db i h =
    count_where-update_where_lt (is_claimable db.requests) (λ x. x.id == i.id)
      (as_depositing db.now) db.source_items (λ x e. refl)
      (subst (λ n. 0 < n)
        (count_where-order_by older (λ x. x.id == i.id)
            (select_where (is_claimable db.requests) db.source_items)
          ∙ count_where-select_where (is_claimable db.requests) (λ x. x.id == i.id) db.source_items)
        (count_where-head? (λ x. x.id == i.id)
          (order_by older (select_where (is_claimable db.requests) db.source_items)) h
          (beq_refl i.id)))

empty_queue : (db : Db) → claimable_count db ≡ 0 → next_for_deposit db ≡ none
unfolding next_for_deposit
empty_queue db h = rw (select_where-nil (is_claimable db.requests) db.source_items h) refl

claim-some :
    (db : Db) (i : SourceItem)
    → next_for_deposit db ≡ some i
    → claim_next_for_deposit db
      ≡ (some (as_depositing db.now i), set_item i.id (as_depositing db.now) db)
unfolding claim_next_for_deposit
claim-some db i h = rw (h, claim_next_for_deposit)

claim-none : (db : Db) → next_for_deposit db ≡ none → claim_next_for_deposit db ≡ (none, db)
unfolding claim_next_for_deposit
claim-none db h = rw (h, claim_next_for_deposit)

tick_claimed-Settled :
    (w : World) (k : Worker) (i : SourceItem) (db : Db)
    → ((tick_claimed w k (some i) db).0 ≡ true) × Settled db (tick_claimed w k (some i) db).1
unfolding tick_claimed process_item
tick_claimed-Settled w k i db = (refl, rounds-Settled w k i k.max_attempts 1 none db)

Settled-count : {a b : Db} → Settled a b → claimable_count b ≤ claimable_count a
Settled-count {a} {b} s = rw s.requests s.count

tick-lowers :
    (w : World) (k : Worker) (db : Db) (i : SourceItem)
    → next_for_deposit db ≡ some i
    → ((tick w k db).0 ≡ true) × (claimable_count (tick w k db).1 < claimable_count db)
unfolding tick
tick-lowers w k db i h =
    let claimed : Db = set_item i.id (as_depositing db.now) db in
    let s = tick_claimed-Settled w k (as_depositing db.now i) claimed in
    rw (claim-some db i h) (s.0, le_trans (suc-le-suc (Settled-count s.1)) (claim-lowers db i h))

tick-empty :
    (w : World) (k : Worker) (db : Db) → next_for_deposit db ≡ none → tick w k db ≡ (false, db)
unfolding tick tick_claimed
tick-empty w k db h = rw (claim-none db h) refl

-- As many rounds as there are claimable items empty the deposit queue, whatever the depositor answers.
pub drain-empties :
    (w : World) (k : Worker) (fuel : ℕ) (db : Db)
    → claimable_count db ≤ fuel
    → next_for_deposit (drain fuel w k db) ≡ none
unfolding drain
drain-empties w k zero db h = empty_queue db (omega arith)
drain-empties w k (suc fuel) db h = elim (Option-cases (next_for_deposit db)) [
  | inl e ↦ rw (tick-empty w k db e, drain) e
  | inr (i, e) ↦
      let (went, lower) = tick-lowers w k db i e in
      rw went (drain-empties w k fuel (tick w k db).1 (omega arith))
]
