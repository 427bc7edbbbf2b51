-- ===== src/Secrets/CreditMonitor/Tally.antt =====
-- The counters that poll_all_balances of services/credit_monitor.py returns.
use roles.Prelude.{
  ◌+◌, ◌≤◌, ◌≡◌, Bool, true, false, not, ◌&&◌, ◌||◌, List, [], ◌∷◌, length, count_where,
  if◌then◌else◌,
}
use roles.Outside.{Outside}
use roles.Db.Schema.{TranscriptionKey}
use roles.Secrets.Effects.{Cipher, Harpocrate, World}
use roles.Secrets.Providers.{Providers}
use roles.Secrets.CreditMonitor.{Outcome, Writes, Counters, is_spent, settle, poll_key}

-- A key with what its provider answered for it.
abbrev pub Poll : Type 0
Poll = TranscriptionKey × Outcome

abbrev pub no_answer : Outcome → Bool
no_answer Outcome.failed = true
no_answer _ = false

abbrev pub has_balance : Outcome → Bool
has_balance (Outcome.balanced b) = true
has_balance _ = false

abbrev pub has_nothing_left : Outcome → Bool
has_nothing_left (Outcome.balanced b) = is_spent b
has_nothing_left _ = false

module _ (d : Writes) where
  -- The balance is stored.
  abbrev pub is_stored : Poll → Bool
  is_stored (k, out) = has_balance out && not (d.update_raises k.id)

  -- It is stored, nothing is left, and the key is marked.
  abbrev pub is_marked : Poll → Bool
  is_marked (k, out) = is_stored (k, out) && has_nothing_left out && not (d.mark_raises k.id)

  -- There is no answer, or one of the two statements raises.
  abbrev pub is_in_error : Poll → Bool
  is_in_error (k, out) =
      no_answer out
      || (has_balance out && d.update_raises k.id)
      || (is_stored (k, out) && has_nothing_left out && d.mark_raises k.id)

  -- The counters of a round, by its polls; only a key whose mark raises counts both as updated and as
  -- an error.
  abbrev pub IsTally : List TranscriptionKey → List Poll → Counters → Type 0
  IsTally keys polls n =
      (n.polled ≡ length keys)
      × (n.updated ≡ count_where is_stored polls)
      × (n.exhausted ≡ count_where is_marked polls)
      × (n.errors ≡ count_where is_in_error polls)
      × (n.exhausted ≤ n.updated)
      × (n.updated + n.errors ≤ length keys + count_where (λ k. d.mark_raises k.id) keys)

module _ (o : Outside) (H : Harpocrate) (c : Cipher) (p : Providers) (d : Writes) where
  -- The answers of a round, in turn.
  abbrev pub polls : List TranscriptionKey → World H → List Poll
  polls [] w = []
  polls (k ∷ ks) w =
      let out = poll_key o H c p d k w in (k, out.0) ∷ polls ks (settle o H c p d k.id out).1

  -- What a key adds to the counters.
  abbrev IsStep : Poll → Counters → Counters → Type 0
  IsStep poll n n' =
      (n'.polled ≡ n.polled + 1)
      × (n'.updated ≡ n.updated + (if is_stored d poll then 1 else 0))
      × (n'.exhausted ≡ n.exhausted + (if is_marked d poll then 1 else 0))
      × (n'.errors ≡ n.errors + (if is_in_error d poll then 1 else 0))
