-- ===== src/Secrets/CreditMonitor.antt =====
-- backend/src/role_builder/services/credit_monitor.py; what is only logged is left out.
pub mod Tally
use roles.Prelude.{
  ℕ, suc, ◌+◌, String, Bool, true, false, not, ◌==◌, nat_eq, string_eq, if◌then◌else◌, Option, some,
  none, List, [], ◌∷◌,
}
use roles.Outside.{Outside}
use roles.Db.Schema.{Db, Amount, TranscriptionKey}
use roles.Db.TranscriptionKeys.{
  mark_exhausted, update_key_balance, list_active_keys_for_balance_polling,
}
use roles.Secrets.Effects.{Fault, Reply, ok, raised, Cipher, Harpocrate, World}
use roles.Secrets.Providers.{Providers, fetch_balance, key_value}

pub record Counters : Type 0 where
  pub polled : ℕ
  pub updated : ℕ
  pub exhausted : ℕ
  pub errors : ℕ

abbrev pub no_counts : Counters
no_counts = record { polled = 0; updated = 0; exhausted = 0; errors = 0 }

-- balance <= 0
abbrev pub is_spent : Amount → Bool
is_spent (Amount.credit n) = n == 0
is_spent (Amount.debt n) = true

-- What the body of the loop comes to for a key before it writes.
pub data Outcome : Type 0 where
  failed skipped : Outcome
  balanced : Amount → Outcome

-- The statements that raise, by the id of the key; they write nothing then.
pub record Writes : Type 0 where
  pub update_raises : ℕ → Bool
  pub mark_raises : ℕ → Bool

-- What it comes to in all. `updated_then_failed` is an exception of mark_exhausted, which the except
-- branch counts as an error after the key was counted as updated.
pub data Settled : Type 0 where
  failed skipped updated exhausted updated_then_failed : Settled

module _ (o : Outside) (H : Harpocrate) (c : Cipher) (p : Providers) (d : Writes) where
  abbrev pub outcome_of : Reply (Option Amount) → Outcome
  outcome_of (raised e) = Outcome.failed
  outcome_of (ok none) = Outcome.skipped
  outcome_of (ok (some balance)) = Outcome.balanced balance

  -- Any exception is counted as an error, as is an absent or an empty value.
  abbrev pub with_value : TranscriptionKey → Reply (Option String) × World H → Outcome × World H
  with_value key (raised e, w) = (Outcome.failed, w)
  with_value key (ok none, w) = (Outcome.failed, w)
  with_value key (ok (some api_key), w) = (
    if api_key == "" then Outcome.failed else outcome_of (fetch_balance p key.provider api_key),
    w,
  )

  abbrev pub mark_if_spent : ℕ → Amount → Db → Settled × Db
  mark_if_spent key_id balance db =
      if not (is_spent balance)
      then (Settled.updated, db)
      else if d.mark_raises key_id
      then (Settled.updated_then_failed, db)
      else (Settled.exhausted, mark_exhausted key_id db)

  abbrev pub write_balance : ℕ → Amount → Db → Settled × Db
  write_balance key_id balance db =
      if d.update_raises key_id
      then (Settled.failed, db)
      else mark_if_spent key_id balance (update_key_balance key_id balance db.now db)

  abbrev pub settle : ℕ → Outcome × World H → Settled × World H
  settle key_id (Outcome.failed, w) = (Settled.failed, w)
  settle key_id (Outcome.skipped, w) = (Settled.skipped, w)
  settle key_id (Outcome.balanced balance, w) =
      let written = write_balance key_id balance w.db in (written.0, record w { db = written.1 })

  abbrev pub count : Settled → Counters → Counters
  count Settled.failed n = record n { polled = n.polled + 1; errors = n.errors + 1 }
  count Settled.skipped n = record n { polled = n.polled + 1 }
  count Settled.updated n = record n { polled = n.polled + 1; updated = n.updated + 1 }
  count Settled.exhausted n = record n {
    polled = n.polled + 1;
    updated = n.updated + 1;
    exhausted = n.exhausted + 1;
  }
  count Settled.updated_then_failed n = record n {
    polled = n.polled + 1;
    updated = n.updated + 1;
    errors = n.errors + 1;
  }

  abbrev pub poll_key : TranscriptionKey → World H → Outcome × World H
  poll_key key w = with_value key (key_value o H c p key.secret_id key.user_id w)

  unfoldable pub poll_keys : List TranscriptionKey → Counters → World H → Counters × World H
  poll_keys [] n w = (n, w)
  poll_keys (key ∷ keys) n w =
      let end = settle key.id (poll_key key w) in poll_keys keys (count end.0 n) end.1

  unfoldable pub poll_all_balances : World H → Counters × World H
  unfolding poll_keys
  poll_all_balances w = poll_keys (list_active_keys_for_balance_polling w.db) no_counts w
