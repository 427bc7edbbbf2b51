-- ===== src/Examples/Startup.antt =====
-- The theorems on pages, queues, migrations and notifications, at small inputs.
use mathlib.Core.Option
use roles.Prelude.{
  ℕ, zero, suc, ◌+◌, ◌-◌, String, true, false, ◌==◌, nat_eq, string_eq, some, none, List, [], ◌∷◌,
  map, ◌≡◌, refl, ap, count_where, arith, ◌≤◌, not, if◌then◌else◌, Bool-cases, inl, inr, eq_of_beq,
}
use roles.Outside.{Outside}
use roles.Db.Schema.{Json, job_status_eq}
use roles.Db.Requests.{get_by_key}
use roles.Db.ScrapingJobs.{is_pending, requeue_stale_jobs}
use roles.Db.ScrapingJobs.Restart.{claims, has_job, is_claimed_by, requeue_then_claims}
use roles.Acquisition.Errors.{ok}
use roles.Acquisition.Discovery.{shape_item, list_discovered, parse_limit}
use roles.Acquisition.Discovery.Pagination.{
  IsDecimal, walk, all_items, walk-all_items, HasFewItems, list_discovered-HasFewItems,
}
use roles.Cookies.Texts.{codes}
use roles.Db.SourceItems.{matches}
use roles.Startup.Migrations.{Entry, Server, State}
use roles.Startup.Relay.{Relay, Payloads, Decoded, on_notify, unsubscribe}
use roles.Startup.Relay.Delivery.{queue_of, push_times, subscriptions, on_notify-delivers}
use roles.Samples.{outside, db, request}

-- Numbers in unary.
abbrev unary : ℕ → String
unary zero = String.◌∷◌ "1" String.[]
unary (suc n) = String.◌∷◌ "1" (unary n)

abbrev size : String → ℕ
size String.[] = 0
size (String.◌∷◌ c s) = suc (size s)

abbrev unary_outside : Outside
unary_outside = record outside { show_int = unary; parse_int = λ s. some (false, size s - 1) }

size-unary : (n : ℕ) → size (unary n) ≡ suc n
size-unary zero = refl
size-unary (suc n) = ap suc (size-unary n)

unary_outside-IsDecimal : IsDecimal unary_outside
unary_outside-IsDecimal = record {
  parse-show = λ n. ap (λ k. some (false, k)) (omega (arith, size-unary n));
  show-nonempty = nonempty;
}
  where
    impossible : (n : ℕ) → unary n ≡ "" → (unary n == "") ≡ false
    impossible zero h = refl
    impossible (suc n) h = cc h

    nonempty : (n : ℕ) → (unary n == "") ≡ false
    nonempty n = elim (Bool-cases (unary n == "")) [
      | inr e ↦ e
      | inl e ↦ impossible n (eq_of_beq (unary n) "" e)
    ]

walk_example :
    walk unary_outside "yt-c" (Json.num 2) db 9 none
    ≡ ok (map shape_item (all_items unary_outside 1 db))
unfolding get_by_key parse_limit matches
walk_example =
    walk-all_items unary_outside "yt-c" (Json.num 2) db unary_outside-IsDecimal request 1 2 refl
      refl refl 9 (omega arith)

few_items_example : HasFewItems (list_discovered outside "yt-c" none (Json.num 500) db)
few_items_example = list_discovered-HasFewItems outside "yt-c" none (Json.num 500) db

one_pending : count_where is_pending (requeue_stale_jobs db).1.scraping_jobs ≤ 1
unfolding requeue_stale_jobs
one_pending = omega arith

requeue_example :
    (has_job (is_claimed_by "w") 32 (claims 1 "w" (requeue_stale_jobs db).1) ≡ true)
    × (count_where is_pending (claims 1 "w" (requeue_stale_jobs db).1).scraping_jobs ≡ 0)
requeue_example = requeue_then_claims 1 "w" 32 db refl one_pending

abbrev server : Server
server = record {
  Schema = ℕ;
  execute = λ sql n. some (n + 1);
  is_migration_name = λ name. not (name == "README.md");
}

abbrev entries : List Entry
entries =
    record { name = "0002_b.sql"; is_file = true; sql = codes "CREATE TABLE b ()" }
    ∷ record { name = "README.md"; is_file = true; sql = codes "text" }
    ∷ record { name = "0001_a.sql"; is_file = true; sql = codes "-- nothing" }
    ∷ []

abbrev empty_server : State server
empty_server = record { schema = 0; versions = none }

abbrev migrated : State server
migrated = record { schema = 1; versions = some ("0001_a.sql" ∷ "0002_b.sql" ∷ []) }

abbrev payloads : Payloads
payloads = record {
  loads = λ text. Decoded.object (some "nine");
  tenant_text = λ tenant. if tenant == 9 then "nine" else "other";
}

abbrev relay : Relay
relay = record {
  subscribers = record { tenant_id = 9; queue = 1 } ∷ record { tenant_id = 8; queue = 2 } ∷ [];
  queues = record { id = 1; events = [] } ∷ record { id = 2; events = [] } ∷ [];
  next_queue = 3;
}

on_notify_example :
    (queue_of 1 (on_notify payloads "keys_changes" "{}" relay).1.queues
      ≡ Option.map
          (push_times
            (subscriptions payloads "nine" 1 relay.subscribers)
            (record { channel = "keys_changes"; payload = "{}" }))
          (queue_of 1 relay.queues))
    × (queue_of 1 (on_notify payloads "keys_changes" "{}" (unsubscribe 1 relay)).1.queues
        ≡ queue_of 1 relay.queues)
on_notify_example = on_notify-delivers payloads "keys_changes" "{}" "nine" 1 relay refl

-- The queue of tenant 9 has the event, that of tenant 8 has none.
delivered :
    (on_notify payloads "keys_changes" "{}" relay).1.queues
    ≡ record { id = 1; events = record { channel = "keys_changes"; payload = "{}" } ∷ [] }
      ∷ record { id = 2; events = [] }
      ∷ []
unfolding on_notify
delivered = refl
