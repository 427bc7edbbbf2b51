-- ===== src/Startup/Relay/Delivery.antt =====
-- Which queues a notification of services/ws_relay.py reaches.
use mathlib.Core.Option
use native.Mathlib.Nat.{zero-add}
use roles.Prelude.{
  ℕ, zero, suc, ◌+◌, String, false, not, ◌&&◌, ◌==◌, nat_eq, string_eq, Option, some, none, List,
  [], ◌∷◌, select_where, update_where, count_where, find_where, Bool-cases, inl, inr, ◌≡◌, refl, ap,
  ◌∙◌, arith, eq_of_beq,
}
use roles.Startup.Relay.{
  Event, Queue, Subscriber, Relay, Decoded, Payloads, unsubscribe, push, with_queue, is_for,
  put_event, on_notify,
}

-- The queue with the event `n` times behind what it held.
abbrev pub push_times : ℕ → Event → Queue → Queue
push_times zero e q = q
push_times (suc n) e q = push_times n e (push e q)

abbrev pub queue_of : ℕ → List Queue → Option Queue
queue_of id queues = find_where (with_queue id) queues

-- How often a queue is subscribed for a tenant.
abbrev pub subscriptions : Payloads → String → ℕ → List Subscriber → ℕ
subscriptions p tenant id = count_where (λ s. is_for p tenant s && s.queue == id)

module _ (e : Event) where
  queue_of-push :
      (id : ℕ) (queues : List Queue)
      → queue_of id (update_where (with_queue id) (push e) queues)
        ≡ Option.map (push e) (queue_of id queues)
  queue_of-push id [] = refl
  queue_of-push id (q ∷ qs) = elim (Bool-cases (q.id == id)) [
    | inl h ↦ rw (h, h) refl
    | inr h ↦ rw (h, h) (queue_of-push id qs)
  ]

  queue_of-push_other :
      (id t : ℕ) (queues : List Queue)
      → (t == id) ≡ false
      → queue_of id (update_where (with_queue t) (push e) queues) ≡ queue_of id queues
  queue_of-push_other id t [] d = refl
  queue_of-push_other id t (q ∷ qs) d = ground (arith, queue_of-push_other id t qs)

  map-push_times :
      (n : ℕ) (r : Option Queue)
      → Option.map (push_times n e) (Option.map (push e) r) ≡ Option.map (push_times (1 + n) e) r
  map-push_times n none = refl
  map-push_times n (some q) =
      let k : suc n ≡ 1 + n = omega arith in ap (λ m. some (push_times m e q)) k

module _ (p : Payloads) (tenant : String) (e : Event) where
  put_event-delivers :
      (id : ℕ) (ss : List Subscriber) (queues : List Queue)
      → queue_of id (put_event p tenant e ss queues)
        ≡ Option.map (push_times (subscriptions p tenant id ss) e) (queue_of id queues)
  unfolding put_event
  put_event-delivers id [] queues = unchanged (queue_of id queues)
    where
      unchanged : (r : Option Queue) → r ≡ Option.map (push_times 0 e) r
      unchanged none = refl
      unchanged (some q) = refl
  put_event-delivers id (s ∷ ss) queues = elim (Bool-cases (is_for p tenant s)) [
    | inr f ↦ rw (f, zero-add) (put_event-delivers id ss queues)
    | inl f ↦ elim (Bool-cases (s.queue == id)) [
      | inr q ↦
          rw (f, q, zero-add)
            (put_event-delivers id ss (update_where (with_queue s.queue) (push e) queues)
              ∙ ap (Option.map (push_times (subscriptions p tenant id ss) e))
                  (queue_of-push_other e id s.queue queues q))
      | inl q ↦
          rw (f, q)
            (put_event-delivers id ss (update_where (with_queue s.queue) (push e) queues)
              ∙ ap (Option.map (push_times (subscriptions p tenant id ss) e)) (
                  ap (λ t. queue_of id (update_where (with_queue t) (push e) queues))
                    (eq_of_beq s.queue id q)
                  ∙ queue_of-push e id queues)
              ∙ map-push_times e (subscriptions p tenant id ss) (queue_of id queues))
    ]
  ]

none_left :
    (p : Payloads) (tenant : String) (id : ℕ) (ss : List Subscriber)
    → subscriptions p tenant id (select_where (λ s. not (s.queue == id)) ss) ≡ 0
none_left p tenant id [] = refl
none_left p tenant id (s ∷ ss) = elim (Bool-cases (s.queue == id)) [
  | inl q ↦ rw q (none_left p tenant id ss)
  | inr q ↦ rw (q, q) (ground (arith, none_left p tenant id ss))
]

-- A notification for a tenant is put in each queue as often as the queue is subscribed for that
-- tenant, behind what it held; and where the queue was unsubscribed before, not at all.
pub on_notify-delivers :
    (p : Payloads) (channel payload tenant : String) (id : ℕ) (r : Relay)
    → p.loads payload ≡ Decoded.object (some tenant)
    → (queue_of id (on_notify p channel payload r).1.queues
        ≡ Option.map
            (push_times
              (subscriptions p tenant id r.subscribers)
              (record { channel = channel; payload = payload }))
            (queue_of id r.queues))
      × (queue_of id (on_notify p channel payload (unsubscribe id r)).1.queues
          ≡ queue_of id r.queues)
unfolding on_notify unsubscribe
on_notify-delivers p channel payload tenant id r h =
    let e : Event = record { channel = channel; payload = payload } in
    (
      rw h (put_event-delivers p tenant e id r.subscribers r.queues),
      rw h (
          put_event-delivers p tenant e id (select_where (λ s. not (s.queue == id)) r.subscribers)
            r.queues
          ∙ rw (none_left p tenant id r.subscribers) (untouched (queue_of id r.queues))),
    )
  where
    untouched : (q : Option Queue) → Option.map (λ x. x) q ≡ q
    untouched none = refl
    untouched (some q) = refl
