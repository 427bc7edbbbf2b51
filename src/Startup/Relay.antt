-- ===== src/Startup/Relay.antt =====
-- backend/src/role_builder/services/ws_relay.py: the subscribers, their queues and a notification. A
-- queue is known by a number; the connection and its monitor are left out.
pub mod Delivery
use roles.Prelude.{
  ℕ, ◌+◌, String, Bool, true, false, not, ◌==◌, nat_eq, string_eq, if◌then◌else◌, Option, some,
  none, List, [], ◌∷◌, ◌++◌, select_where, update_where,
}

pub record Event : Type 0 where
  pub channel : String
  pub payload : String

pub record Queue : Type 0 where
  pub id : ℕ
  pub events : List Event

pub record Subscriber : Type 0 where
  pub tenant_id : ℕ
  pub queue : ℕ

pub record Relay : Type 0 where
  pub subscribers : List Subscriber
  pub queues : List Queue
  pub next_queue : ℕ

-- json.loads: an exception, a value without `get`, or an object with its tenant_id as a text.
pub data Decoded : Type 0 where
  invalid no_object : Decoded
  object : Option String → Decoded

pub record Payloads : Type 0 where
  pub loads : String → Decoded
  -- str(tenant_id)
  pub tenant_text : ℕ → String

unfoldable pub subscribe : ℕ → Relay → ℕ × Relay
subscribe tenant_id r = (
  r.next_queue,
  record {
    subscribers = r.subscribers ++ record { tenant_id = tenant_id; queue = r.next_queue } ∷ [];
    queues = r.queues ++ record { id = r.next_queue; events = [] } ∷ [];
    next_queue = r.next_queue + 1;
  },
)

unfoldable pub unsubscribe : ℕ → Relay → Relay
unsubscribe queue r = record r {
  subscribers = select_where (λ s. not (s.queue == queue)) r.subscribers;
}

abbrev pub push : Event → Queue → Queue
push e q = record q { events = q.events ++ e ∷ [] }

abbrev pub with_queue : ℕ → Queue → Bool
with_queue id q = q.id == id

module _ (p : Payloads) where
  abbrev pub is_for : String → Subscriber → Bool
  is_for tenant s = p.tenant_text s.tenant_id == tenant

  -- The loop over the subscribers.
  unfoldable pub put_event : String → Event → List Subscriber → List Queue → List Queue
  put_event tenant e [] queues = queues
  put_event tenant e (s ∷ ss) queues =
      put_event tenant e ss
        (if is_for tenant s then update_where (with_queue s.queue) (push e) queues else queues)

  -- `false` is the AttributeError of a payload that is no object.
  abbrev pub relay_decoded : Decoded → Event → Relay → Bool × Relay
  relay_decoded Decoded.invalid e r = (true, r)
  relay_decoded Decoded.no_object e r = (false, r)
  relay_decoded (Decoded.object none) e r = (true, r)
  relay_decoded (Decoded.object (some tenant)) e r =
      (true, record r { queues = put_event tenant e r.subscribers r.queues })

  unfoldable pub on_notify : String → String → Relay → Bool × Relay
  unfolding put_event
  on_notify channel payload r =
      relay_decoded (p.loads payload) (record { channel = channel; payload = payload }) r
