-- ===== src/Transport/Memory.antt =====
-- transport.memory: deliveries, the queue of states, and the publisher with injected failures.
use robot_fleet_management.Base.{
  ℕ, ◌+◌, ◌-◌, Bool, true, false, not, ◌&&◌, ◌==◌, ltb, if◌then◌else◌, List, [], ◌∷◌, ◌++◌, Option,
  none, some, Dict, lookup_or, insert, Result, ok, raise, ◌>>◌, value_error, runtime_error, require,
}
use robot_fleet_management.Transport.Message.{ActionMessage, ActionPublisher, idempotency_key}

pub data Outcome : Type 0 where
  acknowledged rejected : Outcome

pub record InMemoryStateDelivery (P : Type 0) : Type 0 where
  pub payload : P
  pub settlement : Option Outcome

module _ {P : Type 0} where
  abbrev pub new_delivery : P → InMemoryStateDelivery P
  new_delivery payload = record { payload = payload; settlement = none }

  abbrev pub is_settled : InMemoryStateDelivery P → Bool
  is_settled d = elim d.settlement [ none ↦ false | some outcome ↦ true ]

  abbrev pub settled_as : Outcome → InMemoryStateDelivery P → InMemoryStateDelivery P
  settled_as outcome d = record { payload = d.payload; settlement = some outcome }

  unfoldable pub acknowledge : InMemoryStateDelivery P → Result (InMemoryStateDelivery P)
  acknowledge d = do require (not (is_settled d)) runtime_error; ok (settled_as acknowledged d)

  unfoldable pub reject : Bool → InMemoryStateDelivery P → Result (InMemoryStateDelivery P)
  reject requeue d = do
    require (not (is_settled d)) runtime_error
    require (not requeue) value_error
    ok (settled_as rejected d)

-- A queue item is a delivery or the marker that ends the iteration.
pub data Item (P : Type 0) : Type 0 where
  delivery : InMemoryStateDelivery P → Item P
  close_marker : Item P

pub record InMemoryStateConsumer (P : Type 0) : Type 0 where
  pub queue : List (Item P)
  pub closed : Bool
  pub deliveries : List (InMemoryStateDelivery P)

module _ {P : Type 0} where
  abbrev pub new_consumer : InMemoryStateConsumer P
  new_consumer = record { queue = []; closed = false; deliveries = [] }

  unfoldable pub submit : P → InMemoryStateConsumer P → Result (InMemoryStateConsumer P)
  submit payload q = do
    require (not q.closed) runtime_error
    ok (record {
      queue = q.queue ++ delivery (new_delivery payload) ∷ [];
      closed = q.closed;
      deliveries = q.deliveries ++ new_delivery payload ∷ [];
    })

  unfoldable pub close : InMemoryStateConsumer P → InMemoryStateConsumer P
  close q =
      if q.closed
      then q
      else record { queue = q.queue ++ close_marker ∷ []; closed = true; deliveries = q.deliveries }

  -- What the iteration yields: the deliveries before the first marker, or those that are there
  -- before it waits for more.
  unfoldable pub received : List (Item P) → List (InMemoryStateDelivery P)
  received [] = []
  received (close_marker ∷ items) = []
  received (delivery d ∷ items) = d ∷ received items

  abbrev pub receive_states : InMemoryStateConsumer P → List (InMemoryStateDelivery P)
  receive_states q = received q.queue

abbrev pub Key : Type 0
Key = ℕ × ℕ × ℕ

abbrev pub same_key : Key → Key → Bool
same_key (a, b, c) (x, y, z) = a == x && b == y && c == z

-- `self._attempt_counts[key] = self._attempt_counts.get(key, 0) + 1`
unfoldable pub count_attempt : Key → List (Key × ℕ) → List (Key × ℕ)
count_attempt key [] = (key, 1) ∷ []
count_attempt key ((k, n) ∷ counts) =
    if same_key k key then (k, n + 1) ∷ counts else (k, n) ∷ count_attempt key counts

unfoldable pub attempts_of : Key → List (Key × ℕ) → ℕ
attempts_of key [] = 0
attempts_of key ((k, n) ∷ counts) = if same_key k key then n else attempts_of key counts

-- Failure counts are natural numbers, so the check for a negative one has no counterpart.
pub record InMemoryActionPublisher : Type 0 where
  pub remaining_failures : Dict ℕ
  pub attempt_counts : List (Key × ℕ)
  pub published : List ActionMessage

unfoldable pub publish_action :
    ActionMessage → InMemoryActionPublisher → Result (Unit {0}) × InMemoryActionPublisher
unfolding count_attempt
publish_action message s =
    let counts = count_attempt (idempotency_key message) s.attempt_counts in
    let remaining = lookup_or 0 message.device_id s.remaining_failures in
    if ltb 0 remaining
    then (
      raise runtime_error,
      record {
        remaining_failures = insert message.device_id (remaining - 1) s.remaining_failures;
        attempt_counts = counts;
        published = s.published;
      },
    )
    else (
      ok tt,
      record {
        remaining_failures = s.remaining_failures;
        attempt_counts = counts;
        published = s.published ++ message ∷ [];
      },
    )

abbrev pub in_memory : ActionPublisher
in_memory = record { State = InMemoryActionPublisher; publish_action = publish_action }
