-- ===== src/Service/Ingest.antt =====
-- CollisionMonitorService: its state, ingest_payload and consume_states.
--
-- A payload is of any type: the validation of pydantic gives its state or none, and `device_id` is
-- what the rejection's log names. The monotonic clock's reading comes with each delivery.
use robot_fleet_management.Base.{
  ℕ, ◌+◌, Bool, false, if◌then◌else◌, List, [], ◌∷◌, Option, none, some, Dict, Result, ok, raise,
}
use robot_fleet_management.Models.{RobotState}
use robot_fleet_management.Grants.State.{GrantManager}
use robot_fleet_management.StateStore.{StoredRobotState, UpdateReason, update}
use robot_fleet_management.Transport.Memory.{InMemoryStateDelivery, acknowledge, reject}

pub data IngestionReason : Type 0 where
  input_validation_failed : IngestionReason
  updated : UpdateReason → IngestionReason

pub record IngestionResult : Type 0 where
  pub accepted : Bool
  pub robot_id : Option ℕ
  pub reason : IngestionReason

-- The attributes of the service that its operations change, with the state of its engine and of
-- its publisher.
pub record CollisionMonitorService (F S : Type 0) : Type 0 where
  pub store : Dict (StoredRobotState F)
  pub grant_manager : GrantManager
  pub publisher : S
  pub tick_sequence : ℕ
  pub rejected_state_count : ℕ

module _ {F S : Type 0} where
  -- The service after an update of its store that was or was not accepted.
  abbrev pub with_store :
      Bool → Dict (StoredRobotState F) → CollisionMonitorService F S → CollisionMonitorService F S
  with_store accepted states v = record {
    store = states;
    grant_manager = v.grant_manager;
    publisher = v.publisher;
    tick_sequence = v.tick_sequence;
    rejected_state_count = if accepted then v.rejected_state_count else v.rejected_state_count + 1;
  }

  -- The rest of the loop after a settlement.
  abbrev pub joined :
      {P : Type 0}
      → Result (InMemoryStateDelivery P)
      → CollisionMonitorService F S
      → Result (List (InMemoryStateDelivery P)) × CollisionMonitorService F S
      → Result (List (InMemoryStateDelivery P)) × CollisionMonitorService F S
  joined (raise e) v rest = (raise e, v)
  joined (ok d) v (raise e, w) = (raise e, w)
  joined (ok d) v (ok ds, w) = (ok (d ∷ ds), w)

  module _ {P : Type 0} (model_validate : P → Option (RobotState F))
      (device_id : P → Option ℕ) where
    unfoldable pub ingest_payload :
        P → ℕ → CollisionMonitorService F S → IngestionResult × CollisionMonitorService F S
    ingest_payload payload received v = elim (model_validate payload) [
      | none ↦ (
        record { accepted = false; robot_id = device_id payload; reason = input_validation_failed },
        with_store false v.store v,
      )
      | some state ↦
          let (report, states) = update state received v.store in
          (
            record {
              accepted = report.accepted;
              robot_id = some report.robot_id;
              reason = updated report.reason;
            },
            with_store report.accepted states v,
          )
    ]

    -- The body of the loop: the delivery is settled after its state was stored or refused.
    unfoldable pub consume :
        InMemoryStateDelivery P
        → ℕ
        → CollisionMonitorService F S
        → Result (InMemoryStateDelivery P) × CollisionMonitorService F S
    unfolding ingest_payload acknowledge reject
    consume d received v =
        let (report, v') = ingest_payload d.payload received v in
        (if report.accepted then acknowledge d else reject false d, v')

    -- The loop over the deliveries, which an exception of a settlement leaves.
    unfoldable pub consume_states :
        List (InMemoryStateDelivery P × ℕ)
        → CollisionMonitorService F S
        → Result (List (InMemoryStateDelivery P)) × CollisionMonitorService F S
    unfolding consume
    consume_states [] v = (ok [], v)
    consume_states ((d, received) ∷ ds) v =
        let (settled, v') = consume d received v in joined settled v' (consume_states ds v')
