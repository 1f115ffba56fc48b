-- ===== src/StateStore.antt =====
-- src/collision_monitor/state_store.py: the latest state of each robot.
--
-- A monotonic time in seconds is a number of microseconds, so the checks for finite and for
-- non-negative times hold by the representation.
pub mod Newest
use robot_fleet_management.Base.{
  ℕ, ◌-◌, ◌*◌, ◌/◌, ◌≤◌, max, Bool, true, false, not, ◌&&◌, ◌==◌, ltb, leb, if◌then◌else◌, List, [],
  ◌∷◌, map, sorted, same_ids, Option, none, some, Dict, lookup, insert, keys, Result, ok, ◌>>=◌,
  ◌>>◌, value_error, key_error, require, or_raise,
}
use robot_fleet_management.Models.{Floats, RobotState, RobotSnapshot, from_state}

pub record StoredRobotState (F : Type 0) : Type 0 where
  pub state : RobotState F
  pub received_us : ℕ

pub data UpdateReason : Type 0 where
  older_source_timestamp replaced_latest_state new_robot_state : UpdateReason

pub record StateUpdateResult : Type 0 where
  pub accepted : Bool
  pub robot_id : ℕ
  pub reason : UpdateReason

pub record FleetStateSnapshot (F : Type 0) : Type 0 where
  pub snapshots : List (RobotSnapshot F)
  pub source_state_ages_ms : Dict ℕ
  pub captured_epoch_ms : ℕ
  pub captured_us : ℕ

abbrev pub same_list : List ℕ → List ℕ → Bool
same_list [] [] = true
same_list [] (y ∷ ys) = false
same_list (x ∷ xs) [] = false
same_list (x ∷ xs) (y ∷ ys) = x == y && same_list xs ys

-- FleetStateSnapshot(...), with its __post_init__.
unfoldable pub new_fleet_snapshot :
    {F : Type 0} → FleetStateSnapshot F → Result (FleetStateSnapshot F)
new_fleet_snapshot f = do
  let ids = map (λ s. s.state.device_id) f.snapshots
  require (same_list ids (sorted ids)) value_error
  require (same_ids ids (keys f.source_state_ages_ms)) value_error
  ok f

module _ {F : Type 0} where
  -- LatestStateStore.update: the report and the new `_states`.
  unfoldable pub update :
      RobotState F → ℕ → Dict (StoredRobotState F) → StateUpdateResult × Dict (StoredRobotState F)
  update state received states = elim (lookup state.device_id states) [
    | none ↦ (
      record { accepted = true; robot_id = state.device_id; reason = new_robot_state },
      insert state.device_id (record { state = state; received_us = received }) states,
    )
    | some existing ↦
        if ltb state.timestamp existing.state.timestamp
        then (
          record { accepted = false; robot_id = state.device_id; reason = older_source_timestamp },
          states,
        )
        else (
          record { accepted = true; robot_id = state.device_id; reason = replaced_latest_state },
          insert state.device_id (record { state = state; received_us = received }) states,
        )
  ]

  unfoldable pub latest : ℕ → Dict (StoredRobotState F) → Result (StoredRobotState F)
  latest robot_id states = or_raise (lookup robot_id states) key_error

module _ (m : Floats) where
  open m use {Float, zero, lt}

  -- The loop of `snapshot`: the snapshots and the ages of the robots in order.
  unfoldable pub snapshot_each :
      ℕ
      → ℕ
      → ℕ
      → Float
      → Dict (StoredRobotState Float)
      → List ℕ
      → Result (List (RobotSnapshot Float) × Dict ℕ)
  snapshot_each now_us now_ms timeout_us tolerance states [] = ok ([], [])
  snapshot_each now_us now_ms timeout_us tolerance states (r ∷ rs) = do
    stored ← or_raise (lookup r states) key_error
    let age_us = now_us - stored.received_us
    let age_ms = age_us / 1000
    snapshot ← from_state m stored.state (now_ms - age_ms) (leb timeout_us age_us) tolerance
    rest ← snapshot_each now_us now_ms timeout_us tolerance states rs
    ok (snapshot ∷ rest.0, (r, age_ms) ∷ rest.1)

  -- LatestStateStore.snapshot
  unfoldable pub snapshot :
      ℕ → ℕ → ℕ → Float → Dict (StoredRobotState Float) → Result (FleetStateSnapshot Float)
  unfolding snapshot_each new_fleet_snapshot
  snapshot now_us now_ms timeout_us tolerance states = do
    require (ltb 0 timeout_us) value_error
    require (lt zero tolerance) value_error
    both ← snapshot_each now_us now_ms timeout_us tolerance states (sorted (keys states))
    new_fleet_snapshot (record {
      snapshots = both.0;
      source_state_ages_ms = both.1;
      captured_epoch_ms = now_ms;
      captured_us = now_us;
    })
