-- ===== src/Engine/Validation.antt =====
-- engine._normalise_snapshots, _derive_staleness and validate_global_safety.
use robot_fleet_management.Base.{
  ℕ, ◌+◌, ◌/◌, not, ◌||◌, leb, if◌then◌else◌, List, [], ◌∷◌, map, sort_by, before_key, repeats,
  Dict, lookup, keys, same_ids, Result, ok, ◌>>=◌, ◌>>◌, value_error, key_error, require, or_raise,
}
use robot_fleet_management.Models.{Action, RobotSnapshot}
use robot_fleet_management.Config.{MonitorConfig}
use robot_fleet_management.Conflicts.Build.{Envelopes, id_of, combinations}
use robot_fleet_management.Engine.Codes.{GlobalSafetyViolation}

module _ {F : Type 0} where
  -- The checks of the types hold by the representation.
  unfoldable pub normalise_snapshots : List (RobotSnapshot F) → Result (List (RobotSnapshot F))
  normalise_snapshots snapshots = do
    let ordered = sort_by (before_key id_of) snapshots
    require (not (repeats (map id_of ordered))) value_error
    ok ordered

  -- `now_ms - received_at_ms >= stale_limit_ms`, over the integers.
  unfoldable pub mark_stale : MonitorConfig → ℕ → RobotSnapshot F → RobotSnapshot F
  mark_stale c now_ms s = record {
    state = s.state;
    received_at_ms = s.received_at_ms;
    stale = s.stale || leb (s.received_at_ms + c.stale_timeout_us / 1000) now_ms;
    next_pose = s.next_pose;
    at_goal = s.at_goal;
  }

  unfoldable pub derive_staleness :
      MonitorConfig → ℕ → List (RobotSnapshot F) → List (RobotSnapshot F)
  unfolding mark_stale
  derive_staleness c now_ms snapshots = map (mark_stale c now_ms) snapshots

module _ {F : Type 0} (geometry : Envelopes F) (decisions : Dict Action) where
  open geometry use {Envelope, action_envelope, geometries_conflict, bounds}

  -- `envelopes`, the dictionary of the final envelopes; the identifiers are distinct.
  unfoldable pub final_envelopes : List (RobotSnapshot F) → Result (Dict Envelope)
  final_envelopes [] = ok []
  final_envelopes (s ∷ rest) = do
    action ← or_raise (lookup (id_of s) decisions) key_error
    envelope ← action_envelope s action
    others ← final_envelopes rest
    ok ((id_of s, envelope) ∷ others)

  -- The violation of one pair, before those of the pairs after it.
  unfoldable pub check_pair :
      Dict Envelope
      → ℕ
      → ℕ
      → List (GlobalSafetyViolation F)
      → Result (List (GlobalSafetyViolation F))
  check_pair envelopes robot_i robot_j others = do
    envelope_i ← or_raise (lookup robot_i envelopes) key_error
    envelope_j ← or_raise (lookup robot_j envelopes) key_error
    action_i ← or_raise (lookup robot_i decisions) key_error
    action_j ← or_raise (lookup robot_j decisions) key_error
    ok (
        if geometries_conflict envelope_i envelope_j
        then record {
          robot_i = robot_i;
          action_i = action_i;
          robot_j = robot_j;
          action_j = action_j;
          bounds_i = bounds envelope_i;
          bounds_j = bounds envelope_j;
        }
          ∷ others
        else others)

  unfoldable pub violations_of :
      Dict Envelope
      → List (RobotSnapshot F × RobotSnapshot F)
      → Result (List (GlobalSafetyViolation F))
  unfolding check_pair
  violations_of envelopes [] = ok []
  violations_of envelopes ((s, t) ∷ pairs) = do
    others ← violations_of envelopes pairs
    check_pair envelopes (id_of s) (id_of t) others

  unfoldable pub validate_global_safety :
      List (RobotSnapshot F) → Result (List (GlobalSafetyViolation F))
  unfolding normalise_snapshots final_envelopes violations_of
  validate_global_safety snapshots = do
    ordered ← normalise_snapshots snapshots
    require (same_ids (keys decisions) (map id_of ordered)) value_error
    envelopes ← final_envelopes ordered
    violations_of envelopes (combinations ordered)
