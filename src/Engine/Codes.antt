-- ===== src/Engine/Codes.antt =====
-- The reason and alarm codes of src/collision_monitor/engine.py, and the records of a decided tick.
use robot_fleet_management.Base.{
  ℕ, Bool, true, false, if◌then◌else◌, List, [], ◌∷◌, ◌++◌, map, Option, none, some, Dict,
}
use robot_fleet_management.Models.{
  Action, resume, DecisionSource, cp_sat, heuristic, repair, fail_safe, policy, RobotSnapshot,
}
use robot_fleet_management.Priority.{PriorityBreakdown}
use robot_fleet_management.Conflicts.Pairs.{Bounds}
use robot_fleet_management.Grants.State.{AlarmCode, GrantRelease}
use robot_fleet_management.Optimiser.Solver.{SolverStatus, FallbackReason}
use robot_fleet_management.Heuristic.Solve.{Reason}

pub data ReasonCode : Type 0 where
  stale_static_obstacle at_goal_pause isolated_active_resume : ReasonCode
  cp_sat_component_decision heuristic_component_decision no_all_paused_repair : ReasonCode
  fail_safe_pause direct_policy_decision : ReasonCode
  right_of_way_grant_acquired active_grant_resume global_safety_override : ReasonCode

-- The alarms of a tick: those of the grant manager's preview and the class EngineAlarmCode.
pub data EngineAlarmCode : Type 0 where
  grant_alarm : AlarmCode → EngineAlarmCode
  prolonged_state_loss_static_obstacle current_footprint_overlap : EngineAlarmCode
  global_safety_validation_failed fail_safe_geometry_remains_unsafe : EngineAlarmCode

pub record GlobalSafetyViolation (F : Type 0) : Type 0 where
  pub robot_i : ℕ
  pub action_i : Action
  pub robot_j : ℕ
  pub action_j : Action
  pub bounds_i : Bounds F
  pub bounds_j : Bounds F

-- models.RobotDecision, with the component and the priority of its diagnostic metadata.
pub record RobotDecision : Type 0 where
  pub robot_id : ℕ
  pub action : Action
  pub reason_codes : List ReasonCode
  pub tick_id : ℕ
  pub decision_source : DecisionSource
  pub component : List ℕ
  pub priority : PriorityBreakdown

-- How one component was decided.
pub record ComponentDiagnostic : Type 0 where
  pub component : List ℕ
  pub method : DecisionSource
  pub solver_status : Option SolverStatus
  pub fallback_reason : Option FallbackReason
  pub heuristic_reason : Option Reason
  pub progress_made : Option Bool

-- The entries of `tick_metadata` that depend on more than the snapshots and the conflict model.
pub record TickMetadata (F : Type 0) : Type 0 where
  pub grant_tick_id : ℕ
  pub component_diagnostics : List ComponentDiagnostic
  pub final_decision_sources : Dict DecisionSource
  pub priority_scores : Dict PriorityBreakdown
  pub grant_hard_assignments : Dict Action
  pub alarms : List EngineAlarmCode
  pub prolonged_stale_robot_ids : List ℕ
  pub current_footprint_overlaps : List (GlobalSafetyViolation F)
  pub initial_global_safety_violations : List (GlobalSafetyViolation F)
  pub final_global_safety_violations : List (GlobalSafetyViolation F)
  pub global_safety_valid : Bool
  pub state_committed : Bool
  pub acquired_grants : List ℕ
  pub released_grants : List GrantRelease
  pub waiting_ages : Dict ℕ

-- models.FleetDecision
pub record FleetDecision (F : Type 0) : Type 0 where
  pub decisions : List RobotDecision
  pub tick_id : ℕ
  pub tick_metadata : TickMetadata F

abbrev source_code : DecisionSource → ReasonCode
source_code cp_sat = cp_sat_component_decision
source_code heuristic = heuristic_component_decision
source_code repair = no_all_paused_repair
source_code fail_safe = fail_safe_pause
source_code policy = direct_policy_decision

abbrev pub is_resumed : Option Action → Bool
is_resumed none = false
is_resumed (some Action.pause) = false
is_resumed (some resume) = true

abbrev code_if : Bool → ReasonCode → List ReasonCode
code_if true code = code ∷ []
code_if false code = []

-- The codes of `_reason_data`. Each code stands at one place, so `dict.fromkeys` drops none.
unfoldable pub reason_codes :
    {F : Type 0}
    → ℕ
    → RobotSnapshot F
    → DecisionSource
    → (isolated acquired hard_resumed overridden : Bool) → List ReasonCode
reason_codes robot_id snapshot source isolated acquired hard_resumed overridden =
    (if snapshot.stale
      then stale_static_obstacle ∷ []
      else if snapshot.at_goal
      then at_goal_pause ∷ []
      else code_if isolated isolated_active_resume)
    ++ source_code source ∷ code_if acquired right_of_way_grant_acquired
    ++ code_if hard_resumed active_grant_resume
    ++ code_if overridden global_safety_override

abbrev pub is_nonempty {ℓ} : {A : Type ℓ} → List A → Bool
is_nonempty [] = false
is_nonempty (x ∷ xs) = true

abbrev alarm_if : Bool → EngineAlarmCode → List EngineAlarmCode
alarm_if true code = code ∷ []
alarm_if false code = []

-- `alarm_codes`: the preview's list holds at most one alarm, so `dict.fromkeys` drops none.
unfoldable pub alarm_codes :
    List AlarmCode → (some_stale overlapping rejected uncommitted : Bool) → List EngineAlarmCode
alarm_codes alarms some_stale overlapping rejected uncommitted =
    map grant_alarm alarms
    ++ alarm_if some_stale prolonged_state_loss_static_obstacle
    ++ alarm_if overlapping current_footprint_overlap
    ++ alarm_if rejected global_safety_validation_failed
    ++ alarm_if uncommitted fail_safe_geometry_remains_unsafe
