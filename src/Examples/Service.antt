-- ===== src/Examples/Service.antt =====
-- The theorems about the transport and the service, on one robot.
use robot_fleet_management.Base.{
  ℕ, ◌-◌, ◌≡◌, refl, true, false, leb, ltb, List, [], ◌∷◌, ◌++◌, map, sorted, none, some, ok, arith,
  lookup, insert, sort_by,
}
use robot_fleet_management.Base.{repeats}
use robot_fleet_management.Priority.{
  PriorityBreakdown, score_component_priorities, score_robot_priority, new_breakdown,
}
use robot_fleet_management.Conflicts.Model.{component_constraints}
use robot_fleet_management.Conflicts.Build.{build_conflict_model, all_pairs}
use robot_fleet_management.StateStore.{snapshot}
use robot_fleet_management.Grants.Tick.{prepare_tick, preview_tick, commit_tick}
use robot_fleet_management.Grants.Group.{safe_relevant_grants, put_all}
use robot_fleet_management.Grants.Lifecycle.{reconcile_lifecycle}
use robot_fleet_management.Grants.Repair.{check_components, put_entries}
use robot_fleet_management.Grants.Acquire.{acquire_grants, update_fairness, component_of}
use robot_fleet_management.Grants.State.{new_preview, clone}
use robot_fleet_management.Engine.Validation.{
  normalise_snapshots, derive_staleness, validate_global_safety,
}
use robot_fleet_management.Engine.Solving.{score_priorities, solve_components}
use robot_fleet_management.Engine.Codes.{reason_codes, alarm_codes, RobotDecision}
use robot_fleet_management.Engine.Decide.{decide}
use robot_fleet_management.Models.{from_state, derive_next_pose, Floats, RobotState, resume, policy}
use robot_fleet_management.Config.{default_config}
use robot_fleet_management.Grants.State.{new_manager}
use robot_fleet_management.Engine.Codes.{direct_policy_decision, isolated_active_resume}
use robot_fleet_management.Transport.Message.{ActionMessage, reason}
use robot_fleet_management.Transport.Memory.{
  publish_action, InMemoryActionPublisher, in_memory, new_delivery, InMemoryStateDelivery,
}
use robot_fleet_management.Service.Publish.{publish_with_retry}
use robot_fleet_management.Service.Retry.{publish_with_retry-IsBounded, IsBounded}
use robot_fleet_management.Service.Retry.Counted.{Retried, publish_with_retry-Retried}
use robot_fleet_management.Service.Ingest.{CollisionMonitorService, consume_states}
use robot_fleet_management.Service.Settlement.{Settles, consume_states-Settles}
use robot_fleet_management.Service.Tick.{ServiceTickResult, run_tick, publication_complete}
use robot_fleet_management.Service.Actions.{IsKeyed, sent_by, command_of}
use robot_fleet_management.Service.Actions.Covers.{run_tick-covers}
use robot_fleet_management.Service.Actions.Published.{run_tick-published}
use robot_fleet_management.Examples.Ticks.{line, standing, build}

abbrev pub numbers : Floats
numbers = record {
  Float = ℕ;
  zero = 0;
  sub = λ a b. a - b;
  abs = λ a. a;
  sin = λ a. a;
  cos = λ a. a;
  atan2 = λ a b. a;
  le = leb;
  lt = ltb;
}

abbrev alone : PriorityBreakdown
alone = record {
  robot_id = 1;
  base_progress_value = 10;
  loaded_bonus = 0;
  deadline_urgency = 80;
  low_battery_urgency = 0;
  waiting_age_bonus = 0;
  active_grant_continuation_bonus = 0;
  clearance_bonus = 0;
  clearance_conflict_count = 0;
  remaining_slack_ms = 58500;
  secondary_score = 90;
  throughput_reward = 311;
  final_score = 401;
}

abbrev message : ActionMessage
message = record {
  run_id = 5;
  device_id = 1;
  action = resume;
  tick_id = 1;
  decision_timestamp = 1500;
  source_state_timestamp = 1000;
  reason_codes = reason direct_policy_decision ∷ [];
  decision_source = policy;
  grant_active = false;
}

-- The first attempt for the robot fails.
abbrev failing_once : InMemoryActionPublisher
failing_once = record { remaining_failures = (1, 1) ∷ []; attempt_counts = []; published = [] }

abbrev service : CollisionMonitorService ℕ InMemoryActionPublisher
service = record {
  store = (1, record { state = (standing 1 1).state; received_us = 0 }) ∷ [];
  grant_manager = new_manager;
  publisher = record { remaining_failures = []; attempt_counts = []; published = [] };
  tick_sequence = 0;
  rejected_state_count = 0;
}

publish_with_retry-IsBounded_example :
    IsBounded in_memory default_config message
      (publish_with_retry in_memory default_config message failing_once).0
publish_with_retry-IsBounded_example =
    publish_with_retry-IsBounded in_memory default_config message failing_once (omega arith)

publish_with_retry-Retried_example :
    Retried message default_config 3 failing_once
      (publish_with_retry in_memory default_config message failing_once)
publish_with_retry-Retried_example =
    publish_with_retry-Retried message default_config failing_once (omega arith)

abbrev late : List (InMemoryStateDelivery (RobotState ℕ) × ℕ)
late = (new_delivery (standing 2 3).state, 7) ∷ []

consume_states-Settles_example :
    Settles
      (λ s. some s)
      (λ s. some s.device_id)
      late
      service
      (consume_states (λ s. some s) (λ s. some s.device_id) late service)
consume_states-Settles_example =
    consume_states-Settles (λ s. some s) (λ s. some s.device_id) late service (refl, tt)

abbrev moving : RobotDecision
moving = record {
  robot_id = 1;
  action = resume;
  reason_codes = isolated_active_resume ∷ direct_policy_decision ∷ [];
  tick_id = 1;
  decision_source = policy;
  component = 1 ∷ [];
  priority = alone;
}

abbrev sent : ActionMessage
sent = record {
  run_id = 5;
  device_id = 1;
  action = resume;
  tick_id = 1;
  decision_timestamp = 1500;
  source_state_timestamp = 1000;
  reason_codes = reason isolated_active_resume ∷ reason direct_policy_decision ∷ [];
  decision_source = policy;
  grant_active = false;
}

abbrev moved : ServiceTickResult ℕ
moved = record {
  fleet_decision = record {
    decisions = moving ∷ [];
    tick_id = 1;
    tick_metadata = record {
      grant_tick_id = 1;
      component_diagnostics = [];
      final_decision_sources = (1, policy) ∷ [];
      priority_scores = (1, alone) ∷ [];
      grant_hard_assignments = [];
      alarms = [];
      prolonged_stale_robot_ids = [];
      current_footprint_overlaps = [];
      initial_global_safety_violations = [];
      final_global_safety_violations = [];
      global_safety_valid = true;
      state_committed = true;
      acquired_grants = [];
      released_grants = [];
      waiting_ages = (1, 0) ∷ [];
    };
  };
  action_messages = sent ∷ [];
  publication_failures = [];
}

moved_run :
    (run_tick in_memory default_config numbers line 1 build none 5 1000 1500 service).0 ≡ ok moved
unfolding run_tick snapshot decide normalise_snapshots repeats sort_by build_conflict_model
    derive_staleness all_pairs lookup insert validate_global_safety clone prepare_tick
    safe_relevant_grants reconcile_lifecycle score_priorities score_component_priorities
    score_robot_priority component_constraints solve_components preview_tick check_components
    new_breakdown commit_tick acquire_grants update_fairness component_of new_preview reason_codes
    alarm_codes put_all put_entries publish_with_retry from_state derive_next_pose publish_action
moved_run = refl

service-IsKeyed : IsKeyed service.store
unfolding lookup
service-IsKeyed r stored e = ground (arith, e)

run_tick-covers_example :
    (1 ∷ [] ≡ sorted (1 ∷ [])) × (map sent_by (sent ∷ []) ≡ map command_of (moving ∷ []))
run_tick-covers_example =
    run_tick-covers in_memory default_config numbers line 1 build none 5 1000 1500 service moved
      service-IsKeyed moved_run

run_tick-published_example :
    (publication_complete moved ≡ true)
    × ((run_tick in_memory default_config numbers line 1 build none 5 1000 1500
          service).1.publisher.published
        ≡ [] ++ sent ∷ [])
run_tick-published_example =
    run_tick-published default_config numbers line 1 build none 5 1000 1500 service moved refl
      (omega arith) moved_run
