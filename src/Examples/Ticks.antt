-- ===== src/Examples/Ticks.antt =====
-- The theorems about the engine on two robots on a line: each resumes by one step, so that robots
-- two steps apart may not both resume, and robots at one place conflict even when both stand.
use robot_fleet_management.Base.{
  repeats, inr, sorted, All, some, ℕ, ◌+◌, ◌≡◌, refl, true, false, ◌&&◌, leb, List, [], ◌∷◌, Memᴰ,
  none, Result, ok, sort_by, lookup, insert, arith,
}
use robot_fleet_management.Models.{Action, pause, resume, heuristic, fail_safe, RobotSnapshot}
use robot_fleet_management.Config.{default_config}
use robot_fleet_management.Conflicts.Model.{ConflictModel}
use robot_fleet_management.Conflicts.Build.{
  Envelopes, combinations, all_pairs, build_conflict_model,
}
use robot_fleet_management.Grants.State.{new_manager, GrantManager}
use robot_fleet_management.Priority.{PriorityBreakdown}
use robot_fleet_management.Optimiser.Solver.{unavailable, cp_sat_unavailable}
use robot_fleet_management.Heuristic.Solve.{no_feasible_assignment_found}
use robot_fleet_management.Grants.State.{clone, unresolvable_with_pause_resume}
use robot_fleet_management.Grants.Invariant.{IsSound}
use robot_fleet_management.Engine.Codes.{
  FleetDecision, RobotDecision, GlobalSafetyViolation, heuristic_component_decision,
  right_of_way_grant_acquired, fail_safe_pause, global_safety_override, grant_alarm,
  current_footprint_overlap, global_safety_validation_failed, fail_safe_geometry_remains_unsafe,
}
use robot_fleet_management.Engine.Validation.{
  mark_stale, validate_global_safety, normalise_snapshots, derive_staleness,
}
use robot_fleet_management.Grants.Tick.{prepare_tick, preview_tick, commit_tick}
use robot_fleet_management.Grants.Group.{safe_relevant_grants, put_all}
use robot_fleet_management.Grants.Lifecycle.{reconcile_lifecycle}
use robot_fleet_management.Grants.Repair.{check_components, put_entries}
use robot_fleet_management.Grants.Acquire.{acquire_grants, update_fairness, component_of}
use robot_fleet_management.Grants.State.{new_preview, new_grant}
use robot_fleet_management.Priority.{
  score_component_priorities, score_robot_priority, new_breakdown,
}
use robot_fleet_management.Conflicts.Model.{component_constraints}
use robot_fleet_management.Optimiser.Objective.{build_objective_encoding}
use robot_fleet_management.Optimiser.Validate.{validate_component_decisions}
use robot_fleet_management.Optimiser.Solver.{optimise}
use robot_fleet_management.Heuristic.Clause.{build_clauses}
use robot_fleet_management.Heuristic.Propagate.{propagated, try_assignment}
use robot_fleet_management.Heuristic.Greedy.{greedy_pass, greedy_loop, choose}
use robot_fleet_management.Heuristic.Solve.{solve}
use robot_fleet_management.Engine.Solving.{score_priorities, solve_components}
use robot_fleet_management.Engine.Codes.{reason_codes, alarm_codes}
use robot_fleet_management.Engine.Decide.{by_key}
use robot_fleet_management.Engine.Safety.{validate_global_safety-clear}
use robot_fleet_management.Engine.Commands.{decide-IsSafe, decide-covers}
use robot_fleet_management.Engine.Override.{decide-pauses}
use robot_fleet_management.Engine.Transaction.{started, after_decide, Kept-IsSound, decide-keeps}
use robot_fleet_management.Engine.Decide.{decide}

abbrev reach : Action → ℕ
reach pause = 0
reach resume = 1

abbrev pub line : Envelopes ℕ
line = record {
  Envelope = ℕ × ℕ;
  action_envelope = λ s a. ok (s.state.pose.x, reach a);
  geometries_conflict = λ (x, r) (y, t). leb x (y + (r + t)) && leb y (x + (r + t));
  bounds = λ (x, r). (x, 0, x + r, 0);
}

abbrev pub standing : ℕ → ℕ → RobotSnapshot ℕ
standing r x = record {
  state = record {
    device_id = r;
    timestamp = 1000;
    pose = record { x = x; y = 0; theta = 0 };
    battery_level = 50_000_000;
    loaded = false;
    deadline = 60000;
    path = record { x = x; y = 0; theta = 0 } ∷ [];
  };
  received_at_ms = 1000;
  stale = false;
  next_pose = record { x = x + 1; y = 0; theta = 0 };
  at_goal = false;
}

abbrev pub build : List (RobotSnapshot ℕ) → Result (ConflictModel ℕ)
build = build_conflict_model line all_pairs

abbrev apart : List (RobotSnapshot ℕ)
apart = standing 2 3 ∷ standing 1 1 ∷ []

abbrev scored_with : (bonus count robot_id : ℕ) → PriorityBreakdown
scored_with bonus count r = record {
  robot_id = r;
  base_progress_value = 10;
  loaded_bonus = 0;
  deadline_urgency = 80;
  low_battery_urgency = 0;
  waiting_age_bonus = 0;
  active_grant_continuation_bonus = 0;
  clearance_bonus = bonus;
  clearance_conflict_count = count;
  remaining_slack_ms = 58500;
  secondary_score = 90 + bonus;
  throughput_reward = 671;
  final_score = 761 + bonus;
}

abbrev first : RobotDecision
first = record {
  robot_id = 1;
  action = resume;
  reason_codes = heuristic_component_decision ∷ right_of_way_grant_acquired ∷ [];
  tick_id = 7;
  decision_source = heuristic;
  component = 1 ∷ 2 ∷ [];
  priority = scored_with 25 1 1;
}

abbrev second : RobotDecision
second = record {
  robot_id = 2;
  action = pause;
  reason_codes = heuristic_component_decision ∷ [];
  tick_id = 7;
  decision_source = heuristic;
  component = 1 ∷ 2 ∷ [];
  priority = scored_with 25 1 2;
}

abbrev passing : FleetDecision ℕ
passing = record {
  decisions = first ∷ second ∷ [];
  tick_id = 7;
  tick_metadata = record {
    grant_tick_id = 1;
    component_diagnostics =
        record {
          component = 1 ∷ 2 ∷ [];
          method = heuristic;
          solver_status = some unavailable;
          fallback_reason = some cp_sat_unavailable;
          heuristic_reason = none;
          progress_made = some true;
        }
        ∷ [];
    final_decision_sources = (1, heuristic) ∷ (2, heuristic) ∷ [];
    priority_scores = (1, scored_with 25 1 1) ∷ (2, scored_with 25 1 2) ∷ [];
    grant_hard_assignments = [];
    alarms = [];
    prolonged_stale_robot_ids = [];
    current_footprint_overlaps = [];
    initial_global_safety_violations = [];
    final_global_safety_violations = [];
    global_safety_valid = true;
    state_committed = true;
    acquired_grants = 1 ∷ [];
    released_grants = [];
    waiting_ages = (1, 0) ∷ (2, 1) ∷ [];
  };
}

abbrev overlap : GlobalSafetyViolation ℕ
overlap = record {
  robot_i = 1;
  action_i = pause;
  robot_j = 2;
  action_j = pause;
  bounds_i = (1, 0, 1, 0);
  bounds_j = (1, 0, 1, 0);
}

abbrev halted : ℕ → RobotDecision
halted r = record {
  robot_id = r;
  action = pause;
  reason_codes = fail_safe_pause ∷ global_safety_override ∷ [];
  tick_id = 7;
  decision_source = fail_safe;
  component = 1 ∷ 2 ∷ [];
  priority = scored_with 0 0 r;
}

abbrev stuck : FleetDecision ℕ
stuck = record {
  decisions = halted 1 ∷ halted 2 ∷ [];
  tick_id = 7;
  tick_metadata = record {
    grant_tick_id = 1;
    component_diagnostics =
        record {
          component = 1 ∷ 2 ∷ [];
          method = fail_safe;
          solver_status = some unavailable;
          fallback_reason = some cp_sat_unavailable;
          heuristic_reason = some no_feasible_assignment_found;
          progress_made = some false;
        }
        ∷ [];
    final_decision_sources = (1, fail_safe) ∷ (2, fail_safe) ∷ [];
    priority_scores = (1, scored_with 0 0 1) ∷ (2, scored_with 0 0 2) ∷ [];
    grant_hard_assignments = [];
    alarms =
        grant_alarm unresolvable_with_pause_resume
        ∷ current_footprint_overlap
        ∷ global_safety_validation_failed
        ∷ fail_safe_geometry_remains_unsafe
        ∷ [];
    prolonged_stale_robot_ids = [];
    current_footprint_overlaps = overlap ∷ [];
    initial_global_safety_violations = overlap ∷ [];
    final_global_safety_violations = overlap ∷ [];
    global_safety_valid = false;
    state_committed = false;
    acquired_grants = [];
    released_grants = [];
    waiting_ages = [];
  };
}

abbrev together : List (RobotSnapshot ℕ)
together = standing 1 1 ∷ standing 2 1 ∷ []

passing_run : (decide line default_config build none apart 1500 7 new_manager).0 ≡ ok passing
unfolding decide normalise_snapshots repeats sort_by build_conflict_model derive_staleness all_pairs
    lookup insert validate_global_safety clone prepare_tick safe_relevant_grants reconcile_lifecycle
    score_priorities score_component_priorities score_robot_priority component_constraints
    solve_components optimise solve build_clauses build_objective_encoding greedy_pass propagated
    greedy_loop choose validate_component_decisions preview_tick check_components new_breakdown
    commit_tick acquire_grants update_fairness component_of new_preview reason_codes alarm_codes
    put_all put_entries try_assignment new_grant
passing_run = refl

stuck_run : (decide line default_config build none together 1500 7 new_manager).0 ≡ ok stuck
unfolding decide normalise_snapshots repeats sort_by build_conflict_model derive_staleness all_pairs
    lookup insert validate_global_safety clone prepare_tick safe_relevant_grants reconcile_lifecycle
    score_priorities score_component_priorities score_robot_priority component_constraints
    solve_components optimise solve build_clauses build_objective_encoding greedy_pass propagated
    greedy_loop choose validate_component_decisions preview_tick check_components new_breakdown
    commit_tick acquire_grants update_fairness component_of new_preview reason_codes alarm_codes
    put_all put_entries try_assignment
stuck_run = refl

decide-IsSafe_example : line.geometries_conflict (1, 1) (3, 0) ≡ false
unfolding mark_stale
decide-IsSafe_example =
    decide-IsSafe line default_config build none apart 1500 7 new_manager passing passing_run
      (standing 1 1) (standing 2 3) first second (1, 1) (3, 0) refl (Memᴰ.tail (Memᴰ.head refl))
      (Memᴰ.head refl) (omega arith) (Memᴰ.head refl) (Memᴰ.tail (Memᴰ.head refl)) refl refl refl
      refl

decide-covers_example :
    (1 ∷ 2 ∷ [] ≡ sorted (2 ∷ 1 ∷ [])) × All (λ p. p.tick_id ≡ 7) (first ∷ second ∷ [])
decide-covers_example =
    decide-covers line default_config build none apart 1500 7 new_manager passing passing_run

decide-pauses_example :
    (pause ≡ pause)
    × (fail_safe ≡ fail_safe)
    × Memᴰ global_safety_override (fail_safe_pause ∷ global_safety_override ∷ [])
decide-pauses_example =
    decide-pauses line default_config build none together 1500 7 new_manager stuck stuck_run overlap
      (halted 2) (Memᴰ.head refl) (Memᴰ.tail (Memᴰ.head refl)) (inr refl)

Kept-IsSound_example :
    IsSound default_config (decide line default_config build none apart 1500 7 new_manager).1
    × ((decide line default_config build none apart 1500 7 new_manager).1.tick_open ≡ false)
    × ((copy : GrantManager) × (clone
            (decide line default_config build none apart 1500 7 new_manager).1
          ≡ ok copy))
Kept-IsSound_example =
    Kept-IsSound line default_config build none
      (decide line default_config build none apart 1500 7 new_manager).1
      (after_decide apart 1500 7 new_manager started)

decide-keeps_example :
    ((decide line default_config build none together 1500 7 new_manager).1 ≡ new_manager)
    × (stuck.tick_metadata.acquired_grants ≡ [])
    × (stuck.tick_metadata.released_grants ≡ [])
    × (stuck.tick_metadata.waiting_ages ≡ sort_by by_key new_manager.waiting_ages)
    × Memᴰ fail_safe_geometry_remains_unsafe stuck.tick_metadata.alarms
decide-keeps_example =
    decide-keeps line default_config build none together 1500 7 new_manager stuck stuck_run refl

validate_global_safety-clear_example : line.geometries_conflict (1, 1) (3, 0) ≡ false
unfolding validate_global_safety repeats sort_by lookup combinations
validate_global_safety-clear_example =
    validate_global_safety-clear line ((1, resume) ∷ (2, pause) ∷ []) apart (standing 1 1)
      (standing 2 3) resume pause (1, 1) (3, 0) refl (Memᴰ.tail (Memᴰ.head refl)) (Memᴰ.head refl)
      (omega arith) refl refl refl refl
