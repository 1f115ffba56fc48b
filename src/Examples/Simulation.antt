-- ===== src/Examples/Simulation.antt =====
-- The theorems about the simulator: one robot with one node ahead, and a monitor that always
-- answers Resume.
use robot_fleet_management.Base.{
  ℕ, ◌≤◌, ◌≡◌, refl, true, false, all, length, [], ◌∷◌, none, some, ok, ◌⊎◌, sort_by, arith,
}
use robot_fleet_management.Models.{Pose, resume, pause, policy, derive_next_pose, poses_equal}
use robot_fleet_management.Engine.Codes.{direct_policy_decision}
use robot_fleet_management.Transport.Message.{ActionMessage, reason}
use robot_fleet_management.Simulator.Robot.{
  SimulatedRobot, new_robot, at_goal, advance_for_tick, receive_action, state_payload,
}
use robot_fleet_management.Simulator.Journey.{
  IsOnPath, Travelled-IsOnPath, created, derive_next_pose-advance,
}
use robot_fleet_management.Simulator.Scenario.{
  ScenarioDefinition, SimulatorTickOutcome, SimulatorTickTransport, SimulationResult, run_scenario,
}
use robot_fleet_management.Simulator.Limits.{run_scenario-within}
use robot_fleet_management.Examples.Service.{numbers}

abbrev node : ℕ → Pose ℕ
node x = record { x = x; y = 0; theta = 0 }

abbrev parked : SimulatedRobot ℕ
parked = record {
  robot_id = 1;
  pose = node 1;
  future_path = node 2 ∷ [];
  loaded = false;
  battery_level = 50;
  deadline_ms = 9000;
  latest_action = pause;
  action_received = false;
  pauses = 0;
  resumes = 0;
  nodes_advanced = 0;
  goal_tick = none;
  remaining_path = node 1 ∷ node 2 ∷ [];
  terminal_state_published = false;
}

Travelled-IsOnPath_example : IsOnPath (node 1) parked
unfolding new_robot
Travelled-IsOnPath_example =
    Travelled-IsOnPath (node 1) parked (created 1 (node 2 ∷ []) false 50 9000 parked refl)

derive_next_pose-advance_example :
    (r : SimulatedRobot ℕ) × (advance_for_tick 1 (receive_action resume parked) ≡ ok r)
    × (derive_next_pose numbers (state_payload 1000 parked) 0 ≡ ok (r.pose, at_goal parked))
unfolding new_robot poses_equal
derive_next_pose-advance_example =
    derive_next_pose-advance numbers (node 1) parked 1 1000 0
      (created 1 (node 2 ∷ []) false 50 9000 parked refl) (omega arith) refl

abbrev going : ℕ → ActionMessage
going r = record {
  run_id = 5;
  device_id = r;
  action = resume;
  tick_id = 1;
  decision_timestamp = 1000;
  source_state_timestamp = 1000;
  reason_codes = reason direct_policy_decision ∷ [];
  decision_source = policy;
  grant_active = false;
}

abbrev answer : SimulatorTickOutcome
answer = record { actions = (1, going 1) ∷ []; alarms = []; safety_valid = none }

abbrev always_go : SimulatorTickTransport ℕ
always_go = record { State = Unit {0}; exchange_tick = λ payloads ids s. (ok answer, s) }

abbrev short : ScenarioDefinition ℕ
short = record {
  tick_interval_us = 1_000_000;
  max_ticks = 5;
  robots =
      record {
        device_id = 1;
        initial_pose = node 1;
        path = node 2 ∷ [];
        loaded = false;
        battery_level = 50;
        deadline_offset_ms = 8000;
      }
      ∷ [];
}

abbrev arrived : SimulationResult
arrived = record {
  ticks = 2;
  completed = true;
  robots =
      record {
        robot_id = 1;
        pauses = 0;
        resumes = 1;
        nodes_advanced = 1;
        goal_reached = true;
        goal_tick = some 2;
      }
      ∷ [];
  alarms = [];
  tick_outcomes = answer ∷ answer ∷ [];
}

run_scenario-within_example :
    (1 ≤ arrived.ticks)
    × (arrived.ticks ≤ 5)
    × (length arrived.tick_outcomes ≡ arrived.ticks)
    × (arrived.completed ≡ all (λ x. x.goal_reached) arrived.robots)
    × ((arrived.completed ≡ true) ⊎ (arrived.ticks ≡ 5))
unfolding run_scenario sort_by
run_scenario-within_example = run_scenario-within always_go short 1000 none tt arrived refl
