-- ===== src/Simulator/Scenario.antt =====
-- simulator.scenario: scenarios, and the loop that runs one against any transport. The pacing in
-- real time and the closing of the transport have no counterpart, and the names, the description
-- and the nominal speed of a scenario are left out.
use robot_fleet_management.Base.{
  ℕ, suc, zero, ◌+◌, ◌*◌, ◌-◌, ◌/◌, ◌==◌, Bool, ◌&&◌, ltb, leb, if◌then◌else◌, List, [], ◌∷◌, ◌++◌,
  map, keep_if, all, any, length, distinct, sorted, sort_by, before_key, Option, none, some, Dict,
  Result, ok, raise, ◌>>=◌, ◌>>◌, value_error, key_error, validation_error, require,
}
use robot_fleet_management.Models.{Pose, RobotState}
use robot_fleet_management.Config.{full_battery}
use robot_fleet_management.Grants.State.{unresolvable_with_pause_resume}
use robot_fleet_management.Engine.Codes.{
  EngineAlarmCode, grant_alarm, prolonged_state_loss_static_obstacle, current_footprint_overlap,
  global_safety_validation_failed, fail_safe_geometry_remains_unsafe,
}
use robot_fleet_management.Transport.Message.{ActionMessage}
use robot_fleet_management.Simulator.Robot.{
  SimulatedRobot, RobotSimulationSummary, new_robot, at_goal, should_publish_state,
  advance_for_tick, receive_action, state_payload, mark_state_published, summary,
}

pub record ScenarioRobot (F : Type 0) : Type 0 where
  pub device_id : ℕ
  pub initial_pose : Pose F
  pub path : List (Pose F)
  pub loaded : Bool
  pub battery_level : ℕ
  pub deadline_offset_ms : ℕ

pub record ScenarioDefinition (F : Type 0) : Type 0 where
  pub tick_interval_us : ℕ
  pub max_ticks : ℕ
  pub robots : List (ScenarioRobot F)

pub record SimulatorTickOutcome : Type 0 where
  pub actions : Dict ActionMessage
  pub alarms : List EngineAlarmCode
  pub safety_valid : Option Bool

-- `SimulatorTickTransport`: one exchange of states for actions, with the adapter's own state.
pub record SimulatorTickTransport (F : Type 0) : Type 1 where
  pub State : Type 0
  pub exchange_tick : List (RobotState F) → List ℕ → State → Result SimulatorTickOutcome × State

pub record SimulationResult : Type 0 where
  pub ticks : ℕ
  pub completed : Bool
  pub robots : List RobotSimulationSummary
  pub alarms : List EngineAlarmCode
  pub tick_outcomes : List SimulatorTickOutcome

unfoldable pub total_pauses : List RobotSimulationSummary → ℕ
total_pauses [] = 0
total_pauses (r ∷ rs) = r.pauses + total_pauses rs

unfoldable pub total_resumes : List RobotSimulationSummary → ℕ
total_resumes [] = 0
total_resumes (r ∷ rs) = r.resumes + total_resumes rs

abbrev alarm_number : EngineAlarmCode → ℕ
alarm_number (grant_alarm unresolvable_with_pause_resume) = 0
alarm_number prolonged_state_loss_static_obstacle = 1
alarm_number current_footprint_overlap = 2
alarm_number global_safety_validation_failed = 3
alarm_number fail_safe_geometry_remains_unsafe = 4

-- `dict.fromkeys`: the first occurrence of each alarm, beside those seen before.
unfoldable pub first_alarms : List EngineAlarmCode → List EngineAlarmCode → List EngineAlarmCode
first_alarms seen [] = []
first_alarms seen (a ∷ as') =
    let rest = first_alarms (a ∷ seen) as' in
    if any (λ b. alarm_number b == alarm_number a) seen then rest else a ∷ rest

module _ {F : Type 0} where
  abbrev valid_robot : ScenarioRobot F → Bool
  valid_robot r = leb 1 r.device_id && leb r.battery_level full_battery

  -- ScenarioDefinition(...), with the bounds of its fields and its validator.
  unfoldable pub new_scenario : ScenarioDefinition F → Result (ScenarioDefinition F)
  new_scenario s = do
    require (ltb 0 s.tick_interval_us) validation_error
    require (leb 1 s.max_ticks) validation_error
    require (leb 1 (length s.robots)) validation_error
    require (all valid_robot s.robots) validation_error
    require (distinct (map (λ r. r.device_id) s.robots)) validation_error
    ok s

  create_each : ℕ → List (ScenarioRobot F) → Result (List (SimulatedRobot F))
  unfolding new_robot
  create_each start_epoch_ms [] = ok []
  create_each start_epoch_ms (r ∷ rs) = do
    robot ←
        new_robot r.device_id r.initial_pose r.path r.loaded r.battery_level
          (start_epoch_ms + r.deadline_offset_ms)
    rest ← create_each start_epoch_ms rs
    ok (robot ∷ rest)

  unfoldable pub create_robots : ScenarioDefinition F → ℕ → Result (List (SimulatedRobot F))
  unfolding create_each
  create_robots s start_epoch_ms =
      create_each start_epoch_ms (sort_by (before_key (λ r. r.device_id)) s.robots)

  unfoldable pub advance_all : ℕ → List (SimulatedRobot F) → Result (List (SimulatedRobot F))
  unfolding advance_for_tick
  advance_all tick [] = ok []
  advance_all tick (r ∷ rs) = do
    advanced ← advance_for_tick tick r
    rest ← advance_all tick rs
    ok (advanced ∷ rest)

  -- The robots that published their state are marked.
  unfoldable pub mark_published : SimulatedRobot F → SimulatedRobot F
  unfolding should_publish_state mark_state_published
  mark_published r = if should_publish_state r then mark_state_published r else r

  abbrev act_on : ActionMessage → SimulatedRobot F → SimulatedRobot F
  act_on message r = if at_goal r then r else receive_action message.action r

  -- The robots with the action for one of them.
  unfoldable pub deliver_to :
      ℕ → ActionMessage → List (SimulatedRobot F) → Result (List (SimulatedRobot F))
  unfolding receive_action
  deliver_to robot_id message [] = raise key_error
  deliver_to robot_id message (r ∷ rs) =
      let further : Result (List (SimulatedRobot F)) = do
        rest ← deliver_to robot_id message rs
        ok (r ∷ rest)
      in if r.robot_id == robot_id then ok (act_on message r ∷ rs) else further

  unfoldable pub deliver_actions :
      Dict ActionMessage → List (SimulatedRobot F) → Result (List (SimulatedRobot F))
  unfolding deliver_to
  deliver_actions [] robots = ok robots
  deliver_actions ((robot_id, message) ∷ actions) robots = do
    next ← deliver_to robot_id message robots
    deliver_actions actions next

abbrev pub tick_limit : {F : Type 0} → ScenarioDefinition F → Option ℕ → ℕ
tick_limit s none = s.max_ticks
tick_limit s (some ticks) = ticks

module _ {F : Type 0} (transport : SimulatorTickTransport F) where
  -- The robots, the tick's outcome and the transport after one pass of the loop's body.
  unfoldable pub run_one :
      (tick timestamp_ms : ℕ)
      → List (SimulatedRobot F)
      → transport.State
      → Result (List (SimulatedRobot F) × SimulatorTickOutcome × transport.State)
  unfolding advance_all should_publish_state state_payload mark_published deliver_actions
  run_one tick timestamp_ms robots s = do
    advanced ← advance_all tick robots
    let payloads = map (state_payload timestamp_ms) (keep_if should_publish_state advanced)
    let (outcome, s') = transport.exchange_tick payloads (sorted (map (λ r. r.robot_id) robots)) s
    received ← outcome
    delivered ← deliver_actions received.actions (map mark_published advanced)
    ok (delivered, received, s')

  -- The loop from a tick on, with the number of ticks that its range still holds: the last tick
  -- run, the robots and the outcomes.
  unfoldable pub run_ticks :
      (start duration_ms left tick : ℕ)
      → List (SimulatedRobot F)
      → transport.State
      → Result (ℕ × List (SimulatedRobot F) × List SimulatorTickOutcome)
  unfolding run_one
  run_ticks start duration_ms zero tick robots s = ok (tick - 1, robots, [])
  run_ticks start duration_ms (suc left) tick robots s = do
    (moved, outcome, s') ← run_one tick (start + (tick - 1) * duration_ms) robots s
    let rest = run_ticks start duration_ms left (tick + 1) moved s'
    (last, final, outcomes) ← if all at_goal moved then ok (tick, moved, []) else rest
    ok (last, final, outcome ∷ outcomes)

  abbrev all_alarms : List SimulatorTickOutcome → List EngineAlarmCode
  all_alarms [] = []
  all_alarms (o ∷ os) = o.alarms ++ all_alarms os

  unfoldable pub run_scenario :
      ScenarioDefinition F
      → (start_epoch_ms : ℕ) → Option ℕ
      → transport.State
      → Result SimulationResult
  unfolding create_robots run_ticks summary first_alarms
  run_scenario scenario start_epoch_ms maximum_ticks s = do
    robots ← create_robots scenario start_epoch_ms
    let limit = tick_limit scenario maximum_ticks
    require (leb 1 limit) value_error
    (last, final, outcomes) ←
        run_ticks start_epoch_ms (scenario.tick_interval_us / 1000) limit 1 robots s
    ok (record {
      ticks = last;
      completed = all at_goal final;
      robots = map summary final;
      alarms = first_alarms [] (all_alarms outcomes);
      tick_outcomes = outcomes;
    })
