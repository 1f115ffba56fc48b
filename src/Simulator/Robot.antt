-- ===== src/Simulator/Robot.antt =====
-- simulator.robot: a robot that advances at most one node of its path in a tick.
--
-- A payload is the RobotState that the monitor validates from it.
use robot_fleet_management.Base.{
  ℕ, ◌+◌, Bool, true, false, not, ◌||◌, leb, if◌then◌else◌, List, [], ◌∷◌, length, Option, none,
  some, Result, ok, ◌>>◌, value_error, require,
}
use robot_fleet_management.Models.{Action, pause, is_pause, is_resume, Pose, RobotState}
use robot_fleet_management.Config.{full_battery}

pub record RobotSimulationSummary : Type 0 where
  pub robot_id : ℕ
  pub pauses : ℕ
  pub resumes : ℕ
  pub nodes_advanced : ℕ
  pub goal_reached : Bool
  pub goal_tick : Option ℕ

pub record SimulatedRobot (F : Type 0) : Type 0 where
  pub robot_id : ℕ
  pub pose : Pose F
  pub future_path : List (Pose F)
  pub loaded : Bool
  pub battery_level : ℕ
  pub deadline_ms : ℕ
  pub latest_action : Action
  pub action_received : Bool
  pub pauses : ℕ
  pub resumes : ℕ
  pub nodes_advanced : ℕ
  pub goal_tick : Option ℕ
  pub remaining_path : List (Pose F)
  pub terminal_state_published : Bool

abbrev first_goal_tick : Bool → ℕ → Option ℕ → Option ℕ
first_goal_tick arrived tick none = if arrived then some tick else none
first_goal_tick arrived tick (some earlier) = some earlier

module _ {F : Type 0} where
  -- SimulatedRobot(...) with its defaults and its __post_init__.
  unfoldable pub new_robot :
      ℕ
      → Pose F
      → List (Pose F)
      → Bool
      → (battery_level deadline_ms : ℕ) → Result (SimulatedRobot F)
  new_robot robot_id pose future_path loaded battery_level deadline_ms = do
    require (leb 1 robot_id) value_error
    require (leb battery_level full_battery) value_error
    ok (record {
      robot_id = robot_id;
      pose = pose;
      future_path = future_path;
      loaded = loaded;
      battery_level = battery_level;
      deadline_ms = deadline_ms;
      latest_action = pause;
      action_received = false;
      pauses = 0;
      resumes = 0;
      nodes_advanced = 0;
      goal_tick = none;
      remaining_path = pose ∷ future_path;
      terminal_state_published = false;
    })

  abbrev pub at_goal : SimulatedRobot F → Bool
  at_goal r = leb (length r.remaining_path) 1

  unfoldable pub should_publish_state : SimulatedRobot F → Bool
  should_publish_state r = not (at_goal r) || not r.terminal_state_published

  -- `self._remaining_path.pop(0)` and the assignments after it, on the path before them.
  unfoldable pub pop_node : ℕ → List (Pose F) → SimulatedRobot F → SimulatedRobot F
  pop_node tick [] r = r
  pop_node tick (here ∷ []) r = r
  pop_node tick (here ∷ next ∷ rest) r = record {
    robot_id = r.robot_id;
    pose = next;
    future_path = r.future_path;
    loaded = r.loaded;
    battery_level = r.battery_level;
    deadline_ms = r.deadline_ms;
    latest_action = r.latest_action;
    action_received = r.action_received;
    pauses = r.pauses;
    resumes = r.resumes;
    nodes_advanced = r.nodes_advanced + 1;
    goal_tick = first_goal_tick (leb (length (next ∷ rest)) 1) tick r.goal_tick;
    remaining_path = next ∷ rest;
    terminal_state_published = r.terminal_state_published;
  }

  unfoldable pub advance_for_tick : ℕ → SimulatedRobot F → Result (SimulatedRobot F)
  unfolding pop_node
  advance_for_tick tick r = do
    require (leb 1 tick) value_error
    ok (if at_goal r || is_pause r.latest_action then r else pop_node tick r.remaining_path r)

  unfoldable pub receive_action : Action → SimulatedRobot F → SimulatedRobot F
  receive_action action r = record {
    robot_id = r.robot_id;
    pose = r.pose;
    future_path = r.future_path;
    loaded = r.loaded;
    battery_level = r.battery_level;
    deadline_ms = r.deadline_ms;
    latest_action = action;
    action_received = true;
    pauses = if is_resume action then r.pauses else r.pauses + 1;
    resumes = if is_resume action then r.resumes + 1 else r.resumes;
    nodes_advanced = r.nodes_advanced;
    goal_tick = r.goal_tick;
    remaining_path = r.remaining_path;
    terminal_state_published = r.terminal_state_published;
  }

  -- A time is a natural number, so the check for a negative one has no counterpart.
  unfoldable pub state_payload : ℕ → SimulatedRobot F → RobotState F
  state_payload timestamp_ms r = record {
    device_id = r.robot_id;
    timestamp = timestamp_ms;
    pose = r.pose;
    battery_level = r.battery_level;
    loaded = r.loaded;
    deadline = r.deadline_ms;
    path = if at_goal r then [] else r.remaining_path;
  }

  unfoldable pub mark_state_published : SimulatedRobot F → SimulatedRobot F
  mark_state_published r = record {
    robot_id = r.robot_id;
    pose = r.pose;
    future_path = r.future_path;
    loaded = r.loaded;
    battery_level = r.battery_level;
    deadline_ms = r.deadline_ms;
    latest_action = r.latest_action;
    action_received = r.action_received;
    pauses = r.pauses;
    resumes = r.resumes;
    nodes_advanced = r.nodes_advanced;
    goal_tick = r.goal_tick;
    remaining_path = r.remaining_path;
    terminal_state_published = r.terminal_state_published || at_goal r;
  }

  unfoldable pub summary : SimulatedRobot F → RobotSimulationSummary
  summary r = record {
    robot_id = r.robot_id;
    pauses = r.pauses;
    resumes = r.resumes;
    nodes_advanced = r.nodes_advanced;
    goal_reached = at_goal r;
    goal_tick = r.goal_tick;
  }
