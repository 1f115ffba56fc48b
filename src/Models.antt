-- ===== src/Models.antt =====
-- src/collision_monitor/models.py: poses, robot states, snapshots, actions and decisions.
--
-- Robot identifiers are strings that the program only compares for equality and order: they are
-- numbered in their order, 0 standing for the empty string. `F` is the type of floats and `Floats`
-- the operations on it that the code uses. A battery level is a number in a fixed small unit.
mod Batch
pub use Batch.*
use robot_fleet_management.Base.{
  ℕ, Bool, true, false, ◌&&◌, List, [], ◌∷◌, if◌then◌else◌, Result, ok, value_error, require, ◌>>◌,
  ◌>>=◌, not,
}

pub data Action : Type 0 where
  pause resume : Action

-- `action is Action.RESUME`
abbrev pub is_resume : Action → Bool
is_resume resume = true
is_resume pause = false

abbrev pub is_pause : Action → Bool
is_pause pause = true
is_pause resume = false

abbrev pub same_action : Action → Action → Bool
same_action pause pause = true
same_action resume resume = true
same_action pause resume = false
same_action resume pause = false

pub data DecisionSource : Type 0 where
  cp_sat heuristic repair fail_safe policy : DecisionSource

pub record Pose (F : Type 0) : Type 0 where
  pub x : F
  pub y : F
  pub theta : F

pub record RobotState (F : Type 0) : Type 0 where
  pub device_id : ℕ
  pub timestamp : ℕ
  pub pose : Pose F
  pub battery_level : ℕ
  pub loaded : Bool
  pub deadline : ℕ
  pub path : List (Pose F)

pub record RobotSnapshot (F : Type 0) : Type 0 where
  pub state : RobotState F
  pub received_at_ms : ℕ
  pub stale : Bool
  pub next_pose : Pose F
  pub at_goal : Bool

-- Python floats and the functions of `math`, which are not the program's.
pub record Floats : Type 1 where
  pub Float : Type 0
  pub zero : Float
  pub sub : Float → Float → Float
  pub abs : Float → Float
  pub sin : Float → Float
  pub cos : Float → Float
  pub atan2 : Float → Float → Float
  pub le : Float → Float → Bool
  pub lt : Float → Float → Bool

module _ (m : Floats) where
  open m use {Float, zero, sub, abs, sin, cos, atan2, le, lt}

  -- The difference of two headings, wrapped to a half turn either way.
  pub angle_delta : Float → Float → Float
  angle_delta a b = atan2 (sin (sub a b)) (cos (sub a b))

  unfoldable pub poses_equal : Pose Float → Pose Float → Float → Result Bool
  unfolding angle_delta
  poses_equal left right tolerance = do
    require (not (lt tolerance zero)) value_error
    ok (
        le (abs (sub left.x right.x)) tolerance
        && le (abs (sub left.y right.y)) tolerance
        && le (abs (angle_delta left.theta right.theta)) tolerance)

  unfoldable pub next_of : Pose Float → List (Pose Float) → Float → Result (Pose Float × Bool)
  unfolding poses_equal
  next_of current [] tolerance = ok (current, true)
  next_of current (first ∷ []) tolerance = ok (first, false)
  next_of current (first ∷ second ∷ rest) tolerance = do
    reached ← poses_equal current first tolerance
    ok (if reached then second else first, false)

  unfoldable pub derive_next_pose : RobotState Float → Float → Result (Pose Float × Bool)
  unfolding next_of
  derive_next_pose state tolerance = next_of state.pose state.path tolerance

  -- `RobotSnapshot.from_state`
  unfoldable pub from_state : RobotState Float → ℕ → Bool → Float → Result (RobotSnapshot Float)
  from_state state received_at_ms stale tolerance = do
    (next_pose, at_goal) ← derive_next_pose state tolerance
    ok (record {
      state = state;
      received_at_ms = received_at_ms;
      stale = stale;
      next_pose = next_pose;
      at_goal = at_goal;
    })
