-- ===== src/Priority/Score.antt =====
-- priority.py: the terms of one robot's score, and the scores of a component. Integers that the
-- source checks to be non-negative are natural numbers.
use robot_fleet_management.Base.{
  ℕ, ◌+◌, ◌-◌, ◌*◌, ◌/◌, min, Bool, true, false, ◌&&◌, ◌==◌, ltb, leb, if◌then◌else◌, List, [], ◌∷◌,
  length, all, elem, distinct, sorted, Dict, lookup, insert, keys, Result, ok, ◌>>=◌, ◌>>◌,
  value_error, key_error, require, or_raise,
}
use robot_fleet_management.Config.{MonitorConfig}
use robot_fleet_management.Models.{pause, resume, RobotSnapshot}
use robot_fleet_management.Conflicts.Pairs.{PairwiseCompatibility, forbidden_assignments}
use robot_fleet_management.Conflicts.Model.{ConflictModel, component_constraints}

pub record PriorityBounds : Type 0 where
  pub component_size : ℕ
  pub maximum_secondary_per_robot : ℕ
  pub maximum_component_secondary : ℕ
  pub throughput_reward : ℕ

pub record PriorityBreakdown : Type 0 where
  pub robot_id : ℕ
  pub base_progress_value : ℕ
  pub loaded_bonus : ℕ
  pub deadline_urgency : ℕ
  pub low_battery_urgency : ℕ
  pub waiting_age_bonus : ℕ
  pub active_grant_continuation_bonus : ℕ
  pub clearance_bonus : ℕ
  pub clearance_conflict_count : ℕ
  pub remaining_slack_ms : ℕ
  pub secondary_score : ℕ
  pub throughput_reward : ℕ
  pub final_score : ℕ

-- The right side of the check of PriorityBreakdown.__post_init__.
abbrev pub secondary_sum : PriorityBreakdown → ℕ
secondary_sum b =
    b.base_progress_value + b.loaded_bonus + b.deadline_urgency + b.low_battery_urgency
    + b.waiting_age_bonus + b.active_grant_continuation_bonus + b.clearance_bonus

-- PriorityBreakdown(...), with its __post_init__.
unfoldable pub new_breakdown : PriorityBreakdown → Result PriorityBreakdown
new_breakdown b = do
  require (b.secondary_score == secondary_sum b) value_error
  require (b.final_score == b.throughput_reward + b.secondary_score) value_error
  ok b

-- PriorityBounds(...), with its __post_init__.
unfoldable pub new_bounds : PriorityBounds → Result PriorityBounds
new_bounds b = do
  require (leb 1 b.component_size) value_error
  require (ltb b.maximum_component_secondary b.throughput_reward) value_error
  ok b

abbrev pub per_robot : ℕ → MonitorConfig → ℕ
per_robot component_size c =
    c.priority_base_progress_value
    + c.priority_loaded_bonus
    + c.priority_deadline_urgency_maximum
    + c.priority_low_battery_urgency_bonus
    + c.priority_waiting_age_cap_ticks * c.priority_waiting_age_bonus_per_tick
    + c.priority_active_grant_continuation_bonus
    + (component_size - 1) * c.priority_clearance_bonus_per_conflict

unfoldable pub priority_bounds : ℕ → MonitorConfig → Result PriorityBounds
unfolding new_bounds
priority_bounds component_size c = do
  require (leb 1 component_size) value_error
  let maximum = per_robot component_size c
  new_bounds (record {
    component_size = component_size;
    maximum_secondary_per_robot = maximum;
    maximum_component_secondary = component_size * maximum;
    throughput_reward = component_size * maximum + 1;
  })

-- The urgency and the slack. `-` on ℕ stops at 0 as `max(deadline_ms - now_ms, 0)` does.
unfoldable pub deadline_urgency : ℕ → ℕ → MonitorConfig → ℕ × ℕ
deadline_urgency deadline_ms now_ms c =
    let slack_ms = deadline_ms - now_ms in
    let bounded_slack = min slack_ms c.priority_deadline_horizon_ms in
    (
      c.priority_deadline_urgency_maximum
          * (c.priority_deadline_horizon_ms - bounded_slack)
          / c.priority_deadline_horizon_ms,
      slack_ms,
    )

module _ {F : Type 0} where
  is_conflict : PairwiseCompatibility F → Bool
  unfolding forbidden_assignments
  is_conflict p = elim (forbidden_assignments p) [ [] ↦ false | a ∷ rest ↦ true ]

  can_clear : ℕ → PairwiseCompatibility F → Bool
  can_clear robot_id p =
      if robot_id == p.robot_i
      then p.compatibility resume pause
      else if robot_id == p.robot_j
      then p.compatibility pause resume
      else false

  unfoldable pub clearance_opportunity_count : ℕ → List (PairwiseCompatibility F) → ℕ
  unfolding is_conflict can_clear
  clearance_opportunity_count robot_id [] = 0
  clearance_opportunity_count robot_id (p ∷ pairs) =
      (if is_conflict p && can_clear robot_id p then 1 else 0)
      + clearance_opportunity_count robot_id pairs

  unfoldable pub score_robot_priority :
      RobotSnapshot F
      → List (PairwiseCompatibility F)
      → MonitorConfig
      → (now_ms waiting_age : ℕ) → Bool
      → ℕ
      → Result PriorityBreakdown
  unfolding priority_bounds deadline_urgency clearance_opportunity_count new_breakdown
  score_robot_priority snapshot pairs c now_ms waiting_age active_grant component_size = do
    bounds ← priority_bounds component_size c
    let (urgency, slack_ms) = deadline_urgency snapshot.state.deadline now_ms c
    let loaded_bonus = if snapshot.state.loaded then c.priority_loaded_bonus else 0
    let low_battery =
        if ltb snapshot.state.battery_level c.priority_low_battery_threshold
        then c.priority_low_battery_urgency_bonus
        else 0
    let waiting_bonus =
        min waiting_age c.priority_waiting_age_cap_ticks * c.priority_waiting_age_bonus_per_tick
    let grant_bonus = if active_grant then c.priority_active_grant_continuation_bonus else 0
    let clearance_count = clearance_opportunity_count snapshot.state.device_id pairs
    require (leb clearance_count (component_size - 1)) value_error
    let clearance_bonus = clearance_count * c.priority_clearance_bonus_per_conflict
    let secondary =
        c.priority_base_progress_value + loaded_bonus + urgency + low_battery + waiting_bonus
        + grant_bonus + clearance_bonus
    require (leb secondary bounds.maximum_secondary_per_robot) value_error
    new_breakdown (record {
      robot_id = snapshot.state.device_id;
      base_progress_value = c.priority_base_progress_value;
      loaded_bonus = loaded_bonus;
      deadline_urgency = urgency;
      low_battery_urgency = low_battery;
      waiting_age_bonus = waiting_bonus;
      active_grant_continuation_bonus = grant_bonus;
      clearance_bonus = clearance_bonus;
      clearance_conflict_count = clearance_count;
      remaining_slack_ms = slack_ms;
      secondary_score = secondary;
      throughput_reward = bounds.throughput_reward;
      final_score = bounds.throughput_reward + secondary;
    })

  -- The dictionary comprehension over the ordered component.
  unfoldable pub score_each :
      ConflictModel F
      → List (PairwiseCompatibility F)
      → MonitorConfig
      → ℕ
      → Dict ℕ
      → List ℕ
      → ℕ
      → List ℕ
      → Dict PriorityBreakdown
      → Result (Dict PriorityBreakdown)
  score_each m pairs c now_ms ages grants size [] scores = ok scores
  score_each m pairs c now_ms ages grants size (r ∷ rs) scores = do
    snapshot ← or_raise (lookup r m.snapshots) key_error
    age ← or_raise (lookup r ages) key_error
    score ← score_robot_priority snapshot pairs c now_ms age (elem r grants) size
    score_each m pairs c now_ms ages grants size rs (insert r score scores)

  unfoldable pub score_component_priorities :
      List ℕ
      → ConflictModel F
      → MonitorConfig
      → ℕ
      → Dict ℕ
      → List ℕ
      → Result (Dict PriorityBreakdown)
  unfolding score_each
  score_component_priorities component m c now_ms ages grants = do
    let ordered = sorted component
    require (leb 1 (length ordered)) value_error
    require (distinct ordered) value_error
    require (all (λ r. elem r (keys m.snapshots)) ordered) value_error
    require (all (λ r. elem r (keys ages)) ordered) value_error
    score_each m (component_constraints ordered m) c now_ms ages grants (length ordered) ordered []

unfoldable pub sum_final : Dict PriorityBreakdown → List ℕ → Result ℕ
sum_final priorities [] = ok 0
sum_final priorities (r ∷ rs) = do
  score ← or_raise (lookup r priorities) key_error
  rest ← sum_final priorities rs
  ok (score.final_score + rest)

-- The Resume set is a list of distinct robots.
unfoldable pub resumed_objective_value : Dict PriorityBreakdown → List ℕ → Result ℕ
unfolding sum_final
resumed_objective_value priorities resumed = do
  require (all (λ r. elem r (keys priorities)) resumed) value_error
  sum_final priorities resumed
