-- ===== src/Config.antt =====
-- src/collision_monitor/config.py: the settings that decisions depend on, and their validation.
--
-- Durations in seconds are natural numbers of microseconds, lengths and the pose tolerance have
-- millionths, and the battery threshold has the unit of the battery levels: the checks for finite and
-- for negative numbers and those of a field's type hold by the representation. Settings that are text
-- or Booleans (logging, tracing, the names and the address of the broker) are not modelled.
use robot_fleet_management.Base.{
  ℕ, ◌<◌, ◌≤◌, ◌≡◌, arith, ltb, leb, Result, ok, ◌>>◌, value_error, require, List, [], ◌∷◌,
}

pub record MonitorConfig : Type 0 where
  pub robot_width_um : ℕ
  pub robot_length_um : ℕ
  pub safety_margin_um : ℕ
  pub pose_tolerance_millionths : ℕ
  pub tick_interval_us : ℕ
  pub stale_timeout_us : ℕ
  pub publication_maximum_attempts : ℕ
  pub publication_retry_delay_us : ℕ
  pub rabbitmq_prefetch_count : ℕ
  pub rabbitmq_connection_timeout_us : ℕ
  pub healthcheck_timeout_us : ℕ
  pub rabbitmq_reconnect_initial_delay_us : ℕ
  pub rabbitmq_reconnect_max_delay_us : ℕ
  pub cp_sat_time_limit_us : ℕ
  pub cp_sat_random_seed : ℕ
  pub maximum_exact_component_size : ℕ
  pub heuristic_maximum_repair_candidates : ℕ
  pub grant_minimum_hold_ticks : ℕ
  pub grant_maximum_hold_ticks : ℕ
  pub grant_clearance_release_ticks : ℕ
  pub priority_base_progress_value : ℕ
  pub priority_loaded_bonus : ℕ
  pub priority_deadline_urgency_maximum : ℕ
  pub priority_deadline_horizon_ms : ℕ
  pub priority_low_battery_threshold : ℕ
  pub priority_low_battery_urgency_bonus : ℕ
  pub priority_waiting_age_bonus_per_tick : ℕ
  pub priority_waiting_age_cap_ticks : ℕ
  pub priority_active_grant_continuation_bonus : ℕ
  pub priority_clearance_bonus_per_conflict : ℕ

-- A battery level of 100 per cent.
abbrev pub full_battery : ℕ
full_battery = 100_000_000

-- The defaults of the dataclass.
abbrev pub default_config : MonitorConfig
default_config = record {
  robot_width_um = 630_000;
  robot_length_um = 1_430_000;
  safety_margin_um = 50_000;
  pose_tolerance_millionths = 1;
  tick_interval_us = 1_000_000;
  stale_timeout_us = 3_000_000;
  publication_maximum_attempts = 3;
  publication_retry_delay_us = 50_000;
  rabbitmq_prefetch_count = 1;
  rabbitmq_connection_timeout_us = 10_000_000;
  healthcheck_timeout_us = 2_000_000;
  rabbitmq_reconnect_initial_delay_us = 1_000_000;
  rabbitmq_reconnect_max_delay_us = 30_000_000;
  cp_sat_time_limit_us = 50_000;
  cp_sat_random_seed = 0;
  maximum_exact_component_size = 20;
  heuristic_maximum_repair_candidates = 20;
  grant_minimum_hold_ticks = 2;
  grant_maximum_hold_ticks = 10;
  grant_clearance_release_ticks = 2;
  priority_base_progress_value = 10;
  priority_loaded_bonus = 20;
  priority_deadline_urgency_maximum = 100;
  priority_deadline_horizon_ms = 300_000;
  priority_low_battery_threshold = 20_000_000;
  priority_low_battery_urgency_bonus = 30;
  priority_waiting_age_bonus_per_tick = 5;
  priority_waiting_age_cap_ticks = 20;
  priority_active_grant_continuation_bonus = 50;
  priority_clearance_bonus_per_conflict = 25;
}

unfoldable pub positive_values : MonitorConfig → List ℕ
positive_values c =
    c.robot_width_um ∷ c.robot_length_um ∷ c.pose_tolerance_millionths ∷ c.tick_interval_us
    ∷ c.stale_timeout_us ∷ c.cp_sat_time_limit_us ∷ c.rabbitmq_connection_timeout_us
    ∷ c.healthcheck_timeout_us ∷ c.rabbitmq_reconnect_initial_delay_us
    ∷ c.rabbitmq_reconnect_max_delay_us ∷ []

-- The loop over the values.
unfoldable pub check_positive : List ℕ → Result (Unit {0})
check_positive [] = ok tt
check_positive (value ∷ values) = do require (ltb 0 value) value_error; check_positive values

-- MonitorConfig.__post_init__, for these fields.
unfoldable pub post_init : MonitorConfig → Result (Unit {0})
unfolding positive_values check_positive
post_init c = do
  check_positive (positive_values c)
  require (leb 1 c.publication_maximum_attempts) value_error
  require (leb 1 c.rabbitmq_prefetch_count) value_error
  require (leb c.rabbitmq_reconnect_initial_delay_us c.rabbitmq_reconnect_max_delay_us) value_error
  require (leb 1 c.maximum_exact_component_size) value_error
  require (leb 1 c.heuristic_maximum_repair_candidates) value_error
  require (leb c.grant_minimum_hold_ticks c.grant_maximum_hold_ticks) value_error
  require (leb 1 c.grant_clearance_release_ticks) value_error
  require (ltb 0 c.priority_deadline_horizon_ms) value_error
  require (ltb 0 c.priority_low_battery_threshold) value_error
  require (leb c.priority_low_battery_threshold full_battery) value_error

-- What the checks establish for the decisions.
pub record IsValid (c : MonitorConfig) : Type 0 where
  pub tick_interval : 0 < c.tick_interval_us
  pub stale_timeout : 0 < c.stale_timeout_us
  pub attempts : 1 ≤ c.publication_maximum_attempts
  pub exact_size : 1 ≤ c.maximum_exact_component_size
  pub candidates : 1 ≤ c.heuristic_maximum_repair_candidates
  pub holds : c.grant_minimum_hold_ticks ≤ c.grant_maximum_hold_ticks
  pub clearance : 1 ≤ c.grant_clearance_release_ticks
  pub horizon : 0 < c.priority_deadline_horizon_ms

pub post_init-IsValid : (c : MonitorConfig) → post_init c ≡ ok tt → IsValid c
unfolding post_init
post_init-IsValid c h = ground arith
