-- ===== src/Grants/State.antt =====
-- The records of grants.py, the manager's state, and the operations on one grant.
use robot_fleet_management.Base.{
  ℕ, ◌+◌, ◌-◌, ◌/◌, max, Bool, false, not, leb, List, [], ◌∷◌, ◌++◌, sorted, none, some, Dict,
  lookup, erase, keys, same_ids, Result, ok, ◌>>◌, value_error, runtime_error, require,
}
use robot_fleet_management.Models.{Action, DecisionSource}
use robot_fleet_management.Config.{MonitorConfig}

pub data GrantReleaseReason : Type 0 where
  at_goal stale_or_disappeared conflict_cleared maximum_lease_fault_guard : GrantReleaseReason
  unsafe_geometry component_merge_conflict : GrantReleaseReason

pub data AlarmCode : Type 0 where
  unresolvable_with_pause_resume : AlarmCode

pub record GrantRecord : Type 0 where
  pub robot_id : ℕ
  pub acquisition_tick : ℕ
  pub last_seen_tick : ℕ
  pub clearance_counter : ℕ

-- GrantRecord(...), with its __post_init__.
unfoldable pub new_grant : GrantRecord → Result GrantRecord
new_grant g = do
  require (leb 1 g.robot_id) value_error
  require (leb 1 g.acquisition_tick) value_error
  require (leb g.acquisition_tick g.last_seen_tick) value_error
  ok g

pub record GrantRelease : Type 0 where
  pub robot_id : ℕ
  pub tick_id : ℕ
  pub reason : GrantReleaseReason

pub record GrantPreparation : Type 0 where
  pub tick_id : ℕ
  pub hard_assignments : Dict Action
  pub released_grants : List GrantRelease

pub record GrantDecisionResult : Type 0 where
  pub tick_id : ℕ
  pub decisions : Dict Action
  pub decision_sources : Dict DecisionSource
  pub alarms : List AlarmCode
  pub acquired_grants : List ℕ
  pub released_grants : List GrantRelease
  pub waiting_ages : Dict ℕ

pub record GrantDecisionPreview : Type 0 where
  pub decisions : Dict Action
  pub decision_sources : Dict DecisionSource
  pub alarms : List AlarmCode

-- GrantDecisionPreview(...), with its __post_init__.
unfoldable pub new_preview : GrantDecisionPreview → Result GrantDecisionPreview
new_preview p = do require (same_ids (keys p.decisions) (keys p.decision_sources)) value_error; ok p

-- The attributes of GrantManager other than its configuration and its heuristic.
pub record GrantManager : Type 0 where
  pub tick_id : ℕ
  pub waiting_ages : Dict ℕ
  pub active_grants : Dict GrantRecord
  pub previous_actions : Dict Action
  pub tick_open : Bool
  pub current_hard_assignments : Dict Action
  pub pending_releases : List GrantRelease

abbrev pub new_manager : GrantManager
new_manager = record {
  tick_id = 0;
  waiting_ages = [];
  active_grants = [];
  previous_actions = [];
  tick_open = false;
  current_hard_assignments = [];
  pending_releases = [];
}

unfoldable pub clone : GrantManager → Result GrantManager
clone g = do
  require (not g.tick_open) runtime_error
  ok (record {
    tick_id = g.tick_id;
    waiting_ages = g.waiting_ages;
    active_grants = g.active_grants;
    previous_actions = g.previous_actions;
    tick_open = false;
    current_hard_assignments = [];
    pending_releases = [];
  })

-- GrantManager._release
unfoldable pub release : ℕ → GrantReleaseReason → GrantManager → GrantManager
release robot_id reason g = elim (lookup robot_id g.active_grants) [
  | none ↦ g
  | some held ↦ record {
    tick_id = g.tick_id;
    waiting_ages = g.waiting_ages;
    active_grants = erase robot_id g.active_grants;
    previous_actions = g.previous_actions;
    tick_open = g.tick_open;
    current_hard_assignments = g.current_hard_assignments;
    pending_releases =
        g.pending_releases
        ++ record { robot_id = robot_id; tick_id = g.tick_id; reason = reason } ∷ [];
  }
]

unfoldable pub release_all : GrantReleaseReason → List ℕ → GrantManager → GrantManager
unfolding release
release_all reason [] g = g
release_all reason (r ∷ rs) g = release_all reason rs (release r reason g)

-- A robot that is named twice is released once, so the source's `set` needs no counterpart.
unfoldable pub revoke_for_safety : List ℕ → GrantManager → Result GrantManager
unfolding release_all
revoke_for_safety robot_ids g = do
  require g.tick_open runtime_error
  ok (release_all unsafe_geometry (sorted robot_ids) g)

-- `math.ceil` of the quotient, at least 1; the tick interval is positive. The quotient is exact: a
-- float quotient that should be whole may be rounded off it.
unfoldable pub stale_tick_limit : MonitorConfig → ℕ
stale_tick_limit c = max 1 ((c.stale_timeout_us + c.tick_interval_us - 1) / c.tick_interval_us)
