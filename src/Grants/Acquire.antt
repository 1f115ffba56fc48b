-- ===== src/Grants/Acquire.antt =====
-- GrantManager._acquire_grants and _update_fairness.
use robot_fleet_management.Base.{
  ℕ, ◌+◌, min, Bool, false, not, ◌||◌, if◌then◌else◌, List, [], ◌∷◌, ◌++◌, elem, keep_if, sorted,
  Option, none, some, Dict, lookup, lookup_or, insert, keys, Result, ok, raise, ◌>>=◌, key_error,
  or_raise,
}
use robot_fleet_management.Models.{Action, is_resume}
use robot_fleet_management.Config.{MonitorConfig}
use robot_fleet_management.Conflicts.Model.{ConflictModel}
use robot_fleet_management.Grants.State.{GrantManager, GrantRecord, new_grant}
use robot_fleet_management.Grants.Lifecycle.{has_conflict, set_grants, forget}
use robot_fleet_management.Grants.Group.{has_safe_completion}

-- `component_by_robot[robot_id]`: a later component replaces an earlier one.
unfoldable pub component_of : ℕ → List (List ℕ) → Option (List ℕ)
component_of r [] = none
component_of r (component ∷ cs) = elim (component_of r cs) [
  | some later ↦ some later
  | none ↦ if elem r component then some component else none
]

module _ {F : Type 0} (c : MonitorConfig) (m : ConflictModel F) where
  -- The guards of the loop body: whether the robot is to get a grant.
  unfoldable pub may_acquire : Dict Action → ℕ → GrantManager → Result Bool
  unfolding component_of
  may_acquire decisions r g = do
    action ← or_raise (lookup r decisions) key_error
    let search : Result Bool = do
      snapshot ← or_raise (lookup r m.snapshots) key_error
      let group : Result Bool = do
        component ← or_raise (component_of r m.connected_components) key_error
        has_safe_completion c m (sorted component)
            (keep_if (λ a. elem a component) (sorted (keys g.active_grants)) ++ r ∷ [])
      if snapshot.at_goal || snapshot.stale || not (has_conflict m.adjacency r)
          then ok false
          else group
    if not (is_resume action) || elem r (keys g.active_grants) then ok false else search

  unfoldable pub acquire_one : Dict Action → ℕ → GrantManager → Result (Option GrantRecord)
  unfolding may_acquire
  acquire_one decisions r g = do
    granted ← may_acquire decisions r g
    let fresh : Result (Option GrantRecord) = do
      held ← new_grant (record {
        robot_id = r;
        acquisition_tick = g.tick_id;
        last_seen_tick = g.tick_id;
        clearance_counter = 0;
      })
      ok (some held)
    if granted then fresh else ok none

  unfoldable pub acquire_each :
      Dict Action → List ℕ → List ℕ → GrantManager → Result (List ℕ) × GrantManager
  unfolding acquire_one
  acquire_each decisions [] acquired g = (ok acquired, g)
  acquire_each decisions (r ∷ rs) acquired g = elim (acquire_one decisions r g) [
    | raise e ↦ (raise e, g)
    | ok none ↦ acquire_each decisions rs acquired g
    | ok (some held) ↦
        acquire_each decisions rs (acquired ++ r ∷ [])
          (set_grants (insert r held g.active_grants) g)
  ]

  unfoldable pub acquire_grants : Dict Action → GrantManager → Result (List ℕ) × GrantManager
  unfolding acquire_each
  acquire_grants decisions g = acquire_each decisions (sorted (keys decisions)) [] g

  -- The waiting age of one robot after the tick.
  unfoldable pub next_age : Action → Bool → ℕ → ℕ
  next_age action at_goal age =
      if is_resume action || at_goal then 0 else min (age + 1) c.priority_waiting_age_cap_ticks

  unfoldable pub note : ℕ → Action → Bool → GrantManager → GrantManager
  unfolding next_age
  note r action at_goal g = record {
    tick_id = g.tick_id;
    waiting_ages = insert r (next_age action at_goal (lookup_or 0 r g.waiting_ages)) g.waiting_ages;
    active_grants = g.active_grants;
    previous_actions = insert r action g.previous_actions;
    tick_open = g.tick_open;
    current_hard_assignments = g.current_hard_assignments;
    pending_releases = g.pending_releases;
  }

  unfoldable pub fairness_each :
      Dict Action → List ℕ → GrantManager → Result (Unit {0}) × GrantManager
  unfolding note
  fairness_each decisions [] g = (ok tt, g)
  fairness_each decisions (r ∷ rs) g = elim (lookup r m.snapshots) [
    | none ↦ (raise key_error, g)
    | some snapshot ↦ elim (lookup r decisions) [
      | none ↦ (raise key_error, g)
      | some action ↦ fairness_each decisions rs (note r action snapshot.at_goal g)
    ]
  ]

  unfoldable pub update_fairness : Dict Action → GrantManager → Result (Unit {0}) × GrantManager
  unfolding fairness_each forget
  update_fairness decisions g =
      fairness_each decisions (sorted (keys m.snapshots)) (forget (keys m.snapshots) g)
