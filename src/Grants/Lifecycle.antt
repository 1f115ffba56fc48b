-- ===== src/Grants/Lifecycle.antt =====
-- GrantManager._reconcile_lifecycle.
use robot_fleet_management.Base.{
  ℕ, ◌+◌, ◌-◌, ◌/◌, Bool, true, false, not, ◌&&◌, ◌||◌, leb, if◌then◌else◌, List, [], ◌∷◌, elem,
  sorted, none, some, Dict, lookup, insert, erase, keys,
}
use robot_fleet_management.Config.{MonitorConfig}
use robot_fleet_management.Conflicts.Model.{ConflictModel}
use robot_fleet_management.Grants.State.{
  GrantManager, GrantRecord, release, stale_tick_limit, at_goal, stale_or_disappeared,
  conflict_cleared, maximum_lease_fault_guard,
}

-- `bool(adjacency.get(robot_id, frozenset()))`
abbrev pub has_conflict : Dict (List ℕ) → ℕ → Bool
has_conflict adjacency r = elim (lookup r adjacency) [
  | none ↦ false
  | some [] ↦ false
  | some (n ∷ ns) ↦ true
]

-- Waiting ages and previous actions of robots that are no longer present are dropped.
unfoldable pub forget_absent {ℓ} : {V : Type ℓ} → List ℕ → List ℕ → Dict V → Dict V
forget_absent present [] d = d
forget_absent present (r ∷ rs) d =
    forget_absent present rs (if elem r present then d else erase r d)

unfoldable pub forget : List ℕ → GrantManager → GrantManager
unfolding forget_absent
forget present g = record {
  tick_id = g.tick_id;
  waiting_ages = forget_absent present (keys g.waiting_ages) g.waiting_ages;
  active_grants = g.active_grants;
  previous_actions = forget_absent present (keys g.waiting_ages) g.previous_actions;
  tick_open = g.tick_open;
  current_hard_assignments = g.current_hard_assignments;
  pending_releases = g.pending_releases;
}

abbrev pub set_grants : Dict GrantRecord → GrantManager → GrantManager
set_grants grants g = record {
  tick_id = g.tick_id;
  waiting_ages = g.waiting_ages;
  active_grants = grants;
  previous_actions = g.previous_actions;
  tick_open = g.tick_open;
  current_hard_assignments = g.current_hard_assignments;
  pending_releases = g.pending_releases;
}

module _ {F : Type 0} (c : MonitorConfig) (m : ConflictModel F) where
  -- The end of the loop body: the grant of a present robot is kept, with its new counters, or
  -- released because its conflict is cleared. `replace` checks no field that could be invalid here.
  unfoldable pub refresh : ℕ → GrantRecord → GrantManager → GrantManager
  unfolding release
  refresh r held g =
      let relevant = has_conflict m.adjacency r in
      let counter = if relevant then 0 else held.clearance_counter + 1 in
      let updated : GrantRecord = record {
        robot_id = held.robot_id;
        acquisition_tick = held.acquisition_tick;
        last_seen_tick = g.tick_id;
        clearance_counter = counter;
      } in
      let kept = set_grants (insert r updated g.active_grants) g in
      if not relevant
        && leb c.grant_clearance_release_ticks counter
        && leb c.grant_minimum_hold_ticks (g.tick_id - held.acquisition_tick)
      then release r conflict_cleared kept
      else kept

  module _ (now_ms : ℕ) where
    -- The loop body for one robot that has a grant.
    unfoldable pub reconcile_one : ℕ → GrantRecord → GrantManager → GrantManager
    unfolding release refresh stale_tick_limit
    reconcile_one r held g = elim (lookup r m.snapshots) [
      | none ↦
          if leb (stale_tick_limit c) (g.tick_id - held.last_seen_tick)
          then release r stale_or_disappeared g
          else g
      | some snapshot ↦
          if snapshot.stale || leb (snapshot.received_at_ms + c.stale_timeout_us / 1000) now_ms
          then release r stale_or_disappeared g
          else if snapshot.at_goal
          then release r at_goal g
          else if leb c.grant_maximum_hold_ticks (g.tick_id - held.acquisition_tick)
          then release r maximum_lease_fault_guard g
          else refresh r held g
    ]

    unfoldable pub reconcile_each : List ℕ → GrantManager → GrantManager
    unfolding reconcile_one
    reconcile_each [] g = g
    reconcile_each (r ∷ rs) g =
        reconcile_each rs
          (elim (lookup r g.active_grants) [ none ↦ g | some held ↦ reconcile_one r held g ])

    unfoldable pub reconcile_lifecycle : GrantManager → GrantManager
    unfolding forget reconcile_each
    reconcile_lifecycle g =
        reconcile_each (sorted (keys g.active_grants)) (forget (keys m.snapshots) g)
