-- ===== src/Grants/Invariant/Prepare.antt =====
-- Preparing a tick keeps the grant manager sound.
use robot_fleet_management.Base.{
  ℕ, ◌+◌, ◌-◌, true, false, not, ◌&&◌, leb, if◌then◌else◌, List, [], ◌∷◌, ◌++◌, sorted, sort_by,
  Dict, lookup, insert, if-either, Result-cases, keys, Result, ok, raise, arith, Bool-cases,
  Option-cases, inl, inr,
}
use robot_fleet_management.Models.{Action, resume}
use robot_fleet_management.Config.{MonitorConfig}
use robot_fleet_management.Conflicts.Model.{ConflictModel}
use robot_fleet_management.Grants.State.{
  GrantManager, GrantRecord, GrantReleaseReason, GrantPreparation, conflict_cleared, at_goal,
  stale_or_disappeared, maximum_lease_fault_guard,
}
use robot_fleet_management.Grants.Lifecycle.{
  has_conflict, forget, set_grants, refresh, reconcile_one, reconcile_each, reconcile_lifecycle,
}
use robot_fleet_management.Grants.Group.{
  retain_each, retain_components, safe_relevant_grants, relevant_grants, acquired_before,
  has_safe_completion,
}
use robot_fleet_management.Grants.Tick.{open_tick, prepared, prepare_tick}
use robot_fleet_management.Grants.Invariant.{
  IsHeld, IsSound, release-IsSound, insert-IsSound, forget-IsSound,
}

module _ {F : Type 0} (c : MonitorConfig) (m : ConflictModel F) where
  refresh-IsSound :
      (r : ℕ) (h : GrantRecord) (g : GrantManager)
      → IsHeld g.tick_id r h
      → IsSound c g
      → IsSound c (refresh c m r h g)
  unfolding refresh
  refresh-IsSound r h g held s =
      elim (Bool-cases (
        not (has_conflict m.adjacency r)
        && leb c.grant_clearance_release_ticks
            (if has_conflict m.adjacency r then 0 else h.clearance_counter + 1)
        && leb c.grant_minimum_hold_ticks (g.tick_id - h.acquisition_tick))) [
          | inl cleared ↦ rw (cleared, refresh) (release-IsSound c r conflict_cleared _ kept)
          | inr busy ↦ rw (busy, refresh) kept
        ]
    where
      updated : GrantRecord
      updated = record {
        robot_id = h.robot_id;
        acquisition_tick = h.acquisition_tick;
        last_seen_tick = g.tick_id;
        clearance_counter = if has_conflict m.adjacency r then 0 else h.clearance_counter + 1;
      }

      held' : IsHeld g.tick_id r updated
      held' = let (named, one, order, begun) = held in (named, one, omega arith, omega arith)

      kept : IsSound c (set_grants (insert r updated g.active_grants) g)
      kept = insert-IsSound c r updated g held' s

  module _ (now_ms : ℕ) where
    reconcile_one-IsSound :
        (r : ℕ) (h : GrantRecord) (g : GrantManager)
        → IsHeld g.tick_id r h
        → IsSound c g
        → IsSound c (reconcile_one c m now_ms r h g)
    unfolding reconcile_one
    reconcile_one-IsSound r h g held s =
        let released = λ (reason : GrantReleaseReason). release-IsSound c r reason g s in
        elim (Option-cases (lookup r m.snapshots)) [
          | inl n ↦
              rw (n, reconcile_one) (if-either (IsSound c) _ (released stale_or_disappeared) s)
          | inr (snapshot, e) ↦
              rw (e, reconcile_one)
                (if-either (IsSound c) _ (released stale_or_disappeared) (
                  if-either (IsSound c) _ (released at_goal) (
                    if-either (IsSound c) _ (released maximum_lease_fault_guard)
                      (refresh-IsSound r h g held s))))
        ]

    reconcile_each-IsSound :
        (rs : List ℕ) (g : GrantManager) → IsSound c g → IsSound c (reconcile_each c m now_ms rs g)
    unfolding reconcile_each
    reconcile_each-IsSound [] g s = s
    reconcile_each-IsSound (r ∷ rs) g s = elim (Option-cases (lookup r g.active_grants)) [
      | inl n ↦ rw (n, reconcile_each) (reconcile_each-IsSound rs g s)
      | inr (h, e) ↦
          rw (e, reconcile_each)
            (reconcile_each-IsSound rs (reconcile_one c m now_ms r h g)
              (reconcile_one-IsSound r h g (s.grants r h e) s))
    ]

    reconcile_lifecycle-IsSound :
        (g : GrantManager) → IsSound c g → IsSound c (reconcile_lifecycle c m now_ms g)
    unfolding reconcile_lifecycle
    reconcile_lifecycle-IsSound g s =
        reconcile_each-IsSound (sorted (keys g.active_grants)) (forget (keys m.snapshots) g)
          (forget-IsSound c (keys m.snapshots) g s)

  retain_each-IsSound :
      (component : List ℕ) (held : List GrantRecord) (retained : List ℕ) (hard : Dict Action)
      (g : GrantManager)
      → IsSound c g
      → IsSound c (retain_each c m component held retained hard g).1
  unfolding retain_each
  retain_each-IsSound component [] retained hard g s = s
  retain_each-IsSound component (h ∷ held) retained hard g s =
      elim (Result-cases (has_safe_completion c m component (retained ++ h.robot_id ∷ []))) [
        | inr (e, q) ↦ rw (q, retain_each) s
        | inl (true, q) ↦
            rw (q, retain_each)
              (retain_each-IsSound component held (retained ++ h.robot_id ∷ [])
                (insert h.robot_id resume hard) g s)
        | inl (false, q) ↦
            rw (q, retain_each)
              (retain_each-IsSound component held retained hard _
                (release-IsSound c h.robot_id _ g s))
      ]

  retain_components-IsSound :
      (components : List (List ℕ)) (hard : Dict Action) (g : GrantManager)
      → IsSound c g
      → IsSound c (retain_components c m components hard g).1
  unfolding retain_components
  retain_components-IsSound [] hard g s = s
  retain_components-IsSound (component ∷ cs) hard g s =
      let listed = sort_by acquired_before (relevant_grants m g.active_grants component) in
      let kept = retain_each-IsSound component listed [] hard g s in
      elim (Result-cases (retain_each c m component listed [] hard g).0) [
        | inr (e, q) ↦ rw (q, retain_components) kept
        | inl (hard', q) ↦ rw (q, retain_components) (retain_components-IsSound cs hard' _ kept)
      ]

  module _ (now_ms : ℕ) where
    prepared-IsSound :
        (x : Result (Dict Action) × GrantManager) → IsSound c x.1 → IsSound c (prepared c m x).1
    unfolding prepared
    prepared-IsSound (raise e, g) s = s
    prepared-IsSound (ok hard, g) s = record { ages = s.ages; grants = s.grants }

    -- Preparing a tick keeps the manager's state sound, also where it raises.
    pub prepare_tick-IsSound :
        (g : GrantManager) → IsSound c g → IsSound c (prepare_tick c m now_ms g).1
    unfolding prepare_tick open_tick safe_relevant_grants
    prepare_tick-IsSound g s =
        if-either (λ (x : Result GrantPreparation × GrantManager). IsSound c x.1) g.tick_open s
          (prepared-IsSound _ (
            retain_components-IsSound m.connected_components [] _
              (reconcile_lifecycle-IsSound now_ms (open_tick g) opened)))
      where
        opened : IsSound c (open_tick g)
        opened = record {
          ages = s.ages;
          grants = λ r h e.
              let (named, one, order, begun) = s.grants r h e in (named, one, order, omega arith);
        }
