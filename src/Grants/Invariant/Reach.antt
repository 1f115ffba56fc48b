-- ===== src/Grants/Invariant/Reach.antt =====
-- Every state that the grant manager can reach is sound, and the protocol of a tick.
use robot_fleet_management.Base.{
  ℕ, ◌≡◌, not, List, sorted, Option, Dict, lookup, subst, require, runtime_error, ok-injective,
  >>=-eq-ok, ok,
}
use robot_fleet_management.Models.{Action, DecisionSource}
use robot_fleet_management.Config.{MonitorConfig}
use robot_fleet_management.Priority.{PriorityBreakdown}
use robot_fleet_management.Conflicts.Model.{ConflictModel}
use robot_fleet_management.Grants.State.{
  GrantManager, GrantDecisionPreview, revoke_for_safety, new_manager, unsafe_geometry,
}
use robot_fleet_management.Grants.Tick.{prepare_tick, commit_tick, finalise_tick}
use robot_fleet_management.Grants.Invariant.{IsSound, release_all-IsSound}
use robot_fleet_management.Grants.Invariant.Prepare.{prepare_tick-IsSound}
use robot_fleet_management.Grants.Invariant.Commit.{commit_tick-IsSound, finalise_tick-IsSound}
use robot_fleet_management.Grants.State.{clone}

-- The states of a manager: each operation on any fleet, at any time, with any arguments, whether it
-- returns or raises.
pub data Reachable (F : Type 0) (c : MonitorConfig) : GrantManager → Type 0 where
  created : Reachable F c new_manager
  cloned : (g g' : GrantManager) → Reachable F c g → clone g ≡ ok g' → Reachable F c g'
  prepared_at :
      (m : ConflictModel F) (now_ms : ℕ) (g : GrantManager)
      → Reachable F c g
      → Reachable F c (prepare_tick c m now_ms g).1
  revoked :
      (robot_ids : List ℕ) (g g' : GrantManager)
      → Reachable F c g
      → revoke_for_safety robot_ids g ≡ ok g'
      → Reachable F c g'
  committed :
      (m : ConflictModel F) (p : GrantDecisionPreview) (g : GrantManager)
      → Reachable F c g
      → Reachable F c (commit_tick c m p g).1
  finalised :
      (m : ConflictModel F) (proposed : Dict Action) (priorities : Dict PriorityBreakdown)
      (sources : Option (Dict DecisionSource)) (g : GrantManager)
      → Reachable F c g
      → Reachable F c (finalise_tick c m proposed priorities sources g).1

clone-IsSound :
    (c : MonitorConfig) (g g' : GrantManager) → clone g ≡ ok g' → IsSound c g → IsSound c g'
unfolding clone
clone-IsSound c g g' e s =
    let (_, _, e') = >>=-eq-ok (require (not g.tick_open) runtime_error) _ e in
    subst (IsSound c) (ok-injective e') (record { ages = s.ages; grants = s.grants })

revoke-IsSound :
    (c : MonitorConfig) (robot_ids : List ℕ) (g g' : GrantManager)
    → revoke_for_safety robot_ids g ≡ ok g'
    → IsSound c g
    → IsSound c g'
unfolding revoke_for_safety
revoke-IsSound c robot_ids g g' e s =
    let (_, _, e') = >>=-eq-ok (require g.tick_open runtime_error) _ e in
    subst (IsSound c) (ok-injective e')
      (release_all-IsSound c unsafe_geometry (sorted robot_ids) g s)

-- In every reachable state of the grant manager each waiting age is within the cap, and each
-- grant stands under its robot with 1 ≤ acquisition tick ≤ last-seen tick ≤ current tick.
pub Reachable-IsSound :
    {F : Type 0} (c : MonitorConfig) (g : GrantManager) → Reachable F c g → IsSound c g
unfolding lookup
Reachable-IsSound c _ created = record {
  ages = λ r v e. absurd (cc);
  grants = λ r h e. absurd (cc);
}
Reachable-IsSound c _ (cloned g0 g0' r e) = clone-IsSound c g0 g0' e (Reachable-IsSound c g0 r)
Reachable-IsSound c _ (prepared_at m now_ms g0 r) =
    prepare_tick-IsSound c m now_ms g0 (Reachable-IsSound c g0 r)
Reachable-IsSound c _ (revoked ids g0 g0' r e) =
    revoke-IsSound c ids g0 g0' e (Reachable-IsSound c g0 r)
Reachable-IsSound c _ (committed m p g0 r) = commit_tick-IsSound c m p g0 (Reachable-IsSound c g0 r)
Reachable-IsSound c _ (finalised m d ps ss g0 r) =
    finalise_tick-IsSound c m d ps ss g0 (Reachable-IsSound c g0 r)
