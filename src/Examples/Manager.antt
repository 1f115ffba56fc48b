-- ===== src/Examples/Manager.antt =====
-- The theorems about the grant manager on the two robots.
use robot_fleet_management.Base.{
  ℕ, ◌≡◌, refl, false, List, [], ◌∷◌, none, sorted, sort_by, insert, lookup, All, ok,
}
use robot_fleet_management.Models.{pause, resume}
use robot_fleet_management.Config.{default_config}
use robot_fleet_management.Conflicts.Model.{component_constraints}
use robot_fleet_management.Priority.{new_breakdown}
use robot_fleet_management.Optimiser.Objective.{build_objective_encoding}
use robot_fleet_management.Optimiser.Validate.{validate_component_decisions}
use robot_fleet_management.Heuristic.Clause.{Plan, build_clauses}
use robot_fleet_management.Heuristic.Propagate.{propagated}
use robot_fleet_management.Heuristic.Greedy.{greedy_pass, greedy_loop, choose}
use robot_fleet_management.Heuristic.Solve.{solve}
use robot_fleet_management.Heuristic.Clauses.{IsSafe}
use robot_fleet_management.Grants.State.{GrantManager, clone, new_manager}
use robot_fleet_management.Grants.Protocol.{clone-finalise_tick}
use robot_fleet_management.Grants.Group.{unavailable, has_safe_completion}
use robot_fleet_management.Grants.Completion.{has_safe_completion-plan}
use robot_fleet_management.Grants.Tick.{prepare_tick, finalise_tick}
use robot_fleet_management.Grants.Invariant.{IsSound}
use robot_fleet_management.Grants.Invariant.Reach.{
  created, prepared_at, finalised, Reachable-IsSound,
}
use robot_fleet_management.Examples.{fleet, scores}

has_safe_completion-plan_example :
    (plan : Plan) × IsSafe plan (component_constraints (sorted (1 ∷ 2 ∷ [])) fleet)
    × All (λ r. plan r ≡ resume) (1 ∷ [])
    × ((blocked : List ℕ) × (unavailable fleet (1 ∷ 2 ∷ []) ≡ ok blocked)
        × All (λ r. plan r ≡ pause) blocked)
unfolding has_safe_completion lookup new_breakdown solve sort_by insert build_clauses
    component_constraints build_objective_encoding greedy_pass propagated greedy_loop choose
    validate_component_decisions
has_safe_completion-plan_example =
    has_safe_completion-plan default_config fleet (1 ∷ 2 ∷ []) (1 ∷ []) refl

Reachable-IsSound_example :
    IsSound default_config
      (finalise_tick default_config fleet
        ((1, pause) ∷ (2, resume) ∷ [])
        scores
        none
        (prepare_tick default_config fleet 1000 new_manager).1).1
Reachable-IsSound_example =
    Reachable-IsSound default_config
      (finalise_tick default_config fleet ((1, pause) ∷ (2, resume) ∷ []) scores none
        (prepare_tick default_config fleet 1000 new_manager).1).1
      (finalised fleet ((1, pause) ∷ (2, resume) ∷ []) scores none
        (prepare_tick default_config fleet 1000 new_manager).1
        (prepared_at fleet 1000 new_manager created))

clone-finalise_tick_example :
    ((finalise_tick default_config fleet
        ((1, pause) ∷ (2, resume) ∷ [])
        scores
        none
        (prepare_tick default_config fleet 1000 new_manager).1).1.tick_open
      ≡ false)
    × ((copy : GrantManager) × (clone
            (finalise_tick default_config fleet
              ((1, pause) ∷ (2, resume) ∷ [])
              scores
              none
              (prepare_tick default_config fleet 1000 new_manager).1).1
          ≡ ok copy))
clone-finalise_tick_example =
    clone-finalise_tick default_config fleet ((1, pause) ∷ (2, resume) ∷ []) scores none
      (prepare_tick default_config fleet 1000 new_manager).1
