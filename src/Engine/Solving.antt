-- ===== src/Engine/Solving.antt =====
-- CollisionDecisionEngine._score_priorities, _component_hard_assignments and _solve_components.
use robot_fleet_management.Base.{
  ℕ, Bool, true, false, ◌||◌, leb, if◌then◌else◌, List, [], ◌∷◌, ◌++◌, map, elem, length, Option,
  none, some, Dict, lookup, lookup_or, insert, keys, Result, ok, ◌>>=◌, key_error, or_raise,
}
use robot_fleet_management.Models.{
  Action, pause, resume, RobotSnapshot, DecisionSource, cp_sat, fail_safe, policy,
}
use robot_fleet_management.Config.{MonitorConfig}
use robot_fleet_management.Priority.{PriorityBreakdown, score_component_priorities}
use robot_fleet_management.Conflicts.Model.{ConflictModel}
use robot_fleet_management.Optimiser.Solver.{
  CpModel, Answer, OptimisationResult, SolverStatus, FallbackReason, component_too_large_for_cp_sat,
  optimise,
}
use robot_fleet_management.Heuristic.Solve.{HeuristicResult, solve}
use robot_fleet_management.Grants.State.{GrantManager}
use robot_fleet_management.Grants.Group.{put_all}
use robot_fleet_management.Grants.Repair.{put_entries}
use robot_fleet_management.Engine.Codes.{ComponentDiagnostic}

-- The results of `_solve_components` as they grow.
pub record Proposals : Type 0 where
  pub decisions : Dict Action
  pub sources : Dict DecisionSource
  pub diagnostics : List ComponentDiagnostic

abbrev pub no_proposals : Proposals
no_proposals = record { decisions = []; sources = []; diagnostics = [] }

abbrev pub is_unavailable : {F : Type 0} → RobotSnapshot F → Bool
is_unavailable s = s.stale || s.at_goal

abbrev pub single : List ℕ → Option ℕ
single [] = none
single (r ∷ []) = some r
single (r ∷ s ∷ rs) = none

module _ {F : Type 0} (c : MonitorConfig) (m : ConflictModel F) where
  score_components :
      ℕ → Dict ℕ → List ℕ → List (List ℕ) → Dict PriorityBreakdown → Result (Dict PriorityBreakdown)
  unfolding put_entries
  score_components now_ms ages grants [] scores = ok scores
  score_components now_ms ages grants (component ∷ components) scores = do
    scored ← score_component_priorities component m c now_ms ages grants
    score_components now_ms ages grants components (put_entries scored scores)

  unfoldable pub score_priorities : GrantManager → ℕ → Result (Dict PriorityBreakdown)
  unfolding score_components
  score_priorities g now_ms =
      score_components now_ms (map (λ e. (e.0, lookup_or 0 e.0 g.waiting_ages)) m.snapshots)
        (keys g.active_grants) m.connected_components []

  module _ (backend : Option (CpModel → Answer)) (priorities : Dict PriorityBreakdown)
      (grant_hard : Dict Action) where
    -- The comprehension over the component's robots that have a grant.
    unfoldable pub put_granted : List ℕ → Dict Action → Dict Action
    put_granted [] d = d
    put_granted (r ∷ rs) d =
        put_granted rs (elim (lookup r grant_hard) [ none ↦ d | some action ↦ insert r action d ])

    unfoldable pub pause_unavailable : List ℕ → Dict Action → Result (Dict Action)
    pause_unavailable [] d = ok d
    pause_unavailable (r ∷ rs) d = do
      snapshot ← or_raise (lookup r m.snapshots) key_error
      pause_unavailable rs (if is_unavailable snapshot then insert r pause d else d)

    unfoldable pub component_hard_assignments : List ℕ → Result (Dict Action)
    unfolding put_granted pause_unavailable
    component_hard_assignments component = pause_unavailable component (put_granted component [])

    unfoldable pub decide_isolated : List ℕ → Proposals → Result Proposals
    decide_isolated [] p = ok p
    decide_isolated (r ∷ rs) p = do
      snapshot ← or_raise (lookup r m.snapshots) key_error
      decide_isolated rs (record {
        decisions = insert r (if is_unavailable snapshot then pause else resume) p.decisions;
        sources = insert r policy p.sources;
        diagnostics = p.diagnostics;
      })

    -- `decisions.update(found)`, with one source for every robot of `found`.
    unfoldable pub adopt :
        Dict Action → DecisionSource → ComponentDiagnostic → Proposals → Proposals
    unfolding put_entries put_all
    adopt found source diagnostic p = record {
      decisions = put_entries found p.decisions;
      sources = put_all source (keys found) p.sources;
      diagnostics = p.diagnostics ++ diagnostic ∷ [];
    }

    unfoldable pub pause_component : List ℕ → ComponentDiagnostic → Proposals → Proposals
    unfolding put_all
    pause_component component diagnostic p = record {
      decisions = put_all pause component p.decisions;
      sources = put_all fail_safe component p.sources;
      diagnostics = p.diagnostics ++ diagnostic ∷ [];
    }

    abbrev heuristic_diagnostic :
        List ℕ → Option SolverStatus → Option FallbackReason → HeuristicResult → ComponentDiagnostic
    heuristic_diagnostic component status reason result = record {
      component = component;
      method = result.decision_source;
      solver_status = status;
      fallback_reason = reason;
      heuristic_reason = result.fallback_reason;
      progress_made = some result.progress_made;
    }

    abbrev exact_diagnostic : List ℕ → OptimisationResult → ComponentDiagnostic
    exact_diagnostic component result = record {
      component = component;
      method = cp_sat;
      solver_status = some result.solver_status;
      fallback_reason = none;
      heuristic_reason = none;
      progress_made = none;
    }

    -- The body of the loop from the call of the heuristic.
    unfoldable pub fall_back :
        List ℕ
        → Dict Action
        → Option SolverStatus
        → Option FallbackReason
        → Proposals
        → Result Proposals
    unfolding adopt pause_component
    fall_back component hard status reason p = do
      result ← solve c component m priorities hard
      let diagnostic = heuristic_diagnostic component status reason result
      ok (
          if result.feasible
          then adopt result.decisions result.decision_source diagnostic p
          else pause_component component diagnostic p)

    unfoldable pub solve_component : List ℕ → Proposals → Result Proposals
    unfolding component_hard_assignments fall_back adopt
    solve_component component p = do
      hard ← component_hard_assignments component
      let large = fall_back component hard none (some component_too_large_for_cp_sat) p
      let exact : Result Proposals = do
        result ← optimise backend c component m priorities hard
        if result.feasible
            then ok (adopt result.decisions cp_sat (exact_diagnostic component result) p)
            else fall_back component hard (some result.solver_status) result.fallback_reason p
      if leb (length component) c.maximum_exact_component_size then exact else large

    -- `len(component) == 1 and component[0] in conflict_model.isolated_robots`
    unfoldable pub is_decided : List ℕ → Bool
    is_decided component = elim (single component) [
      | none ↦ false
      | some r ↦ elem r m.isolated_robots
    ]

    unfoldable pub solve_each : List (List ℕ) → Proposals → Result Proposals
    unfolding is_decided solve_component
    solve_each [] p = ok p
    solve_each (component ∷ components) p = do
      next ← elim (is_decided component) [ true ↦ ok p | false ↦ solve_component component p ]
      solve_each components next

    unfoldable pub solve_components : Result Proposals
    unfolding decide_isolated solve_each
    solve_components = do
      p ← decide_isolated m.isolated_robots no_proposals
      solve_each m.connected_components p
