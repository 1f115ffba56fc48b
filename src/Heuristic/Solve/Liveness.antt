-- ===== src/Heuristic/Solve/Liveness.antt =====
-- What `DeterministicComponentHeuristic.solve` promises of a component: progress where it is
-- possible, safe decisions, failure only where nothing is safe, and which stage gives the result.
use robot_fleet_management.Base.{
  ℕ, ◌≡◌, refl, sym, ◌∙◌, true, ◌↔◌, List, [], ◌∷◌, all, elem, if◌then◌else◌, sorted, Dict, ok,
  All-elem, ltb, elem-sort_by, Bool-cases, inl, inr, arith,
}
use robot_fleet_management.Models.{Action, pause, resume, is_resume, heuristic, fail_safe}
use robot_fleet_management.Config.{MonitorConfig}
use robot_fleet_management.Priority.{PriorityBreakdown}
use robot_fleet_management.Conflicts.Pairs.{PairwiseCompatibility, within}
use robot_fleet_management.Conflicts.Model.{ConflictModel, component_constraints}
use robot_fleet_management.Optimiser.Objective.{ObjectiveEncoding}
use robot_fleet_management.Optimiser.Validate.{validate_component_decisions}
use robot_fleet_management.Heuristic.Clause.{Plan}
use robot_fleet_management.Heuristic.Clauses.{IsSafe}
use robot_fleet_management.Heuristic.Solve.{HeuristicResult, solve, any_resume}
use robot_fleet_management.Heuristic.Solve.Complete.{
  Follows, idle_plan, tabulate, validate-tabulate, validate-listed,
}
use robot_fleet_management.Heuristic.Solve.Verdict.{
  Verdict, progresses, stays, fails, same_ids-sorted,
}
use robot_fleet_management.Heuristic.Solve.Ready.{IsReady, solve-Verdict, within-kept}

-- A plan is admissible when every pair of the component is compatible under it and it gives every
-- hard robot its hard action.
abbrev pub IsAdmissible :
    {F : Type 0} → Plan → List (PairwiseCompatibility F) → Dict Action → Type 0
IsAdmissible plan pairs hard = IsSafe plan pairs × Follows plan hard

-- Some admissible plan resumes a robot of the component.
abbrev pub CanProgress :
    {F : Type 0} → List ℕ → List (PairwiseCompatibility F) → Dict Action → Type 0
CanProgress ids pairs hard =
    (plan : Plan) × IsAdmissible plan pairs hard
    × ((r : ℕ) × (elem r ids ≡ true) × (plan r ≡ resume))

any_resume-robot :
    (plan : Plan) (rs : List ℕ)
    → any_resume (tabulate plan rs) ≡ true
    → (r : ℕ) × (elem r rs ≡ true) × (plan r ≡ resume)
any_resume-robot plan [] h = absurd (cc)
any_resume-robot plan (k ∷ rs) h = elim (Bool-cases (is_resume (plan k))) [
  | inl moving ↦ (k, ground arith, ground arith)
  | inr still ↦
      let (r, here, moves) = any_resume-robot plan rs (ground arith) in (r, ground arith, moves)
]

module _ {F : Type 0} (c : MonitorConfig) (component : List ℕ) (m : ConflictModel F)
    (priorities : Dict PriorityBreakdown) (hard : Dict Action) (objective : ObjectiveEncoding)
    (ready : IsReady component m priorities hard objective) where
  abbrev ids : List ℕ
  ids = sorted component

  abbrev pairs : List (PairwiseCompatibility F)
  pairs = component_constraints (sorted component) m

  verdict : Verdict ids pairs hard (solve c component m priorities hard)
  verdict = solve-Verdict c component m priorities hard objective ready

  inside : all (within ids) pairs ≡ true
  unfolding component_constraints
  inside = within-kept ids m.pairwise_constraints

  plan_validates :
      (plan : Plan)
      → IsSafe plan pairs
      → Follows plan hard
      → validate_component_decisions ids (tabulate plan (sorted ids)) pairs hard ≡ ok tt
  plan_validates plan = validate-tabulate ids pairs hard plan inside ready.hard_known

  idle_validates :
      IsSafe idle_plan pairs
      → Follows idle_plan hard
      → validate_component_decisions ids (tabulate idle_plan ids) pairs hard ≡ ok tt
  idle_validates safe follows =
      validate-listed ids ids pairs hard idle_plan inside ready.hard_known (same_ids-sorted ids)
        (λ r h. h) safe follows

  -- On a component that passes its checks solve returns, and reports progress exactly when some
  -- admissible plan resumes a robot of the component.
  pub solve-CanProgress :
      (r : HeuristicResult) × (solve c component m priorities hard ≡ ok r)
      × ((r.progress_made ≡ true)
          ↔ CanProgress (sorted component) (component_constraints (sorted component) m) hard)
  solve-CanProgress = elim verdict [
    | progresses plan safe follows moving e ↦
        let robot = any_resume-robot plan (sorted ids) moving in
        let inside = sym (elem-sort_by ltb robot.0 ids) ∙ robot.1 in
        (_, e, ((λ h. (plan, (safe, follows), (robot.0, inside, robot.2))), (λ h. refl)))
    | stays safe follows stuck e ↦ (
      _,
      e,
      (
        (λ h. absurd (cc)),
        (λ (plan, (ok_pairs, ok_hard), (r, here, moves)). absurd (
            cc (
              sym moves
              ∙ All-elem (λ k. plan k ≡ pause) r ids (stuck plan ok_pairs ok_hard) here))),
      ),
    )
    | fails none_left e ↦ (
      _,
      e,
      (
        (λ h. absurd (cc)),
        (λ (plan, (ok_pairs, ok_hard), _). absurd (none_left plan ok_pairs ok_hard)),
      ),
    )
  ]

  -- On a component that passes its checks solve returns, and the result is feasible exactly when
  -- some plan is admissible.
  pub solve-feasible :
      (r : HeuristicResult) × (solve c component m priorities hard ≡ ok r)
      × ((r.feasible ≡ true)
          ↔ ((plan : Plan) × IsAdmissible plan (component_constraints (sorted component) m) hard))
  solve-feasible = elim verdict [
    | progresses plan safe follows moving e ↦ (_, e, ((λ h. (plan, (safe, follows))), (λ h. refl)))
    | stays safe follows stuck e ↦ (_, e, ((λ h. (idle_plan, (safe, follows))), (λ h. refl)))
    | fails none_left e ↦ (
      _,
      e,
      (
        (λ h. absurd (cc)),
        (λ (plan, (ok_pairs, ok_hard)). absurd (none_left plan ok_pairs ok_hard)),
      ),
    )
  ]

  -- On a component that passes its checks solve returns, and the decisions of a feasible result
  -- pass the independent validator.
  pub solve-validates :
      (r : HeuristicResult) × (solve c component m priorities hard ≡ ok r)
      × (r.feasible ≡ true
          → validate_component_decisions
              (sorted component)
              r.decisions
              (component_constraints (sorted component) m)
              hard
            ≡ ok tt)
  solve-validates = elim verdict [
    | progresses plan safe follows moving e ↦ (_, e, λ h. plan_validates plan safe follows)
    | stays safe follows stuck e ↦ (_, e, λ h. idle_validates safe follows)
    | fails none_left e ↦ (_, e, λ h. absurd (cc))
  ]

  -- On a component that passes its checks solve returns, and the source of the result is the
  -- greedy stage where it has progress and fail-safe otherwise.
  pub solve-source :
      (r : HeuristicResult) × (solve c component m priorities hard ≡ ok r)
      × (r.decision_source ≡ (if r.progress_made then heuristic else fail_safe))
  solve-source = elim verdict [
    | progresses plan safe follows moving e ↦ (_, e, refl)
    | stays safe follows stuck e ↦ (_, e, refl)
    | fails none_left e ↦ (_, e, refl)
  ]
