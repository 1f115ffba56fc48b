-- ===== src/Optimiser/Solver/Answers.antt =====
-- What a result of `optimise` is worth, whatever the solver answers.
use robot_fleet_management.Base.{
  ℕ, ◌≡◌, sym, ◌∙◌, subst, Bool, true, false, leb, ltb, List, length, all, elem, distinct, sorted,
  Option, some, Dict, keys, ok, >>=-eq-ok, or_raise, require, value_error, internal_error,
  Bool-cases, Option-cases, inl, inr, arith,
}
use robot_fleet_management.Models.{Action}
use robot_fleet_management.Config.{MonitorConfig}
use robot_fleet_management.Priority.{PriorityBreakdown}
use robot_fleet_management.Conflicts.Pairs.{PairwiseCompatibility}
use robot_fleet_management.Conflicts.Model.{ConflictModel, component_constraints}
use robot_fleet_management.Optimiser.Objective.{ObjectiveEncoding, build_objective_encoding}
use robot_fleet_management.Optimiser.Validate.{component_no_goods, validate_component_decisions}
use robot_fleet_management.Optimiser.Solver.{
  OptimisationResult, new_optimisation_result, fallback, SolverStatus, FallbackReason, unavailable,
  cp_sat_unavailable, component_too_large, component_too_large_for_cp_sat, unknown,
  cp_sat_unknown_without_incumbent, infeasible_model, cp_sat_model_infeasible, CpModel, Answer,
  RawStatus, raw_optimal, raw_feasible, raw_unknown, raw_infeasible, raw_invalid, raw_other,
  model_for, decisions_from, accept_answer, by_status, read_answer, optimise,
}
use robot_fleet_management.Heuristic.Solve.{named_priorities}

fallback-infeasible :
    (status : SolverStatus) (reason : FallbackReason) (t : ℕ) (r : OptimisationResult)
    → fallback status reason t ≡ ok r
    → r.feasible ≡ false
unfolding fallback new_optimisation_result
fallback-infeasible status reason t r e = ground arith

module _ {F : Type 0} (ordered : List ℕ) (pairs : List (PairwiseCompatibility F))
    (hard : Dict Action) where
  accept_answer-validates :
      (a : Answer) (proven : Bool) (r : OptimisationResult)
      → accept_answer ordered pairs hard a proven ≡ ok r
      → validate_component_decisions ordered r.decisions pairs hard ≡ ok tt
  unfolding accept_answer new_optimisation_result
  accept_answer-validates a proven r e =
      let (u, valid, e1) =
        >>=-eq-ok (validate_component_decisions ordered (decisions_from a.value ordered) pairs hard)
          _ e in
      let (_, _, e2) = >>=-eq-ok (or_raise a.objective_value internal_error) _ e1 in
      let (_, _, e3) = >>=-eq-ok (or_raise a.best_objective_bound internal_error) _ e2 in
      let same : decisions_from a.value ordered ≡ r.decisions = ground (arith, e3) in
      subst (λ d. validate_component_decisions ordered d pairs hard ≡ ok tt) same valid

  read_answer-validates :
      (a : Answer) (r : OptimisationResult)
      → read_answer ordered pairs hard a ≡ ok r
      → r.feasible ≡ true
      → validate_component_decisions ordered r.decisions pairs hard ≡ ok tt
  unfolding read_answer by_status
  read_answer-validates a r = by a.status
    where
      by :
          (s : RawStatus)
          → by_status ordered pairs hard s a ≡ ok r
          → r.feasible ≡ true
          → validate_component_decisions ordered r.decisions pairs hard ≡ ok tt
      by raw_invalid e f = absurd (cc)
      by raw_other e f = absurd (cc)
      by raw_unknown e f = absurd (
          cc (
            sym (fallback-infeasible unknown cp_sat_unknown_without_incumbent a.wall_time_us r e)
            ∙ f))
      by raw_infeasible e f = absurd (
          cc (
            sym (fallback-infeasible infeasible_model cp_sat_model_infeasible a.wall_time_us r e)
            ∙ f))
      by raw_optimal e f = accept_answer-validates a true r e
      by raw_feasible e f = accept_answer-validates a false r e

module _ {F : Type 0} (c : MonitorConfig) (component : List ℕ) (m : ConflictModel F)
    (priorities : Dict PriorityBreakdown) (hard : Dict Action) where
  abbrev ids : List ℕ
  ids = sorted component

  -- A feasible result was read from an answer to the component's model.
  optimise-answer :
      (backend : Option (CpModel → Answer)) (r : OptimisationResult)
      → optimise backend c component m priorities hard ≡ ok r
      → r.feasible ≡ true
      → (run : CpModel → Answer) × (backend ≡ some run)
        × ((o : ObjectiveEncoding) × (build_objective_encoding ids priorities ≡ ok o)
            × (read_answer ids (component_constraints ids m) hard (
                  run (
                    model_for ids
                      (component_no_goods (component_constraints ids m))
                      hard
                      o.coefficients))
                ≡ ok r))
  unfolding optimise
  optimise-answer backend r e f =
      let (_, _, e1) = >>=-eq-ok (require (leb 1 (length ids)) value_error) _ e in
      let (_, _, e2) = >>=-eq-ok (require (distinct ids) value_error) _ e1 in
      let (_, _, e3) =
        >>=-eq-ok (require (all (λ r. elem r (keys m.snapshots)) ids) value_error) _ e2 in
      let (_, _, e4) =
        >>=-eq-ok (require (all (λ r. elem r (keys priorities)) ids) value_error) _ e3 in
      let (_, _, e5) = >>=-eq-ok (named_priorities priorities ids) _ e4 in
      let (_, _, e6) = >>=-eq-ok (require (all (λ r. elem r ids) (keys hard)) value_error) _ e5 in
      elim (Bool-cases (ltb c.maximum_exact_component_size (length ids))) [
        | inl large ↦ absurd (
            cc (
              sym (
                fallback-infeasible component_too_large component_too_large_for_cp_sat 0 r
                  (ground (arith, large, e6)))
              ∙ f))
        | inr small ↦ elim (Option-cases backend) [
          | inl n ↦ absurd (
              cc (
                sym (
                  fallback-infeasible unavailable cp_sat_unavailable 0 r
                    (ground (arith, n, small, e6)))
                ∙ f))
          | inr (run, q) ↦
              let (o, made, e7) =
                >>=-eq-ok (build_objective_encoding ids priorities)
                  (λ o. read_answer ids (component_constraints ids m) hard (
                    run (
                      model_for ids (component_no_goods (component_constraints ids m)) hard
                        o.coefficients)))
                  (ground (arith, q, small, e6)) in
              (run, q, (o, made, e7))
        ]
      ]

  -- Whatever the solver answers, where optimise returns a feasible result its decisions pass the
  -- independent validator for the component.
  pub optimise-validates :
      (backend : Option (CpModel → Answer)) (r : OptimisationResult)
      → optimise backend c component m priorities hard ≡ ok r
      → r.feasible ≡ true
      → validate_component_decisions
          (sorted component)
          r.decisions
          (component_constraints (sorted component) m)
          hard
        ≡ ok tt
  optimise-validates backend r e f =
      let (run, _, (o, _, read)) = optimise-answer backend r e f in
      read_answer-validates ids (component_constraints ids m) hard _ r read f
