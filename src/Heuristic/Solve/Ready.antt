-- ===== src/Heuristic/Solve/Ready.antt =====
-- `solve` on a component that passes its checks: it returns, with a verdict on the component.
use robot_fleet_management.Base.{
  ℕ, ◌≡◌, refl, ap, ◌∙◌, true, leb, List, [], ◌∷◌, length, keep_if, all, all-of_elem, elem,
  distinct, sorted, Dict, keys, ok, ltb, elem-sort_by, Bool-cases, inl, inr, &&-intro,
}
use robot_fleet_management.Models.{Action}
use robot_fleet_management.Config.{MonitorConfig}
use robot_fleet_management.Priority.{PriorityBreakdown}
use robot_fleet_management.Conflicts.Pairs.{PairwiseCompatibility, within}
use robot_fleet_management.Conflicts.Model.{ConflictModel, component_constraints}
use robot_fleet_management.Optimiser.Objective.{ObjectiveEncoding, build_objective_encoding}
use robot_fleet_management.Optimiser.Coverage.{keys-build_objective_encoding}
use robot_fleet_management.Heuristic.Clauses.{build_clauses_lem}
use robot_fleet_management.Heuristic.Solve.{solve, named_priorities, in_order}
use robot_fleet_management.Heuristic.Solve.Complete.{Problem}
use robot_fleet_management.Heuristic.Solve.Ranking.{elem-in_order, by_coefficient_lem}
use robot_fleet_management.Heuristic.Solve.Verdict.{Verdict}
use robot_fleet_management.Heuristic.Solve.Stages.{from_seed-Verdict}

-- What `solve` asks of its arguments: a component of distinct known robots with priorities under
-- their own identifiers, hard assignments for robots of the component (one for each, as in any
-- dictionary), and coefficients within the solver's integer range.
pub record IsReady {F : Type 0} (component : List ℕ) (m : ConflictModel F)
    (priorities : Dict PriorityBreakdown) (hard : Dict Action) (objective : ObjectiveEncoding)
    : Type 0 where
  pub some_robot : leb 1 (length (sorted component)) ≡ true
  pub unique : distinct (sorted component) ≡ true
  pub known : all (λ r. elem r (keys m.snapshots)) (sorted component) ≡ true
  pub scored : all (λ r. elem r (keys priorities)) (sorted component) ≡ true
  pub named : named_priorities priorities (sorted component) ≡ ok tt
  pub hard_known : all (λ r. elem r (sorted component)) (keys hard) ≡ true
  pub hard_unique : distinct (keys hard) ≡ true
  pub encoded : build_objective_encoding (sorted component) priorities ≡ ok objective

pub within-kept :
    {F : Type 0} (ids : List ℕ) (pairs : List (PairwiseCompatibility F))
    → all (within ids) (keep_if (within ids) pairs) ≡ true
within-kept ids [] = refl
within-kept ids (p ∷ pairs) = elim (Bool-cases (within ids p)) [
  | inl inside ↦ rw inside (
      &&-intro (within ids p) (all (within ids) (keep_if (within ids) pairs)) inside
        (within-kept ids pairs))
  | inr outside ↦ rw outside (within-kept ids pairs)
]

pub solve-Verdict :
    {F : Type 0} (c : MonitorConfig) (component : List ℕ) (m : ConflictModel F)
    (priorities : Dict PriorityBreakdown) (hard : Dict Action) (objective : ObjectiveEncoding)
    → IsReady component m priorities hard objective
    → Verdict
        (sorted component)
        (component_constraints (sorted component) m)
        hard
        (solve c component m priorities hard)
unfolding solve component_constraints
solve-Verdict c component m priorities hard objective ready =
    let ids = sorted component in
    let pairs = component_constraints ids m in
    let inside = within-kept ids m.pairwise_constraints in
    let (cs, made, fits, solves) = build_clauses_lem ids pairs inside in
    let same = keys-build_objective_encoding ids priorities objective ready.encoded in
    let (keyed, ranked, listed) = by_coefficient_lem objective.coefficients ids (
      all-of_elem (λ r. elem r (keys objective.coefficients)) ids
        (λ r h. rw same (elem-sort_by ltb r ids ∙ h))) in
    let problem : Problem ids cs pairs hard = record {
      inside = inside;
      fits = fits;
      solves = solves;
      unique = ready.unique;
      hard_known = ready.hard_known;
      hard_unique = ready.hard_unique;
    } in
    rw
      (
        ready.some_robot, solve, ready.unique, ready.known, ready.scored, ready.named,
        ready.hard_known, made, ready.encoded, ranked,
      )
      (from_seed-Verdict ids cs pairs hard problem ready.some_robot c (in_order keyed) priorities
        ready.scored (λ r. elem-in_order r keyed ∙ ap (elem r) listed))
