-- ===== src/Heuristic/Solve/Passed.antt =====
-- Where `solve` returns, its arguments passed its checks.
use robot_fleet_management.Base.{
  ℕ, ◌≡◌, true, leb, List, length, all, elem, distinct, sorted, Dict, keys, ok, >>=-eq-ok, require,
  require-ok, value_error,
}
use robot_fleet_management.Models.{Action}
use robot_fleet_management.Config.{MonitorConfig}
use robot_fleet_management.Priority.{PriorityBreakdown}
use robot_fleet_management.Conflicts.Model.{ConflictModel, component_constraints}
use robot_fleet_management.Optimiser.Objective.{ObjectiveEncoding, build_objective_encoding}
use robot_fleet_management.Heuristic.Clause.{build_clauses}
use robot_fleet_management.Heuristic.Solve.{HeuristicResult, solve, named_priorities}
use robot_fleet_management.Heuristic.Solve.Ready.{IsReady}

pub solve-IsReady :
    {F : Type 0} (c : MonitorConfig) (component : List ℕ) (m : ConflictModel F)
    (priorities : Dict PriorityBreakdown) (hard : Dict Action) (r : HeuristicResult)
    → distinct (keys hard) ≡ true
    → solve c component m priorities hard ≡ ok r
    → (objective : ObjectiveEncoding) × IsReady component m priorities hard objective
unfolding solve
solve-IsReady c component m priorities hard r unique e =
    let ids = sorted component in
    let (_, q1, e1) = >>=-eq-ok (require (leb 1 (length ids)) value_error) _ e in
    let (_, q2, e2) = >>=-eq-ok (require (distinct ids) value_error) _ e1 in
    let (_, q3, e3) =
      >>=-eq-ok (require (all (λ r. elem r (keys m.snapshots)) ids) value_error) _ e2 in
    let (_, q4, e4) =
      >>=-eq-ok (require (all (λ r. elem r (keys priorities)) ids) value_error) _ e3 in
    let (u, q5, e5) = >>=-eq-ok (named_priorities priorities ids) _ e4 in
    let (_, q6, e6) = >>=-eq-ok (require (all (λ r. elem r ids) (keys hard)) value_error) _ e5 in
    let (_, _, e7) = >>=-eq-ok (build_clauses (component_constraints ids m)) _ e6 in
    let (objective, q8, _) = >>=-eq-ok (build_objective_encoding ids priorities) _ e7 in
    (
      objective,
      record {
        some_robot = require-ok (leb 1 (length ids)) value_error q1;
        unique = require-ok (distinct ids) value_error q2;
        known = require-ok (all (λ r. elem r (keys m.snapshots)) ids) value_error q3;
        scored = require-ok (all (λ r. elem r (keys priorities)) ids) value_error q4;
        named = q5;
        hard_known = require-ok (all (λ r. elem r ids) (keys hard)) value_error q6;
        hard_unique = unique;
        encoded = q8;
      },
    )
