-- ===== src/Examples/Solving.antt =====
-- The theorems about the CP-SAT call, with a solver that answers with robot 2 resumed.
use robot_fleet_management.Base.{
  ◌≡◌, ◌↔◌, ◌==◌, refl, true, [], ◌∷◌, none, some, sorted, sort_by, lookup, insert, if◌then◌else◌,
  ok,
}
use robot_fleet_management.Models.{pause, resume, cp_sat}
use robot_fleet_management.Config.{default_config}
use robot_fleet_management.Conflicts.Model.{component_constraints}
use robot_fleet_management.Optimiser.Objective.{build_objective_encoding}
use robot_fleet_management.Optimiser.Validate.{component_no_goods, validate_component_decisions}
use robot_fleet_management.Optimiser.Solver.{
  Answer, CpModel, OptimisationResult, optimal, raw_optimal, model_for, optimise,
}
use robot_fleet_management.Optimiser.Solver.Encoding.{solves, bits_of, model_for-solves}
use robot_fleet_management.Optimiser.Solver.Answers.{optimise-validates}
use robot_fleet_management.Heuristic.Clauses.{IsSafe}
use robot_fleet_management.Heuristic.Clause.{Plan}
use robot_fleet_management.Heuristic.Solve.Complete.{Follows}
use robot_fleet_management.Examples.{fleet, scores, hard, crossing}

abbrev second : Plan
second r = if r == 2 then resume else pause

model_for-solves_example :
    (solves
        (bits_of second)
        (model_for (1 ∷ 2 ∷ []) (component_no_goods (crossing ∷ [])) hard ((1, 3) ∷ (2, 2) ∷ []))
      ≡ true)
    ↔ (IsSafe second (crossing ∷ []) × Follows second hard)
model_for-solves_example =
    model_for-solves (1 ∷ 2 ∷ []) (crossing ∷ []) hard ((1, 3) ∷ (2, 2) ∷ []) second

abbrev answer : CpModel → Answer
answer m = record {
  status = raw_optimal;
  value = λ r. if r == 2 then 1 else 0;
  objective_value = some 2;
  best_objective_bound = some 2;
  wall_time_us = 1500;
}

abbrev found : OptimisationResult
found = record {
  feasible = true;
  decisions = (1, pause) ∷ (2, resume) ∷ [];
  decision_source = some cp_sat;
  solver_status = optimal;
  objective_value = some 2;
  best_bound = some 2;
  wall_time_us = 1500;
  optimality_proven = true;
  fallback_reason = none;
}

optimise-validates_example :
    validate_component_decisions
      (sorted (1 ∷ 2 ∷ []))
      ((1, pause) ∷ (2, resume) ∷ [])
      (component_constraints (sorted (1 ∷ 2 ∷ [])) fleet)
      hard
    ≡ ok tt
unfolding optimise sort_by lookup build_objective_encoding validate_component_decisions
    component_constraints insert
optimise-validates_example =
    optimise-validates default_config (1 ∷ 2 ∷ []) fleet scores hard (some answer) found refl refl
