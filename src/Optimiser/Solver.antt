-- ===== src/Optimiser/Solver.antt =====
-- optimiser.CpSatComponentOptimiser: the model that `optimise` builds, and what it does with the
-- answer. The CP-SAT library is a parameter: a function from the built model to an answer.
pub mod Encoding
pub mod Answers
use robot_fleet_management.Base.{
  sort_by, ltb, ℕ, Bool, true, false, not, ◌&&◌, ◌||◌, ◌==◌, leb, ltb, if◌then◌else◌, List, [], ◌∷◌,
  map, length, all, elem, distinct, sorted, Option, none, some, Dict, lookup, keys, Result, ok,
  raise, ◌>>=◌, ◌>>◌, value_error, key_error, model_invalid, internal_error, Error, require,
  or_raise,
}
use robot_fleet_management.Models.{Action, pause, resume, DecisionSource, cp_sat}
use robot_fleet_management.Config.{MonitorConfig}
use robot_fleet_management.Priority.{PriorityBreakdown}
use robot_fleet_management.Conflicts.Pairs.{
  NoGoodLiteral, NoGoodConstraint, PairwiseCompatibility, action_to_binary,
}
use robot_fleet_management.Conflicts.Model.{ConflictModel, component_constraints}
use robot_fleet_management.Optimiser.Objective.{build_objective_encoding}
use robot_fleet_management.Optimiser.Validate.{component_no_goods, validate_component_decisions}
use robot_fleet_management.Heuristic.Solve.{named_priorities}

pub data SolverStatus : Type 0 where
  optimal feasible_only unknown infeasible_model invalid unavailable component_too_large :
      SolverStatus

pub data FallbackReason : Type 0 where
  component_too_large_for_cp_sat cp_sat_unavailable : FallbackReason
  cp_sat_unknown_without_incumbent cp_sat_model_infeasible : FallbackReason

pub record OptimisationResult : Type 0 where
  pub feasible : Bool
  pub decisions : Dict Action
  pub decision_source : Option DecisionSource
  pub solver_status : SolverStatus
  pub objective_value : Option ℕ
  pub best_bound : Option ℕ
  pub wall_time_us : ℕ
  pub optimality_proven : Bool
  pub fallback_reason : Option FallbackReason

abbrev is_cp_sat : Option DecisionSource → Bool
is_cp_sat (some cp_sat) = true
is_cp_sat other = false

abbrev is_absent {ℓ} : {A : Type ℓ} → Option A → Bool
is_absent none = true
is_absent (some a) = false

abbrev no_decisions : Dict Action → Bool
no_decisions [] = true
no_decisions (e ∷ d) = false

abbrev is_optimal : SolverStatus → Bool
is_optimal optimal = true
is_optimal other = false

abbrev same_bool : Bool → Bool → Bool
same_bool true b = b
same_bool false b = not b

-- OptimisationResult(...), with its __post_init__.
unfoldable pub new_optimisation_result : OptimisationResult → Result OptimisationResult
new_optimisation_result r = do
  require (not (r.feasible && no_decisions r.decisions)) value_error
  require (not (r.feasible && not (is_cp_sat r.decision_source))) value_error
  require (not (r.feasible && not (is_absent r.fallback_reason))) value_error
  require (not (not r.feasible && not (no_decisions r.decisions))) value_error
  require (not (not r.feasible && not (is_absent r.decision_source))) value_error
  require (same_bool r.optimality_proven (is_optimal r.solver_status)) value_error
  ok r

-- `variable` where it is positive, `variable.Not()` otherwise.
pub record BoolLiteral : Type 0 where
  pub variable : ℕ
  pub positive : Bool

-- A CpModel: one Boolean variable for each robot, its clauses, its equations `variable == value`
-- and the terms of the sum that is maximised.
pub record CpModel : Type 0 where
  pub variables : List ℕ
  pub clauses : List (List BoolLiteral)
  pub equations : List (ℕ × ℕ)
  pub objective : List (ℕ × ℕ)

unfoldable pub literal_of : NoGoodLiteral → BoolLiteral
literal_of l = record { variable = l.robot_id; positive = l.forbidden_value == 0 }

unfoldable pub clauses_for : List NoGoodConstraint → List (List BoolLiteral)
unfolding literal_of
clauses_for [] = []
clauses_for (n ∷ ns) = map literal_of n.literals ∷ clauses_for ns

abbrev pub equation_of : ℕ × Action → ℕ × ℕ
equation_of h = (h.0, action_to_binary h.1)

-- In the order of the robots; the keys of a dictionary are distinct.
unfoldable pub equations_for : Dict Action → List (ℕ × ℕ)
unfolding action_to_binary
equations_for hard = map equation_of (sort_by (λ h k. ltb h.0 k.0) hard)

unfoldable pub model_for : List ℕ → List NoGoodConstraint → Dict Action → Dict ℕ → CpModel
unfolding clauses_for equations_for
model_for ordered no_goods hard coefficients = record {
  variables = ordered;
  clauses = clauses_for no_goods;
  equations = equations_for hard;
  objective = coefficients;
}

-- What the solver object holds after `solve`; a metric is `none` where it is not within a
-- millionth of a whole number.
pub data RawStatus : Type 0 where
  raw_optimal raw_feasible raw_unknown raw_infeasible raw_invalid raw_other : RawStatus

pub record Answer : Type 0 where
  pub status : RawStatus
  pub value : ℕ → ℕ
  pub objective_value : Option ℕ
  pub best_objective_bound : Option ℕ
  pub wall_time_us : ℕ

unfoldable pub fallback : SolverStatus → FallbackReason → ℕ → Result OptimisationResult
unfolding new_optimisation_result
fallback status reason wall_time_us = new_optimisation_result (record {
  feasible = false;
  decisions = [];
  decision_source = none;
  solver_status = status;
  objective_value = none;
  best_bound = none;
  wall_time_us = wall_time_us;
  optimality_proven = false;
  fallback_reason = some reason;
})

abbrev pub decisions_from : (ℕ → ℕ) → List ℕ → Dict Action
decisions_from value ordered = map (λ r. (r, if value r == 1 then resume else pause)) ordered

module _ {F : Type 0} (ordered : List ℕ) (pairs : List (PairwiseCompatibility F))
    (hard : Dict Action) where
  -- From an incumbent to a result.
  unfoldable pub accept_answer : Answer → Bool → Result OptimisationResult
  unfolding new_optimisation_result
  accept_answer a proven = do
    validate_component_decisions ordered (decisions_from a.value ordered) pairs hard
    objective_value ← or_raise a.objective_value internal_error
    best_bound ← or_raise a.best_objective_bound internal_error
    new_optimisation_result (record {
      feasible = true;
      decisions = decisions_from a.value ordered;
      decision_source = some cp_sat;
      solver_status = if proven then optimal else feasible_only;
      objective_value = some objective_value;
      best_bound = some best_bound;
      wall_time_us = a.wall_time_us;
      optimality_proven = proven;
      fallback_reason = none;
    })

  by_status : RawStatus → Answer → Result OptimisationResult
  unfolding accept_answer fallback
  by_status raw_invalid a = raise model_invalid
  by_status raw_unknown a = fallback unknown cp_sat_unknown_without_incumbent a.wall_time_us
  by_status raw_infeasible a = fallback infeasible_model cp_sat_model_infeasible a.wall_time_us
  by_status raw_other a = raise internal_error
  by_status raw_optimal a = accept_answer a true
  by_status raw_feasible a = accept_answer a false

  unfoldable pub read_answer : Answer → Result OptimisationResult
  unfolding by_status
  read_answer a = by_status a.status a

-- `optimise` with the backend, or `none` where the library could not be loaded.
unfoldable pub optimise :
    {F : Type 0}
    → Option (CpModel → Answer)
    → MonitorConfig
    → List ℕ
    → ConflictModel F
    → Dict PriorityBreakdown
    → Dict Action
    → Result OptimisationResult
unfolding read_answer fallback model_for named_priorities component_no_goods
optimise backend c component m priorities hard = do
  let ordered = sorted component
  require (leb 1 (length ordered)) value_error
  require (distinct ordered) value_error
  require (all (λ r. elem r (keys m.snapshots)) ordered) value_error
  require (all (λ r. elem r (keys priorities)) ordered) value_error
  named_priorities priorities ordered
  require (all (λ r. elem r ordered) (keys hard)) value_error
  let pairs = component_constraints ordered m
  let search : (CpModel → Answer) → Result OptimisationResult = λ run. do
    objective ← build_objective_encoding ordered priorities
    read_answer ordered pairs hard
        (run (model_for ordered (component_no_goods pairs) hard objective.coefficients))
  let small : Result OptimisationResult = elim backend [
    | none ↦ fallback unavailable cp_sat_unavailable 0
    | some run ↦ search run
  ]
  if ltb c.maximum_exact_component_size (length ordered)
      then fallback component_too_large component_too_large_for_cp_sat 0
      else small
