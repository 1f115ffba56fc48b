-- ===== src/Heuristic/Greedy.antt =====
-- DeterministicComponentHeuristic._greedy_pass.
pub mod Choice
pub mod Pass
use robot_fleet_management.Base.{ℕ, List, [], ◌∷◌, Option, none, some, Dict, lookup}
use robot_fleet_management.Heuristic.Clause.{BinaryClause}
use robot_fleet_management.Heuristic.Propagate.{propagated, try_assignment}

-- The body of the loop over the ranked robots: the new assignment, or `none` for `return None`.
unfoldable pub choose : List BinaryClause → Dict ℕ → ℕ → Option (Dict ℕ)
choose clauses assignment robot_id = elim (lookup robot_id assignment) [
  | some value ↦ some assignment
  | none ↦ elim (try_assignment assignment robot_id 1 clauses) [
    | some resume_trial ↦ some resume_trial
    | none ↦ try_assignment assignment robot_id 0 clauses
  ]
]

unfoldable pub greedy_loop : List BinaryClause → Dict ℕ → List ℕ → Option (Dict ℕ)
greedy_loop clauses assignment [] = some assignment
greedy_loop clauses assignment (robot_id ∷ ranked) = elim (choose clauses assignment robot_id) [
  | none ↦ none
  | some assignment' ↦ greedy_loop clauses assignment' ranked
]

unfoldable pub greedy_pass : List ℕ → Dict ℕ → List BinaryClause → Option (Dict ℕ)
greedy_pass ranked seed clauses = elim (propagated seed clauses) [
  | none ↦ none
  | some assignment ↦ greedy_loop clauses assignment ranked
]
