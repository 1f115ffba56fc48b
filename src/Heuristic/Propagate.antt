-- ===== src/Heuristic/Propagate.antt =====
-- heuristic._assign_binary, `_propagate` and `_try_assignment`.
pub mod Step
mod Rule
mod Trial
pub mod Soundness
pub mod Entailment
pub mod Termination
use robot_fleet_management.Base.{
  ℕ, zero, suc, ◌+◌, ◌-◌, ◌*◌, Bool, true, false, ◌==◌, if◌then◌else◌, List, [], ◌∷◌, ◌++◌, length,
  Option, none, some, Dict, lookup, insert,
}
use robot_fleet_management.Conflicts.Pairs.{NoGoodLiteral}
use robot_fleet_management.Heuristic.Clause.{BinaryClause}

-- `none` is the answer False; a new value changes the dictionary.
unfoldable pub assign_binary : Dict ℕ → ℕ → ℕ → Option (Dict ℕ)
assign_binary assignment robot_id value = elim (lookup robot_id assignment) [
  | none ↦ some (insert robot_id value assignment)
  | some existing ↦ if existing == value then some assignment else none
]

-- What the loop over the literals of one clause finds.
pub data Scan : Type 0 where
  satisfied : Scan
  unassigned : List NoGoodLiteral → Scan

unfoldable pub scan_literals : Dict ℕ → List NoGoodLiteral → List NoGoodLiteral → Scan
scan_literals assignment pending [] = unassigned pending
scan_literals assignment pending (l ∷ ls) = elim (lookup l.robot_id assignment) [
  | none ↦ scan_literals assignment (pending ++ l ∷ []) ls
  | some value ↦
      let rest = scan_literals assignment pending ls in
      if value == l.forbidden_value then rest else satisfied
]

-- What one clause does to the assignment: nothing, a contradiction, or one new value.
pub data Visit : Type 0 where
  idle conflict : Visit
  forced : Dict ℕ → Visit

force : Dict ℕ → NoGoodLiteral → Visit
unfolding assign_binary
force assignment l = elim (assign_binary assignment l.robot_id (1 - l.forbidden_value)) [
  | none ↦ conflict
  | some assignment' ↦ forced assignment'
]

after_scan : Dict ℕ → Scan → Visit
unfolding force
after_scan assignment satisfied = idle
after_scan assignment (unassigned []) = conflict
after_scan assignment (unassigned (l ∷ [])) = force assignment l
after_scan assignment (unassigned (l ∷ k ∷ ls)) = idle

unfoldable pub visit : Dict ℕ → BinaryClause → Visit
unfolding after_scan scan_literals
visit assignment c = after_scan assignment (scan_literals assignment [] (c.first ∷ c.second ∷ []))

-- One round of the `while changed` loop: a contradiction, or the assignment and `changed`.
pub data Round : Type 0 where
  contradiction : Round
  finished : Dict ℕ → Bool → Round

unfoldable pub round : Dict ℕ → Bool → List BinaryClause → Round
unfolding visit
round assignment changed [] = finished assignment changed
round assignment changed (c ∷ cs) = elim (visit assignment c) [
  | idle ↦ round assignment changed cs
  | conflict ↦ contradiction
  | forced assignment' ↦ round assignment' true cs
]

-- `exhausted` means that the fuel of the model ran out.
pub data Propagation : Type 0 where
  exhausted inconsistent : Propagation
  stable : Dict ℕ → Propagation

unfoldable pub propagate_fuel : ℕ → Dict ℕ → List BinaryClause → Propagation
unfolding round
propagate_fuel zero assignment clauses = exhausted
propagate_fuel (suc fuel) assignment clauses = elim (round assignment false clauses) [
  | contradiction ↦ inconsistent
  | finished assignment' changed ↦
      let again = propagate_fuel fuel assignment' clauses in
      if changed then again else stable assignment'
]

-- Every changing round assigns one of at most two variables for each clause.
unfoldable pub propagate : Dict ℕ → List BinaryClause → Propagation
unfolding propagate_fuel
propagate assignment clauses = propagate_fuel (suc (2 * length clauses)) assignment clauses

abbrev when_stable : Propagation → Option (Dict ℕ)
when_stable (stable assignment) = some assignment
when_stable inconsistent = none
when_stable exhausted = none

unfoldable pub propagated : Dict ℕ → List BinaryClause → Option (Dict ℕ)
unfolding propagate
propagated assignment clauses = when_stable (propagate assignment clauses)

unfoldable pub try_assignment : Dict ℕ → ℕ → ℕ → List BinaryClause → Option (Dict ℕ)
unfolding assign_binary propagated
try_assignment assignment robot_id value clauses = elim (assign_binary assignment robot_id value) [
  | none ↦ none
  | some trial ↦ propagated trial clauses
]
