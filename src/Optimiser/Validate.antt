-- ===== src/Optimiser/Validate.antt =====
-- optimiser.validate_component_decisions.
use robot_fleet_management.Base.{
  ℕ, Bool, false, not, List, [], ◌∷◌, ◌++◌, none, some, Dict, lookup, insert, keys, sorted,
  same_ids, Result, ok, ◌>>=◌, ◌>>◌, key_error, unsafe_result, require, or_raise,
}
use robot_fleet_management.Models.{Action, same_action}
use robot_fleet_management.Conflicts.Pairs.{
  NoGoodConstraint, PairwiseCompatibility, action_to_binary, is_violated_by, no_good_constraints,
}

-- `_component_no_goods`
unfoldable pub component_no_goods :
    {F : Type 0} → List (PairwiseCompatibility F) → List NoGoodConstraint
unfolding no_good_constraints
component_no_goods [] = []
component_no_goods (pair ∷ pairs) = no_good_constraints pair ++ component_no_goods pairs

-- The dictionary comprehension over the sorted component.
unfoldable pub binary_assignment : Dict Action → List ℕ → Dict ℕ → Result (Dict ℕ)
unfolding action_to_binary
binary_assignment decisions [] built = ok built
binary_assignment decisions (r ∷ rs) built = do
  action ← or_raise (lookup r decisions) key_error
  binary_assignment decisions rs (insert r (action_to_binary action) built)

unfoldable pub check_no_goods : Dict ℕ → List NoGoodConstraint → Result (Unit {0})
unfolding is_violated_by
check_no_goods assignment [] = ok tt
check_no_goods assignment (no_good ∷ rest) = do
  violated ← is_violated_by no_good assignment
  require (not violated) unsafe_result
  check_no_goods assignment rest

-- `decisions.get(robot_id) is required_action`
abbrev pub decides : Dict Action → ℕ → Action → Bool
decides decisions r required = elim (lookup r decisions) [
  | none ↦ false
  | some action ↦ same_action action required
]

unfoldable pub check_hard : Dict Action → Dict Action → Result (Unit {0})
check_hard decisions [] = ok tt
check_hard decisions ((r, required) ∷ rest) = do
  require (decides decisions r required) unsafe_result
  check_hard decisions rest

unfoldable pub validate_component_decisions :
    {F : Type 0}
    → List ℕ
    → Dict Action
    → List (PairwiseCompatibility F)
    → Dict Action
    → Result (Unit {0})
unfolding component_no_goods binary_assignment check_no_goods check_hard
validate_component_decisions component decisions pairs hard = do
  let ordered = sorted component
  require (same_ids (keys decisions) ordered) unsafe_result
  binary ← binary_assignment decisions ordered []
  check_no_goods binary (component_no_goods pairs)
  check_hard decisions hard
