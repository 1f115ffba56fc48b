-- ===== src/Conflicts/Pairs.antt =====
-- conflicts.py: one robot pair, its unsafe action assignments and their no-good clauses.
use robot_fleet_management.Base.{
  ℕ, ◌<◌, ◌≡◌, Bool, true, false, not, ◌&&◌, ◌==◌, ltb, if◌then◌else◌, List, [], ◌∷◌, map, keep_if,
  none, some, Dict, lookup, elem, Result, ok, raise, ◌>>=◌, ◌>>◌, value_error, key_error, require,
  arith,
}
use robot_fleet_management.Models.{Action, pause, resume}

-- ACTION_ASSIGNMENTS, in ACTION_ORDER.
abbrev pub action_assignments : List (Action × Action)
action_assignments = (pause, pause) ∷ (pause, resume) ∷ (resume, pause) ∷ (resume, resume) ∷ []

unfoldable pub action_to_binary : Action → ℕ
action_to_binary pause = 0
action_to_binary resume = 1

pub record NoGoodLiteral : Type 0 where
  pub robot_id : ℕ
  pub forbidden_value : ℕ

pub record NoGoodConstraint : Type 0 where
  pub literals : List NoGoodLiteral
  pub source_pair : ℕ × ℕ
  pub source_assignment : Action × Action

-- NoGoodLiteral.__post_init__
unfoldable pub new_literal : ℕ → ℕ → Result NoGoodLiteral
new_literal robot_id value = do
  require (not (robot_id == 0)) value_error
  require (ltb value 2) value_error
  ok (record { robot_id = robot_id; forbidden_value = value })

-- NoGoodConstraint.is_violated_by: the generator under `all` stops at the first literal that holds,
-- and a robot that the assignment lacks is a KeyError.
violates : Dict ℕ → List NoGoodLiteral → Result Bool
violates assignment [] = ok true
violates assignment (l ∷ ls) = elim (lookup l.robot_id assignment) [
  | none ↦ raise key_error
  | some value ↦
      let rest = violates assignment ls in if value == l.forbidden_value then rest else ok false
]

unfoldable pub is_violated_by : NoGoodConstraint → Dict ℕ → Result Bool
unfolding violates
is_violated_by no_good assignment = violates assignment no_good.literals

abbrev pub Bounds : Type 0 → Type 0
Bounds F = F × F × F × F

-- The mappings of the source hold all four action assignments, so they are total functions here.
pub record PairwiseCompatibility (F : Type 0) : Type 0 where
  pub robot_i : ℕ
  pub robot_j : ℕ
  pub compatibility : Action → Action → Bool
  pub envelope_bounds : Action → Action → Bounds F × Bounds F

module _ {F : Type 0} where
  unfoldable pub forbidden_assignments : PairwiseCompatibility F → List (Action × Action)
  forbidden_assignments p = keep_if (λ (i, j). not (p.compatibility i j)) action_assignments

  unfoldable pub no_good_of : PairwiseCompatibility F → Action × Action → NoGoodConstraint
  unfolding action_to_binary
  no_good_of p (i, j) = record {
    literals =
        record { robot_id = p.robot_i; forbidden_value = action_to_binary i }
        ∷ record { robot_id = p.robot_j; forbidden_value = action_to_binary j }
        ∷ [];
    source_pair = (p.robot_i, p.robot_j);
    source_assignment = (i, j);
  }

  -- The checks of NoGoodLiteral and NoGoodConstraint cannot fail here (`new_no_good-no_good_of`):
  -- RobotState refuses an empty identifier, and a pair is ordered.
  unfoldable pub no_good_constraints : PairwiseCompatibility F → List NoGoodConstraint
  unfolding forbidden_assignments no_good_of
  no_good_constraints p = map (no_good_of p) (forbidden_assignments p)

  -- The two records built with their __post_init__ checks.
  unfoldable pub new_no_good : PairwiseCompatibility F → Action × Action → Result NoGoodConstraint
  unfolding new_literal action_to_binary
  new_no_good p (i, j) = do
    first ← new_literal p.robot_i (action_to_binary i)
    second ← new_literal p.robot_j (action_to_binary j)
    require (ltb p.robot_i p.robot_j) value_error
    ok (record {
      literals = first ∷ second ∷ [];
      source_pair = (p.robot_i, p.robot_j);
      source_assignment = (i, j);
    })

  pub new_no_good-no_good_of :
      (p : PairwiseCompatibility F) (a : Action × Action)
      → 0 < p.robot_i
      → p.robot_i < p.robot_j
      → new_no_good p a ≡ ok (no_good_of p a)
  unfolding new_no_good no_good_of
  new_no_good-no_good_of p (pause, pause) hi hj = ground arith
  new_no_good-no_good_of p (pause, resume) hi hj = ground arith
  new_no_good-no_good_of p (resume, pause) hi hj = ground arith
  new_no_good-no_good_of p (resume, resume) hi hj = ground arith

  -- Both robots of the pair stand in the component.
  abbrev pub within : List ℕ → PairwiseCompatibility F → Bool
  within ids p = elem p.robot_i ids && elem p.robot_j ids
