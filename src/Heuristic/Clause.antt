-- ===== src/Heuristic/Clause.antt =====
-- heuristic.BinaryClause, and what it means for a complete choice of actions to satisfy clauses.
use robot_fleet_management.Base.{
  ℕ, ◌<◌, ◌≢◌, ◌⊎◌, ◌≡◌, true, List, [], ◌∷◌, some, Dict, lookup, insert, keys, elem, distinct,
  Result, ok, raise, ◌>>=◌, value_error, lookup-insert, elem-keys-insert, distinct-keys-insert,
  arith,
}
use robot_fleet_management.Models.{Action}
use robot_fleet_management.Conflicts.Pairs.{
  NoGoodLiteral, NoGoodConstraint, PairwiseCompatibility, action_to_binary, no_good_constraints,
}

pub record BinaryClause : Type 0 where
  pub first : NoGoodLiteral
  pub second : NoGoodLiteral
  pub source : NoGoodConstraint

two_literals : NoGoodConstraint → List NoGoodLiteral → Result BinaryClause
two_literals no_good (first ∷ second ∷ []) =
    ok (record { first = first; second = second; source = no_good })
two_literals no_good other = raise value_error

-- BinaryClause.from_no_good
unfoldable pub from_no_good : NoGoodConstraint → Result BinaryClause
unfolding two_literals
from_no_good no_good = two_literals no_good no_good.literals

-- The inner generator of `_build_clauses`, in front of the clauses of the later pairs.
unfoldable pub clauses_of :
    List NoGoodConstraint → Result (List BinaryClause) → Result (List BinaryClause)
unfolding from_no_good
clauses_of [] later = later
clauses_of (no_good ∷ rest) later = do
  clause ← from_no_good no_good
  clauses ← clauses_of rest later
  ok (clause ∷ clauses)

-- `_build_clauses`
unfoldable pub build_clauses :
    {F : Type 0} → List (PairwiseCompatibility F) → Result (List BinaryClause)
unfolding clauses_of no_good_constraints
build_clauses [] = ok []
build_clauses (pair ∷ pairs) = clauses_of (no_good_constraints pair) (build_clauses pairs)

-- A choice of an action for every robot.
abbrev pub Plan : Type 0
Plan = ℕ → Action

-- The plan makes a literal `x[robot] != value` true.
abbrev pub LiteralHolds : Plan → NoGoodLiteral → Type 0
LiteralHolds plan l = action_to_binary (plan l.robot_id) ≢ l.forbidden_value

abbrev pub Holds : Plan → BinaryClause → Type 0
Holds plan c = LiteralHolds plan c.first ⊎ LiteralHolds plan c.second

abbrev pub IsBinary : BinaryClause → Type 0
IsBinary c = (c.first.forbidden_value < 2) × (c.second.forbidden_value < 2)

-- The plan agrees with every entry of a partial assignment.
abbrev pub Extends : Dict ℕ → Plan → Type 0
Extends a plan =
    (robot_id value : ℕ) → lookup robot_id a ≡ some value → action_to_binary (plan robot_id) ≡ value

-- The second assignment keeps every entry of the first.
abbrev pub Keeps : Dict ℕ → Dict ℕ → Type 0
Keeps a b = (robot_id value : ℕ) → lookup robot_id a ≡ some value → lookup robot_id b ≡ some value

-- Both robots of the clause are among the given ones.
abbrev pub IsInside : List ℕ → BinaryClause → Type 0
IsInside ids c = (elem c.first.robot_id ids ≡ true) × (elem c.second.robot_id ids ≡ true)

-- A partial assignment of zeros and ones to some of the given robots, one entry for each.
pub record IsPartial (ids : List ℕ) (a : Dict ℕ) : Type 0 where
  pub bits : (robot_id value : ℕ) → lookup robot_id a ≡ some value → value < 2
  pub inside : (robot_id : ℕ) → elem robot_id (keys a) ≡ true → elem robot_id ids ≡ true
  pub unique : distinct (keys a) ≡ true

pub insert-IsPartial :
    (ids : List ℕ) (a : Dict ℕ) (k w : ℕ)
    → elem k ids ≡ true
    → w < 2
    → IsPartial ids a
    → IsPartial ids (insert k w a)
insert-IsPartial ids a k w here bit p = record {
  bits = λ r v e. let old = p.bits r v in ground (arith, lookup-insert k r w a);
  inside = λ r e. let old = p.inside r in ground (arith, elem-keys-insert r k w a);
  unique = distinct-keys-insert k w a p.unique;
}
