-- ===== src/Heuristic/Propagate/Step.antt =====
-- What one visit of a clause does, without its loop over the literals.
use robot_fleet_management.Base.{
  ℕ, ◌-◌, ◌<◌, ◌≡◌, refl, ◌≢◌, ◌⊎◌, inl, inr, none, some, Dict, lookup, insert, arith, Option-cases,
}
use native.Mathlib.Decide.{ℕ_discrete}
use robot_fleet_management.Models.{Action, pause, resume}
use robot_fleet_management.Conflicts.Pairs.{NoGoodLiteral, action_to_binary}
use robot_fleet_management.Heuristic.Clause.{BinaryClause}
use robot_fleet_management.Heuristic.Propagate.{visit, Visit, idle, conflict, forced}

pub binary-lt : (a : Action) → action_to_binary a < 2
unfolding action_to_binary
binary-lt pause = omega arith
binary-lt resume = omega arith

-- A literal that the assignment makes false, or that it leaves open.
abbrev pub IsFalse : Dict ℕ → NoGoodLiteral → Type 0
IsFalse a l = lookup l.robot_id a ≡ some l.forbidden_value

abbrev pub IsOpen : Dict ℕ → NoGoodLiteral → Type 0
IsOpen a l = lookup l.robot_id a ≡ none

abbrev pub IsTrue : Dict ℕ → NoGoodLiteral → Type 0
IsTrue a l = (v : ℕ) × (lookup l.robot_id a ≡ some v) × (v ≢ l.forbidden_value)

-- A clause that asks for nothing: one literal is true, or both are open.
abbrev pub IsClosed : Dict ℕ → BinaryClause → Type 0
IsClosed a c = IsTrue a c.first ⊎ IsTrue a c.second ⊎ (IsOpen a c.first × IsOpen a c.second)

-- The literal that a visit forces, beside one that is false.
abbrev pub IsUnit : Dict ℕ → BinaryClause → NoGoodLiteral → Type 0
IsUnit a c l =
    (IsOpen a c.first × IsFalse a c.second × (l ≡ c.first))
    ⊎ (IsOpen a c.second × IsFalse a c.first × (l ≡ c.second))

pub data Visited (a : Dict ℕ) (c : BinaryClause) : Visit → Type 0 where
  rests : {r : Visit} → r ≡ idle → IsClosed a c → Visited a c r
  fails : {r : Visit} → r ≡ conflict → IsFalse a c.first → IsFalse a c.second → Visited a c r
  forces :
      {r : Visit} (l : NoGoodLiteral)
      → r ≡ forced (insert l.robot_id (1 - l.forbidden_value) a)
      → IsUnit a c l
      → Visited a c r

literal-cases : (a : Dict ℕ) (l : NoGoodLiteral) → IsOpen a l ⊎ IsFalse a l ⊎ IsTrue a l
literal-cases a l = elim (Option-cases (lookup l.robot_id a)) [
  | inl e ↦ inl e
  | inr (v, e) ↦ elim (ℕ_discrete v l.forbidden_value) [
    | yes same ↦ inr (inl (rw same at e))
    | no other ↦ inr (inr (v, e, other))
  ]
]

pub visit-Visited : (a : Dict ℕ) (c : BinaryClause) → Visited a c (visit a c)
unfolding visit
visit-Visited a c = elim (literal-cases a c.first) [
  | inl o ↦ elim (literal-cases a c.second) [
    | inl o' ↦ rests (ground arith) (inr (inr (o, o')))
    | inr (inl f') ↦ forces c.first (ground arith) (inl (o, f', refl))
    | inr (inr (v', e', n')) ↦ rests (ground arith) (inr (inl (v', e', n')))
  ]
  | inr (inl f) ↦ elim (literal-cases a c.second) [
    | inl o' ↦ forces c.second (ground arith) (inr (o', f, refl))
    | inr (inl f') ↦ fails (ground arith) f f'
    | inr (inr (v', e', n')) ↦ rests (ground arith) (inr (inl (v', e', n')))
  ]
  | inr (inr (v, e, n)) ↦ rests (ground arith) (inl (v, e, n))
]
