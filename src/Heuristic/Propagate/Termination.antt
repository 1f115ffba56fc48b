-- ===== src/Heuristic/Propagate/Termination.antt =====
-- The `while changed` loop of `_propagate` ends: every round but the last assigns a variable.
use robot_fleet_management.Base.{
  ℕ, zero, suc, ◌+◌, ◌-◌, ◌*◌, ◌≤◌, ◌<◌, ◌≡◌, refl, sym, subst, ◌≢◌, Bool, true, false, List, [],
  ◌∷◌, length, some, none, Dict, lookup, insert, lookup-insert, All, All-map, arith, inl, inr,
}
use robot_fleet_management.Conflicts.Pairs.{NoGoodLiteral}
use robot_fleet_management.Heuristic.Clause.{BinaryClause}
use robot_fleet_management.Heuristic.Propagate.{
  propagate, propagate_fuel, exhausted, round, Round, contradiction, finished,
}
use robot_fleet_management.Heuristic.Propagate.Step.{IsUnit}
use robot_fleet_management.Heuristic.Propagate.Rule.{Rule, RoundPost, round_rule}

open_count : Dict ℕ → NoGoodLiteral → ℕ
open_count a l = elim (lookup l.robot_id a) [ none ↦ 1 | some v ↦ 0 ]

open_counts : Dict ℕ → List BinaryClause → ℕ
open_counts a [] = 0
open_counts a (c ∷ cs) = open_count a c.first + open_count a c.second + open_counts a cs

open_counts-le : (a : Dict ℕ) (cs : List BinaryClause) → open_counts a cs ≤ 2 * length cs
unfolding open_counts open_count
open_counts-le a [] = omega arith
open_counts-le a (c ∷ cs) = ground (arith, open_counts-le a cs)

open_count-insert-le :
    (k w : ℕ) (a : Dict ℕ) (l : NoGoodLiteral) → open_count (insert k w a) l ≤ open_count a l
unfolding open_count
open_count-insert-le k w a l = ground (arith, lookup-insert k l.robot_id w a)

open_counts-insert-le :
    (k w : ℕ) (a : Dict ℕ) (cs : List BinaryClause)
    → open_counts (insert k w a) cs ≤ open_counts a cs
unfolding open_counts
open_counts-insert-le k w a [] = omega arith
open_counts-insert-le k w a (c ∷ cs) = omega (
  arith,
  open_count-insert-le k w a c.first,
  open_count-insert-le k w a c.second,
  open_counts-insert-le k w a cs,
)

-- Forcing a literal of the clause closes at least that literal.
abbrev Shrinks : List BinaryClause → BinaryClause → Type 0
Shrinks cs c =
    (a : Dict ℕ) (l : NoGoodLiteral) (w : ℕ)
    → IsUnit a c l
    → open_counts (insert l.robot_id w a) cs < open_counts a cs

open_count-insert-lt :
    (w : ℕ) (a : Dict ℕ) (l : NoGoodLiteral)
    → lookup l.robot_id a ≡ none
    → open_count (insert l.robot_id w a) l < open_count a l
unfolding open_count
open_count-insert-lt w a l h = ground (arith, lookup-insert l.robot_id l.robot_id w a)

Shrinks-cons : (c : BinaryClause) (cs : List BinaryClause) → Shrinks (c ∷ cs) c
unfolding open_counts
Shrinks-cons c cs a l w (inl (o, f, e)) =
    subst (λ k. open_counts (insert k.robot_id w a) (c ∷ cs) < open_counts a (c ∷ cs)) (sym e)
      (omega (
        arith,
        open_count-insert-lt w a c.first o,
        open_count-insert-le c.first.robot_id w a c.second,
        open_counts-insert-le c.first.robot_id w a cs,
      ))
Shrinks-cons c cs a l w (inr (o, f, e)) =
    subst (λ k. open_counts (insert k.robot_id w a) (c ∷ cs) < open_counts a (c ∷ cs)) (sym e)
      (omega (
        arith,
        open_count-insert-lt w a c.second o,
        open_count-insert-le c.second.robot_id w a c.first,
        open_counts-insert-le c.second.robot_id w a cs,
      ))

Shrinks-All : (cs : List BinaryClause) → All (Shrinks cs) cs
unfolding open_counts
Shrinks-All [] = tt
Shrinks-All (c ∷ cs) = (
  Shrinks-cons c cs,
  All-map (Shrinks cs) (Shrinks (c ∷ cs)) cs
      (λ d h a l w u. omega (
        arith,
        h a l w u,
        open_count-insert-le l.robot_id w a c.first,
        open_count-insert-le l.robot_id w a c.second,
      ))
      (Shrinks-All cs),
)

abbrev Less : List BinaryClause → Dict ℕ → Dict ℕ → Bool → Type 0
Less cs a b changed =
    (open_counts b cs ≤ open_counts a cs) × (changed ≡ true → open_counts b cs < open_counts a cs)

round-Less : (cs : List BinaryClause) (a : Dict ℕ) → RoundPost (Less cs a) Unit (round a false cs)
round-Less cs a = round_rule rule a false cs (Shrinks-All cs) (omega arith, λ e. absurd (cc))
  where
    rule : Rule (Shrinks cs) (Less cs a) Unit
    rule = record {
      force = λ b changed c l shrinks p u.
          let less = shrinks b l (1 - l.forbidden_value) u in (omega arith, λ _. omega arith);
      clash = λ b changed c shrinks p f g. tt;
    }

propagate_fuel-ne-exhausted :
    (fuel : ℕ) (a : Dict ℕ) (cs : List BinaryClause)
    → open_counts a cs < fuel
    → propagate_fuel fuel a cs ≢ exhausted
unfolding propagate_fuel
propagate_fuel-ne-exhausted zero a cs h = absurd (omega arith)
propagate_fuel-ne-exhausted (suc fuel) a cs h =
    after (λ b less. propagate_fuel-ne-exhausted fuel b cs less) (round a false cs) refl
      (round-Less cs a)
  where
    after :
        ((b : Dict ℕ) → open_counts b cs < fuel → propagate_fuel fuel b cs ≢ exhausted)
        → (r : Round) → round a false cs ≡ r
        → RoundPost (Less cs a) Unit r
        → propagate_fuel (suc fuel) a cs ≢ exhausted
    after again contradiction e p = rw (e, propagate_fuel) (λ q. cc)
    after again (finished b true) e p =
        rw (e, propagate_fuel) (again b (let less = p.1 refl in omega arith))
    after again (finished b false) e p = rw (e, propagate_fuel) (λ q. cc)

-- Propagation reaches a fixed point or a contradiction within the fuel of the model.
pub propagate-ne-exhausted : (a : Dict ℕ) (cs : List BinaryClause) → propagate a cs ≢ exhausted
unfolding propagate
propagate-ne-exhausted a cs =
    propagate_fuel-ne-exhausted (suc (2 * length cs)) a cs (omega (arith, open_counts-le a cs))
