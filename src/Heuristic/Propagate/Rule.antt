-- ===== src/Heuristic/Propagate/Rule.antt =====
-- Proof rules for the loops of `_propagate`: an invariant of the assignment that every forced value
-- keeps holds at the end, and a contradiction has the consequence that is shown for one clause.
use robot_fleet_management.Base.{
  ℕ, zero, suc, ◌-◌, ◌≡◌, refl, subst, Bool, true, false, List, [], ◌∷◌, Dict, insert, All,
}
use robot_fleet_management.Conflicts.Pairs.{NoGoodLiteral}
use robot_fleet_management.Heuristic.Clause.{BinaryClause}
use robot_fleet_management.Heuristic.Propagate.{
  Round, contradiction, finished, round, Propagation, exhausted, inconsistent, stable,
  propagate_fuel,
}
use robot_fleet_management.Heuristic.Propagate.Step.{
  IsFalse, IsUnit, IsClosed, rests, fails, forces, visit-Visited,
}

-- What to show of an invariant `P assignment changed`, a consequence `K` of contradictions, and a
-- fact `Good` of every clause.
pub record Rule (Good : BinaryClause → Type 0) (P : Dict ℕ → Bool → Type 0) (K : Type 0)
    : Type 0 where
  pub force :
      (a : Dict ℕ) (changed : Bool) (c : BinaryClause) (l : NoGoodLiteral)
      → Good c
      → P a changed
      → IsUnit a c l
      → P (insert l.robot_id (1 - l.forbidden_value) a) true
  pub clash :
      (a : Dict ℕ) (changed : Bool) (c : BinaryClause)
      → Good c
      → P a changed
      → IsFalse a c.first
      → IsFalse a c.second
      → K

abbrev pub RoundPost : (Dict ℕ → Bool → Type 0) → Type 0 → Round → Type 0
RoundPost P K contradiction = K
RoundPost P K (finished b changed) = P b changed

pub round_rule :
    {Good : BinaryClause → Type 0} {P : Dict ℕ → Bool → Type 0} {K : Type 0}
    → Rule Good P K
    → (a : Dict ℕ) (changed : Bool) (cs : List BinaryClause) → All Good cs
    → P a changed
    → RoundPost P K (round a changed cs)
unfolding round
round_rule rule a changed [] good p = p
round_rule rule a changed (c ∷ cs) good p = elim (visit-Visited a c) [
  | rests e _ ↦ rw (e, round) (round_rule rule a changed cs good.1 p)
  | fails e f g ↦ rw (e, round) (rule.clash a changed c good.0 p f g)
  | forces l e u ↦
      rw (e, round)
        (round_rule rule (insert l.robot_id (1 - l.forbidden_value) a) true cs good.1
          (rule.force a changed c l good.0 p u))
]

abbrev Always : BinaryClause → Type 0
Always c = Unit {0}

Always-All : (cs : List BinaryClause) → All Always cs
Always-All [] = tt
Always-All (c ∷ cs) = (tt, Always-All cs)

-- Once `changed` is set, the round ends with it set.
round_changed :
    (a : Dict ℕ) (cs : List BinaryClause) → RoundPost (λ b ch. ch ≡ true) Unit (round a true cs)
round_changed a cs = round_rule rule a true cs (Always-All cs) refl
  where
    rule : Rule Always (λ b ch. ch ≡ true) Unit
    rule = record { force = λ a ch c l g p u. refl; clash = λ a ch c g p f h. tt }

-- A round that changes nothing leaves the assignment, and every clause asks for nothing.
round-IsClosed :
    (a b : Dict ℕ) (changed : Bool) (cs : List BinaryClause)
    → round a changed cs ≡ finished b false
    → (b ≡ a) × All (IsClosed a) cs
unfolding round
round-IsClosed a b changed [] h = (cc, tt)
round-IsClosed a b changed (c ∷ cs) h = elim (visit-Visited a c) [
  | rests e closed ↦
      let (same, rest) = round-IsClosed a b changed cs (rw (e, round) at h) in
      (same, (closed, rest))
  | fails e f g ↦ absurd (cc (rw (e, round) at h))
  | forces l e u ↦
      let a' : Dict ℕ = insert l.robot_id (1 - l.forbidden_value) a in
      let h' : round a' true cs ≡ finished b false = rw (e, round) at h in
      absurd (cc (subst (RoundPost (λ b ch. ch ≡ true) Unit) h' (round_changed a' cs)))
]

abbrev pub StablePost : (Dict ℕ → Type 0) → Type 0 → List BinaryClause → Propagation → Type 0
StablePost P K cs exhausted = Unit
StablePost P K cs inconsistent = K
StablePost P K cs (stable b) = P b × All (IsClosed b) cs

pub propagate_rule :
    {Good : BinaryClause → Type 0} {P : Dict ℕ → Type 0} {K : Type 0}
    → Rule Good (λ a _. P a) K
    → (fuel : ℕ) (a : Dict ℕ) (cs : List BinaryClause) → All Good cs
    → P a
    → StablePost P K cs (propagate_fuel fuel a cs)
unfolding propagate_fuel
propagate_rule rule zero a cs good p = tt
propagate_rule {P = P} {K = K} rule (suc fuel) a cs good p =
    after (λ b q. propagate_rule rule fuel b cs good q) (round a false cs) refl
      (round_rule rule a false cs good p)
  where
    after :
        ((b : Dict ℕ) → P b → StablePost P K cs (propagate_fuel fuel b cs))
        → (r : Round) → round a false cs ≡ r
        → RoundPost (λ b _. P b) K r
        → StablePost P K cs (propagate_fuel (suc fuel) a cs)
    after again contradiction e k = rw (e, propagate_fuel) k
    after again (finished b true) e q = rw (e, propagate_fuel) (again b q)
    after again (finished b false) e q =
        let (same, closed) = round-IsClosed a b false cs e in
        rw (e, propagate_fuel) (q, rw same closed)
