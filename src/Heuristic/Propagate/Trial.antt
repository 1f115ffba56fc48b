-- ===== src/Heuristic/Propagate/Trial.antt =====
-- The proof rule for `_propagate` as its callers see it: an assignment, or none.
use robot_fleet_management.Base.{
  ℕ, suc, ◌*◌, ◌≡◌, refl, List, length, Option, none, some, Dict, All,
}
use robot_fleet_management.Heuristic.Clause.{BinaryClause}
use robot_fleet_management.Heuristic.Propagate.{
  Propagation, exhausted, inconsistent, stable, propagate, propagated,
}
use robot_fleet_management.Heuristic.Propagate.Step.{IsClosed}
use robot_fleet_management.Heuristic.Propagate.Rule.{Rule, StablePost, propagate_rule}
use robot_fleet_management.Heuristic.Propagate.Termination.{propagate-ne-exhausted}

abbrev pub TrialPost : (Dict ℕ → Type 0) → Type 0 → List BinaryClause → Option (Dict ℕ) → Type 0
TrialPost P K cs none = K
TrialPost P K cs (some b) = P b × All (IsClosed b) cs

pub propagated_rule :
    {Good : BinaryClause → Type 0} {P : Dict ℕ → Type 0} {K : Type 0}
    → Rule Good (λ a _. P a) K
    → (a : Dict ℕ) (cs : List BinaryClause) → All Good cs
    → P a
    → TrialPost P K cs (propagated a cs)
unfolding propagated propagate
propagated_rule {P = P} {K = K} rule a cs good p =
    after (propagate a cs) refl (propagate_rule rule (suc (2 * length cs)) a cs good p)
  where
    after :
        (r : Propagation)
        → propagate a cs ≡ r
        → StablePost P K cs r
        → TrialPost P K cs (propagated a cs)
    after exhausted e q = absurd (propagate-ne-exhausted a cs e)
    after inconsistent e q = rw (e, propagated) q
    after (stable b) e q = rw (e, propagated) q
