-- ===== src/Heuristic/Propagate/Entailment.antt =====
-- `_propagate` only writes what every plan that satisfies the clauses must do.
use robot_fleet_management.Base.{
  ℕ, ◌-◌, ◌≡◌, List, some, Dict, insert, lookup-insert, All, arith, subst, inl, inr, Option-cases,
}
use robot_fleet_management.Conflicts.Pairs.{NoGoodLiteral, action_to_binary}
use robot_fleet_management.Heuristic.Clause.{BinaryClause, IsBinary, Plan, Holds, Extends}
use robot_fleet_management.Heuristic.Propagate.{propagated}
use robot_fleet_management.Heuristic.Propagate.Step.{IsUnit, binary-lt}
use robot_fleet_management.Heuristic.Propagate.Rule.{Rule}
use robot_fleet_management.Heuristic.Propagate.Trial.{TrialPost, propagated_rule}

Extends-insert :
    (plan : Plan) (a : Dict ℕ) (k w : ℕ)
    → action_to_binary (plan k) ≡ w
    → Extends a plan
    → Extends (insert k w a) plan
Extends-insert plan a k w here ext r v e =
    let old = ext r v in ground (arith, lookup-insert k r w a)

entail_rule : (plan : Plan) → Rule (λ c. Holds plan c × IsBinary c) (λ a changed. Extends a plan) ⊥
entail_rule plan = record {
  force = λ a changed c l good ext u.
      Extends-insert plan a l.robot_id (1 - l.forbidden_value) (forced_value a c l good ext u) ext;
  clash = λ a changed c good ext f g.
      let first = ext c.first.robot_id c.first.forbidden_value f in
      let second = ext c.second.robot_id c.second.forbidden_value g in ground arith;
}
  where
    forced_value :
        (a : Dict ℕ) (c : BinaryClause) (l : NoGoodLiteral)
        → Holds plan c × IsBinary c
        → Extends a plan
        → IsUnit a c l
        → action_to_binary (plan l.robot_id) ≡ 1 - l.forbidden_value
    forced_value a c l good ext u =
        let first = ext c.first.robot_id c.first.forbidden_value in
        let second = ext c.second.robot_id c.second.forbidden_value in
        ground (
          arith,
          binary-lt (plan l.robot_id),
          binary-lt (plan c.first.robot_id),
          binary-lt (plan c.second.robot_id),
        )

-- Where a plan satisfies the clauses, whose values are 0 or 1, and agrees with the given
-- entries, propagation succeeds and the plan agrees with its result.
pub propagated-entails :
    (plan : Plan) (a : Dict ℕ) (cs : List BinaryClause)
    → All (λ c. Holds plan c × IsBinary c) cs
    → Extends a plan
    → (b : Dict ℕ) × (propagated a cs ≡ some b) × Extends b plan
propagated-entails plan a cs good ext = elim (Option-cases (propagated a cs)) [
  | inl e ↦ absurd (subst (TrialPost (λ b. Extends b plan) ⊥ cs) e post)
  | inr (b, e) ↦ (b, e, (subst (TrialPost (λ b. Extends b plan) ⊥ cs) e post).0)
]
  where
    post : TrialPost (λ b. Extends b plan) ⊥ cs (propagated a cs)
    post = propagated_rule (entail_rule plan) a cs good ext
