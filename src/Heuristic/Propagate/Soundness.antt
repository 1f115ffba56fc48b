-- ===== src/Heuristic/Propagate/Soundness.antt =====
-- What a stable assignment is: it keeps the given entries, and no clause asks for more.
use robot_fleet_management.Base.{
  ℕ, ◌-◌, ◌≡◌, subst, List, some, none, Dict, lookup, insert, lookup-insert, All, arith,
}
use robot_fleet_management.Heuristic.Clause.{
  BinaryClause, IsBinary, IsInside, Keeps, IsPartial, insert-IsPartial,
}
use robot_fleet_management.Heuristic.Propagate.{propagated}
use robot_fleet_management.Heuristic.Propagate.Step.{IsClosed}
use robot_fleet_management.Heuristic.Propagate.Rule.{Rule}
use robot_fleet_management.Heuristic.Propagate.Trial.{TrialPost, propagated_rule}

-- A new entry for an open robot keeps every entry.
Keeps-insert : (a b : Dict ℕ) (k w : ℕ) → lookup k b ≡ none → Keeps a b → Keeps a (insert k w b)
Keeps-insert a b k w unset keep r v e =
    let old = keep r v e in ground (arith, lookup-insert k r w b)

abbrev IsSound : List ℕ → Dict ℕ → Dict ℕ → Type 0
IsSound ids a b = Keeps a b × IsPartial ids b

IsSound-rule :
    (ids : List ℕ) (a : Dict ℕ)
    → Rule (λ c. IsInside ids c × IsBinary c) (λ b changed. IsSound ids a b) Unit
IsSound-rule ids a = record {
  force = λ b changed c l good p u. (
    Keeps-insert a b l.robot_id (1 - l.forbidden_value) (ground arith) p.0,
    insert-IsPartial ids b l.robot_id (1 - l.forbidden_value) (ground arith) (omega arith) p.1,
  );
  clash = λ b changed c good p f g. tt;
}

-- Where propagation over clauses of the component succeeds from a partial assignment of it, it
-- keeps every entry, gives a partial assignment again, and leaves no clause violated or unit.
pub propagated_sound :
    (ids : List ℕ) (a b : Dict ℕ) (cs : List BinaryClause)
    → All (λ c. IsInside ids c × IsBinary c) cs
    → IsPartial ids a
    → propagated a cs ≡ some b
    → Keeps a b × IsPartial ids b × All (IsClosed b) cs
propagated_sound ids a b cs good p e =
    let (kept, closed) =
      subst (TrialPost (IsSound ids a) Unit cs) e
        (propagated_rule (IsSound-rule ids a) a cs good (λ r v h. h, p)) in
    (kept.0, kept.1, closed)
