-- ===== src/Heuristic/Solve/Seed.antt =====
-- The seed of the search: the hard assignments as a partial assignment.
use robot_fleet_management.Base.{
  ℕ, ◌<◌, ◌≡◌, refl, ap, subst, true, ◌==◌, ==_iff, List, [], ◌∷◌, all, elem, elem-all, distinct,
  some, Dict, lookup, keys, elem_ne, arith, inl, inr, Bool-cases,
}
use robot_fleet_management.Models.{Action, pause, resume}
use robot_fleet_management.Conflicts.Pairs.{action_to_binary}
use robot_fleet_management.Heuristic.Clause.{Keeps, IsPartial, Plan, Extends}
use robot_fleet_management.Heuristic.Propagate.Step.{binary-lt}
use robot_fleet_management.Heuristic.Greedy.Choice.{override}
use robot_fleet_management.Heuristic.Solve.{seed_of}
use robot_fleet_management.Heuristic.Solve.Complete.{Follows, plan_of}

keys-seed_of : (hard : Dict Action) → keys (seed_of hard) ≡ keys hard
unfolding seed_of
keys-seed_of [] = refl
keys-seed_of ((r, a) ∷ hard) = ap (◌∷◌ r) (keys-seed_of hard)

seed_of-lt : (hard : Dict Action) (r v : ℕ) → lookup r (seed_of hard) ≡ some v → v < 2
unfolding seed_of lookup
seed_of-lt [] r v e = absurd (cc)
seed_of-lt ((k, a) ∷ hard) r v e = ground (arith, binary-lt a, seed_of-lt hard r v)

pub seed_of-IsPartial :
    (ids : List ℕ) (hard : Dict Action)
    → all (λ r. elem r ids) (keys hard) ≡ true
    → distinct (keys hard) ≡ true
    → IsPartial ids (seed_of hard)
seed_of-IsPartial ids hard known unique = record {
  bits = seed_of-lt hard;
  inside = λ r h.
      elem-all (λ k. elem k ids) r (keys hard) known
        (subst (λ ks. elem r ks ≡ true) (keys-seed_of hard) h);
  unique = rw (keys-seed_of hard) unique;
}

-- A plan that follows the hard assignments agrees with the seed.
pub seed_of-Extends :
    (hard : Dict Action) (plan : Plan) → Follows plan hard → Extends (seed_of hard) plan
unfolding seed_of lookup
seed_of-Extends [] plan follows r v e = absurd (cc)
seed_of-Extends ((k, a) ∷ hard) plan follows r v e = elim (Bool-cases (k == r)) [
  | inl here ↦ let same = (==_iff k r).0 here in ground (arith, follows.0, same)
  | inr other ↦ seed_of-Extends hard plan follows.1 r v (ground arith)
]

act-binary :
    (b : Dict ℕ) (k : ℕ) (a : Action) → lookup k b ≡ some (action_to_binary a) → plan_of b k ≡ a
unfolding override action_to_binary
act-binary b k pause e = ground arith
act-binary b k resume e = ground arith

Follows-lookup :
    (b : Dict ℕ) (hard : Dict Action)
    → distinct (keys hard) ≡ true
    → ((r v : ℕ)
        → elem r (keys hard) ≡ true
        → lookup r (seed_of hard) ≡ some v
        → lookup r b ≡ some v)
    → Follows (plan_of b) hard
unfolding seed_of lookup
Follows-lookup b [] unique keep = tt
Follows-lookup b ((k, a) ∷ hard) unique keep = (
  act-binary b k a (keep k (action_to_binary a) (ground arith) (ground arith)),
  Follows-lookup b hard (ground arith) λ r v h e.
      let other = elem_ne r k (keys hard) h (ground arith) in
      keep r v (ground arith) (ground arith),
)

-- An assignment that keeps the seed decides the hard robots as they ask.
pub seed_of-Follows :
    (b : Dict ℕ) (hard : Dict Action)
    → distinct (keys hard) ≡ true
    → Keeps (seed_of hard) b
    → Follows (plan_of b) hard
seed_of-Follows b hard unique keep = Follows-lookup b hard unique (λ r v h e. keep r v e)
