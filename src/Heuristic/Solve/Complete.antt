-- ===== src/Heuristic/Solve/Complete.antt =====
-- A complete stable assignment is a safe plan, and its decisions pass the validator.
use mathlib.Core.Path.{ap₂}
use robot_fleet_management.Base.{
  ℕ, ◌≡◌, refl, sym, ap, ◌∙◌, true, &&-true, &&-intro, ◌==◌, ==_iff, List, [], ◌∷◌, map, all, elem,
  distinct, sorted, some, Dict, lookup, keys, same_ids, same_ids_refl, All, All-elem, ok, arith,
  inl, inr, Bool-cases, elem-sort_by, ltb,
}
use robot_fleet_management.Models.{Action, pause, resume, same_action}
use robot_fleet_management.Conflicts.Pairs.{PairwiseCompatibility, within}
use robot_fleet_management.Optimiser.Validate.{decides, validate_component_decisions}
use robot_fleet_management.Optimiser.Validity.{
  action_of, safe_under, validate_component_decisions_lem,
}
use robot_fleet_management.Heuristic.Clause.{BinaryClause, IsPartial, Plan, Holds}
use robot_fleet_management.Heuristic.Propagate.Step.{IsClosed}
use robot_fleet_management.Heuristic.Greedy.Choice.{Fits, Satisfies, override, override-Extends}
use robot_fleet_management.Heuristic.Greedy.Pass.{Assigned}
use robot_fleet_management.Heuristic.Clauses.{IsSafe}
use robot_fleet_management.Heuristic.Solve.{actions_for}

-- One component's problem, with what holds of it when `solve` has passed its checks.
pub record Problem {F : Type 0} (ids : List ℕ) (cs : List BinaryClause)
    (pairs : List (PairwiseCompatibility F)) (hard : Dict Action) : Type 0 where
  pub inside : all (within ids) pairs ≡ true
  pub fits : Fits ids cs
  pub solves :
      (plan : Plan)
      → (Satisfies plan cs → IsSafe plan pairs) × (IsSafe plan pairs → Satisfies plan cs)
  pub unique : distinct ids ≡ true
  pub hard_known : all (λ r. elem r ids) (keys hard) ≡ true
  pub hard_unique : distinct (keys hard) ≡ true

-- The plan gives every hard robot its hard action.
abbrev pub Follows : Plan → Dict Action → Type 0
Follows plan hard = All (λ h. plan h.0 ≡ h.1) hard

-- The actions of an assignment, with Pause where it is open.
abbrev pub idle_plan : Plan
idle_plan r = pause

abbrev pub plan_of : Dict ℕ → Plan
plan_of b = override b idle_plan

pub complete-Satisfies :
    (ids : List ℕ) (cs : List BinaryClause) (b : Dict ℕ)
    → Fits ids cs
    → IsPartial ids b
    → All (IsClosed b) cs
    → Assigned ids b
    → Satisfies (plan_of b) cs
complete-Satisfies ids [] b fits p closed set = tt
complete-Satisfies ids (c ∷ cs) b fits p closed set =
    (head closed.0, complete-Satisfies ids cs b fits.1 p closed.1 set)
  where
    head : IsClosed b c → Holds (plan_of b) c
    head (inl (v, e, n)) =
        inl (λ q. n (sym (override-Extends ids b idle_plan p c.first.robot_id v e) ∙ q))
    head (inr (inl (v, e, n))) =
        inr (λ q. n (sym (override-Extends ids b idle_plan p c.second.robot_id v e) ∙ q))
    head (inr (inr (o, o'))) =
        let (v, e) =
          All-elem (λ r. (v : ℕ) × (lookup r b ≡ some v)) c.first.robot_id ids set fits.0.0.0 in
        absurd (cc)

-- The decisions list the robots in order, each with the plan's action.
pub actions_for_lem :
    (b : Dict ℕ) (rs : List ℕ)
    → Assigned rs b
    → actions_for b rs ≡ ok (map (λ r. (r, plan_of b r)) rs)
unfolding actions_for override
actions_for_lem b [] set = refl
actions_for_lem b (r ∷ rs) set = let (v, e) = set.0 in ground (arith, actions_for_lem b rs set.1)

module _ {ℓ} {V : Type ℓ} (f : ℕ → V) where
  abbrev pub tabulate : List ℕ → Dict V
  tabulate rs = map (λ r. (r, f r)) rs

  pub keys-tabulate : (rs : List ℕ) → keys (tabulate rs) ≡ rs
  keys-tabulate [] = refl
  keys-tabulate (r ∷ rs) = rw (keys-tabulate rs)

  pub lookup-tabulate :
      (j : ℕ) (rs : List ℕ) → elem j rs ≡ true → lookup j (tabulate rs) ≡ some (f j)
  unfolding lookup
  lookup-tabulate j [] h = absurd (cc)
  lookup-tabulate j (r ∷ rs) h = elim (Bool-cases (r == j)) [
    | inl here ↦ rw here (ap (λ k. some (f k)) ((==_iff r j).0 here))
    | inr other ↦ rw other (lookup-tabulate j rs (ground arith))
  ]

module _ {F : Type 0} where
  all_safe :
      (d : Dict Action) (plan : Plan) (ids : List ℕ)
      → ((r : ℕ) → elem r ids ≡ true → action_of d r ≡ plan r)
      → (pairs : List (PairwiseCompatibility F)) → all (within ids) pairs ≡ true
      → IsSafe plan pairs
      → all (safe_under d) pairs ≡ true
  all_safe d plan ids same [] inside safe = refl
  all_safe d plan ids same (p ∷ pairs) inside safe =
      let (h, rest) = &&-true (within ids p) (all (within ids) pairs) inside in
      let (hi, hj) = &&-true (elem p.robot_i ids) (elem p.robot_j ids) h in
      &&-intro (safe_under d p) (all (safe_under d) pairs)
        (ap₂ p.compatibility (same p.robot_i hi) (same p.robot_j hj) ∙ safe.0)
        (all_safe d plan ids same pairs rest safe.1)

same_action_refl : (a : Action) → same_action a a ≡ true
same_action_refl pause = refl
same_action_refl resume = refl

pub all_hard :
    (d : Dict Action) (plan : Plan) (ids : List ℕ)
    → ((r : ℕ) → elem r ids ≡ true → lookup r d ≡ some (plan r))
    → (hard : Dict Action) → all (λ r. elem r ids) (keys hard) ≡ true
    → Follows plan hard
    → all (λ h. decides d h.0 h.1) hard ≡ true
all_hard d plan ids found [] known follows = refl
all_hard d plan ids found ((r, a) ∷ hard) known follows =
    let (here, rest) = &&-true (elem r ids) (all (λ r. elem r ids) (keys hard)) known in
    &&-intro (decides d r a) (all (λ h. decides d h.0 h.1) hard)
      (ground (arith, found r here, follows.0, same_action_refl a))
      (all_hard d plan ids found hard rest follows.1)

-- The decisions of a safe plan that follows the hard assignments pass the validator, in whatever
-- order they list the component's robots.
pub validate-listed :
    {F : Type 0} (ids listed : List ℕ) (pairs : List (PairwiseCompatibility F)) (hard : Dict Action)
    (plan : Plan)
    → all (within ids) pairs ≡ true
    → all (λ r. elem r ids) (keys hard) ≡ true
    → same_ids listed (sorted ids) ≡ true
    → ((r : ℕ) → elem r ids ≡ true → elem r listed ≡ true)
    → IsSafe plan pairs
    → Follows plan hard
    → validate_component_decisions ids (tabulate plan listed) pairs hard ≡ ok tt
validate-listed ids listed pairs hard plan inside hard_known same found safe follows =
    validate_component_decisions_lem ids d pairs hard inside
    ∙ rw
        (
          keys-tabulate plan listed,
          same,
          all_safe d plan ids (λ r h. ground (arith, looked r h)) pairs inside safe,
          all_hard d plan ids looked hard hard_known follows,
        )
        refl
  where
    d : Dict Action
    d = tabulate plan listed

    looked : (r : ℕ) → elem r ids ≡ true → lookup r (tabulate plan listed) ≡ some (plan r)
    looked r h = lookup-tabulate plan r listed (found r h)

pub validate-tabulate :
    {F : Type 0} (ids : List ℕ) (pairs : List (PairwiseCompatibility F)) (hard : Dict Action)
    (plan : Plan)
    → all (within ids) pairs ≡ true
    → all (λ r. elem r ids) (keys hard) ≡ true
    → IsSafe plan pairs
    → Follows plan hard
    → validate_component_decisions ids (tabulate plan (sorted ids)) pairs hard ≡ ok tt
validate-tabulate ids pairs hard plan inside hard_known =
    validate-listed ids (sorted ids) pairs hard plan inside hard_known (same_ids_refl (sorted ids))
      (λ r h. elem-sort_by ltb r ids ∙ h)
