-- ===== src/Heuristic/Clauses.antt =====
-- The clauses that `_build_clauses` makes: a plan satisfies them exactly if no pair is unsafe.
use robot_fleet_management.Base.{
  ℕ, ◌≡◌, refl, ap, ◌∙◌, ◌↔◌, true, &&-true, List, [], ◌∷◌, ◌++◌, map, all, elem, All, All-append,
  All-split, ok, arith,
}
use robot_fleet_management.Models.{Action, pause, resume}
use robot_fleet_management.Conflicts.Pairs.{
  PairwiseCompatibility, within, action_to_binary, forbidden_assignments, no_good_of,
  no_good_constraints,
}
use robot_fleet_management.Heuristic.Clause.{BinaryClause, clauses_of, build_clauses, Plan, Holds}
use robot_fleet_management.Heuristic.Propagate.Step.{binary-lt}
use robot_fleet_management.Heuristic.Greedy.Choice.{Fits, Satisfies}

-- No pair is unsafe under the plan.
abbrev pub IsSafe : {F : Type 0} → Plan → List (PairwiseCompatibility F) → Type 0
IsSafe plan pairs = All (λ p. p.compatibility (plan p.robot_i) (plan p.robot_j) ≡ true) pairs

module _ {F : Type 0} where
  clause_of : PairwiseCompatibility F → Action × Action → BinaryClause
  unfolding no_good_of
  clause_of p a = record {
    first = record { robot_id = p.robot_i; forbidden_value = action_to_binary a.0 };
    second = record { robot_id = p.robot_j; forbidden_value = action_to_binary a.1 };
    source = no_good_of p a;
  }

  pair_clauses : PairwiseCompatibility F → List BinaryClause
  unfolding clause_of
  pair_clauses p = map (clause_of p) (forbidden_assignments p)

  clauses_of_lem :
      (p : PairwiseCompatibility F) (as' : List (Action × Action)) (cs : List BinaryClause)
      → clauses_of (map (no_good_of p) as') (ok cs) ≡ ok (map (clause_of p) as' ++ cs)
  unfolding clauses_of clause_of
  clauses_of_lem p [] cs = refl
  clauses_of_lem p (a ∷ as') cs = rw (clauses_of_lem p as' cs) refl

  Satisfies-pair :
      (plan : Plan) (p : PairwiseCompatibility F) (a b : Action)
      → plan p.robot_i ≡ a
      → plan p.robot_j ≡ b
      → Satisfies plan (pair_clauses p) ↔ (p.compatibility a b ≡ true)
  unfolding pair_clauses forbidden_assignments action_to_binary
  Satisfies-pair plan p pause pause hi hj = ground arith
  Satisfies-pair plan p pause resume hi hj = ground arith
  Satisfies-pair plan p resume pause hi hj = ground arith
  Satisfies-pair plan p resume resume hi hj = ground arith

  Fits-map :
      (ids : List ℕ) (p : PairwiseCompatibility F)
      → elem p.robot_i ids ≡ true
      → elem p.robot_j ids ≡ true
      → (as' : List (Action × Action)) → Fits ids (map (clause_of p) as')
  unfolding clause_of
  Fits-map ids p hi hj [] = tt
  Fits-map ids p hi hj (a ∷ as') =
      (((hi, hj), (binary-lt a.0, binary-lt a.1)), Fits-map ids p hi hj as')

  Fits-pair :
      (ids : List ℕ) (p : PairwiseCompatibility F)
      → elem p.robot_i ids ≡ true
      → elem p.robot_j ids ≡ true
      → Fits ids (pair_clauses p)
  unfolding pair_clauses
  Fits-pair ids p hi hj = Fits-map ids p hi hj (forbidden_assignments p)

  build-cons :
      (p : PairwiseCompatibility F) (pairs : List (PairwiseCompatibility F))
      (cs : List BinaryClause)
      → build_clauses pairs ≡ ok cs
      → build_clauses (p ∷ pairs) ≡ ok (pair_clauses p ++ cs)
  unfolding build_clauses pair_clauses
  build-cons p pairs cs made =
      ap (clauses_of (no_good_constraints p)) made ∙ clauses_of_lem p (forbidden_assignments p) cs

  -- On pairs of the component's robots the clauses are built without an error, stay within the
  -- component, and are satisfied by exactly the safe plans.
  pub build_clauses_lem :
      (ids : List ℕ) (pairs : List (PairwiseCompatibility F))
      → all (within ids) pairs ≡ true
      → (cs : List BinaryClause) × (build_clauses pairs ≡ ok cs)
        × Fits ids cs
        × ((plan : Plan) → Satisfies plan cs ↔ IsSafe plan pairs)
  unfolding build_clauses
  build_clauses_lem ids [] h = ([], refl, tt, λ plan. ((λ s. tt), (λ s. tt)))
  build_clauses_lem ids (p ∷ pairs) h =
      let (h', rest) = &&-true (within ids p) (all (within ids) pairs) h in
      let (hi, hj) = &&-true (elem p.robot_i ids) (elem p.robot_j ids) h' in
      let (cs, made, fits, solves) = build_clauses_lem ids pairs rest in
      (
        pair_clauses p ++ cs,
        build-cons p pairs cs made,
        All-append _ (pair_clauses p) cs (Fits-pair ids p hi hj) fits,
        λ plan.
            let pair = Satisfies-pair plan p (plan p.robot_i) (plan p.robot_j) refl refl in
            (
              (λ s.
                  let (here, there) = All-split (Holds plan) (pair_clauses p) cs s in
                  (pair.0 here, (solves plan).0 there)),
              (λ s. All-append (Holds plan) (pair_clauses p) cs (pair.1 s.0) ((solves plan).1 s.1)),
            ),
      )
