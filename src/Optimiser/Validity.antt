-- ===== src/Optimiser/Validity.antt =====
-- What `validate_component_decisions` accepts: exactly the decisions for the component's robots that
-- no pair forbids and that follow the hard assignments.
use robot_fleet_management.Base.{
  ℕ, ◌≡◌, refl, Bool, true, false, ◌&&◌, if◌then◌else◌, List, [], ◌∷◌, ◌++◌, some, Dict, lookup,
  lookup_or, insert, lookup-insert, lookup-of_elem, keys, sorted, elem, elem-sort_by, all, same_ids,
  Result, ok, raise, ◌>>◌, unsafe_result, arith, ltb, &&-true,
}
use robot_fleet_management.Models.{Action, pause, resume}
use robot_fleet_management.Conflicts.Pairs.{
  NoGoodConstraint, PairwiseCompatibility, within, action_to_binary, no_good_constraints,
}
use robot_fleet_management.Optimiser.Validate.{
  component_no_goods, binary_assignment, check_no_goods, check_hard, decides,
  validate_component_decisions,
}

-- The action that the decisions hold for a robot.
abbrev pub action_of : Dict Action → ℕ → Action
action_of decisions r = lookup_or pause r decisions

-- The pair's recorded safety for the decided actions.
abbrev pub safe_under : {F : Type 0} → Dict Action → PairwiseCompatibility F → Bool
safe_under decisions p =
    p.compatibility (action_of decisions p.robot_i) (action_of decisions p.robot_j)

abbrev pub accept_if : Bool → Result (Unit {0})
accept_if b = if b then ok tt else raise unsafe_result

accept-and : (a b : Bool) → (accept_if a >> accept_if b) ≡ accept_if (a && b)
accept-and true b = refl
accept-and false b = refl

check-append :
    (assignment : Dict ℕ) (xs ys : List NoGoodConstraint)
    → check_no_goods assignment (xs ++ ys)
      ≡ (check_no_goods assignment xs >> check_no_goods assignment ys)
unfolding check_no_goods
check-append assignment [] ys = refl
check-append assignment (x ∷ xs) ys = ground (arith, check-append assignment xs ys)

-- The assignment holds the plan's action for every robot of the component.
abbrev Encodes : Dict ℕ → (ℕ → Action) → List ℕ → Type 0
Encodes assignment plan ids =
    (r : ℕ) → elem r ids ≡ true → lookup r assignment ≡ some (action_to_binary (plan r))

no_goods_nil :
    (F : Type 0) (assignment : Dict ℕ)
    → check_no_goods assignment (component_no_goods {F = F} []) ≡ ok tt
unfolding component_no_goods check_no_goods
no_goods_nil F assignment = refl

module _ {F : Type 0} where
  -- The clauses of one pair reject exactly the forbidden choice.
  check_pair :
      (assignment : Dict ℕ) (p : PairwiseCompatibility F) (a b : Action)
      → lookup p.robot_i assignment ≡ some (action_to_binary a)
      → lookup p.robot_j assignment ≡ some (action_to_binary b)
      → check_no_goods assignment (no_good_constraints p) ≡ accept_if (p.compatibility a b)
  unfolding check_no_goods no_good_constraints
  check_pair assignment p pause pause hi hj = ground arith
  check_pair assignment p pause resume hi hj = ground arith
  check_pair assignment p resume pause hi hj = ground arith
  check_pair assignment p resume resume hi hj = ground arith

  no_goods_cons :
      (p : PairwiseCompatibility F) (pairs : List (PairwiseCompatibility F))
      → component_no_goods (p ∷ pairs) ≡ no_good_constraints p ++ component_no_goods pairs
  unfolding component_no_goods
  no_goods_cons p pairs = refl

  check_pairs :
      (assignment : Dict ℕ) (plan : ℕ → Action) (ids : List ℕ)
      → Encodes assignment plan ids
      → (pairs : List (PairwiseCompatibility F)) → all (within ids) pairs ≡ true
      → check_no_goods assignment (component_no_goods pairs)
        ≡ accept_if (all (λ p. p.compatibility (plan p.robot_i) (plan p.robot_j)) pairs)
  check_pairs assignment plan ids enc [] inside = no_goods_nil F assignment
  check_pairs assignment plan ids enc (p ∷ pairs) inside =
      let (h, rest) = &&-true (within ids p) (all (within ids) pairs) inside in
      let (hi, hj) = &&-true (elem p.robot_i ids) (elem p.robot_j ids) h in
      rw
        (
          no_goods_cons p pairs,
          check-append assignment (no_good_constraints p) (component_no_goods pairs),
          check_pair assignment p (plan p.robot_i) (plan p.robot_j) (enc p.robot_i hi)
              (enc p.robot_j hj),
          check_pairs assignment plan ids enc pairs rest,
        )
        (accept-and (p.compatibility (plan p.robot_i) (plan p.robot_j)) _)

binary_assignment_lem :
    (decisions : Dict Action) (rs : List ℕ) (built : Dict ℕ)
    → all (λ r. elem r (keys decisions)) rs ≡ true
    → (out : Dict ℕ) × (binary_assignment decisions rs built ≡ ok out)
      × ((j : ℕ)
          → lookup j out ≡ (
              if elem j rs
              then some (action_to_binary (action_of decisions j))
              else lookup j built))
unfolding binary_assignment
binary_assignment_lem decisions [] built h = (built, refl, λ j. refl)
binary_assignment_lem decisions (r ∷ rs) built h =
    let (a, found) = lookup-of_elem r decisions (ground arith) in
    let (out, e, looked) =
      binary_assignment_lem decisions rs (insert r (action_to_binary a) built) (ground arith) in
    (out, rw found e, λ j. ground (arith, looked j, lookup-insert r j (action_to_binary a) built))

check_hard_lem :
    (decisions hard : Dict Action)
    → check_hard decisions hard ≡ accept_if (all (λ h. decides decisions h.0 h.1) hard)
unfolding check_hard
check_hard_lem decisions [] = refl
check_hard_lem decisions ((r, q) ∷ hard) = ground (arith, check_hard_lem decisions hard)

-- On the pairs of a component, the validator accepts exactly the decisions for the component's
-- robots under which no pair is unsafe and every hard assignment is followed, and raises the
-- unsafe-result error otherwise.
pub validate_component_decisions_lem :
    {F : Type 0} (component : List ℕ) (decisions : Dict Action)
    (pairs : List (PairwiseCompatibility F)) (hard : Dict Action)
    → all (within component) pairs ≡ true
    → validate_component_decisions component decisions pairs hard
      ≡ accept_if (
          same_ids (keys decisions) (sorted component)
          && all (safe_under decisions) pairs
          && all (λ h. decides decisions h.0 h.1) hard)
unfolding validate_component_decisions
validate_component_decisions_lem component decisions pairs hard inside =
    after (same_ids (keys decisions) (sorted component)) refl
  where
    after :
        (same : Bool)
        → same_ids (keys decisions) (sorted component) ≡ same
        → validate_component_decisions component decisions pairs hard
          ≡ accept_if (
              same && all (safe_under decisions) pairs && all (λ h. decides decisions h.0 h.1) hard)
    after false e = rw (e, validate_component_decisions)
    after true e =
        let known =
          (&&-true (all (λ k. elem k (sorted component)) (keys decisions))
            (all (λ k. elem k (keys decisions)) (sorted component)) e).1 in
        let (out, made, looked) = binary_assignment_lem decisions (sorted component) [] known in
        let safe =
          check_pairs out (action_of decisions) component
            (λ r h. ground (arith, looked r, elem-sort_by ltb r component)) pairs inside in
        rw (e, validate_component_decisions, made, safe, check_hard_lem decisions hard)
          (accept-and _ _)
