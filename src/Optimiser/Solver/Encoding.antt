-- ===== src/Optimiser/Solver/Encoding.antt =====
-- The CP-SAT model states the component's problem: its solutions are the admissible plans.
use mathlib.Core.Path.{ap₂}
use robot_fleet_management.Base.{
  &&-true, &&-intro, ◌&&◌, ℕ, ◌≡◌, refl, sym, ◌∙◌, Bool, true, not, ◌==◌, ◌↔◌, List, [], ◌∷◌, ◌++◌,
  map, any, all, all-map, all-sort_by, sort_by, ltb, if◌then◌else◌, Dict, arith,
}
use robot_fleet_management.Models.{Action, pause, resume, same_action}
use robot_fleet_management.Conflicts.Pairs.{
  NoGoodConstraint, PairwiseCompatibility, action_to_binary, no_good_constraints, no_good_of,
  forbidden_assignments,
}
use robot_fleet_management.Optimiser.Validate.{component_no_goods}
use robot_fleet_management.Optimiser.Solver.{
  BoolLiteral, CpModel, literal_of, clauses_for, equation_of, equations_for, model_for,
}
use robot_fleet_management.Heuristic.Clause.{Plan}
use robot_fleet_management.Heuristic.Clauses.{IsSafe}
use robot_fleet_management.Heuristic.Solve.Complete.{Follows}

-- A literal under an assignment of 0 and 1 to the variables.
abbrev pub is_true : (ℕ → ℕ) → BoolLiteral → Bool
is_true value l = if l.positive then value l.variable == 1 else value l.variable == 0

-- An assignment is a solution when every clause has a true literal and every equation holds.
abbrev pub solves : (ℕ → ℕ) → CpModel → Bool
solves value m = all (any (is_true value)) m.clauses && all (λ e. value e.0 == e.1) m.equations

abbrev pub bits_of : Plan → ℕ → ℕ
bits_of plan r = action_to_binary (plan r)

clauses_for-append :
    (value : ℕ → ℕ) (ns ms : List NoGoodConstraint)
    → all (any (is_true value)) (clauses_for (ns ++ ms))
      ≡ (all (any (is_true value)) (clauses_for ns) && all (any (is_true value)) (clauses_for ms))
unfolding clauses_for
clauses_for-append value [] ms = refl
clauses_for-append value (n ∷ ns) ms = ground (arith, clauses_for-append value ns ms)

-- The clause of one forbidden assignment is false exactly under that assignment.
clauses_for-no_good_of :
    {F : Type 0} (plan : Plan) (p : PairwiseCompatibility F) (i j : Action)
    → plan p.robot_i ≡ i
    → plan p.robot_j ≡ j
    → (b : Action × Action)
    → any (is_true (bits_of plan)) (map literal_of (no_good_of p b).literals)
      ≡ not (same_action i b.0 && same_action j b.1)
unfolding no_good_of literal_of action_to_binary
clauses_for-no_good_of plan p pause pause ei ej (b, b') = ground arith
clauses_for-no_good_of plan p pause resume ei ej (b, b') = ground arith
clauses_for-no_good_of plan p resume pause ei ej (b, b') = ground arith
clauses_for-no_good_of plan p resume resume ei ej (b, b') = ground arith

clauses_for-map :
    {F : Type 0} (plan : Plan) (p : PairwiseCompatibility F) (i j : Action)
    → plan p.robot_i ≡ i
    → plan p.robot_j ≡ j
    → (bs : List (Action × Action))
    → all (any (is_true (bits_of plan))) (clauses_for (map (no_good_of p) bs))
      ≡ all (λ b. not (same_action i b.0 && same_action j b.1)) bs
unfolding clauses_for
clauses_for-map plan p i j ei ej [] = refl
clauses_for-map plan p i j ei ej (b ∷ bs) =
    ap₂ ◌&&◌ (clauses_for-no_good_of plan p i j ei ej b) (clauses_for-map plan p i j ei ej bs)

forbids :
    {F : Type 0} (p : PairwiseCompatibility F) (i j : Action)
    → all (λ b. not (same_action i b.0 && same_action j b.1)) (forbidden_assignments p)
      ≡ p.compatibility i j
unfolding forbidden_assignments
forbids p pause pause = ground arith
forbids p pause resume = ground arith
forbids p resume pause = ground arith
forbids p resume resume = ground arith

all_safe_pairs : {F : Type 0} → Plan → List (PairwiseCompatibility F) → Bool
all_safe_pairs plan pairs = all (λ p. p.compatibility (plan p.robot_i) (plan p.robot_j)) pairs

clauses_for-component_no_goods :
    {F : Type 0} (plan : Plan) (pairs : List (PairwiseCompatibility F))
    → all (any (is_true (bits_of plan))) (clauses_for (component_no_goods pairs))
      ≡ all_safe_pairs plan pairs
unfolding component_no_goods no_good_constraints all_safe_pairs clauses_for
clauses_for-component_no_goods plan [] = refl
clauses_for-component_no_goods plan (p ∷ pairs) =
    clauses_for-append (bits_of plan) (map (no_good_of p) (forbidden_assignments p))
      (component_no_goods pairs)
    ∙ ap₂ ◌&&◌
        (clauses_for-map plan p (plan p.robot_i) (plan p.robot_j) refl refl
            (forbidden_assignments p)
          ∙ forbids p (plan p.robot_i) (plan p.robot_j))
        (clauses_for-component_no_goods plan pairs)

all_safe_pairs_iff :
    {F : Type 0} (plan : Plan) (pairs : List (PairwiseCompatibility F))
    → (all_safe_pairs plan pairs ≡ true) ↔ IsSafe plan pairs
unfolding all_safe_pairs
all_safe_pairs_iff plan [] = ((λ h. tt), (λ h. refl))
all_safe_pairs_iff plan (p ∷ pairs) =
    let rest = all_safe_pairs_iff plan pairs in
    let safe = p.compatibility (plan p.robot_i) (plan p.robot_j) in
    let others = all (λ q. q.compatibility (plan q.robot_i) (plan q.robot_j)) pairs in
    (
      (λ h. let (here, there) = &&-true safe others h in (here, rest.0 there)),
      (λ h. &&-intro safe others h.0 (rest.1 h.1)),
    )

same_bit : (a b : Action) → ((action_to_binary a == action_to_binary b) ≡ true) ↔ (a ≡ b)
unfolding action_to_binary
same_bit pause pause = ground arith
same_bit pause resume = ground arith
same_bit resume pause = ground arith
same_bit resume resume = ground arith

equations_of_iff :
    (plan : Plan) (hard : Dict Action)
    → (all (λ h. bits_of plan h.0 == action_to_binary h.1) hard ≡ true) ↔ Follows plan hard
equations_of_iff plan [] = ((λ h. tt), (λ h. refl))
equations_of_iff plan ((r, a) ∷ hard) =
    let rest = equations_of_iff plan hard in
    let here = bits_of plan r == action_to_binary a in
    let others = all (λ h. bits_of plan h.0 == action_to_binary h.1) hard in
    (
      (λ h. let (x, y) = &&-true here others h in ((same_bit (plan r) a).0 x, rest.0 y)),
      (λ h. &&-intro here others ((same_bit (plan r) a).1 h.0) (rest.1 h.1)),
    )

equations_for_iff :
    (plan : Plan) (hard : Dict Action)
    → (all (λ e. bits_of plan e.0 == e.1) (equations_for hard) ≡ true) ↔ Follows plan hard
unfolding equations_for
equations_for_iff plan hard =
    let before = λ (h k : ℕ × Action). ltb h.0 k.0 in
    let holds = λ (h : ℕ × Action). bits_of plan h.0 == action_to_binary h.1 in
    let same =
      all-map (λ e. bits_of plan e.0 == e.1) equation_of (sort_by before hard)
      ∙ all-sort_by holds before hard in
    let rest = equations_of_iff plan hard in ((λ h. rest.0 (sym same ∙ h)), (λ h. same ∙ rest.1 h))

-- A plan's bits solve the CP-SAT model of a component exactly when the plan is safe on the
-- component's pairs and follows the hard assignments.
pub model_for-solves :
    {F : Type 0} (ordered : List ℕ) (pairs : List (PairwiseCompatibility F)) (hard : Dict Action)
    (coefficients : Dict ℕ) (plan : Plan)
    → (solves (bits_of plan) (model_for ordered (component_no_goods pairs) hard coefficients)
        ≡ true)
      ↔ (IsSafe plan pairs × Follows plan hard)
unfolding model_for
model_for-solves ordered pairs hard coefficients plan =
    let clauses = all (any (is_true (bits_of plan))) (clauses_for (component_no_goods pairs)) in
    let equations = all (λ e. bits_of plan e.0 == e.1) (equations_for hard) in
    let same = clauses_for-component_no_goods plan pairs in
    let safe = all_safe_pairs_iff plan pairs in
    let follows = equations_for_iff plan hard in
    (
      (λ h. let (x, y) = &&-true clauses equations h in (safe.0 (sym same ∙ x), follows.0 y)),
      (λ h. &&-intro clauses equations (same ∙ safe.1 h.0) (follows.1 h.1)),
    )
