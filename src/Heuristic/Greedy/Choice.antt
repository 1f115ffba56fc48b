-- ===== src/Heuristic/Greedy/Choice.antt =====
-- One step of the greedy pass: what it keeps, that it misses no plan, and what a forced Pause means.
use robot_fleet_management.Base.{
  ℕ, ◌<◌, ◌≡◌, refl, subst, sym, ◌∙◌, ◌==◌, true, List, [], ◌∷◌, none, some, Dict, lookup, insert,
  lookup-insert, elem, All, arith, if◌then◌else◌, inl, inr, ◌⊎◌, Option-cases,
}
use robot_fleet_management.Models.{Action, pause, resume}
use robot_fleet_management.Conflicts.Pairs.{action_to_binary}
use robot_fleet_management.Heuristic.Clause.{
  BinaryClause, IsBinary, IsInside, Keeps, IsPartial, insert-IsPartial, Plan, Holds, Extends,
}
use robot_fleet_management.Heuristic.Propagate.{propagated, try_assignment}
use robot_fleet_management.Heuristic.Propagate.Step.{IsClosed}
use robot_fleet_management.Heuristic.Propagate.Soundness.{propagated_sound}
use robot_fleet_management.Heuristic.Propagate.Entailment.{propagated-entails}
use robot_fleet_management.Heuristic.Greedy.{choose}

-- A partial assignment at a fixed point of propagation.
abbrev pub IsStable : List ℕ → List BinaryClause → Dict ℕ → Type 0
IsStable ids cs a = IsPartial ids a × All (IsClosed a) cs

abbrev pub Fits : List ℕ → List BinaryClause → Type 0
Fits ids cs = All (λ c. IsInside ids c × IsBinary c) cs

abbrev pub Satisfies : Plan → List BinaryClause → Type 0
Satisfies plan cs = All (Holds plan) cs

pub Satisfies-IsBinary :
    (ids : List ℕ) (plan : Plan) (cs : List BinaryClause)
    → Fits ids cs
    → Satisfies plan cs
    → All (λ c. Holds plan c × IsBinary c) cs
Satisfies-IsBinary ids plan [] f s = tt
Satisfies-IsBinary ids plan (c ∷ cs) f s = ((s.0, f.0.1), Satisfies-IsBinary ids plan cs f.1 s.1)

-- On an open robot, `_try_assignment` writes the value and propagates.
try_assignment-open :
    (a : Dict ℕ) (k w : ℕ) (cs : List BinaryClause)
    → lookup k a ≡ none
    → try_assignment a k w cs ≡ propagated (insert k w a) cs
unfolding try_assignment
try_assignment-open a k w cs unset = ground arith

Keeps-insert_self :
    (a b : Dict ℕ) (k w : ℕ)
    → lookup k a ≡ none
    → Keeps (insert k w a) b
    → Keeps a b × (lookup k b ≡ some w)
Keeps-insert_self a b k w unset keep = (
  λ r v e. keep r v (ground (arith, lookup-insert k r w a)),
  keep k w (ground (arith, lookup-insert k k w a)),
)

pub try_assignment_sound :
    (ids : List ℕ) (cs : List BinaryClause) (a b : Dict ℕ) (k w : ℕ)
    → Fits ids cs
    → IsPartial ids a
    → elem k ids ≡ true
    → w < 2
    → lookup k a ≡ none
    → try_assignment a k w cs ≡ some b
    → Keeps a b × IsStable ids cs b × (lookup k b ≡ some w)
try_assignment_sound ids cs a b k w fits p here bit unset e =
    let (keep, partial, closed) =
      propagated_sound ids (insert k w a) b cs fits (insert-IsPartial ids a k w here bit p)
        (sym (try_assignment-open a k w cs unset) ∙ e) in
    let (keep', set) = Keeps-insert_self a b k w unset keep in (keep', (partial, closed), set)

try_assignment-entails :
    (ids : List ℕ) (cs : List BinaryClause) (plan : Plan) (a : Dict ℕ) (k w : ℕ)
    → Fits ids cs
    → Satisfies plan cs
    → Extends a plan
    → lookup k a ≡ none
    → action_to_binary (plan k) ≡ w
    → (b : Dict ℕ) × (try_assignment a k w cs ≡ some b) × Extends b plan
try_assignment-entails ids cs plan a k w fits sat ext unset here =
    rw (try_assignment-open a k w cs unset) (
      propagated-entails plan (insert k w a) cs (Satisfies-IsBinary ids plan cs fits sat)
        (λ r v e. let old = ext r v in ground (arith, lookup-insert k r w a)))

-- The plan that follows a stable assignment where it is defined.
unfoldable pub override : Dict ℕ → Plan → Plan
override a plan r = elim (lookup r a) [ none ↦ plan r | some v ↦ if v == 1 then resume else pause ]

pub override-Extends :
    (ids : List ℕ) (a : Dict ℕ) (plan : Plan) → IsPartial ids a → Extends a (override a plan)
unfolding override action_to_binary
override-Extends ids a plan p r v e = let bit = p.bits r v e in ground arith

override-open : (a : Dict ℕ) (plan : Plan) (r : ℕ) → lookup r a ≡ none → override a plan r ≡ plan r
unfolding override
override-open a plan r e = rw (e, override)

-- Clauses that ask for nothing keep being satisfied.
pub override-Satisfies :
    (ids : List ℕ) (cs : List BinaryClause) (a : Dict ℕ) (plan : Plan)
    → IsPartial ids a
    → All (IsClosed a) cs
    → Satisfies plan cs
    → Satisfies (override a plan) cs
override-Satisfies ids [] a plan p closed sat = tt
override-Satisfies ids (c ∷ cs) a plan p closed sat =
    (head closed.0, override-Satisfies ids cs a plan p closed.1 sat.1)
  where
    head : IsClosed a c → Holds (override a plan) c
    head (inl (v, e, n)) =
        inl (λ q. n (sym (override-Extends ids a plan p c.first.robot_id v e) ∙ q))
    head (inr (inl (v, e, n))) =
        inr (λ q. n (sym (override-Extends ids a plan p c.second.robot_id v e) ∙ q))
    head (inr (inr (o, o'))) = ground (
      arith,
      sat.0,
      override-open a plan c.first.robot_id o,
      override-open a plan c.second.robot_id o',
    )

pub choose_sound :
    (ids : List ℕ) (cs : List BinaryClause) (a b : Dict ℕ) (r : ℕ)
    → Fits ids cs
    → IsStable ids cs a
    → elem r ids ≡ true
    → choose cs a r ≡ some b
    → Keeps a b × IsStable ids cs b × ((v : ℕ) × (lookup r b ≡ some v))
unfolding choose
choose_sound ids cs a b r fits st here e = elim (Option-cases (lookup r a)) [
  | inr (v, set) ↦
      let same : a ≡ b = ground arith in
      subst (λ x. Keeps a x × IsStable ids cs x × ((v : ℕ) × (lookup r x ≡ some v))) same
        (λ k w h. h, st, (v, set))
  | inl unset ↦ elim (Option-cases (try_assignment a r 1 cs)) [
    | inr (t, resumed) ↦
        let (keep, stable, set) =
          try_assignment_sound ids cs a b r 1 fits st.0 here (omega arith) unset (ground arith) in
        (keep, stable, (1, set))
    | inl refused ↦
        let (keep, stable, set) =
          try_assignment_sound ids cs a b r 0 fits st.0 here (omega arith) unset (ground arith) in
        (keep, stable, (0, set))
  ]
]

binary-cases : (a : Action) → (action_to_binary a ≡ 1) ⊎ (action_to_binary a ≡ 0)
unfolding action_to_binary
binary-cases pause = inr refl
binary-cases resume = inl refl

choose-some :
    (ids : List ℕ) (cs : List BinaryClause) (plan : Plan) (a : Dict ℕ) (r : ℕ)
    → Fits ids cs
    → Satisfies plan cs
    → Extends a plan
    → (b : Dict ℕ) × (choose cs a r ≡ some b)
unfolding choose
choose-some ids cs plan a r fits sat ext = elim (Option-cases (lookup r a)) [
  | inr (v, set) ↦ (a, ground arith)
  | inl unset ↦ elim (Option-cases (try_assignment a r 1 cs)) [
    | inr (t, resumed) ↦ (t, ground arith)
    | inl refused ↦ elim (binary-cases (plan r)) [
      | inl one ↦
          let (b, e, _) = try_assignment-entails ids cs plan a r 1 fits sat ext unset one in
          absurd (cc)
      | inr nil ↦
          let (b, e, _) = try_assignment-entails ids cs plan a r 0 fits sat ext unset nil in
          (b, ground arith)
    ]
  ]
]

-- Where some plan satisfies the clauses and extends the assignment, a choice is made, and again
-- some plan satisfies the clauses and extends the result.
pub choose_complete :
    (ids : List ℕ) (cs : List BinaryClause) (plan : Plan) (a : Dict ℕ) (r : ℕ)
    → Fits ids cs
    → IsStable ids cs a
    → elem r ids ≡ true
    → Satisfies plan cs
    → Extends a plan
    → (b : Dict ℕ) × (choose cs a r ≡ some b) × ((next : Plan) × Satisfies next cs × Extends b next)
choose_complete ids cs plan a r fits st here sat ext =
    let (b, e) = choose-some ids cs plan a r fits sat ext in
    let (keep, stable, _) = choose_sound ids cs a b r fits st here e in
    (
      b,
      e,
      (
        override b plan,
        override-Satisfies ids cs b plan stable.0 stable.1 sat,
        override-Extends ids b plan stable.0,
      ),
    )

-- A choice that ends in Pause was forced: every plan that satisfies the clauses agrees with it.
pub choose-paused :
    (ids : List ℕ) (cs : List BinaryClause) (plan : Plan) (a b : Dict ℕ) (r : ℕ)
    → Fits ids cs
    → IsStable ids cs a
    → elem r ids ≡ true
    → choose cs a r ≡ some b
    → lookup r b ≡ some 0
    → Satisfies plan cs
    → Extends a plan
    → Extends b plan
unfolding choose
choose-paused ids cs plan a b r fits st here e paused sat ext = elim (Option-cases (lookup r a)) [
  | inr (v, set) ↦ let same : a ≡ b = ground arith in subst (λ x. Extends x plan) same ext
  | inl unset ↦ elim (Option-cases (try_assignment a r 1 cs)) [
    | inr (t, resumed) ↦
        let (_, _, one) =
          try_assignment_sound ids cs a b r 1 fits st.0 here (omega arith) unset (ground arith) in
        absurd (ground arith)
    | inl refused ↦ elim (binary-cases (plan r)) [
      | inl one ↦
          let (b', e', _) = try_assignment-entails ids cs plan a r 1 fits sat ext unset one in
          absurd (cc)
      | inr nil ↦
          let (b', e', ext') = try_assignment-entails ids cs plan a r 0 fits sat ext unset nil in
          let same : b' ≡ b = ground arith in subst (λ x. Extends x plan) same ext'
    ]
  ]
]
