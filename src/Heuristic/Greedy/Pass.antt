-- ===== src/Heuristic/Greedy/Pass.antt =====
-- The greedy pass decides the clauses: it fails only where no plan satisfies them, and it pauses
-- every robot only where every plan does.
use robot_fleet_management.Base.{
  ℕ, ◌≡◌, refl, subst, sym, ◌∙◌, true, List, [], ◌∷◌, some, Dict, lookup, elem, All, arith,
  Option-cases, inl, inr,
}
use robot_fleet_management.Heuristic.Clause.{BinaryClause, Keeps, IsPartial, Plan, Extends}
use robot_fleet_management.Heuristic.Propagate.{propagated}
use robot_fleet_management.Heuristic.Propagate.Soundness.{propagated_sound}
use robot_fleet_management.Heuristic.Propagate.Entailment.{propagated-entails}
use robot_fleet_management.Heuristic.Greedy.{choose, greedy_loop, greedy_pass}
use robot_fleet_management.Heuristic.Greedy.Choice.{
  IsStable, Fits, Satisfies, Satisfies-IsBinary, choose_sound, choose_complete, choose-paused,
}

-- Every listed robot has a value.
abbrev pub Assigned : List ℕ → Dict ℕ → Type 0
Assigned ranked a = All (λ r. (v : ℕ) × (lookup r a ≡ some v)) ranked

-- Every listed robot has the value 0.
abbrev pub AllPaused : List ℕ → Dict ℕ → Type 0
AllPaused ranked a = All (λ r. lookup r a ≡ some 0) ranked

abbrev Known : List ℕ → List ℕ → Type 0
Known ids ranked = All (λ r. elem r ids ≡ true) ranked

greedy_step :
    (cs : List BinaryClause) (a b : Dict ℕ) (r : ℕ) (ranked : List ℕ)
    → greedy_loop cs a (r ∷ ranked) ≡ some b
    → (a' : Dict ℕ) × (choose cs a r ≡ some a') × (greedy_loop cs a' ranked ≡ some b)
unfolding greedy_loop
greedy_step cs a b r ranked e = elim (Option-cases (choose cs a r)) [
  | inl n ↦ absurd (ground arith)
  | inr (a', h) ↦ (a', h, ground arith)
]

greedy_nil : (cs : List BinaryClause) (a b : Dict ℕ) → greedy_loop cs a [] ≡ some b → a ≡ b
unfolding greedy_loop
greedy_nil cs a b e = cc

module _ (ids : List ℕ) (cs : List BinaryClause) (fits : Fits ids cs) where
  greedy_loop_sound :
      (ranked : List ℕ) (a b : Dict ℕ)
      → IsStable ids cs a
      → Known ids ranked
      → greedy_loop cs a ranked ≡ some b
      → Keeps a b × IsStable ids cs b × Assigned ranked b
  greedy_loop_sound [] a b st known e =
      subst (λ x. Keeps a x × IsStable ids cs x × Assigned [] x) (greedy_nil cs a b e)
        ((λ k w h. h), st, tt)
  greedy_loop_sound (r ∷ ranked) a b st known e =
      let (a', made, rest) = greedy_step cs a b r ranked e in
      let (keep, st', (v, set)) = choose_sound ids cs a a' r fits st known.0 made in
      let (keep', st'', set') = greedy_loop_sound ranked a' b st' known.1 rest in
      ((λ k w h. keep' k w (keep k w h)), st'', ((v, keep' r v set), set'))

  greedy_loop_complete :
      (ranked : List ℕ) (a : Dict ℕ) (plan : Plan)
      → IsStable ids cs a
      → Known ids ranked
      → Satisfies plan cs
      → Extends a plan
      → (b : Dict ℕ) × (greedy_loop cs a ranked ≡ some b)
  unfolding greedy_loop
  greedy_loop_complete [] a plan st known sat ext = (a, refl)
  greedy_loop_complete (r ∷ ranked) a plan st known sat ext =
      let (a', made, (next, sat', ext')) =
        choose_complete ids cs plan a r fits st known.0 sat ext in
      let (keep, st', _) = choose_sound ids cs a a' r fits st known.0 made in
      let (b, e) = greedy_loop_complete ranked a' next st' known.1 sat' ext' in
      (b, rw (made, greedy_loop) e)

  greedy_loop-paused :
      (ranked : List ℕ) (a b : Dict ℕ) (plan : Plan)
      → IsStable ids cs a
      → Known ids ranked
      → greedy_loop cs a ranked ≡ some b
      → AllPaused ranked b
      → Satisfies plan cs
      → Extends a plan
      → Extends b plan
  greedy_loop-paused [] a b plan st known e paused sat ext =
      subst (λ x. Extends x plan) (greedy_nil cs a b e) ext
  greedy_loop-paused (r ∷ ranked) a b plan st known e paused sat ext =
      let (a', made, rest) = greedy_step cs a b r ranked e in
      let (keep, st', (v, set)) = choose_sound ids cs a a' r fits st known.0 made in
      let (keep', _, _) = greedy_loop_sound ranked a' b st' known.1 rest in
      let final = keep' r v set in
      let zeroed : lookup r a' ≡ some 0 = set ∙ sym final ∙ paused.0 in
      greedy_loop-paused ranked a' b plan st' known.1 rest paused.1 sat
        (choose-paused ids cs plan a a' r fits st known.0 made zeroed sat ext)

  greedy_parts :
      (ranked : List ℕ) (seed b : Dict ℕ)
      → greedy_pass ranked seed cs ≡ some b
      → (a : Dict ℕ) × (propagated seed cs ≡ some a) × (greedy_loop cs a ranked ≡ some b)
  unfolding greedy_pass
  greedy_parts ranked seed b e = elim (Option-cases (propagated seed cs)) [
    | inl n ↦ absurd (ground arith)
    | inr (a, h) ↦ (a, h, ground arith)
  ]

  pub greedy_pass_sound :
      (ranked : List ℕ) (seed b : Dict ℕ)
      → IsPartial ids seed
      → Known ids ranked
      → greedy_pass ranked seed cs ≡ some b
      → Keeps seed b × IsStable ids cs b × Assigned ranked b
  greedy_pass_sound ranked seed b p known e =
      let (a, start, loop) = greedy_parts ranked seed b e in
      let (keep, partial, closed) = propagated_sound ids seed a cs fits p start in
      let (keep', st, set) = greedy_loop_sound ranked a b (partial, closed) known loop in
      ((λ k w h. keep' k w (keep k w h)), st, set)

  -- Where a plan satisfies the clauses of the component and agrees with the seed, a partial
  -- assignment of it, the greedy pass over known robots finds an assignment.
  pub greedy_pass_complete :
      (ranked : List ℕ) (seed : Dict ℕ) (plan : Plan)
      → IsPartial ids seed
      → Known ids ranked
      → Satisfies plan cs
      → Extends seed plan
      → (b : Dict ℕ) × (greedy_pass ranked seed cs ≡ some b)
  unfolding greedy_pass
  greedy_pass_complete ranked seed plan p known sat ext =
      let (a, start, ext') =
        propagated-entails plan seed cs (Satisfies-IsBinary ids plan cs fits sat) ext in
      let (keep, partial, closed) = propagated_sound ids seed a cs fits p start in
      let (b, e) = greedy_loop_complete ranked a plan (partial, closed) known sat ext' in
      (b, rw (start, greedy_pass) e)

  -- Where the greedy pass over known robots, from a partial assignment of the component, gives
  -- every ranked robot 0, every plan that satisfies the clauses and agrees with the seed agrees
  -- with the whole assignment found.
  pub greedy_pass-paused :
      (ranked : List ℕ) (seed b : Dict ℕ) (plan : Plan)
      → IsPartial ids seed
      → Known ids ranked
      → greedy_pass ranked seed cs ≡ some b
      → AllPaused ranked b
      → Satisfies plan cs
      → Extends seed plan
      → Extends b plan
  greedy_pass-paused ranked seed b plan p known e paused sat ext =
      let (a, start, loop) = greedy_parts ranked seed b e in
      let (keep, partial, closed) = propagated_sound ids seed a cs fits p start in
      let (a', start', ext') =
        propagated-entails plan seed cs (Satisfies-IsBinary ids plan cs fits sat) ext in
      let same : a' ≡ a = ground arith in
      greedy_loop-paused ranked a b plan (partial, closed) known loop paused sat
        (subst (λ x. Extends x plan) same ext')
