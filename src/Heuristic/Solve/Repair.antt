-- ===== src/Heuristic/Solve/Repair.antt =====
-- The repair pass finds nothing that the greedy pass missed: where every safe plan pauses the whole
-- component, it ends without decisions.
use robot_fleet_management.Base.{
  ℕ, zero, suc, ◌≡◌, refl, sym, ◌∙◌, subst, true, false, ◌==◌, List, [], ◌∷◌, length, take, all,
  elem, sorted, none, some, Dict, lookup, keys, All, All-elem, All-of_elem, ok, arith, inl, inr,
  Bool-cases, Option-cases, elem-sort_by, ltb,
}
use robot_fleet_management.Models.{Action, pause}
use robot_fleet_management.Conflicts.Pairs.{PairwiseCompatibility}
use robot_fleet_management.Heuristic.Clause.{BinaryClause, Keeps, Plan}
use robot_fleet_management.Heuristic.Propagate.{propagated, try_assignment}
use robot_fleet_management.Heuristic.Propagate.Soundness.{propagated_sound}
use robot_fleet_management.Heuristic.Greedy.Choice.{IsStable, try_assignment_sound}
use robot_fleet_management.Heuristic.Greedy.Pass.{Assigned}
use robot_fleet_management.Heuristic.Clauses.{IsSafe}
use robot_fleet_management.Heuristic.Solve.{
  actions_from_binary, any_resume, pause_rest, is_zero, accept_trial, escape, escape_loop,
  repair_pass, seed_of, in_order,
}
use robot_fleet_management.Heuristic.Solve.Complete.{
  Problem, Follows, plan_of, tabulate, complete-Satisfies, actions_for_lem,
}
use robot_fleet_management.Config.{MonitorConfig}
use robot_fleet_management.Priority.{PriorityBreakdown}
use robot_fleet_management.Heuristic.Solve.Ranking.{elem-in_order, by_clearance_lem}
use robot_fleet_management.Heuristic.Solve.Seed.{seed_of-Follows, seed_of-IsPartial}

-- Every safe plan that follows the hard assignments pauses every robot of the component.
abbrev pub NoProgress :
    {F : Type 0} → List ℕ → List (PairwiseCompatibility F) → Dict Action → Type 0
NoProgress ids pairs hard =
    (plan : Plan) → IsSafe plan pairs → Follows plan hard → All (λ r. plan r ≡ pause) ids

pub any_resume-paused :
    (plan : Plan) (rs : List ℕ)
    → All (λ r. plan r ≡ pause) rs
    → any_resume (tabulate plan rs) ≡ false
any_resume-paused plan [] h = refl
any_resume-paused plan (r ∷ rs) h = ground (arith, h.0, any_resume-paused plan rs h.1)

pub sorted-All : (P : ℕ → Type 0) (ids : List ℕ) → All P ids → All P (sorted ids)
sorted-All P ids h =
    All-of_elem P (sorted ids) (λ k e. All-elem P k ids h (sym (elem-sort_by ltb k ids) ∙ e))

pub unsorted-All : (P : ℕ → Type 0) (ids : List ℕ) → All P (sorted ids) → All P ids
unsorted-All P ids h =
    All-of_elem P ids (λ k e. All-elem P k (sorted ids) h (elem-sort_by ltb k ids ∙ e))

pub actions_from_binary_lem :
    (ids : List ℕ) (b : Dict ℕ)
    → Assigned ids b
    → actions_from_binary ids b ≡ ok (tabulate (plan_of b) (sorted ids))
unfolding actions_from_binary
actions_from_binary_lem ids b set =
    actions_for_lem b (sorted ids) (sorted-All (λ r. (v : ℕ) × (lookup r b ≡ some v)) ids set)

take-elem : (n k : ℕ) (xs : List ℕ) → elem k (take n xs) ≡ true → elem k xs ≡ true
take-elem zero k xs h = absurd (cc)
take-elem (suc n) k [] h = h
take-elem (suc n) k (x ∷ xs) h = ground (arith, take-elem n k xs)

try_assignment-set :
    (a : Dict ℕ) (k v : ℕ) (cs : List BinaryClause)
    → lookup k a ≡ some v
    → v ≡ 1
    → try_assignment a k 1 cs ≡ propagated a cs
unfolding try_assignment
try_assignment-set a k v cs set e = ground arith

module _ {F : Type 0} (ids : List ℕ) (cs : List BinaryClause)
    (pairs : List (PairwiseCompatibility F)) (hard : Dict Action)
    (problem : Problem ids cs pairs hard) where
  pub complete-IsSafe : (b : Dict ℕ) → IsStable ids cs b → Assigned ids b → IsSafe (plan_of b) pairs
  complete-IsSafe b st set =
      (problem.solves (plan_of b)).0 (complete-Satisfies ids cs b problem.fits st.0 st.1 set)

  escape_sound :
      (base t : Dict ℕ) (r : ℕ)
      → IsStable ids cs base
      → elem r ids ≡ true
      → is_zero (lookup r base) ≡ false
      → try_assignment base r 1 cs ≡ some t
      → Keeps base t × IsStable ids cs t
  escape_sound base t r st here nonzero e = elim (Option-cases (lookup r base)) [
    | inl unset ↦
        let (keep, st', _) =
          try_assignment_sound ids cs base t r 1 problem.fits st.0 here (omega arith) unset e in
        (keep, st')
    | inr (v, set) ↦
        let bit = st.0.bits r v set in
        let one : v ≡ 1 = ground arith in
        let (keep, partial, closed) =
          propagated_sound ids base t cs problem.fits st.0
            (sym (try_assignment-set base r v cs set one) ∙ e) in
        (keep, (partial, closed))
  ]

  pause_rest_sound :
      (rs : List ℕ) (t b : Dict ℕ)
      → IsStable ids cs t
      → All (λ r. elem r ids ≡ true) rs
      → pause_rest cs t rs ≡ some b
      → Keeps t b × IsStable ids cs b × Assigned rs b
  unfolding pause_rest
  pause_rest_sound [] t b st known e =
      let same : t ≡ b = ground arith in
      subst (λ x. Keeps t x × IsStable ids cs x × Unit {0}) same ((λ k w h. h), st, tt)
  pause_rest_sound (r ∷ rs) t b st known e = elim (Option-cases (lookup r t)) [
    | inr (v, set) ↦
        let (keep, st', rest) = pause_rest_sound rs t b st known.1 (ground arith) in
        (keep, st', ((v, keep r v set), rest))
    | inl unset ↦ elim (Option-cases (try_assignment t r 0 cs)) [
      | inl n ↦ absurd (ground arith)
      | inr (t', tried) ↦
          let (keep, st', set) =
            try_assignment_sound ids cs t t' r 0 problem.fits st.0 known.0 (omega arith) unset
              tried in
          let (keep', st'', rest) = pause_rest_sound rs t' b st' known.1 (ground arith) in
          ((λ k w h. keep' k w (keep k w h)), st'', ((0, keep' r 0 set), rest))
    ]
  ]

  accept_trial-none :
      (b : Dict ℕ)
      → NoProgress ids pairs hard
      → IsStable ids cs b
      → Keeps (seed_of hard) b
      → Assigned ids b
      → accept_trial ids cs pairs hard b ≡ ok none
  unfolding accept_trial
  accept_trial-none b stuck st keep set = elim (Bool-cases (length b == length ids)) [
    | inr short ↦ rw (short, accept_trial) refl
    | inl full ↦
        let paused =
          stuck (plan_of b) (complete-IsSafe b st set)
            (seed_of-Follows b hard problem.hard_unique keep) in
        rw
          (
            full,
            accept_trial,
            actions_from_binary_lem ids b set,
            any_resume-paused (plan_of b) (sorted ids)
                (sorted-All (λ r. plan_of b r ≡ pause) ids paused),
          )
          refl
  ]

  escape-none :
      (base : Dict ℕ) (r : ℕ)
      → NoProgress ids pairs hard
      → IsStable ids cs base
      → Keeps (seed_of hard) base
      → elem r ids ≡ true
      → escape ids cs pairs hard base r ≡ ok none
  unfolding escape
  escape-none base r stuck st keep here = elim (Bool-cases (is_zero (lookup r base))) [
    | inl zeroed ↦ rw (zeroed, escape) refl
    | inr nonzero ↦ elim (Option-cases (try_assignment base r 1 cs)) [
      | inl n ↦ rw (nonzero, escape, n) refl
      | inr (t, tried) ↦
          let (keep', st') = escape_sound base t r st here nonzero tried in
          elim (Option-cases (pause_rest cs t (sorted ids))) [
            | inl n ↦ rw (nonzero, escape, tried, n) refl
            | inr (b, rested) ↦
                let (keep'', st'', set) =
                  pause_rest_sound (sorted ids) t b st'
                    (sorted-All (λ k. elem k ids ≡ true) ids
                      (All-of_elem (λ k. elem k ids ≡ true) ids (λ k e. e)))
                    rested in
                rw (nonzero, escape, tried, rested)
                  (accept_trial-none b stuck st'' (λ k w h. keep'' k w (keep' k w (keep k w h)))
                    (unsorted-All (λ k. (v : ℕ) × (lookup k b ≡ some v)) ids set))
          ]
    ]
  ]

  escape_loop-none :
      (base : Dict ℕ) (rs : List ℕ)
      → NoProgress ids pairs hard
      → IsStable ids cs base
      → Keeps (seed_of hard) base
      → All (λ r. elem r ids ≡ true) rs
      → escape_loop ids cs pairs hard base rs ≡ ok none
  unfolding escape_loop
  escape_loop-none base [] stuck st keep known = refl
  escape_loop-none base (r ∷ rs) stuck st keep known =
      rw (escape-none base r stuck st keep known.0, escape_loop)
        (escape_loop-none base rs stuck st keep known.1)

  pub repair_pass-none :
      (c : MonitorConfig) (ranked : List ℕ) (priorities : Dict PriorityBreakdown)
      → NoProgress ids pairs hard
      → all (λ r. elem r (keys priorities)) ids ≡ true
      → all (λ r. elem r ranked) ids ≡ true
      → repair_pass ids cs pairs hard c ranked (seed_of hard) priorities ≡ ok none
  unfolding repair_pass
  repair_pass-none c ranked priorities stuck known listed =
      elim (Option-cases (propagated (seed_of hard) cs)) [
        | inl n ↦ rw (n, repair_pass) refl
        | inr (base, e) ↦
            let (keyed, made, same) = by_clearance_lem priorities ranked ids known listed in
            let partial = seed_of-IsPartial ids hard problem.hard_known problem.hard_unique in
            let (keep, part, closed) =
              propagated_sound ids (seed_of hard) base cs problem.fits partial e in
            let limit = c.heuristic_maximum_repair_candidates in
            rw (e, repair_pass, made)
              (escape_loop-none base (take limit (in_order keyed)) stuck (part, closed) keep
                (All-of_elem (λ r. elem r ids ≡ true) (take limit (in_order keyed))
                  λ k h.
                    subst (λ l. elem k l ≡ true) same
                      (sym (elem-in_order k keyed) ∙ take-elem limit k (in_order keyed) h)))
      ]
