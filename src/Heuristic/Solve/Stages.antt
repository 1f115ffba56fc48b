-- ===== src/Heuristic/Solve/Stages.antt =====
-- The stages of `solve` after its checks, each with its verdict.
use robot_fleet_management.Base.{
  ℕ, ◌≡◌, refl, sym, ◌∙◌, true, false, ◌==◌, ==_iff, List, length, all, elem, all-of_elem, sorted,
  none, some, Dict, lookup, keys, elem-keys, length-keys, length-le_of_elem, All, All-elem,
  All-of_elem, arith, inl, inr, Bool-cases, Option-cases, ltb, leb, elem-sort_by,
}
use robot_fleet_management.Models.{Action, pause, is_pause}
use robot_fleet_management.Config.{MonitorConfig}
use robot_fleet_management.Priority.{PriorityBreakdown}
use robot_fleet_management.Conflicts.Pairs.{PairwiseCompatibility}
use robot_fleet_management.Optimiser.Validate.{validate_component_decisions}
use robot_fleet_management.Optimiser.Validity.{accept_if, validate_component_decisions_lem}
use robot_fleet_management.Heuristic.Clause.{BinaryClause}
use robot_fleet_management.Heuristic.Greedy.{greedy_pass}
use robot_fleet_management.Heuristic.Greedy.Choice.{IsStable, override}
use robot_fleet_management.Heuristic.Greedy.Pass.{
  Assigned, AllPaused, greedy_pass_sound, greedy_pass_complete, greedy_pass-paused,
}
use robot_fleet_management.Heuristic.Solve.{
  any_resume, without_progress, after_greedy, from_seed, seed_of,
}
use robot_fleet_management.Heuristic.Solve.Complete.{
  Problem, idle_plan, plan_of, tabulate, keys-tabulate, validate-tabulate, all_hard,
  lookup-tabulate,
}
use robot_fleet_management.Heuristic.Solve.Seed.{
  seed_of-IsPartial, seed_of-Extends, seed_of-Follows,
}
use robot_fleet_management.Heuristic.Solve.Repair.{
  NoProgress, complete-IsSafe, actions_from_binary_lem, repair_pass-none,
}
use robot_fleet_management.Heuristic.Solve.Verdict.{
  NoPlan, Verdict, progresses, stays, fails, all_safe-idle, idle-IsSafe, safe_idle, idle-Follows,
  hard_resume, same_ids-sorted,
}
use robot_fleet_management.Heuristic.Solve.Outcomes.{
  idle_result, progress_result, idle-paused, bit_zero,
}

module _ {F : Type 0} (ids : List ℕ) (cs : List BinaryClause)
    (pairs : List (PairwiseCompatibility F)) (hard : Dict Action)
    (problem : Problem ids cs pairs hard) (some_robot : leb 1 (length ids) ≡ true) where
  validate-idle :
      all (λ h. is_pause h.1) hard ≡ true
      → validate_component_decisions ids (tabulate idle_plan ids) pairs hard
        ≡ accept_if (all (λ p. p.compatibility pause pause) pairs)
  validate-idle paused =
      validate_component_decisions_lem ids (tabulate idle_plan ids) pairs hard problem.inside
      ∙ rw
          (
            keys-tabulate idle_plan ids,
            same_ids-sorted ids,
            all_safe-idle ids pairs,
            all_hard (tabulate idle_plan ids) idle_plan ids
                (λ r h. lookup-tabulate idle_plan r ids h) hard problem.hard_known
                (idle-Follows hard paused),
          )
          (ground arith)

  without_progress-Verdict :
      NoProgress ids pairs hard → Verdict ids pairs hard (without_progress ids cs pairs hard)
  unfolding without_progress
  without_progress-Verdict stuck = elim (Bool-cases (all (λ h. is_pause h.1) hard)) [
    | inr busy ↦
        fails
          (λ plan safe follows.
            hard_resume ids hard plan problem.hard_known busy follows (stuck plan safe follows))
          (rw (busy, without_progress) refl)
    | inl paused ↦ elim (Bool-cases (all (λ p. p.compatibility pause pause) pairs)) [
      | inl safe ↦
          stays (idle-IsSafe pairs safe) (idle-Follows hard paused) stuck
            (rw (paused, without_progress, validate-idle paused, safe) (idle_result ids some_robot))
      | inr unsafe ↦
          fails
            (λ plan safe follows.
              cc (
                sym unsafe
                ∙ safe_idle ids plan (stuck plan safe follows) pairs problem.inside safe))
            (rw (paused, without_progress, validate-idle paused, unsafe) refl)
    ]
  ]

  module _ (c : MonitorConfig) (ranked : List ℕ) (priorities : Dict PriorityBreakdown)
      (known : all (λ r. elem r (keys priorities)) ids ≡ true)
      (listed : (r : ℕ) → elem r ranked ≡ elem r ids) where
    after_greedy-Verdict :
        NoProgress ids pairs hard
        → Verdict ids pairs hard (after_greedy ids cs pairs hard c ranked (seed_of hard) priorities)
    unfolding after_greedy
    after_greedy-Verdict stuck =
        rw
          (
            repair_pass-none ids cs pairs hard problem c ranked priorities stuck known
                (all-of_elem (λ r. elem r ranked) ids (λ r h. listed r ∙ h)),
            after_greedy,
          )
          (without_progress-Verdict stuck)

    ranked-All : (P : ℕ → Type 0) → All P ranked → All P ids
    ranked-All P h = All-of_elem P ids (λ k e. All-elem P k ranked h (listed k ∙ e))

    -- A complete stable assignment has one entry for each robot.
    length_complete :
        (b : Dict ℕ) → IsStable ids cs b → Assigned ids b → (length b == length ids) ≡ true
    length_complete b st set =
        let low = length-le_of_elem ids (keys b) problem.unique λ k h.
          let (v, e) = All-elem (λ r. (v : ℕ) × (lookup r b ≡ some v)) k ids set h in
          elem-keys k b e in
        let high = length-le_of_elem (keys b) ids st.0.unique st.0.inside in
        (==_iff (length b) (length ids)).1 (omega (arith, length-keys b))

    bit-pause :
        (b : Dict ℕ) (r : ℕ)
        → IsStable ids cs b
        → (v : ℕ) × (lookup r b ≡ some v)
        → plan_of b r ≡ pause
        → lookup r b ≡ some 0
    unfolding override
    bit-pause b r st (v, e) h = let bit = st.0.bits r v e in ground arith

    -- An assignment of Pauses only leaves every safe plan without progress.
    paused-NoProgress :
        (b : Dict ℕ)
        → greedy_pass ranked (seed_of hard) cs ≡ some b
        → IsStable ids cs b
        → Assigned ids b
        → any_resume (tabulate (plan_of b) (sorted ids)) ≡ false
        → NoProgress ids pairs hard
    paused-NoProgress b made st set idle plan safe follows =
        All-of_elem (λ r. plan r ≡ pause) ids
          λ r h. bit_zero plan r (
            greedy_pass-paused ids cs problem.fits ranked (seed_of hard) b plan
              (seed_of-IsPartial ids hard problem.hard_known problem.hard_unique) known_ranked made
              ranked_paused ((problem.solves plan).1 safe) (seed_of-Extends hard plan follows) r 0
              (zeroed r h))
      where
        known_ranked : All (λ r. elem r ids ≡ true) ranked
        known_ranked = All-of_elem (λ r. elem r ids ≡ true) ranked (λ r h. sym (listed r) ∙ h)

        zeroed : (r : ℕ) → elem r ids ≡ true → lookup r b ≡ some 0
        zeroed r h =
            bit-pause b r st (All-elem (λ k. (v : ℕ) × (lookup k b ≡ some v)) r ids set h)
              (idle-paused (plan_of b) (sorted ids) idle r (elem-sort_by ltb r ids ∙ h))

        ranked_paused : AllPaused ranked b
        ranked_paused =
            All-of_elem (λ r. lookup r b ≡ some 0) ranked (λ r h. zeroed r (sym (listed r) ∙ h))

    unstuck : greedy_pass ranked (seed_of hard) cs ≡ none → NoPlan pairs hard
    unstuck n plan safe follows =
        let (b, e) =
          greedy_pass_complete ids cs problem.fits ranked (seed_of hard) plan
            (seed_of-IsPartial ids hard problem.hard_known problem.hard_unique)
            (All-of_elem (λ r. elem r ids ≡ true) ranked (λ r h. sym (listed r) ∙ h))
            ((problem.solves plan).1 safe) (seed_of-Extends hard plan follows) in
        cc

    pub from_seed-Verdict :
        Verdict ids pairs hard (from_seed ids cs pairs hard c ranked (seed_of hard) priorities)
    unfolding from_seed
    from_seed-Verdict = elim (Option-cases (greedy_pass ranked (seed_of hard) cs)) [
      | inl n ↦
          rw (n, from_seed)
            (after_greedy-Verdict (λ plan safe follows. absurd (unstuck n plan safe follows)))
      | inr (b, made) ↦
          let partial = seed_of-IsPartial ids hard problem.hard_known problem.hard_unique in
          let (keep, st, set') =
            greedy_pass_sound ids cs problem.fits ranked (seed_of hard) b partial
              (All-of_elem (λ r. elem r ids ≡ true) ranked (λ r h. sym (listed r) ∙ h)) made in
          let set = ranked-All (λ r. (v : ℕ) × (lookup r b ≡ some v)) set' in
          let safe = complete-IsSafe ids cs pairs hard problem b st set in
          let follows = seed_of-Follows b hard problem.hard_unique keep in
          let valid =
            validate-tabulate ids pairs hard (plan_of b) problem.inside problem.hard_known safe
              follows in
          elim (Bool-cases (any_resume (tabulate (plan_of b) (sorted ids)))) [
            | inl moving ↦ progresses (plan_of b) safe follows moving (
                rw
                  (
                    made,
                    from_seed,
                    length_complete b st set,
                    actions_from_binary_lem ids b set,
                    valid,
                    moving,
                  )
                  (progress_result (plan_of b) (sorted ids) moving))
            | inr idle ↦
                rw
                  (
                    made,
                    from_seed,
                    length_complete b st set,
                    actions_from_binary_lem ids b set,
                    valid,
                    idle,
                  )
                  (after_greedy-Verdict (paused-NoProgress b made st set idle))
          ]
    ]
