-- ===== src/Heuristic/Solve/Verdict.antt =====
-- What the stages of `solve` return: a safe plan with progress, all Pause where nothing else is safe,
-- or infeasible where no plan is safe.
use mathlib.Core.Path.{ap₂}
use robot_fleet_management.Base.{
  ℕ, ◌≡◌, refl, sym, ◌∙◌, true, false, ◌&&◌, &&-true, &&-intro, List, [], ◌∷◌, all, elem,
  all-of_elem, same_ids, sorted, none, some, Dict, lookup, keys, All, All-elem, Result, ok, arith,
  elem-sort_by, ltb,
}
use robot_fleet_management.Models.{Action, pause, resume, is_pause, heuristic, fail_safe}
use robot_fleet_management.Conflicts.Pairs.{PairwiseCompatibility, within}
use robot_fleet_management.Optimiser.Validity.{action_of, safe_under}
use robot_fleet_management.Heuristic.Clause.{Plan}
use robot_fleet_management.Heuristic.Clauses.{IsSafe}
use robot_fleet_management.Heuristic.Solve.{
  HeuristicResult, no_feasible_progress, no_feasible_assignment_found, any_resume,
}
use robot_fleet_management.Heuristic.Solve.Complete.{Follows, idle_plan, tabulate}
use robot_fleet_management.Heuristic.Solve.Repair.{NoProgress}

-- No plan is safe and follows the hard assignments.
abbrev pub NoPlan : {F : Type 0} → List (PairwiseCompatibility F) → Dict Action → Type 0
NoPlan pairs hard = (plan : Plan) → IsSafe plan pairs → Follows plan hard → ⊥

pub data Verdict {F : Type 0} (ids : List ℕ) (pairs : List (PairwiseCompatibility F))
    (hard : Dict Action) (result : Result HeuristicResult) : Type 0 where
  progresses :
      (plan : Plan)
      → IsSafe plan pairs
      → Follows plan hard
      → any_resume (tabulate plan (sorted ids)) ≡ true
      → result
        ≡ ok (record {
          feasible = true;
          decisions = tabulate plan (sorted ids);
          decision_source = heuristic;
          progress_made = true;
          fallback_reason = none;
        })
      → Verdict ids pairs hard result
  stays :
      IsSafe idle_plan pairs
      → Follows idle_plan hard
      → NoProgress ids pairs hard
      → result
        ≡ ok (record {
          feasible = true;
          decisions = tabulate idle_plan ids;
          decision_source = fail_safe;
          progress_made = false;
          fallback_reason = some no_feasible_progress;
        })
      → Verdict ids pairs hard result
  fails :
      NoPlan pairs hard
      → result
        ≡ ok (record {
          feasible = false;
          decisions = [];
          decision_source = fail_safe;
          progress_made = false;
          fallback_reason = some no_feasible_assignment_found;
        })
      → Verdict ids pairs hard result

idle-action : (ids : List ℕ) (r : ℕ) → action_of (tabulate idle_plan ids) r ≡ pause
unfolding lookup
idle-action [] r = refl
idle-action (k ∷ ids) r = ground (arith, idle-action ids r)

pub all_safe-idle :
    {F : Type 0} (ids : List ℕ) (pairs : List (PairwiseCompatibility F))
    → all (safe_under (tabulate idle_plan ids)) pairs ≡ all (λ p. p.compatibility pause pause) pairs
all_safe-idle ids [] = refl
all_safe-idle ids (p ∷ pairs) =
    ap₂ ◌&&◌ (ap₂ p.compatibility (idle-action ids p.robot_i) (idle-action ids p.robot_j))
      (all_safe-idle ids pairs)

pub idle-IsSafe :
    {F : Type 0} (pairs : List (PairwiseCompatibility F))
    → all (λ p. p.compatibility pause pause) pairs ≡ true
    → IsSafe idle_plan pairs
idle-IsSafe [] h = tt
idle-IsSafe (p ∷ pairs) h =
    let (here, rest) =
      &&-true (p.compatibility pause pause) (all (λ p. p.compatibility pause pause) pairs) h in
    (here, idle-IsSafe pairs rest)

-- A safe plan that pauses the component's robots makes all Pause safe.
pub safe_idle :
    {F : Type 0} (ids : List ℕ) (plan : Plan)
    → All (λ r. plan r ≡ pause) ids
    → (pairs : List (PairwiseCompatibility F)) → all (within ids) pairs ≡ true
    → IsSafe plan pairs
    → all (λ p. p.compatibility pause pause) pairs ≡ true
safe_idle ids plan paused [] inside safe = refl
safe_idle ids plan paused (p ∷ pairs) inside safe =
    let (h, rest) = &&-true (within ids p) (all (within ids) pairs) inside in
    let (hi, hj) = &&-true (elem p.robot_i ids) (elem p.robot_j ids) h in
    let i = All-elem (λ r. plan r ≡ pause) p.robot_i ids paused hi in
    let j = All-elem (λ r. plan r ≡ pause) p.robot_j ids paused hj in
    &&-intro (p.compatibility pause pause) (all (λ p. p.compatibility pause pause) pairs)
      (sym (ap₂ p.compatibility i j) ∙ safe.0) (safe_idle ids plan paused pairs rest safe.1)

pub idle-Follows :
    (hard : Dict Action) → all (λ h. is_pause h.1) hard ≡ true → Follows idle_plan hard
idle-Follows [] h = tt
idle-Follows ((r, pause) ∷ hard) h = (refl, idle-Follows hard (ground arith))
idle-Follows ((r, resume) ∷ hard) h = absurd (cc)

-- A hard Resume for one of the robots excludes that every plan pauses them all.
pub hard_resume :
    (ids : List ℕ) (hard : Dict Action) (plan : Plan)
    → all (λ r. elem r ids) (keys hard) ≡ true
    → all (λ h. is_pause h.1) hard ≡ false
    → Follows plan hard
    → All (λ r. plan r ≡ pause) ids
    → ⊥
hard_resume ids [] plan known some_resume follows paused = cc
hard_resume ids ((r, pause) ∷ hard) plan known some_resume follows paused =
    hard_resume ids hard plan (&&-true (elem r ids) (all (λ k. elem k ids) (keys hard)) known).1
      (ground arith) follows.1 paused
hard_resume ids ((r, resume) ∷ hard) plan known some_resume follows paused =
    let here =
      All-elem (λ k. plan k ≡ pause) r ids paused
        (&&-true (elem r ids) (all (λ k. elem k ids) (keys hard)) known).0 in
    cc (sym follows.0 ∙ here)

pub same_ids-sorted : (ids : List ℕ) → same_ids ids (sorted ids) ≡ true
same_ids-sorted ids =
    &&-intro (all (λ k. elem k (sorted ids)) ids) (all (λ k. elem k ids) (sorted ids))
      (all-of_elem (λ k. elem k (sorted ids)) ids (λ k h. elem-sort_by ltb k ids ∙ h))
      (all-of_elem (λ k. elem k ids) (sorted ids) (λ k h. sym (elem-sort_by ltb k ids) ∙ h))
