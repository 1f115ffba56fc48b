-- ===== src/Heuristic/Solve/Outcomes.antt =====
-- The results that `solve` builds pass the checks of HeuristicResult, and what no progress says of a
-- plan.
use robot_fleet_management.Base.{
  ℕ, ◌≡◌, refl, sym, ap, ◌∙◌, true, false, ◌==◌, ==_iff, List, [], ◌∷◌, length, elem, none, some,
  ok, arith, inl, inr, Bool-cases, leb,
}
use robot_fleet_management.Models.{pause, heuristic, fail_safe}
use robot_fleet_management.Conflicts.Pairs.{action_to_binary}
use robot_fleet_management.Heuristic.Clause.{Plan}
use robot_fleet_management.Heuristic.Solve.{any_resume, new_result, no_feasible_progress}
use robot_fleet_management.Heuristic.Solve.Complete.{idle_plan, tabulate}

pub idle_result :
    (ids : List ℕ)
    → leb 1 (length ids) ≡ true
    → new_result (record {
      feasible = true;
      decisions = tabulate idle_plan ids;
      decision_source = fail_safe;
      progress_made = false;
      fallback_reason = some no_feasible_progress;
    })
      ≡ ok (record {
        feasible = true;
        decisions = tabulate idle_plan ids;
        decision_source = fail_safe;
        progress_made = false;
        fallback_reason = some no_feasible_progress;
      })
unfolding new_result
idle_result [] h = absurd (ground arith)
idle_result (r ∷ ids) h = refl

pub progress_result :
    (plan : Plan) (rs : List ℕ)
    → any_resume (tabulate plan rs) ≡ true
    → new_result (record {
      feasible = true;
      decisions = tabulate plan rs;
      decision_source = heuristic;
      progress_made = true;
      fallback_reason = none;
    })
      ≡ ok (record {
        feasible = true;
        decisions = tabulate plan rs;
        decision_source = heuristic;
        progress_made = true;
        fallback_reason = none;
      })
unfolding new_result
progress_result plan [] h = absurd (cc)
progress_result plan (r ∷ rs) h = refl

pub idle-paused :
    (plan : Plan) (rs : List ℕ)
    → any_resume (tabulate plan rs) ≡ false
    → (r : ℕ) → elem r rs ≡ true
    → plan r ≡ pause
idle-paused plan [] h r e = absurd (cc)
idle-paused plan (k ∷ rs) h r e = elim (Bool-cases (k == r)) [
  | inl here ↦
      let same = (==_iff k r).0 here in
      let still : plan k ≡ pause = ground arith in sym (ap plan same) ∙ still
  | inr other ↦ idle-paused plan rs (ground arith) r (ground arith)
]

pub bit_zero : (plan : Plan) (r : ℕ) → action_to_binary (plan r) ≡ 0 → plan r ≡ pause
unfolding action_to_binary
bit_zero plan r e = ground arith
