-- ===== src/Examples/Search.antt =====
-- The theorems about the search at a concrete clause: not both robots at 1.
use robot_fleet_management.Base.{
  ℕ, ◌≡◌, ◌≢◌, ◌↔◌, refl, List, [], ◌∷◌, some, Dict, insert, lookup, ◌==◌, if◌then◌else◌, All, ok,
  arith, inr,
}
use robot_fleet_management.Models.{pause, resume}
use robot_fleet_management.Conflicts.Pairs.{action_to_binary}
use robot_fleet_management.Heuristic.Clause.{
  BinaryClause, build_clauses, Plan, Holds, Extends, Keeps, IsPartial, insert-IsPartial,
}
use robot_fleet_management.Heuristic.Propagate.{propagated, propagate, exhausted, try_assignment}
use robot_fleet_management.Heuristic.Propagate.Step.{IsClosed}
use robot_fleet_management.Heuristic.Propagate.Soundness.{propagated_sound}
use robot_fleet_management.Heuristic.Propagate.Entailment.{propagated-entails}
use robot_fleet_management.Heuristic.Propagate.Termination.{propagate-ne-exhausted}
use robot_fleet_management.Heuristic.Greedy.{greedy_pass, greedy_loop, choose}
use robot_fleet_management.Heuristic.Greedy.Choice.{Fits, Satisfies}
use robot_fleet_management.Heuristic.Greedy.Pass.{greedy_pass_complete, greedy_pass-paused}
use robot_fleet_management.Heuristic.Clauses.{IsSafe, build_clauses_lem}
use robot_fleet_management.Examples.{crossing}

abbrev not_both : BinaryClause
not_both = record {
  first = record { robot_id = 1; forbidden_value = 1 };
  second = record { robot_id = 2; forbidden_value = 1 };
  source = record {
    literals =
        record { robot_id = 1; forbidden_value = 1 }
        ∷ record { robot_id = 2; forbidden_value = 1 }
        ∷ [];
    source_pair = (1, 2);
    source_assignment = (resume, resume);
  };
}

-- Robot 1 has to pause.
abbrev stuck : BinaryClause
stuck = record {
  first = record { robot_id = 1; forbidden_value = 1 };
  second = record { robot_id = 1; forbidden_value = 1 };
  source = record { literals = []; source_pair = (1, 2); source_assignment = (resume, resume) };
}

abbrev ids : List ℕ
ids = 1 ∷ 2 ∷ []

-- Robot 1 resumes and robot 2 pauses.
first_moves : Plan
first_moves r = if r == 1 then resume else pause

idle : Plan
idle r = pause

empty-IsPartial : IsPartial ids []
unfolding lookup
empty-IsPartial = record { bits = λ r v e. absurd (cc); inside = λ r e. absurd (cc); unique = refl }

one-IsPartial : IsPartial ids ((1, 1) ∷ [])
unfolding insert
one-IsPartial = insert-IsPartial ids [] 1 1 refl (omega arith) empty-IsPartial

one-Extends : Extends ((1, 1) ∷ []) first_moves
unfolding lookup action_to_binary first_moves
one-Extends r v e = ground arith

holds : Holds first_moves not_both
unfolding first_moves action_to_binary
holds = inr (λ q. cc)

idle-Holds : Holds idle stuck
unfolding idle action_to_binary
idle-Holds = inr (λ q. cc)

propagated_sound_example :
    Keeps ((1, 1) ∷ []) ((1, 1) ∷ (2, 0) ∷ [])
    × IsPartial ids ((1, 1) ∷ (2, 0) ∷ [])
    × All (IsClosed ((1, 1) ∷ (2, 0) ∷ [])) (not_both ∷ [])
unfolding propagated lookup insert
propagated_sound_example =
    propagated_sound ids ((1, 1) ∷ []) ((1, 1) ∷ (2, 0) ∷ []) (not_both ∷ [])
      (((refl, refl), (omega arith, omega arith)), tt) one-IsPartial refl

propagated-entails_example :
    (b : Dict ℕ) × (propagated ((1, 1) ∷ []) (not_both ∷ []) ≡ some b) × Extends b first_moves
propagated-entails_example =
    propagated-entails first_moves ((1, 1) ∷ []) (not_both ∷ [])
      ((holds, (omega arith, omega arith)), tt) one-Extends

propagate-ne-exhausted_example : propagate ((1, 1) ∷ []) (not_both ∷ []) ≢ exhausted
propagate-ne-exhausted_example = propagate-ne-exhausted ((1, 1) ∷ []) (not_both ∷ [])

greedy_pass_complete_example :
    (b : Dict ℕ) × (greedy_pass ids ((1, 1) ∷ []) (not_both ∷ []) ≡ some b)
greedy_pass_complete_example =
    greedy_pass_complete ids (not_both ∷ []) (((refl, refl), (omega arith, omega arith)), tt) ids
      ((1, 1) ∷ []) first_moves one-IsPartial (refl, (refl, tt)) (holds, tt) one-Extends

empty-Extends : Extends [] idle
unfolding lookup
empty-Extends r v e = absurd (cc)

greedy_pass-paused_example : Extends ((1, 0) ∷ []) idle
unfolding greedy_pass greedy_loop choose propagated lookup insert try_assignment
greedy_pass-paused_example =
    greedy_pass-paused ids (stuck ∷ []) (((refl, refl), (omega arith, omega arith)), tt) (1 ∷ []) []
      ((1, 0) ∷ []) idle empty-IsPartial (refl, tt) refl (refl, tt) (idle-Holds, tt) empty-Extends

build_clauses_lem_example :
    (cs : List BinaryClause) × (build_clauses (crossing ∷ []) ≡ ok cs)
    × Fits ids cs
    × ((plan : Plan) → Satisfies plan cs ↔ IsSafe plan (crossing ∷ []))
build_clauses_lem_example = build_clauses_lem ids (crossing ∷ []) refl
