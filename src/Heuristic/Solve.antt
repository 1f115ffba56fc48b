-- ===== src/Heuristic/Solve.antt =====
-- DeterministicComponentHeuristic: `_repair_pass` and `solve`.
pub mod Complete
pub mod Seed
pub mod Ranking
pub mod Repair
pub mod Verdict
pub mod Outcomes
pub mod Stages
pub mod Ready
pub mod Passed
pub mod Liveness
use robot_fleet_management.Base.{
  ℕ, ◌+◌, Bool, true, false, not, ◌&&◌, ◌||◌, ◌==◌, ltb, leb, if◌then◌else◌, List, [], ◌∷◌, map,
  length, take, all, any, elem, distinct, sorted, sort_by, Option, none, some, Dict, lookup, insert,
  keys, Result, ok, raise, ◌>>=◌, ◌>>◌, value_error, key_error, unsafe_result, Error, require,
  or_raise,
}
use robot_fleet_management.Models.{
  Action, pause, resume, is_resume, is_pause, DecisionSource, heuristic, repair, fail_safe,
}
use robot_fleet_management.Conflicts.Pairs.{PairwiseCompatibility, action_to_binary}
use robot_fleet_management.Conflicts.Model.{ConflictModel, component_constraints}
use robot_fleet_management.Config.{MonitorConfig}
use robot_fleet_management.Priority.{PriorityBreakdown}
use robot_fleet_management.Optimiser.Validate.{validate_component_decisions}
use robot_fleet_management.Optimiser.Objective.{build_objective_encoding}
use robot_fleet_management.Heuristic.Clause.{BinaryClause, build_clauses}
use robot_fleet_management.Heuristic.Propagate.{propagated, try_assignment}
use robot_fleet_management.Heuristic.Greedy.{greedy_pass}

pub data Reason : Type 0 where
  no_feasible_progress no_feasible_assignment_found : Reason

pub record HeuristicResult : Type 0 where
  pub feasible : Bool
  pub decisions : Dict Action
  pub decision_source : DecisionSource
  pub progress_made : Bool
  pub fallback_reason : Option Reason

abbrev is_empty : Dict Action → Bool
is_empty [] = true
is_empty (e ∷ d) = false

abbrev is_fail_safe : DecisionSource → Bool
is_fail_safe fail_safe = true
is_fail_safe other = false

abbrev is_none : Option Reason → Bool
is_none none = true
is_none (some r) = false

-- HeuristicResult(...), with its __post_init__.
unfoldable pub new_result : HeuristicResult → Result HeuristicResult
new_result r = do
  require (not (r.feasible && is_empty r.decisions)) value_error
  require (not (not r.feasible && not (is_empty r.decisions))) value_error
  require (not (r.progress_made && not r.feasible)) value_error
  require (not (r.progress_made && is_fail_safe r.decision_source)) value_error
  require (not (not r.progress_made && not (is_fail_safe r.decision_source))) value_error
  require (not (r.progress_made && not (is_none r.fallback_reason))) value_error
  require (not (not r.progress_made && is_none r.fallback_reason)) value_error
  ok r

-- The comprehension of `_actions_from_binary` over the sorted component.
unfoldable pub actions_for : Dict ℕ → List ℕ → Result (Dict Action)
actions_for assignment [] = ok []
actions_for assignment (r ∷ rs) = do
  value ← or_raise (lookup r assignment) key_error
  rest ← actions_for assignment rs
  ok ((r, if value == 1 then resume else pause) ∷ rest)

unfoldable pub actions_from_binary : List ℕ → Dict ℕ → Result (Dict Action)
unfolding actions_for
actions_from_binary component assignment = actions_for assignment (sorted component)

-- `any(action is Action.RESUME for action in decisions.values())`
abbrev pub any_resume : Dict Action → Bool
any_resume decisions = any (λ e. is_resume e.1) decisions

-- A robot with its sort key; `sorted` on keys compares from left to right.
pub record Ranked : Type 0 where
  pub first_key : ℕ
  pub second_key : ℕ
  pub robot_id : ℕ

-- A larger first key, then a smaller second key, then a smaller identifier stands before.
unfoldable pub ranks_before : Ranked → Ranked → Bool
ranks_before a b =
    ltb b.first_key a.first_key
    || (a.first_key == b.first_key
        && (ltb a.second_key b.second_key
            || (a.second_key == b.second_key && ltb a.robot_id b.robot_id)))

-- The key of `solve`: the negated coefficient, then the identifier.
unfoldable pub by_coefficient : Dict ℕ → List ℕ → Result (List Ranked)
by_coefficient coefficients [] = ok []
by_coefficient coefficients (r ∷ rs) = do
  coefficient ← or_raise (lookup r coefficients) key_error
  rest ← by_coefficient coefficients rs
  ok (record { first_key = coefficient; second_key = 0; robot_id = r } ∷ rest)

unfoldable pub index_of : ℕ → ℕ → List ℕ → Option ℕ
index_of index r [] = none
index_of index r (x ∷ xs) = if x == r then some index else index_of (index + 1) r xs

-- The key of `_repair_pass`: the negated clearance count, the rank, then the identifier.
unfoldable pub by_clearance : Dict PriorityBreakdown → List ℕ → List ℕ → Result (List Ranked)
unfolding index_of
by_clearance priorities ranked [] = ok []
by_clearance priorities ranked (r ∷ rs) = do
  score ← or_raise (lookup r priorities) key_error
  index ← or_raise (index_of 0 r ranked) key_error
  rest ← by_clearance priorities ranked rs
  ok (
      record { first_key = score.clearance_conflict_count; second_key = index; robot_id = r }
      ∷ rest)

unfoldable pub in_order : List Ranked → List ℕ
unfolding ranks_before
in_order keyed = map (λ k. k.robot_id) (sort_by ranks_before keyed)

-- The inner loop of `_repair_pass`: Pause for every robot that the trial leaves open, and `none`
-- for `valid = False`.
unfoldable pub pause_rest : List BinaryClause → Dict ℕ → List ℕ → Option (Dict ℕ)
pause_rest clauses trial [] = some trial
pause_rest clauses trial (r ∷ rs) = elim (lookup r trial) [
  | some value ↦ pause_rest clauses trial rs
  | none ↦ elim (try_assignment trial r 0 clauses) [
    | none ↦ none
    | some trial' ↦ pause_rest clauses trial' rs
  ]
]

-- What one escape robot gives: `none` is `continue`.
abbrev is_zero : Option ℕ → Bool
is_zero none = false
is_zero (some v) = v == 0

module _ {F : Type 0} (component : List ℕ) (clauses : List BinaryClause)
    (pairs : List (PairwiseCompatibility F)) (hard : Dict Action) where
  -- From a complete trial to validated decisions.
  unfoldable pub accept_trial : Dict ℕ → Result (Option (Dict Action))
  unfolding actions_from_binary
  accept_trial trial =
      let complete : Result (Option (Dict Action)) = do
        decisions ← actions_from_binary component trial
        let checked =
            validate_component_decisions component decisions pairs hard >> ok (some decisions)
        if any_resume decisions then checked else ok none
      in if length trial == length component then complete else ok none

  unfoldable pub escape : Dict ℕ → ℕ → Result (Option (Dict Action))
  unfolding accept_trial pause_rest
  escape base robot_id =
      if is_zero (lookup robot_id base)
      then ok none
      else elim (try_assignment base robot_id 1 clauses) [
        | none ↦ ok none
        | some trial ↦ elim (pause_rest clauses trial (sorted component)) [
          | none ↦ ok none
          | some trial' ↦ accept_trial trial'
        ]
      ]

  unfoldable pub escape_loop : Dict ℕ → List ℕ → Result (Option (Dict Action))
  unfolding escape
  escape_loop base [] = ok none
  escape_loop base (r ∷ rs) = elim (escape base r) [
    | raise e ↦ raise e
    | ok (some decisions) ↦ ok (some decisions)
    | ok none ↦ escape_loop base rs
  ]

  unfoldable pub repair_pass :
      MonitorConfig → List ℕ → Dict ℕ → Dict PriorityBreakdown → Result (Option (Dict Action))
  unfolding by_clearance in_order escape_loop
  repair_pass c ranked seed priorities = elim (propagated seed clauses) [
    | none ↦ ok none
    | some base ↦ do
      keyed ← by_clearance priorities ranked component
      escape_loop base (take c.heuristic_maximum_repair_candidates (in_order keyed))
  ]

  abbrev pub all_paused : Dict Action
  all_paused = map (λ r. (r, pause)) component

  infeasible : Result HeuristicResult
  unfolding new_result
  infeasible = new_result (record {
    feasible = false;
    decisions = [];
    decision_source = fail_safe;
    progress_made = false;
    fallback_reason = some no_feasible_assignment_found;
  })

  -- `try: validate(all_paused)`, `except UnsafeOptimisationResultError: pass`.
  after_check : Result (Unit {0}) → Result HeuristicResult
  unfolding infeasible new_result
  after_check (ok u) = new_result (record {
    feasible = true;
    decisions = all_paused;
    decision_source = fail_safe;
    progress_made = false;
    fallback_reason = some no_feasible_progress;
  })
  after_check (raise unsafe_result) = infeasible
  after_check (raise e) = raise e

  -- What `solve` does once no progress was found.
  unfoldable pub without_progress : Result HeuristicResult
  unfolding after_check infeasible
  without_progress =
      if all (λ h. is_pause h.1) hard
      then after_check (validate_component_decisions component all_paused pairs hard)
      else infeasible

  with_progress : DecisionSource → Dict Action → Result HeuristicResult
  unfolding new_result
  with_progress source decisions = new_result (record {
    feasible = true;
    decisions = decisions;
    decision_source = source;
    progress_made = true;
    fallback_reason = none;
  })

  -- The repair stage and what follows it.
  unfoldable pub after_greedy :
      MonitorConfig → List ℕ → Dict ℕ → Dict PriorityBreakdown → Result HeuristicResult
  unfolding repair_pass without_progress with_progress
  after_greedy c ranked seed priorities = do
    repaired ← repair_pass c ranked seed priorities
    elim repaired [ some decisions ↦ with_progress repair decisions | none ↦ without_progress ]

  -- The greedy stage and what follows it.
  unfoldable pub from_seed :
      MonitorConfig → List ℕ → Dict ℕ → Dict PriorityBreakdown → Result HeuristicResult
  unfolding after_greedy with_progress actions_from_binary
  from_seed c ranked seed priorities =
      let rest = after_greedy c ranked seed priorities in
      elim (greedy_pass ranked seed clauses) [
        | none ↦ rest
        | some assignment ↦
            let complete : Result HeuristicResult = do
              decisions ← actions_from_binary component assignment
              validate_component_decisions component decisions pairs hard
              if any_resume decisions then with_progress heuristic decisions else rest
            in if length assignment == length component then complete else rest
      ]

-- The values of the hard assignments.
unfoldable pub seed_of : Dict Action → Dict ℕ
unfolding action_to_binary
seed_of hard = map (λ h. (h.0, action_to_binary h.1)) hard

-- Every robot of the component has priorities under its own identifier.
unfoldable pub named_priorities : Dict PriorityBreakdown → List ℕ → Result (Unit {0})
named_priorities priorities [] = ok tt
named_priorities priorities (r ∷ rs) = do
  score ← or_raise (lookup r priorities) key_error
  require (score.robot_id == r) value_error
  named_priorities priorities rs

unfoldable pub solve :
    {F : Type 0}
    → MonitorConfig
    → List ℕ
    → ConflictModel F
    → Dict PriorityBreakdown
    → Dict Action
    → Result HeuristicResult
unfolding from_seed seed_of named_priorities by_coefficient in_order
solve c component m priorities hard = do
  let ordered = sorted component
  require (leb 1 (length ordered)) value_error
  require (distinct ordered) value_error
  require (all (λ r. elem r (keys m.snapshots)) ordered) value_error
  require (all (λ r. elem r (keys priorities)) ordered) value_error
  named_priorities priorities ordered
  require (all (λ r. elem r ordered) (keys hard)) value_error
  let pairs = component_constraints ordered m
  clauses ← build_clauses pairs
  objective ← build_objective_encoding ordered priorities
  keyed ← by_coefficient objective.coefficients ordered
  from_seed ordered clauses pairs hard c (in_order keyed) (seed_of hard) priorities
