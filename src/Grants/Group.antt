-- ===== src/Grants/Group.antt =====
-- GrantManager._grant_group_has_safe_completion and _safe_relevant_grants.
use robot_fleet_management.Base.{
  ℕ, Bool, true, false, ◌&&◌, ◌||◌, ◌==◌, ltb, if◌then◌else◌, List, [], ◌∷◌, ◌++◌, any, elem,
  sort_by, none, some, Dict, lookup, insert, Result, ok, raise, ◌>>=◌, key_error, or_raise,
}
use robot_fleet_management.Models.{Action, pause, resume}
use robot_fleet_management.Config.{MonitorConfig}
use robot_fleet_management.Priority.{PriorityBreakdown, new_breakdown}
use robot_fleet_management.Conflicts.Model.{ConflictModel}
use robot_fleet_management.Heuristic.Solve.{solve}
use robot_fleet_management.Grants.State.{
  GrantManager, GrantRecord, release, unsafe_geometry, component_merge_conflict,
}
use robot_fleet_management.Grants.Lifecycle.{has_conflict}

-- `{robot_id: value for robot_id in rs}` over the entries of a dictionary.
unfoldable pub put_all {ℓ} : {V : Type ℓ} → V → List ℕ → Dict V → Dict V
put_all v [] d = d
put_all v (r ∷ rs) d = put_all v rs (insert r v d)

abbrev pub neutral : ℕ → PriorityBreakdown
neutral r = record {
  robot_id = r;
  base_progress_value = 0;
  loaded_bonus = 0;
  deadline_urgency = 0;
  low_battery_urgency = 0;
  waiting_age_bonus = 0;
  active_grant_continuation_bonus = 0;
  clearance_bonus = 0;
  clearance_conflict_count = 0;
  remaining_slack_ms = 0;
  secondary_score = 0;
  throughput_reward = 1;
  final_score = 1;
}

unfoldable pub neutral_priorities : List ℕ → Result (Dict PriorityBreakdown)
neutral_priorities [] = ok []
neutral_priorities (r ∷ rs) = do
  score ← new_breakdown (neutral r)
  rest ← neutral_priorities rs
  ok ((r, score) ∷ rest)

-- The robots of the component that stand at their goal or are stale.
unfoldable pub unavailable : {F : Type 0} → ConflictModel F → List ℕ → Result (List ℕ)
unavailable m [] = ok []
unavailable m (r ∷ rs) = do
  snapshot ← or_raise (lookup r m.snapshots) key_error
  rest ← unavailable m rs
  ok (if snapshot.at_goal || snapshot.stale then r ∷ rest else rest)

-- Grants of the component's robots that still have a conflict.
unfoldable pub relevant_grants :
    {F : Type 0} → ConflictModel F → Dict GrantRecord → List ℕ → List GrantRecord
relevant_grants m grants [] = []
relevant_grants m grants (r ∷ rs) =
    let rest = relevant_grants m grants rs in
    elim (lookup r grants) [
      | none ↦ rest
      | some held ↦ if has_conflict m.adjacency r then held ∷ rest else rest
    ]

unfoldable pub acquired_before : GrantRecord → GrantRecord → Bool
acquired_before a b =
    ltb a.acquisition_tick b.acquisition_tick
    || (a.acquisition_tick == b.acquisition_tick && ltb a.robot_id b.robot_id)

module _ {F : Type 0} (c : MonitorConfig) (m : ConflictModel F) where
  -- The search for a complete assignment that the group's robots resume in.
  unfoldable pub complete_group : List ℕ → List ℕ → List ℕ → Result Bool
  unfolding put_all neutral_priorities
  complete_group component group blocked = do
    priorities ← neutral_priorities component
    result ← solve c component m priorities (put_all resume group (put_all pause blocked []))
    ok (result.feasible && result.progress_made)

  unfoldable pub has_safe_completion : List ℕ → List ℕ → Result Bool
  unfolding unavailable complete_group
  has_safe_completion component group = do
    blocked ← unavailable m component
    if any (λ r. elem r group) blocked then ok false else complete_group component group blocked

  -- The loop over the candidates of one component, with `retained` and `hard_assignments`.
  unfoldable pub retain_each :
      List ℕ
      → List GrantRecord
      → List ℕ
      → Dict Action
      → GrantManager
      → Result (Dict Action) × GrantManager
  unfolding has_safe_completion release
  retain_each component [] retained hard g = (ok hard, g)
  retain_each component (held ∷ rest) retained hard g =
      elim (has_safe_completion component (retained ++ held.robot_id ∷ [])) [
        | raise e ↦ (raise e, g)
        | ok true ↦
            retain_each component rest (retained ++ held.robot_id ∷ [])
              (insert held.robot_id resume hard) g
        | ok false ↦ retain_each component rest retained hard (
            release held.robot_id
              (elim retained [ [] ↦ unsafe_geometry | r ∷ rs ↦ component_merge_conflict ]) g)
      ]

  unfoldable pub retain_components :
      List (List ℕ) → Dict Action → GrantManager → Result (Dict Action) × GrantManager
  unfolding retain_each relevant_grants acquired_before
  retain_components [] hard g = (ok hard, g)
  retain_components (component ∷ cs) hard g =
      let kept =
        retain_each component
          (sort_by acquired_before (relevant_grants m g.active_grants component)) [] hard g in
      elim kept.0 [ raise e ↦ (raise e, kept.1) | ok hard' ↦ retain_components cs hard' kept.1 ]

  unfoldable pub safe_relevant_grants : GrantManager → Result (Dict Action) × GrantManager
  unfolding retain_components
  safe_relevant_grants g = retain_components m.connected_components [] g
