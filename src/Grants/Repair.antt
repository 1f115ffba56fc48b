-- ===== src/Grants/Repair.antt =====
-- GrantManager._validate_or_repair_components.
use robot_fleet_management.Base.{
  ℕ, Bool, not, ◌&&◌, ◌||◌, ltb, if◌then◌else◌, List, [], ◌∷◌, all, any, elem, length, keep_if,
  Dict, lookup, insert, keys, Result, ok, ◌>>=◌, ◌>>◌, key_error, or_raise,
}
use robot_fleet_management.Models.{Action, pause, is_pause, DecisionSource, repair, fail_safe}
use robot_fleet_management.Config.{MonitorConfig}
use robot_fleet_management.Priority.{PriorityBreakdown}
use robot_fleet_management.Conflicts.Model.{ConflictModel, component_constraints}
use robot_fleet_management.Optimiser.Validate.{validate_component_decisions}
use robot_fleet_management.Heuristic.Solve.{solve}
use robot_fleet_management.Grants.State.{AlarmCode, unresolvable_with_pause_resume}
use robot_fleet_management.Grants.Lifecycle.{has_conflict}
use robot_fleet_management.Grants.Group.{put_all, unavailable}

-- `decisions`, `decision_sources` and `alarms` of the loop.
pub record Draft : Type 0 where
  pub decisions : Dict Action
  pub decision_sources : Dict DecisionSource
  pub alarms : List AlarmCode

-- `{robot_id: decisions[robot_id] for robot_id in component}`
unfoldable pub decisions_for : Dict Action → List ℕ → Result (Dict Action)
decisions_for decisions [] = ok []
decisions_for decisions (r ∷ rs) = do
  action ← or_raise (lookup r decisions) key_error
  rest ← decisions_for decisions rs
  ok ((r, action) ∷ rest)

-- `{**base, **over}`
unfoldable pub put_entries {ℓ} : {V : Type ℓ} → Dict V → Dict V → Dict V
put_entries [] d = d
put_entries ((r, v) ∷ es) d = put_entries es (insert r v d)

abbrev pub add_alarm : List AlarmCode → List AlarmCode
add_alarm [] = unresolvable_with_pause_resume ∷ []
add_alarm (a ∷ rest) = a ∷ rest

-- The decisions of the repair with their source.
unfoldable pub accept_repair : Dict Action → Draft → Draft
unfolding put_all put_entries
accept_repair repaired d = record {
  decisions = put_entries repaired d.decisions;
  decision_sources = put_all repair (keys repaired) d.decision_sources;
  alarms = d.alarms;
}

unfoldable pub stay_paused : List ℕ → Draft → Draft
unfolding put_all
stay_paused component d = record {
  decisions = put_all pause component d.decisions;
  decision_sources = put_all fail_safe component d.decision_sources;
  alarms = add_alarm d.alarms;
}

module _ {F : Type 0} (c : MonitorConfig) (m : ConflictModel F) (current_hard : Dict Action)
    (priorities : Dict PriorityBreakdown) where
  unfoldable pub component_hard : List ℕ → Dict Action
  component_hard component = keep_if (λ h. elem h.0 component) current_hard

  -- `len(component) < 2 or not any(...)`
  unfoldable pub is_trivial : List ℕ → Bool
  is_trivial component = ltb (length component) 2 || not (any (has_conflict m.adjacency) component)

  unfoldable pub repair_component : List ℕ → Draft → Result Draft
  unfolding component_hard accept_repair stay_paused
  repair_component component d = do
    blocked ← unavailable m component
    result ←
        solve c component m priorities
          (put_entries (component_hard component) (put_all pause blocked []))
    ok (
        if result.feasible && result.progress_made
        then accept_repair result.decisions d
        else stay_paused component d)

  unfoldable pub check_component : List ℕ → Draft → Result Draft
  unfolding decisions_for is_trivial repair_component component_hard
  check_component component d =
      let body : Result Draft = do
        chosen ← decisions_for d.decisions component
        if all (λ e. is_pause e.1) chosen
            then repair_component component d
            else (validate_component_decisions component chosen (component_constraints component m)
                  (component_hard component)
                >> ok d)
      in if is_trivial component then ok d else body

  unfoldable pub check_components : List (List ℕ) → Draft → Result Draft
  unfolding check_component
  check_components [] d = ok d
  check_components (component ∷ cs) d = do d' ← check_component component d; check_components cs d'
