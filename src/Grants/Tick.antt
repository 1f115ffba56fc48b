-- ===== src/Grants/Tick.antt =====
-- GrantManager.prepare_tick, preview_tick, commit_tick and finalise_tick.
use robot_fleet_management.Base.{
  ℕ, ◌+◌, true, false, not, if◌then◌else◌, List, [], map, Option, none, some, Dict, keys, same_ids,
  Result, ok, raise, ◌>>=◌, ◌>>◌, value_error, runtime_error, require,
}
use robot_fleet_management.Models.{Action, DecisionSource, cp_sat}
use robot_fleet_management.Config.{MonitorConfig}
use robot_fleet_management.Priority.{PriorityBreakdown}
use robot_fleet_management.Conflicts.Model.{ConflictModel}
use robot_fleet_management.Grants.State.{
  GrantManager, GrantPreparation, GrantDecisionResult, GrantDecisionPreview, new_preview,
}
use robot_fleet_management.Grants.Lifecycle.{reconcile_lifecycle}
use robot_fleet_management.Grants.Group.{safe_relevant_grants}
use robot_fleet_management.Grants.Repair.{check_components}
use robot_fleet_management.Grants.Acquire.{acquire_grants, update_fairness}

-- The first assignments of prepare_tick.
unfoldable pub open_tick : GrantManager → GrantManager
open_tick g = record {
  tick_id = g.tick_id + 1;
  waiting_ages = g.waiting_ages;
  active_grants = g.active_grants;
  previous_actions = g.previous_actions;
  tick_open = true;
  current_hard_assignments = g.current_hard_assignments;
  pending_releases = [];
}

abbrev pub set_hard : Dict Action → GrantManager → GrantManager
set_hard hard g = record {
  tick_id = g.tick_id;
  waiting_ages = g.waiting_ages;
  active_grants = g.active_grants;
  previous_actions = g.previous_actions;
  tick_open = g.tick_open;
  current_hard_assignments = hard;
  pending_releases = g.pending_releases;
}

-- `self._tick_open = False`
abbrev pub close_tick : GrantManager → GrantManager
close_tick g = record {
  tick_id = g.tick_id;
  waiting_ages = g.waiting_ages;
  active_grants = g.active_grants;
  previous_actions = g.previous_actions;
  tick_open = false;
  current_hard_assignments = g.current_hard_assignments;
  pending_releases = g.pending_releases;
}

module _ {F : Type 0} (c : MonitorConfig) (m : ConflictModel F) where
  unfoldable pub prepared :
      Result (Dict Action) × GrantManager → Result GrantPreparation × GrantManager
  prepared (raise e, g) = (raise e, g)
  prepared (ok hard, g) = (
    ok (record {
      tick_id = g.tick_id;
      hard_assignments = hard;
      released_grants = g.pending_releases;
    }),
    set_hard hard g,
  )

  -- A time is a natural number, so the check for a negative one has no counterpart.
  unfoldable pub prepare_tick : ℕ → GrantManager → Result GrantPreparation × GrantManager
  unfolding prepared open_tick
  prepare_tick now_ms g =
      if g.tick_open
      then (raise runtime_error, g)
      else prepared (safe_relevant_grants c m (reconcile_lifecycle c m now_ms (open_tick g)))

  -- The sources that were proposed, or CP_SAT for every robot.
  abbrev pub sources_of : Option (Dict DecisionSource) → Dict DecisionSource
  sources_of none = map (λ e. (e.0, cp_sat)) m.snapshots
  sources_of (some sources) = sources

  unfoldable pub preview_tick :
      GrantManager
      → Dict Action
      → Dict PriorityBreakdown
      → Option (Dict DecisionSource)
      → Result GrantDecisionPreview
  preview_tick g proposed priorities sources = do
    require g.tick_open runtime_error
    require (same_ids (keys proposed) (keys m.snapshots)) value_error
    require (same_ids (keys priorities) (keys m.snapshots)) value_error
    require (same_ids (keys (sources_of sources)) (keys m.snapshots)) value_error
    draft ←
        check_components c m g.current_hard_assignments priorities m.connected_components
          (record { decisions = proposed; decision_sources = sources_of sources; alarms = [] })
    new_preview (record {
      decisions = draft.decisions;
      decision_sources = draft.decision_sources;
      alarms = draft.alarms;
    })

  -- GrantDecisionResult(...), with its __post_init__.
  unfoldable pub report : GrantDecisionPreview → List ℕ → GrantManager → Result GrantDecisionResult
  report p acquired g = do
    require (same_ids (keys p.decisions) (keys p.decision_sources)) value_error
    ok (record {
      tick_id = g.tick_id;
      decisions = p.decisions;
      decision_sources = p.decision_sources;
      alarms = p.alarms;
      acquired_grants = acquired;
      released_grants = g.pending_releases;
      waiting_ages = g.waiting_ages;
    })

  unfoldable pub after_fairness :
      GrantDecisionPreview
      → List ℕ
      → Result (Unit {0}) × GrantManager
      → Result GrantDecisionResult × GrantManager
  unfolding report
  after_fairness p acquired (raise e, g) = (raise e, close_tick g)
  after_fairness p acquired (ok u, g) = (report p acquired g, close_tick g)

  unfoldable pub after_acquire :
      GrantDecisionPreview
      → Result (List ℕ) × GrantManager
      → Result GrantDecisionResult × GrantManager
  unfolding after_fairness
  after_acquire p (raise e, g) = (raise e, close_tick g)
  after_acquire p (ok acquired, g) = after_fairness p acquired (update_fairness c m p.decisions g)

  -- The tick is closed by `finally`, and stays open where one of the first two checks fails.
  unfoldable pub commit_tick :
      GrantDecisionPreview → GrantManager → Result GrantDecisionResult × GrantManager
  unfolding after_acquire
  commit_tick p g =
      if not g.tick_open
      then (raise runtime_error, g)
      else if not (same_ids (keys p.decisions) (keys m.snapshots))
      then (raise value_error, g)
      else after_acquire p (acquire_grants c m p.decisions g)

  unfoldable pub close_on_error :
      Result GrantDecisionResult × GrantManager → Result GrantDecisionResult × GrantManager
  close_on_error (raise e, g) = (raise e, close_tick g)
  close_on_error (ok r, g) = (ok r, g)

  unfoldable pub finalise_tick :
      Dict Action
      → Dict PriorityBreakdown
      → Option (Dict DecisionSource)
      → GrantManager
      → Result GrantDecisionResult × GrantManager
  unfolding close_on_error preview_tick commit_tick
  finalise_tick proposed priorities sources g = elim (preview_tick g proposed priorities sources) [
    | raise e ↦ (raise e, close_tick g)
    | ok preview ↦ close_on_error (commit_tick preview g)
  ]
