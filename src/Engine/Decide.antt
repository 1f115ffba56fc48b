-- ===== src/Engine/Decide.antt =====
-- CollisionDecisionEngine.decide, whose state is the grant manager that it keeps between ticks.
--
-- The four stages are the parts of the function before the global validator's answer, its answer,
-- the commit, and the records of the result. A tick identifier is a number, 0 for a blank one.
use robot_fleet_management.Base.{
  ℕ, Bool, not, ltb, leb, if◌then◌else◌, List, [], ◌∷◌, ◌++◌, map, keep_if, elem, sorted, sort_by,
  Option, none, some, Dict, lookup, Result, ok, raise, ◌>>=◌, ◌>>◌, value_error, key_error, require,
  or_raise,
}
use robot_fleet_management.Models.{Action, pause, RobotSnapshot, DecisionSource, fail_safe}
use robot_fleet_management.Config.{MonitorConfig}
use robot_fleet_management.Priority.{PriorityBreakdown}
use robot_fleet_management.Conflicts.Model.{ConflictModel}
use robot_fleet_management.Conflicts.Build.{Envelopes, id_of}
use robot_fleet_management.Optimiser.Solver.{CpModel, Answer}
use robot_fleet_management.Grants.State.{
  GrantManager, GrantPreparation, GrantDecisionPreview, GrantDecisionResult, new_preview, clone,
  revoke_for_safety,
}
use robot_fleet_management.Grants.Group.{put_all}
use robot_fleet_management.Grants.Acquire.{component_of}
use robot_fleet_management.Grants.Tick.{prepare_tick, preview_tick, commit_tick}
use robot_fleet_management.Engine.Codes.{
  GlobalSafetyViolation, RobotDecision, FleetDecision, reason_codes, alarm_codes, is_resumed,
  is_nonempty, TickMetadata,
}
use robot_fleet_management.Engine.Validation.{
  normalise_snapshots, derive_staleness, validate_global_safety,
}
use robot_fleet_management.Engine.Solving.{Proposals, score_priorities, solve_components}

-- The local variables of `decide` once the grant manager has previewed the tick.
pub record TickDraft (F : Type 0) : Type 0 where
  pub ordered : List (RobotSnapshot F)
  pub model : ConflictModel F
  pub current_footprint_violations : List (GlobalSafetyViolation F)
  pub provisional_grants : GrantManager
  pub preparation : GrantPreparation
  pub priorities : Dict PriorityBreakdown
  pub proposals : Proposals
  pub preview : GrantDecisionPreview

-- Those that the global validator sets.
pub record Review (F : Type 0) : Type 0 where
  pub decisions : Dict Action
  pub sources : Dict DecisionSource
  pub affected_robots : List ℕ
  pub initial_violations : List (GlobalSafetyViolation F)
  pub final_violations : List (GlobalSafetyViolation F)

-- The commit's result, and the provisional manager after it.
pub record Settlement : Type 0 where
  pub grant_result : Option GrantDecisionResult
  pub manager : GrantManager

-- An operation of the manager in a chain that an exception leaves, with the manager, at once.
abbrev pub with_manager : {A : Type 0} → Result A × GrantManager → Result (A × GrantManager)
with_manager (raise e, g) = raise e
with_manager (ok a, g) = ok (a, g)

abbrev pub acquired_in : Option GrantDecisionResult → List ℕ
acquired_in none = []
acquired_in (some result) = result.acquired_grants

-- The members of a list once each, as in a set.
unfoldable pub as_set : List ℕ → List ℕ
as_set [] = []
as_set (r ∷ rs) = let rest = as_set rs in if elem r rs then rest else r ∷ rest

abbrev pub by_key {ℓ} : {V : Type ℓ} → ℕ × V → ℕ × V → Bool
by_key a b = ltb a.0 b.0

module _ {F : Type 0} where
  -- The components of both robots of every violation.
  unfoldable pub components_of : ConflictModel F → List (GlobalSafetyViolation F) → Result (List ℕ)
  components_of m [] = ok []
  components_of m (v ∷ vs) = do
    first ← or_raise (component_of v.robot_i m.connected_components) key_error
    second ← or_raise (component_of v.robot_j m.connected_components) key_error
    rest ← components_of m vs
    ok (first ++ second ++ rest)

  unfoldable pub affected_robots :
      ConflictModel F → List (GlobalSafetyViolation F) → Result (List ℕ)
  unfolding components_of as_set
  affected_robots m violations = do robots ← components_of m violations; ok (sorted (as_set robots))

module _ {F : Type 0} (geometry : Envelopes F) (c : MonitorConfig)
    (build : List (RobotSnapshot F) → Result (ConflictModel F))
    (backend : Option (CpModel → Answer)) where
  abbrev pub all_paused : List (RobotSnapshot F) → Dict Action
  all_paused ordered = map (λ s. (id_of s, pause)) ordered

  -- From the checks of the arguments to the preview of the grants.
  unfoldable pub draft :
      List (RobotSnapshot F) → (now_ms tick_id : ℕ) → GrantManager → Result (TickDraft F)
  draft snapshots now_ms tick_id g = do
    require (leb 1 tick_id) value_error
    normalised ← normalise_snapshots snapshots
    let ordered = derive_staleness c now_ms normalised
    m ← build ordered
    overlaps ← validate_global_safety geometry (all_paused ordered) ordered
    copy ← clone g
    (preparation, prepared) ← with_manager (prepare_tick c m now_ms copy)
    priorities ← score_priorities c m prepared now_ms
    proposals ← solve_components c m backend priorities preparation.hard_assignments
    preview ← preview_tick c m prepared proposals.decisions priorities (some proposals.sources)
    ok (record {
      ordered = ordered;
      model = m;
      current_footprint_violations = overlaps;
      provisional_grants = prepared;
      preparation = preparation;
      priorities = priorities;
      proposals = proposals;
      preview = preview;
    })

  -- The decisions are the preview's, but where the validator rejects them, for whose affected
  -- components it then sees Pause.
  unfoldable pub override : TickDraft F → List (GlobalSafetyViolation F) → Result (Review F)
  unfolding put_all affected_robots
  override d [] = ok (record {
    decisions = d.preview.decisions;
    sources = d.preview.decision_sources;
    affected_robots = [];
    initial_violations = [];
    final_violations = [];
  })
  override d (v ∷ vs) = do
    affected ← affected_robots d.model (v ∷ vs)
    let decisions = put_all pause affected d.preview.decisions
    final ← validate_global_safety geometry decisions d.ordered
    ok (record {
      decisions = decisions;
      sources = put_all fail_safe affected d.preview.decision_sources;
      affected_robots = affected;
      initial_violations = v ∷ vs;
      final_violations = final;
    })

  unfoldable pub review : TickDraft F → Result (Review F)
  unfolding override
  review d = do
    violations ← validate_global_safety geometry d.preview.decisions d.ordered
    override d violations

  abbrev pub revoke_affected : List ℕ → GrantManager → Result GrantManager
  revoke_affected [] g = ok g
  revoke_affected (r ∷ rs) g = revoke_for_safety (r ∷ rs) g

  unfoldable pub commit : TickDraft F → Review F → Result Settlement
  commit d r = do
    revoked ← revoke_affected r.affected_robots d.provisional_grants
    preview ← new_preview (record {
      decisions = r.decisions;
      decision_sources = r.sources;
      alarms = d.preview.alarms;
    })
    (result, committed) ← with_manager (commit_tick c d.model preview revoked)
    ok (record { grant_result = some result; manager = committed })

  -- `state_committed` is whether no violation is left.
  unfoldable pub settle : TickDraft F → Review F → Result Settlement
  unfolding commit
  settle d r =
      if is_nonempty r.final_violations
      then ok (record { grant_result = none; manager = d.provisional_grants })
      else commit d r

  -- RobotDecision(...) for every snapshot, with `_reason_data`.
  unfoldable pub robot_decisions :
      TickDraft F → Review F → Settlement → ℕ → List (RobotSnapshot F) → Result (List RobotDecision)
  robot_decisions d r s tick_id [] = ok []
  robot_decisions d r s tick_id (snapshot ∷ rest) = do
    let robot_id = id_of snapshot
    source ← or_raise (lookup robot_id r.sources) key_error
    component ← or_raise (component_of robot_id d.model.connected_components) key_error
    priority ← or_raise (lookup robot_id d.priorities) key_error
    action ← or_raise (lookup robot_id r.decisions) key_error
    others ← robot_decisions d r s tick_id rest
    ok (
        record {
          robot_id = robot_id;
          action = action;
          reason_codes =
              reason_codes robot_id snapshot source (elem robot_id d.model.isolated_robots)
                (elem robot_id (acquired_in s.grant_result))
                (is_resumed (lookup robot_id d.preparation.hard_assignments))
                (elem robot_id r.affected_robots);
          tick_id = tick_id;
          decision_source = source;
          component = component;
          priority = priority;
        }
        ∷ others)

  stale_ids : TickDraft F → List ℕ
  stale_ids d = map id_of (keep_if (λ s. s.stale) d.ordered)

  -- `grant_result` decides between its entries and those of the engine's manager.
  unfoldable pub tick_metadata : TickDraft F → Review F → Settlement → GrantManager → TickMetadata F
  unfolding stale_ids
  tick_metadata d r s g = record {
    grant_tick_id = s.manager.tick_id;
    component_diagnostics = d.proposals.diagnostics;
    final_decision_sources = sort_by by_key r.sources;
    priority_scores = sort_by by_key d.priorities;
    grant_hard_assignments = sort_by by_key d.preparation.hard_assignments;
    alarms =
        alarm_codes d.preview.alarms (is_nonempty (stale_ids d))
          (is_nonempty d.current_footprint_violations) (is_nonempty r.initial_violations)
          (is_nonempty r.final_violations);
    prolonged_stale_robot_ids = stale_ids d;
    current_footprint_overlaps = d.current_footprint_violations;
    initial_global_safety_violations = r.initial_violations;
    final_global_safety_violations = r.final_violations;
    global_safety_valid = not (is_nonempty r.final_violations);
    state_committed = not (is_nonempty r.final_violations);
    acquired_grants = acquired_in s.grant_result;
    released_grants = elim s.grant_result [ none ↦ [] | some result ↦ result.released_grants ];
    waiting_ages =
        sort_by by_key
          (elim s.grant_result [ none ↦ g.waiting_ages | some result ↦ result.waiting_ages ]);
  }

  unfoldable pub fleet_decision :
      TickDraft F → Review F → Settlement → ℕ → GrantManager → Result (FleetDecision F)
  unfolding robot_decisions tick_metadata
  fleet_decision d r s tick_id g = do
    decided ← robot_decisions d r s tick_id d.ordered
    ok (record { decisions = decided; tick_id = tick_id; tick_metadata = tick_metadata d r s g })

  unfoldable pub settled :
      List (RobotSnapshot F)
      → (now_ms tick_id : ℕ) → GrantManager
      → Result (TickDraft F × Review F × Settlement)
  unfolding draft review settle
  settled snapshots now_ms tick_id g = do
    d ← draft snapshots now_ms tick_id g
    r ← review d
    s ← settle d r
    ok (d, r, s)

  -- `self._grant_manager`: the provisional manager, once it has committed the tick.
  unfoldable pub next_manager : Review F → Settlement → GrantManager → GrantManager
  next_manager r s g = if is_nonempty r.final_violations then g else s.manager

  unfoldable pub decide :
      List (RobotSnapshot F)
      → (now_ms tick_id : ℕ) → GrantManager
      → Result (FleetDecision F) × GrantManager
  unfolding settled fleet_decision next_manager
  decide snapshots now_ms tick_id g = elim (settled snapshots now_ms tick_id g) [
    | raise e ↦ (raise e, g)
    | ok (d, r, s) ↦ (fleet_decision d r s tick_id g, next_manager r s g)
  ]
