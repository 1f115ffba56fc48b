-- ===== src/Service/Tick.antt =====
-- CollisionMonitorService.run_tick and _action_message. The log entries and the trace that they
-- carry are not modelled, but for the robots whose publication succeeded.
use robot_fleet_management.Base.{
  ℕ, ◌+◌, ◌==◌, Bool, true, false, not, List, [], ◌∷◌, ◌++◌, map, keep_if, any, elem, Option, none,
  some, Dict, lookup, keys, Result, ok, raise, ◌>>=◌, key_error, or_raise,
}
use robot_fleet_management.Models.{Floats, RobotSnapshot}
use robot_fleet_management.Config.{MonitorConfig}
use robot_fleet_management.Conflicts.Model.{ConflictModel}
use robot_fleet_management.Conflicts.Build.{Envelopes, id_of}
use robot_fleet_management.Optimiser.Solver.{CpModel, Answer}
use robot_fleet_management.Grants.State.{GrantManager}
use robot_fleet_management.StateStore.{FleetStateSnapshot, snapshot}
use robot_fleet_management.Engine.Codes.{RobotDecision, FleetDecision, EngineAlarmCode}
use robot_fleet_management.Engine.Decide.{decide}
use robot_fleet_management.Transport.Message.{
  ActionMessage, ActionPublisher, new_message, reason, alarm,
}
use robot_fleet_management.Service.Ingest.{CollisionMonitorService}
use robot_fleet_management.Service.Publish.{PublicationFailure, publish_with_retry}

pub record ServiceTickResult (F : Type 0) : Type 0 where
  pub fleet_decision : FleetDecision F
  pub action_messages : List ActionMessage
  pub publication_failures : List PublicationFailure

abbrev pub no_failure : List PublicationFailure → Bool
no_failure [] = true
no_failure (f ∷ fs) = false

unfoldable pub publication_complete : {F : Type 0} → ServiceTickResult F → Bool
publication_complete r = no_failure r.publication_failures

-- The trace's `successful_robot_ids`.
unfoldable pub successful_robot_ids : List ActionMessage → List PublicationFailure → List ℕ
successful_robot_ids messages failures =
    map (λ m. m.device_id)
      (keep_if (λ m. not (any (λ f. f.robot_id == m.device_id) failures)) messages)

module _ {F : Type 0} (run_id : ℕ) where
  -- The codes are distinct texts, so `dict.fromkeys` drops none.
  unfoldable pub action_message :
      RobotDecision
      → Dict (RobotSnapshot F)
      → ℕ
      → Bool
      → List EngineAlarmCode
      → Result ActionMessage
  unfolding new_message
  action_message decision snapshot_by_robot timestamp grant_active alarms = do
    observed ← or_raise (lookup decision.robot_id snapshot_by_robot) key_error
    new_message (record {
      run_id = run_id;
      device_id = decision.robot_id;
      action = decision.action;
      tick_id = decision.tick_id;
      decision_timestamp = timestamp;
      source_state_timestamp = observed.state.timestamp;
      reason_codes = map reason decision.reason_codes ++ map alarm alarms;
      decision_source = decision.decision_source;
      grant_active = grant_active;
    })

  unfoldable pub action_messages :
      Dict (RobotSnapshot F)
      → ℕ
      → List ℕ
      → List EngineAlarmCode
      → List RobotDecision
      → Result (List ActionMessage)
  unfolding action_message
  action_messages snapshot_by_robot timestamp granted alarms [] = ok []
  action_messages snapshot_by_robot timestamp granted alarms (d ∷ ds) = do
    message ← action_message d snapshot_by_robot timestamp (elem d.robot_id granted) alarms
    rest ← action_messages snapshot_by_robot timestamp granted alarms ds
    ok (message ∷ rest)

module _ (publisher : ActionPublisher) (c : MonitorConfig) where
  abbrev pub add_failure :
      Option PublicationFailure → List PublicationFailure → List PublicationFailure
  add_failure none fs = fs
  add_failure (some f) fs = f ∷ fs

  -- The rest of the loop after the retries of one message.
  abbrev pub collected :
      Result (Option PublicationFailure)
      → publisher.State
      → Result (List PublicationFailure) × publisher.State
      → Result (List PublicationFailure) × publisher.State
  collected (raise e) s rest = (raise e, s)
  collected (ok failure) s (raise e, t) = (raise e, t)
  collected (ok failure) s (ok failures, t) = (ok (add_failure failure failures), t)

  -- The loop over the messages, which an exception leaves.
  unfoldable pub publish_all :
      List ActionMessage → publisher.State → Result (List PublicationFailure) × publisher.State
  publish_all [] s = (ok [], s)
  publish_all (message ∷ messages) s =
      let (outcome, s') = publish_with_retry publisher c message s in
      collected outcome s' (publish_all messages s')

  module _ (floats : Floats) (geometry : Envelopes floats.Float) (tolerance : floats.Float)
      (build : List (RobotSnapshot floats.Float) → Result (ConflictModel floats.Float))
      (backend : Option (CpModel → Answer)) (run_id now_us now_ms : ℕ) where
    abbrev Service : Type 0
    Service = CollisionMonitorService floats.Float publisher.State

    -- The service once the tick has its identifier, its engine's manager and its publisher.
    abbrev pub ticked : GrantManager → publisher.State → Service → Service
    ticked g s v = record {
      store = v.store;
      grant_manager = g;
      publisher = s;
      tick_sequence = v.tick_sequence + 1;
      rejected_state_count = v.rejected_state_count;
    }

    -- From the fleet's decision to the messages, with the manager that the engine now keeps.
    unfoldable pub messages_of :
        FleetStateSnapshot floats.Float
        → FleetDecision floats.Float
        → GrantManager
        → Result (List ActionMessage)
    unfolding action_messages
    messages_of fleet fd g =
        action_messages run_id (map (λ s. (id_of s, s)) fleet.snapshots) fleet.captured_epoch_ms
          (keys g.active_grants) fd.tick_metadata.alarms fd.decisions

    unfoldable pub publish_messages :
        FleetDecision floats.Float
        → GrantManager
        → Result (List ActionMessage)
        → Service
        → Result (ServiceTickResult floats.Float) × Service
    unfolding publish_all
    publish_messages fd g (raise e) v = (raise e, ticked g v.publisher v)
    publish_messages fd g (ok messages) v =
        let (outcome, s) = publish_all messages v.publisher in
        (
          (do
            failures ← outcome
            ok (record {
              fleet_decision = fd;
              action_messages = messages;
              publication_failures = failures;
            })),
          ticked g s v,
        )

    unfoldable pub publish_tick :
        FleetStateSnapshot floats.Float
        → Result (FleetDecision floats.Float) × GrantManager
        → Service
        → Result (ServiceTickResult floats.Float) × Service
    unfolding messages_of publish_messages
    publish_tick fleet (raise e, g) v = (raise e, ticked g v.publisher v)
    publish_tick fleet (ok fd, g) v = publish_messages fd g (messages_of fleet fd g) v

    -- The rest of the tick once the store was read.
    unfoldable pub decide_tick :
        Result (FleetStateSnapshot floats.Float)
        → Service
        → Result (ServiceTickResult floats.Float) × Service
    unfolding publish_tick
    decide_tick (raise e) v = (raise e, ticked v.grant_manager v.publisher v)
    decide_tick (ok fleet) v =
        publish_tick fleet
          (decide geometry c build backend fleet.snapshots fleet.captured_epoch_ms
            (v.tick_sequence + 1) v.grant_manager)
          v

    unfoldable pub run_tick : Service → Result (ServiceTickResult floats.Float) × Service
    unfolding decide_tick
    run_tick v = decide_tick (snapshot floats now_us now_ms c.stale_timeout_us tolerance v.store) v
