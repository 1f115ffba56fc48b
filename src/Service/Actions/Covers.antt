-- ===== src/Service/Actions/Covers.antt =====
-- A tick sends one action to each robot of the store.
use robot_fleet_management.Base.{
  ℕ, ◌+◌, ◌≡◌, refl, sym, ap, ◌∙◌, List, [], ◌∷◌, map, sorted, Option, keys, Result, ok, raise,
  >>=-eq-ok, ok-injective,
}
use robot_fleet_management.Models.{Floats, RobotSnapshot}
use robot_fleet_management.Config.{MonitorConfig}
use robot_fleet_management.Conflicts.Model.{ConflictModel}
use robot_fleet_management.Conflicts.Build.{Envelopes, id_of}
use robot_fleet_management.Optimiser.Solver.{CpModel, Answer}
use robot_fleet_management.Grants.State.{GrantManager}
use robot_fleet_management.StateStore.{FleetStateSnapshot, snapshot}
use robot_fleet_management.Engine.Codes.{RobotDecision, FleetDecision}
use robot_fleet_management.Engine.Decide.{decide}
use robot_fleet_management.Engine.Commands.{decide-covers}
use robot_fleet_management.Transport.Message.{ActionMessage, ActionPublisher}
use robot_fleet_management.Service.Ingest.{CollisionMonitorService}
use robot_fleet_management.Service.Tick.{
  ServiceTickResult, publish_all, messages_of, publish_messages, publish_tick, decide_tick,
  run_tick,
}
use robot_fleet_management.Service.Actions.{
  IsKeyed, command_of, sent_by, action_messages-commands, snapshot-ids,
}

devices-sent_by :
    (ms : List ActionMessage) → map (λ m. m.device_id) ms ≡ map (λ x. x.0) (map sent_by ms)
devices-sent_by [] = refl
devices-sent_by (m ∷ ms) = ap (λ xs. m.device_id ∷ xs) (devices-sent_by ms)

robots-command_of :
    (ds : List RobotDecision) → map (λ d. d.robot_id) ds ≡ map (λ x. x.0) (map command_of ds)
robots-command_of [] = refl
robots-command_of (d ∷ ds) = ap (λ xs. d.robot_id ∷ xs) (robots-command_of ds)

module _ (publisher : ActionPublisher) (c : MonitorConfig) (floats : Floats)
    (geometry : Envelopes floats.Float) (tolerance : floats.Float)
    (build : List (RobotSnapshot floats.Float) → Result (ConflictModel floats.Float))
    (backend : Option (CpModel → Answer)) (run_id now_us now_ms : ℕ) where
  abbrev Service : Type 0
  Service = CollisionMonitorService floats.Float publisher.State

  -- What `run_tick` went through where it returns a result.
  pub record Ticking (v : Service) (r : ServiceTickResult floats.Float) (w : Service) : Type 0 where
    pub fleet : FleetStateSnapshot floats.Float
    pub observed : snapshot floats now_us now_ms c.stale_timeout_us tolerance v.store ≡ ok fleet
    pub decided :
        (decide geometry c build backend fleet.snapshots fleet.captured_epoch_ms
          (v.tick_sequence + 1)
          v.grant_manager).0
        ≡ ok r.fleet_decision
    pub commanded : map sent_by r.action_messages ≡ map command_of r.fleet_decision.decisions
    pub published :
        (publish_all publisher c r.action_messages v.publisher).0 ≡ ok r.publication_failures
    pub kept : w.publisher ≡ (publish_all publisher c r.action_messages v.publisher).1

  module _ (v : Service) (r : ServiceTickResult floats.Float) where
    publish_messages-Ticking :
        (fleet : FleetStateSnapshot floats.Float) (fd : FleetDecision floats.Float)
        (g : GrantManager) (ms : Result (List ActionMessage))
        → snapshot floats now_us now_ms c.stale_timeout_us tolerance v.store ≡ ok fleet
        → (decide geometry c build backend fleet.snapshots fleet.captured_epoch_ms
            (v.tick_sequence + 1)
            v.grant_manager).0
          ≡ ok fd
        → messages_of publisher c floats geometry tolerance build backend run_id now_us now_ms fleet
            fd g
          ≡ ms
        → (publish_messages publisher c floats geometry tolerance build backend run_id now_us now_ms
            fd g ms v).0
          ≡ ok r
        → Ticking v r
            (publish_messages publisher c floats geometry tolerance build backend run_id now_us
              now_ms fd g ms v).1
    unfolding publish_messages messages_of
    publish_messages-Ticking fleet fd g (raise e) seen q m h = absurd (cc)
    publish_messages-Ticking fleet fd g (ok ms) seen q m h =
        let (failures, f, h1) = >>=-eq-ok (publish_all publisher c ms v.publisher).0 _ h in
        let same = ok-injective h1 in
        let sent = ap (λ x. x.action_messages) same in
        let commands =
          action_messages-commands run_id (map (λ s. (id_of s, s)) fleet.snapshots)
            fleet.captured_epoch_ms (keys g.active_grants) fd.tick_metadata.alarms fd.decisions ms
            m in
        record {
          fleet = fleet;
          observed = seen;
          decided = q ∙ ap (λ x. ok x.fleet_decision) same;
          commanded =
              ap (map sent_by) (sym sent)
              ∙ commands
              ∙ ap (λ x. map command_of x.fleet_decision.decisions) same;
          published =
              ap (λ xs. (publish_all publisher c xs v.publisher).0) (sym sent)
              ∙ f
              ∙ ap (λ x. ok x.publication_failures) same;
          kept = ap (λ xs. (publish_all publisher c xs v.publisher).1) sent;
        }

    publish_tick-Ticking :
        (fleet : FleetStateSnapshot floats.Float)
        (x : Result (FleetDecision floats.Float) × GrantManager)
        → snapshot floats now_us now_ms c.stale_timeout_us tolerance v.store ≡ ok fleet
        → (decide geometry c build backend fleet.snapshots fleet.captured_epoch_ms
            (v.tick_sequence + 1)
            v.grant_manager).0
          ≡ x.0
        → (publish_tick publisher c floats geometry tolerance build backend run_id now_us now_ms
            fleet x v).0
          ≡ ok r
        → Ticking v r
            (publish_tick publisher c floats geometry tolerance build backend run_id now_us now_ms
              fleet x v).1
    unfolding publish_tick
    publish_tick-Ticking fleet (raise e, g) seen q h = absurd (cc)
    publish_tick-Ticking fleet (ok fd, g) seen q h =
        publish_messages-Ticking fleet fd g
          (messages_of publisher c floats geometry tolerance build backend run_id now_us now_ms
            fleet fd g)
          seen q refl h

    decide_tick-Ticking :
        (x : Result (FleetStateSnapshot floats.Float))
        → snapshot floats now_us now_ms c.stale_timeout_us tolerance v.store ≡ x
        → (decide_tick publisher c floats geometry tolerance build backend run_id now_us now_ms x
            v).0
          ≡ ok r
        → Ticking v r
            (decide_tick publisher c floats geometry tolerance build backend run_id now_us now_ms x
              v).1
    unfolding decide_tick
    decide_tick-Ticking (raise e) seen h = absurd (cc)
    decide_tick-Ticking (ok fleet) seen h = publish_tick-Ticking fleet _ seen refl h

    pub run_tick-Ticking :
        (run_tick publisher c floats geometry tolerance build backend run_id now_us now_ms v).0
          ≡ ok r
        → Ticking v r
            (run_tick publisher c floats geometry tolerance build backend run_id now_us now_ms v).1
    unfolding run_tick
    run_tick-Ticking h = decide_tick-Ticking _ refl h

    -- Where a tick returns and each state of the store stands under its identifier, there is one
    -- message for each robot of the store, in the order of the identifiers, and each message
    -- carries the robot, the action and the tick of its decision.
    pub run_tick-covers :
        IsKeyed v.store
        → (run_tick publisher c floats geometry tolerance build backend run_id now_us now_ms v).0
          ≡ ok r
        → (map (λ m. m.device_id) r.action_messages ≡ sorted (keys v.store))
          × (map sent_by r.action_messages ≡ map command_of r.fleet_decision.decisions)
    run_tick-covers keyed h =
        let t = run_tick-Ticking h in
        let (ids, ordered) =
          snapshot-ids floats now_us now_ms c.stale_timeout_us tolerance v.store t.fleet keyed
            t.observed in
        let (each, _) =
          decide-covers geometry c build backend t.fleet.snapshots t.fleet.captured_epoch_ms
            (v.tick_sequence + 1) v.grant_manager r.fleet_decision t.decided in
        (
          devices-sent_by r.action_messages
              ∙ ap (map (λ x. x.0)) t.commanded
              ∙ sym (robots-command_of r.fleet_decision.decisions)
              ∙ each
              ∙ ordered
              ∙ ids,
          t.commanded,
        )
