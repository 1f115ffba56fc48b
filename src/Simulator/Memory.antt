-- ===== src/Simulator/Memory.antt =====
-- simulator.scenario.InMemorySimulatorTransport: the service and its adapters in one process.
--
-- Submission and consumption alternate in the source, and every delivery is settled before the tick
-- is decided. The clocks are the two attributes that the service's lambdas read; a monotonic time
-- in seconds is a number of microseconds.
use robot_fleet_management.Base.{
  ℕ, ◌-◌, ◌*◌, max, Bool, true, false, all, elem, List, [], ◌∷◌, ◌++◌, map, Option, none, some,
  Dict, insert, keys, Result, ok, raise, ◌>>=◌, ◌>>◌, runtime_error, require,
}
use robot_fleet_management.Models.{Floats, RobotState, RobotSnapshot}
use robot_fleet_management.Config.{MonitorConfig}
use robot_fleet_management.Conflicts.Model.{ConflictModel}
use robot_fleet_management.Conflicts.Build.{Envelopes}
use robot_fleet_management.Optimiser.Solver.{CpModel, Answer}
use robot_fleet_management.Transport.Message.{ActionMessage}
use robot_fleet_management.Transport.Memory.{
  InMemoryStateDelivery, InMemoryStateConsumer, Outcome, acknowledged, rejected,
  InMemoryActionPublisher, in_memory, submit, receive_states,
}
use robot_fleet_management.Service.Ingest.{CollisionMonitorService, consume_states}
use robot_fleet_management.Service.Tick.{ServiceTickResult, run_tick}
use robot_fleet_management.Simulator.Scenario.{SimulatorTickOutcome, SimulatorTickTransport}

pub record InMemorySimulatorTransport (F : Type 0) : Type 0 where
  pub start_epoch_ms : ℕ
  pub epoch_ms : ℕ
  pub monotonic_us : ℕ
  pub consumer : InMemoryStateConsumer (RobotState F)
  pub service : CollisionMonitorService F InMemoryActionPublisher

abbrev is_acknowledged : Option Outcome → Bool
is_acknowledged none = false
is_acknowledged (some acknowledged) = true
is_acknowledged (some rejected) = false

-- `max(timestamps)`, or the present time where there is no payload.
unfoldable pub latest_timestamp : {F : Type 0} → ℕ → List (RobotState F) → ℕ
latest_timestamp now [] = now
latest_timestamp now (p ∷ []) = p.timestamp
latest_timestamp now (p ∷ q ∷ ps) = max p.timestamp (latest_timestamp now (q ∷ ps))

unfoldable pub submit_all :
    {P : Type 0} → List P → InMemoryStateConsumer P → Result (InMemoryStateConsumer P)
unfolding submit
submit_all [] q = ok q
submit_all (payload ∷ payloads) q = do next ← submit payload q; submit_all payloads next

-- `{message.device_id: message for message in messages}`
unfoldable pub by_device : List ActionMessage → Dict ActionMessage → Dict ActionMessage
by_device [] d = d
by_device (m ∷ ms) d = by_device ms (insert m.device_id m d)

unfoldable pub outcome_of_tick :
    {F : Type 0} → List ℕ → ServiceTickResult F → Result SimulatorTickOutcome
unfolding by_device
outcome_of_tick robot_ids r = do
  let messages = by_device r.action_messages []
  require (all (λ k. elem k (keys messages)) robot_ids) runtime_error
  ok (record {
    actions = messages;
    alarms = r.fleet_decision.tick_metadata.alarms;
    safety_valid = some r.fleet_decision.tick_metadata.global_safety_valid;
  })

module _ (c : MonitorConfig) (floats : Floats) (geometry : Envelopes floats.Float)
    (tolerance : floats.Float)
    (build : List (RobotSnapshot floats.Float) → Result (ConflictModel floats.Float))
    (backend : Option (CpModel → Answer)) (run_id : ℕ) where
  abbrev Transport : Type 0
  Transport = InMemorySimulatorTransport floats.Float

  -- The transport at a time, with an empty queue and the deliveries as they were settled.
  abbrev after_tick :
      (epoch_ms monotonic_us : ℕ)
      → List (InMemoryStateDelivery (RobotState floats.Float))
      → CollisionMonitorService floats.Float InMemoryActionPublisher
      → Transport
      → Transport
  after_tick epoch_ms monotonic_us settled service t = record {
    start_epoch_ms = t.start_epoch_ms;
    epoch_ms = epoch_ms;
    monotonic_us = monotonic_us;
    consumer = record {
      queue = [];
      closed = t.consumer.closed;
      deliveries = t.consumer.deliveries ++ settled;
    };
    service = service;
  }

  -- The tick, once every delivery is settled.
  unfoldable pub decide_settled :
      (epoch_ms monotonic_us : ℕ)
      → List ℕ
      → Result (List (InMemoryStateDelivery (RobotState floats.Float)))
        × CollisionMonitorService floats.Float InMemoryActionPublisher
      → Transport
      → Result SimulatorTickOutcome × Transport
  unfolding outcome_of_tick
  decide_settled epoch_ms monotonic_us robot_ids (raise e, service) t =
      (raise e, after_tick epoch_ms monotonic_us [] service t)
  decide_settled epoch_ms monotonic_us robot_ids (ok settled, service) t =
      let (result, decided) =
        run_tick in_memory c floats geometry tolerance build backend run_id monotonic_us epoch_ms
          service in
      let outcome : Result SimulatorTickOutcome = (do r ← result; outcome_of_tick robot_ids r) in
      elim (all (λ d. is_acknowledged d.settlement) settled) [
        | true ↦ (outcome, after_tick epoch_ms monotonic_us settled decided t)
        | false ↦ (raise runtime_error, after_tick epoch_ms monotonic_us settled service t)
      ]

  unfoldable pub exchange_tick :
      List (RobotState floats.Float) → List ℕ → Transport → Result SimulatorTickOutcome × Transport
  unfolding submit_all decide_settled latest_timestamp
  exchange_tick payloads robot_ids t =
      let epoch_ms = latest_timestamp t.epoch_ms payloads in
      let monotonic_us : ℕ = elim payloads [
        | [] ↦ t.monotonic_us
        | p ∷ ps ↦ (epoch_ms - t.start_epoch_ms) * 1000
      ] in
      elim (submit_all payloads t.consumer) [
        | raise e ↦ (raise e, t)
        | ok q ↦
            decide_settled epoch_ms monotonic_us robot_ids
              (consume_states (λ p. some p) (λ p. some p.device_id)
                (map (λ d. (d, monotonic_us)) (receive_states q)) t.service)
              t
      ]

  abbrev pub simulated : SimulatorTickTransport floats.Float
  simulated = record { State = Transport; exchange_tick = exchange_tick }
