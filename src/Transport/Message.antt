-- ===== src/Transport/Message.antt =====
-- transport.base: the action message, the delivery and the publisher that the service relies on.
use robot_fleet_management.Base.{
  ℕ, Bool, leb, List, length, Result, ok, ◌>>◌, validation_error, require,
}
use robot_fleet_management.Models.{Action, DecisionSource}
use robot_fleet_management.Engine.Codes.{ReasonCode, EngineAlarmCode}

-- The codes of a message: those of the robot's decision, then the tick's alarms.
pub data MessageCode : Type 0 where
  reason : ReasonCode → MessageCode
  alarm : EngineAlarmCode → MessageCode

-- Without `reason_context`, the English texts that go with the reason codes.
pub record ActionMessage : Type 0 where
  pub run_id : ℕ
  pub device_id : ℕ
  pub action : Action
  pub tick_id : ℕ
  pub decision_timestamp : ℕ
  pub source_state_timestamp : ℕ
  pub reason_codes : List MessageCode
  pub decision_source : DecisionSource
  pub grant_active : Bool

-- ActionMessage(...), with the bounds of its fields; 0 stands for an empty identifier.
unfoldable pub new_message : ActionMessage → Result ActionMessage
new_message m = do
  require (leb 1 m.run_id) validation_error
  require (leb 1 m.device_id) validation_error
  require (leb 1 m.tick_id) validation_error
  require (leb 1 (length m.reason_codes)) validation_error
  ok m

abbrev pub idempotency_key : ActionMessage → ℕ × ℕ × ℕ
idempotency_key m = (m.run_id, m.device_id, m.tick_id)

-- `ActionPublisher`: an adapter with a state of its own, which an attempt may change even where it
-- raises.
pub record ActionPublisher : Type 1 where
  pub State : Type 0
  pub publish_action : ActionMessage → State → Result (Unit {0}) × State
