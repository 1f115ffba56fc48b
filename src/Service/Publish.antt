-- ===== src/Service/Publish.antt =====
-- CollisionMonitorService._publish_with_retry, over any publisher. The waits between attempts and
-- the log entries have no counterpart.
use robot_fleet_management.Base.{
  ℕ, suc, zero, ◌+◌, ltb, if◌then◌else◌, Option, none, some, Error, Result, ok, raise,
  runtime_error,
}
use robot_fleet_management.Config.{MonitorConfig}
use robot_fleet_management.Transport.Message.{ActionMessage, ActionPublisher}

pub record PublicationFailure : Type 0 where
  pub robot_id : ℕ
  pub tick_id : ℕ
  pub attempts : ℕ
  pub error : Error

module _ (publisher : ActionPublisher) (c : MonitorConfig) (message : ActionMessage) where
  open publisher use {State, publish_action}

  abbrev pub failure_after : ℕ → Error → PublicationFailure
  failure_after attempt e = record {
    robot_id = message.device_id;
    tick_id = message.tick_id;
    attempts = attempt;
    error = e;
  }

  -- The loop from an attempt on, with the number of attempts that its range still holds.
  unfoldable pub publish_attempts :
      (left attempt : ℕ) → State → Result (Option PublicationFailure) × State
  publish_attempts zero attempt s = (raise runtime_error, s)
  publish_attempts (suc left) attempt s =
      let (outcome, s') = publish_action message s in
      let again = publish_attempts left (attempt + 1) s' in
      elim outcome [
        | ok done ↦ (ok none, s')
        | raise e ↦
            if ltb attempt c.publication_maximum_attempts
            then again
            else (ok (some (failure_after attempt e)), s')
      ]

  unfoldable pub publish_with_retry : State → Result (Option PublicationFailure) × State
  unfolding publish_attempts
  publish_with_retry = publish_attempts c.publication_maximum_attempts 1
