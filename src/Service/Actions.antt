-- ===== src/Service/Actions.antt =====
-- The messages carry the decisions' commands, and the snapshots the store's identifiers.
pub mod Covers
pub mod Published
use robot_fleet_management.Base.{
  ℕ, suc, zero, ◌+◌, ◌≤◌, ◌≡◌, refl, sym, ap, ◌∙◌, subst, leb, ltb, Bool, true, false,
  if◌then◌else◌, List, [], ◌∷◌, ◌++◌, map, sorted, All, All-of_elem, elem, elem-sort_by, Option,
  none, some, Dict, lookup, keys, Result, ok, raise, ◌>>=◌, >>=-eq-ok, ok-injective, or_raise,
  or_raise-some, key_error, value_error, require, Result-cases, inl, inr, Error, arith,
}
use mathlib.Core.List.{append_assoc}
use robot_fleet_management.Models.{
  Floats, RobotState, RobotSnapshot, Action, from_state, derive_next_pose,
}
use robot_fleet_management.Config.{MonitorConfig}
use robot_fleet_management.Conflicts.Model.{ConflictModel}
use robot_fleet_management.Conflicts.Build.{Envelopes, id_of}
use robot_fleet_management.Optimiser.Solver.{CpModel, Answer}
use robot_fleet_management.Grants.State.{GrantManager}
use robot_fleet_management.StateStore.{
  StoredRobotState, FleetStateSnapshot, new_fleet_snapshot, same_list, snapshot_each, snapshot,
}
use robot_fleet_management.Engine.Codes.{RobotDecision, FleetDecision, EngineAlarmCode}
use robot_fleet_management.Engine.Decide.{decide}
use robot_fleet_management.Engine.Commands.{decide-covers}
use robot_fleet_management.Transport.Message.{ActionMessage, ActionPublisher, new_message}
use robot_fleet_management.Service.Ingest.{CollisionMonitorService}
use robot_fleet_management.Service.Publish.{PublicationFailure}
use robot_fleet_management.Service.Tick.{
  ServiceTickResult, action_message, action_messages, publish_all, ticked, messages_of,
  publish_messages, publish_tick, decide_tick, run_tick,
}

-- Each state of the store stands under the identifier that it carries.
abbrev pub IsKeyed : {F : Type 0} → Dict (StoredRobotState F) → Type 0
IsKeyed {F = F} states =
    (r : ℕ) (stored : StoredRobotState F)
    → lookup r states ≡ some stored
    → stored.state.device_id ≡ r

-- A message carries the robot, the action and the tick of its decision.
abbrev pub command_of : RobotDecision → ℕ × Action × ℕ
command_of d = (d.robot_id, d.action, d.tick_id)

abbrev pub sent_by : ActionMessage → ℕ × Action × ℕ
sent_by m = (m.device_id, m.action, m.tick_id)

new_message-same : (m m' : ActionMessage) → new_message m ≡ ok m' → m ≡ m'
unfolding new_message
new_message-same m m' h = ground arith

same_list-eq : (xs ys : List ℕ) → same_list xs ys ≡ true → xs ≡ ys
same_list-eq [] [] h = refl
same_list-eq [] (y ∷ ys) h = absurd (cc)
same_list-eq (x ∷ xs) [] h = absurd (cc)
same_list-eq (x ∷ xs) (y ∷ ys) h = ground (arith, same_list-eq xs ys)

new_fleet_snapshot-ordered :
    {F : Type 0} (f f' : FleetStateSnapshot F)
    → new_fleet_snapshot f ≡ ok f'
    → (f ≡ f') × (same_list (map id_of f.snapshots) (sorted (map id_of f.snapshots)) ≡ true)
unfolding new_fleet_snapshot
new_fleet_snapshot-ordered f f' h = ground arith

module _ {F : Type 0} (run_id : ℕ) where
  action_message-command :
      (d : RobotDecision) (observed : Dict (RobotSnapshot F)) (timestamp : ℕ) (granted : Bool)
      (alarms : List EngineAlarmCode) (m : ActionMessage)
      → action_message run_id d observed timestamp granted alarms ≡ ok m
      → sent_by m ≡ command_of d
  unfolding action_message
  action_message-command d observed timestamp granted alarms m h =
      let (s, _, h1) = >>=-eq-ok (or_raise (lookup d.robot_id observed) key_error) _ h in
      ap sent_by (sym (new_message-same _ m h1))

  pub action_messages-commands :
      (observed : Dict (RobotSnapshot F)) (timestamp : ℕ) (granted : List ℕ)
      (alarms : List EngineAlarmCode) (ds : List RobotDecision) (ms : List ActionMessage)
      → action_messages run_id observed timestamp granted alarms ds ≡ ok ms
      → map sent_by ms ≡ map command_of ds
  unfolding action_messages
  action_messages-commands observed timestamp granted alarms [] ms h =
      ap (map sent_by) (sym (ok-injective h))
  action_messages-commands observed timestamp granted alarms (d ∷ ds) ms h =
      let (m, q, h1) =
        >>=-eq-ok (action_message run_id d observed timestamp (elem d.robot_id granted) alarms)
          (λ x. do
            rest ← action_messages run_id observed timestamp granted alarms ds
            ok (x ∷ rest))
          h in
      let (rest, q', h2) =
        >>=-eq-ok (action_messages run_id observed timestamp granted alarms ds) _ h1 in
      subst (λ xs. map sent_by xs ≡ map command_of (d ∷ ds)) (ok-injective h2)
        (ap (λ x. x ∷ map sent_by rest) (action_message-command d observed timestamp _ alarms m q)
          ∙ ap (λ xs. command_of d ∷ xs)
              (action_messages-commands observed timestamp granted alarms ds rest q'))

module _ (floats : Floats) where
  from_state-state :
      (state : RobotState floats.Float) (received : ℕ) (stale : Bool) (tolerance : floats.Float)
      (s : RobotSnapshot floats.Float)
      → from_state floats state received stale tolerance ≡ ok s
      → s.state ≡ state
  unfolding from_state
  from_state-state state received stale tolerance s h =
      let ((next_pose, goal), q, h1) = >>=-eq-ok (derive_next_pose floats state tolerance) _ h in
      ap (λ x. x.state) (sym (ok-injective h1))

  snapshot_each-ids :
      (now_us now_ms timeout : ℕ) (tolerance : floats.Float)
      (states : Dict (StoredRobotState floats.Float)) (rs : List ℕ)
      (x : List (RobotSnapshot floats.Float) × Dict ℕ)
      → IsKeyed states
      → snapshot_each floats now_us now_ms timeout tolerance states rs ≡ ok x
      → map id_of x.0 ≡ rs
  unfolding snapshot_each
  snapshot_each-ids now_us now_ms timeout tolerance states [] x keyed h =
      ap (λ y. map id_of y.0) (sym (ok-injective h))
  snapshot_each-ids now_us now_ms timeout tolerance states (r ∷ rs) x keyed h =
      let (stored, q1, h1) = >>=-eq-ok (or_raise (lookup r states) key_error) _ h in
      let (s, q2, h2) = >>=-eq-ok (from_state floats stored.state _ _ tolerance) _ h1 in
      let (rest, q3, h3) =
        >>=-eq-ok (snapshot_each floats now_us now_ms timeout tolerance states rs) _ h2 in
      let same = from_state-state stored.state _ _ tolerance s q2 in
      let id_is : id_of s ≡ r =
        ap (λ y. y.device_id) same
        ∙ keyed r stored (or_raise-some (lookup r states) key_error q1) in
      subst (λ y. map id_of y.0 ≡ r ∷ rs) (ok-injective h3)
        (ap (λ k. k ∷ map id_of rest.0) id_is
          ∙ ap (λ ks. r ∷ ks)
              (snapshot_each-ids now_us now_ms timeout tolerance states rs rest keyed q3))

  pub snapshot-ids :
      (now_us now_ms timeout : ℕ) (tolerance : floats.Float)
      (states : Dict (StoredRobotState floats.Float)) (f : FleetStateSnapshot floats.Float)
      → IsKeyed states
      → snapshot floats now_us now_ms timeout tolerance states ≡ ok f
      → (map id_of f.snapshots ≡ sorted (keys states))
        × (sorted (map id_of f.snapshots) ≡ map id_of f.snapshots)
  unfolding snapshot
  snapshot-ids now_us now_ms timeout tolerance states f keyed h =
      let (_, _, h1) = >>=-eq-ok (require (ltb 0 timeout) value_error) _ h in
      let (_, _, h2) = >>=-eq-ok (require (floats.lt floats.zero tolerance) value_error) _ h1 in
      let ids = sorted (keys states) in
      let (both, q, h3) =
        >>=-eq-ok (snapshot_each floats now_us now_ms timeout tolerance states ids) _ h2 in
      let (same, ordered) = new_fleet_snapshot-ordered _ f h3 in
      let each = snapshot_each-ids now_us now_ms timeout tolerance states ids both keyed q in
      subst
        (λ (x : FleetStateSnapshot floats.Float).
          (map id_of x.snapshots ≡ ids) × (sorted (map id_of x.snapshots) ≡ map id_of x.snapshots))
        same (each, sym (same_list-eq (map id_of both.0) (sorted (map id_of both.0)) ordered))
