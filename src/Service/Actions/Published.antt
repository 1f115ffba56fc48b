-- ===== src/Service/Actions/Published.antt =====
-- With the publisher in memory and no injected failure, a tick publishes all of its messages.
use robot_fleet_management.Base.{
  ℕ, suc, zero, ◌≤◌, ◌≡◌, refl, sym, ap, ◌∙◌, ltb, true, false, List, [], ◌∷◌, ◌++◌, Option, none,
  lookup, lookup_or, Result, ok, raise, ok-injective, arith,
}
use mathlib.Core.List.{append_assoc, append-nil}
use robot_fleet_management.Models.{Floats, RobotSnapshot}
use robot_fleet_management.Config.{MonitorConfig}
use robot_fleet_management.Conflicts.Model.{ConflictModel}
use robot_fleet_management.Conflicts.Build.{Envelopes}
use robot_fleet_management.Optimiser.Solver.{CpModel, Answer}
use robot_fleet_management.Transport.Message.{ActionMessage}
use robot_fleet_management.Service.Ingest.{CollisionMonitorService}
use robot_fleet_management.Service.Publish.{PublicationFailure}
use robot_fleet_management.Service.Tick.{
  ServiceTickResult, publish_all, collected, no_failure, publication_complete, run_tick,
}
use robot_fleet_management.Transport.Memory.{InMemoryActionPublisher, in_memory}
use robot_fleet_management.Service.Publish.{publish_attempts, publish_with_retry}
use robot_fleet_management.Service.Retry.Counted.{
  failures_left, succeeding, publish_action-succeeding,
}
use robot_fleet_management.Service.Actions.Covers.{run_tick-Ticking}

publish_attempts-first :
    (c : MonitorConfig) (message : ActionMessage) (left attempt : ℕ) (s : InMemoryActionPublisher)
    → 1 ≤ left
    → ltb 0 (failures_left message s) ≡ false
    → publish_attempts in_memory c message left attempt s ≡ (ok none, succeeding message s)
unfolding publish_attempts
publish_attempts-first c message zero attempt s some_left fine = absurd (omega arith)
publish_attempts-first c message (suc left) attempt s some_left fine =
    rw (publish_action-succeeding message s fine, publish_attempts)
      (ap (λ x. (ok none, x.1)) (publish_action-succeeding message s fine))

publish_with_retry-first :
    (c : MonitorConfig) (message : ActionMessage) (s : InMemoryActionPublisher)
    → s.remaining_failures ≡ []
    → 1 ≤ c.publication_maximum_attempts
    → publish_with_retry in_memory c message s ≡ (ok none, succeeding message s)
unfolding publish_with_retry lookup
publish_with_retry-first c message s no_failures some_attempt =
    publish_attempts-first c message c.publication_maximum_attempts 1 s some_attempt
      (ap (λ d. ltb 0 (lookup_or 0 message.device_id d)) no_failures)

collected-none :
    (c : MonitorConfig) (s : InMemoryActionPublisher)
    (y : Result (List PublicationFailure) × InMemoryActionPublisher)
    → y.0 ≡ ok []
    → collected in_memory c (ok none) s y ≡ (ok [], y.1)
collected-none c s (raise e, t) h = absurd (cc)
collected-none c s (ok fs, t) h = ap (λ xs. (xs, t)) h

module _ (c : MonitorConfig) where
  publish_all-published :
      (ms : List ActionMessage) (s : InMemoryActionPublisher)
      → s.remaining_failures ≡ []
      → 1 ≤ c.publication_maximum_attempts
      → ((publish_all in_memory c ms s).0 ≡ ok [])
        × ((publish_all in_memory c ms s).1.published ≡ s.published ++ ms)
  unfolding publish_all
  publish_all-published [] s no_failures some_attempt = (refl, sym (append-nil s.published))
  publish_all-published (m ∷ ms) s no_failures some_attempt =
      let t = succeeding m s in
      let (q, sent) = publish_all-published ms t no_failures some_attempt in
      let whole =
        ap
          (λ (x : Result (Option PublicationFailure) × InMemoryActionPublisher).
            collected in_memory c x.0 x.1 (publish_all in_memory c ms x.1))
          (publish_with_retry-first c m s no_failures some_attempt)
        ∙ collected-none c t (publish_all in_memory c ms t) q in
      (
        ap (λ x. x.0) whole,
        ap (λ x. x.1.published) whole ∙ sent ∙ append_assoc s.published (m ∷ []) ms,
      )

module _ (c : MonitorConfig) (floats : Floats) (geometry : Envelopes floats.Float)
    (tolerance : floats.Float)
    (build : List (RobotSnapshot floats.Float) → Result (ConflictModel floats.Float))
    (backend : Option (CpModel → Answer)) (run_id now_us now_ms : ℕ)
    (v : CollisionMonitorService floats.Float InMemoryActionPublisher)
    (r : ServiceTickResult floats.Float) where
  -- With the publisher in memory, no failure configured and at least one permitted attempt, a
  -- tick that returns has published all of its messages, in their order after the earlier ones.
  pub run_tick-published :
      v.publisher.remaining_failures ≡ []
      → 1 ≤ c.publication_maximum_attempts
      → (run_tick in_memory c floats geometry tolerance build backend run_id now_us now_ms v).0
        ≡ ok r
      → (publication_complete r ≡ true)
        × ((run_tick in_memory c floats geometry tolerance build backend run_id now_us now_ms
              v).1.publisher.published
            ≡ v.publisher.published ++ r.action_messages)
  unfolding publication_complete
  run_tick-published no_failures some_attempt h =
      let t =
        run_tick-Ticking in_memory c floats geometry tolerance build backend run_id now_us now_ms v
          r h in
      let (q, sent) =
        publish_all-published c r.action_messages v.publisher no_failures some_attempt in
      (ap no_failure (ok-injective (sym t.published ∙ q)), ap (λ s. s.published) t.kept ∙ sent)
