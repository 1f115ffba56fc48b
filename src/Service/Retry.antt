-- ===== src/Service/Retry.antt =====
-- What bounded retries achieve, with any publisher.
pub mod Counted
use robot_fleet_management.Base.{
  ℕ, suc, zero, ◌+◌, ◌-◌, ◌≤◌, ◌≡◌, refl, sym, ap, ◌∙◌, subst, ltb, leb, min, Bool, true, false,
  if◌then◌else◌, List, [], ◌∷◌, ◌++◌, Option, none, some, Dict, lookup, lookup_or, insert,
  lookup-insert, ==_refl, Error, Result, ok, raise, runtime_error, Result-cases, Bool-cases, inl,
  inr, ◌⊎◌, arith,
}
use robot_fleet_management.Config.{MonitorConfig}
use robot_fleet_management.Transport.Message.{ActionMessage, ActionPublisher, idempotency_key}
use robot_fleet_management.Transport.Memory.{
  Key, same_key, count_attempt, attempts_of, InMemoryActionPublisher, publish_action, in_memory,
}
use robot_fleet_management.Service.Publish.{
  PublicationFailure, failure_after, publish_attempts, publish_with_retry,
}

module _ (publisher : ActionPublisher) (c : MonitorConfig) (message : ActionMessage) where
  -- The result of the retries: none, or a failure after the last attempt.
  abbrev pub IsBounded : Result (Option PublicationFailure) → Type 0
  IsBounded r =
      (r ≡ ok none)
      ⊎ ((e : Error) × (r
            ≡ ok (some (failure_after publisher c message c.publication_maximum_attempts e))))

  publish_attempts-IsBounded :
      (left attempt : ℕ) (s : publisher.State)
      → 1 ≤ left
      → attempt + left ≡ c.publication_maximum_attempts + 1
      → IsBounded (publish_attempts publisher c message left attempt s).0
  unfolding publish_attempts
  publish_attempts-IsBounded zero attempt s some_left sum = absurd (omega arith)
  publish_attempts-IsBounded (suc left) attempt s some_left sum =
      elim (Result-cases (publisher.publish_action message s).0) [
        | inl (done, q) ↦ inl (rw (q, publish_attempts) refl)
        | inr (e, q) ↦ elim (Bool-cases (ltb attempt c.publication_maximum_attempts)) [
          | inl more ↦
              rw (q, publish_attempts, more)
                (publish_attempts-IsBounded left (attempt + 1)
                  (publisher.publish_action message s).1 (ground (arith, sum, more))
                  (omega (arith, sum)))
          | inr last ↦
              let same : attempt ≡ c.publication_maximum_attempts = ground (arith, sum, last) in
              inr (
                e,
                rw (q, publish_attempts, last)
                    (ap (λ n. ok (some (failure_after publisher c message n e))) same),
              )
        ]
      ]

  -- With any publisher and at least one permitted attempt, the retries return: either without a
  -- failure, or with a failure that counts the maximum of attempts.
  pub publish_with_retry-IsBounded :
      (s : publisher.State)
      → 1 ≤ c.publication_maximum_attempts
      → IsBounded (publish_with_retry publisher c message s).0
  unfolding publish_with_retry
  publish_with_retry-IsBounded s some_attempt =
      publish_attempts-IsBounded c.publication_maximum_attempts 1 s some_attempt (omega arith)
