-- ===== src/Service/Retry/Counted.antt =====
-- What bounded retries achieve with the publisher in memory, with every count.
use robot_fleet_management.Base.{
  ℕ, suc, zero, ◌+◌, ◌-◌, ◌≤◌, ◌≡◌, refl, sym, ap, ◌∙◌, subst, ltb, min, true, false, if◌then◌else◌,
  List, [], ◌∷◌, ◌++◌, Option, none, some, lookup, lookup_or, insert, lookup-insert, ==_refl,
  Result, ok, raise, runtime_error, Bool-cases, inl, inr, arith,
}
use robot_fleet_management.Config.{MonitorConfig}
use robot_fleet_management.Transport.Message.{ActionMessage, idempotency_key}
use robot_fleet_management.Transport.Memory.{
  Key, count_attempt, attempts_of, InMemoryActionPublisher, publish_action, in_memory,
}
use robot_fleet_management.Service.Publish.{
  PublicationFailure, failure_after, publish_attempts, publish_with_retry,
}

count_attempt-attempts_of :
    (key : Key) (counts : List (Key × ℕ))
    → attempts_of key (count_attempt key counts) ≡ attempts_of key counts + 1
unfolding attempts_of count_attempt
count_attempt-attempts_of key [] = ground arith
count_attempt-attempts_of key ((k, n) ∷ counts) =
    ground (arith, count_attempt-attempts_of key counts)

module _ (message : ActionMessage) where
  abbrev pub failures_left : InMemoryActionPublisher → ℕ
  failures_left s = lookup_or 0 message.device_id s.remaining_failures

  abbrev pub attempts_made : InMemoryActionPublisher → ℕ
  attempts_made s = attempts_of (idempotency_key message) s.attempt_counts

  abbrev failing : InMemoryActionPublisher → InMemoryActionPublisher
  failing s = record {
    remaining_failures = insert message.device_id (failures_left s - 1) s.remaining_failures;
    attempt_counts = count_attempt (idempotency_key message) s.attempt_counts;
    published = s.published;
  }

  abbrev pub succeeding : InMemoryActionPublisher → InMemoryActionPublisher
  succeeding s = record {
    remaining_failures = s.remaining_failures;
    attempt_counts = count_attempt (idempotency_key message) s.attempt_counts;
    published = s.published ++ message ∷ [];
  }

  publish_action-failing :
      (s : InMemoryActionPublisher)
      → ltb 0 (failures_left s) ≡ true
      → publish_action message s ≡ (raise runtime_error, failing s)
  unfolding publish_action
  publish_action-failing s h = rw h refl

  pub publish_action-succeeding :
      (s : InMemoryActionPublisher)
      → ltb 0 (failures_left s) ≡ false
      → publish_action message s ≡ (ok tt, succeeding s)
  unfolding publish_action
  publish_action-succeeding s h = rw h refl

  failures_left-failing :
      (s : InMemoryActionPublisher) → failures_left (failing s) ≡ failures_left s - 1
  failures_left-failing s =
      let found : lookup message.device_id (failing s).remaining_failures
          ≡ some (failures_left s - 1) =
        lookup-insert message.device_id message.device_id (failures_left s - 1) s.remaining_failures
        ∙ (rw (==_refl message.device_id) refl) in
      ap (λ o. elim o [ none ↦ 0 | some n ↦ n ]) found

  attempts_made-counted :
      (s : InMemoryActionPublisher)
      → attempts_of
          (idempotency_key message)
          (count_attempt (idempotency_key message) s.attempt_counts)
        ≡ attempts_made s + 1
  attempts_made-counted s = count_attempt-attempts_of (idempotency_key message) s.attempt_counts

  module _ (c : MonitorConfig) where
    -- The publisher and the result after so many attempts as are left.
    pub record Retried (left : ℕ) (s : InMemoryActionPublisher)
        (x : Result (Option PublicationFailure) × InMemoryActionPublisher) : Type 0 where
      pub outcome :
          x.0
          ≡ ok (
              if ltb (failures_left s) left
              then none
              else some
                  (failure_after in_memory c message c.publication_maximum_attempts runtime_error))
      pub messages :
          x.1.published
          ≡ (if ltb (failures_left s) left then s.published ++ message ∷ [] else s.published)
      pub failures : failures_left x.1 ≡ failures_left s - left
      pub attempts : attempts_made x.1 ≡ attempts_made s + min (failures_left s + 1) left

    Retried-succeeding :
        (left : ℕ) (s : InMemoryActionPublisher)
        → ltb 0 (failures_left s) ≡ false
        → Retried (suc left) s (ok none, succeeding s)
    Retried-succeeding left s fine = record {
      outcome = ground arith;
      messages = ground arith;
      failures = ground arith;
      attempts = ground (arith, attempts_made-counted s);
    }

    Retried-last :
        (s : InMemoryActionPublisher)
        → ltb 0 (failures_left s) ≡ true
        → Retried 1 s (
          ok (
              some
                (failure_after in_memory c message c.publication_maximum_attempts runtime_error)),
          failing s,
        )
    Retried-last s fails = record {
      outcome = ground arith;
      messages = ground arith;
      failures = failures_left-failing s;
      attempts = ground (arith, attempts_made-counted s);
    }

    Retried-end :
        (left attempt : ℕ) (s : InMemoryActionPublisher)
        → 0 ≡ left
        → c.publication_maximum_attempts ≡ attempt
        → ltb 0 (failures_left s) ≡ true
        → Retried
            (suc left)
            s
            (ok (some (failure_after in_memory c message attempt runtime_error)), failing s)
    Retried-end left attempt s none_left at_end fails =
        subst
          (λ n.
            Retried (suc left) s
              (ok (some (failure_after in_memory c message n runtime_error)), failing s))
          at_end
          (subst
            (λ n. Retried (suc n) s (
              ok (
                  some (
                    failure_after in_memory c message c.publication_maximum_attempts
                      runtime_error)),
              failing s,
            ))
            none_left (Retried-last s fails))

    Retried-again :
        (left : ℕ) (s : InMemoryActionPublisher)
        (x : Result (Option PublicationFailure) × InMemoryActionPublisher)
        → ltb 0 (failures_left s) ≡ true
        → Retried left (failing s) x
        → Retried (suc left) s x
    Retried-again left s x fails t =
        let fewer = failures_left-failing s in
        let same : ltb (failures_left (failing s)) left ≡ ltb (failures_left s) (suc left) =
          ground (arith, fewer) in
        record {
          outcome =
              t.outcome
              ∙ ap
                  (λ b. ok (
                    if b
                    then none
                    else some (
                        failure_after in_memory c message c.publication_maximum_attempts
                          runtime_error)))
                  same;
          messages =
              t.messages ∙ ap (λ b. if b then s.published ++ message ∷ [] else s.published) same;
          failures = t.failures ∙ ground (arith, fewer);
          attempts = t.attempts ∙ ground (arith, fewer, attempts_made-counted s);
        }

    publish_attempts-Retried :
        (left attempt : ℕ) (s : InMemoryActionPublisher)
        → 1 ≤ left
        → attempt + left ≡ c.publication_maximum_attempts + 1
        → Retried left s (publish_attempts in_memory c message left attempt s)
    unfolding publish_attempts
    publish_attempts-Retried zero attempt s some_left sum = absurd (omega arith)
    publish_attempts-Retried (suc left) attempt s some_left sum =
        elim (Bool-cases (ltb 0 (failures_left s))) [
          | inr fine ↦
              rw (publish_action-succeeding s fine, publish_attempts)
                (subst (λ y. Retried (suc left) s (ok none, y))
                  (sym (ap (λ x. x.1) (publish_action-succeeding s fine)))
                  (Retried-succeeding left s fine))
          | inl fails ↦ elim (Bool-cases (ltb attempt c.publication_maximum_attempts)) [
            | inl more ↦
                rw (publish_action-failing s fails, publish_attempts, more)
                  (Retried-again left s _ fails (
                    subst
                      (λ y.
                        Retried left (failing s)
                          (publish_attempts in_memory c message left (attempt + 1) y))
                      (sym (ap (λ x. x.1) (publish_action-failing s fails)))
                      (publish_attempts-Retried left (attempt + 1) (failing s)
                        (ground (arith, sum, more)) (omega (arith, sum)))))
            | inr last ↦
                rw (publish_action-failing s fails, publish_attempts, last)
                  (subst
                    (λ y.
                      Retried (suc left) s
                        (ok (some (failure_after in_memory c message attempt runtime_error)), y))
                    (sym (ap (λ x. x.1) (publish_action-failing s fails)))
                    (Retried-end left attempt s (ground (arith, sum, last))
                      (ground (arith, sum, last)) fails))
          ]
        ]

    -- The retries with the publisher in memory, for a robot with k failures left and at least
    -- one permitted attempt: below the maximum of attempts the message is published once, after
    -- the messages before it; otherwise a failure with that maximum is returned and nothing is
    -- published. The smaller of k + 1 and the maximum is added to the attempts under the
    -- message's key, and the failures left are k less the maximum.
    pub publish_with_retry-Retried :
        (s : InMemoryActionPublisher)
        → 1 ≤ c.publication_maximum_attempts
        → Retried c.publication_maximum_attempts s (publish_with_retry in_memory c message s)
    unfolding publish_with_retry
    publish_with_retry-Retried s some_attempt =
        publish_attempts-Retried c.publication_maximum_attempts 1 s some_attempt (omega arith)
