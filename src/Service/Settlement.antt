-- ===== src/Service/Settlement.antt =====
-- Consumption settles each delivery once, counts the rejected ones and feeds the store.
use robot_fleet_management.Base.{
  ℕ, ◌+◌, ◌≡◌, refl, sym, ap, ◌∙◌, subst, Bool, true, false, if◌then◌else◌, List, [], ◌∷◌, map, All,
  Option, none, some, Result, ok, raise, ok-injective, Option-cases, Bool-cases, inl, inr, arith,
}
use robot_fleet_management.Models.{RobotState}
use robot_fleet_management.StateStore.Newest.{feed}
use robot_fleet_management.Transport.Memory.{
  InMemoryStateDelivery, Outcome, acknowledged, rejected, acknowledge, reject, settled_as,
  is_settled,
}
use robot_fleet_management.Service.Ingest.{
  CollisionMonitorService, ingest_payload, consume, consume_states, joined,
}

-- The deliveries among these that were rejected.
abbrev rejections : {P : Type 0} → List (InMemoryStateDelivery P) → ℕ
rejections [] = 0
rejections (d ∷ ds) =
    elim d.settlement [ none ↦ 0 | some acknowledged ↦ 0 | some rejected ↦ 1 ] + rejections ds

abbrev outcome_of : Bool → Outcome
outcome_of true = acknowledged
outcome_of false = rejected

abbrev IsFresh : {P : Type 0} → InMemoryStateDelivery P × ℕ → Type 0
IsFresh d = d.0.settlement ≡ none

abbrev with_time :
    {F : Type 0} → Option (RobotState F) → ℕ → List (RobotState F × ℕ) → List (RobotState F × ℕ)
with_time none received rest = rest
with_time (some state) received rest = (state, received) ∷ rest

-- The states of the valid payloads with their times.
abbrev pub valid_states :
    {F P : Type 0}
    → (P → Option (RobotState F))
    → List (InMemoryStateDelivery P × ℕ)
    → List (RobotState F × ℕ)
valid_states model_validate [] = []
valid_states model_validate ((d, received) ∷ ds) =
    with_time (model_validate d.payload) received (valid_states model_validate ds)

rejections-step :
    {P : Type 0} (accepted : Bool) (d : InMemoryStateDelivery P)
    (ds : List (InMemoryStateDelivery P)) (after before : ℕ)
    → after ≡ (if accepted then before else before + 1)
    → after + rejections ds ≡ before + rejections (settled_as (outcome_of accepted) d ∷ ds)
rejections-step true d ds after before e = omega (arith, e)
rejections-step false d ds after before e = omega (arith, e)

joined-ok :
    {F S P : Type 0} (d : InMemoryStateDelivery P) (v : CollisionMonitorService F S)
    (y : Result (List (InMemoryStateDelivery P)) × CollisionMonitorService F S)
    (ds : List (InMemoryStateDelivery P))
    → y.0 ≡ ok ds
    → joined (ok d) v y ≡ (ok (d ∷ ds), y.1)
joined-ok d v (raise e, w) ds h = absurd (cc)
joined-ok d v (ok ds', w) ds h = ap (λ xs. (ok (d ∷ xs), w)) (ok-injective h)

module _ {F S P : Type 0} (model_validate : P → Option (RobotState F))
    (device_id : P → Option ℕ) where
  consume-settles :
      (d : InMemoryStateDelivery P) (received : ℕ) (v : CollisionMonitorService F S)
      → d.settlement ≡ none
      → consume model_validate device_id d received v ≡ (
        ok (
            settled_as
              (outcome_of (ingest_payload model_validate device_id d.payload received v).0.accepted)
              d),
        (ingest_payload model_validate device_id d.payload received v).1,
      )
  unfolding consume acknowledge reject
  consume-settles d received v fresh =
      elim (Bool-cases (ingest_payload model_validate device_id d.payload received v).0.accepted) [
        | inl stored ↦ rw (consume, stored, fresh) refl
        | inr refused ↦ rw (consume, refused, fresh) refl
      ]

  ingest-counts :
      (payload : P) (received : ℕ) (v : CollisionMonitorService F S)
      → (ingest_payload model_validate device_id payload received v).1.rejected_state_count ≡ (
          if (ingest_payload model_validate device_id payload received v).0.accepted
          then v.rejected_state_count
          else v.rejected_state_count + 1)
  unfolding ingest_payload
  ingest-counts payload received v = elim (Option-cases (model_validate payload)) [
    | inl none_valid ↦ rw (none_valid, ingest_payload) refl
    | inr (state, q) ↦ rw (q, ingest_payload) refl
  ]

  ingest-feeds :
      (payload : P) (received : ℕ) (v : CollisionMonitorService F S)
      (rest : List (RobotState F × ℕ))
      → feed rest (ingest_payload model_validate device_id payload received v).1.store
        ≡ feed (with_time (model_validate payload) received rest) v.store
  unfolding ingest_payload feed
  ingest-feeds payload received v rest = elim (Option-cases (model_validate payload)) [
    | inl none_valid ↦ rw (none_valid, ingest_payload) refl
    | inr (state, q) ↦ rw (q, ingest_payload) refl
  ]

  -- What the loop establishes, for the deliveries and the service that it returns.
  abbrev pub Settles :
      List (InMemoryStateDelivery P × ℕ)
      → CollisionMonitorService F S
      → Result (List (InMemoryStateDelivery P)) × CollisionMonitorService F S
      → Type 0
  Settles ds v x =
      (settled : List (InMemoryStateDelivery P)) × (x.0 ≡ ok settled)
      × (map (λ d. d.payload) settled ≡ map (λ d. d.0.payload) ds)
      × All (λ d. is_settled d ≡ true) settled
      × (x.1.rejected_state_count ≡ v.rejected_state_count + rejections settled)
      × (x.1.store ≡ feed (valid_states model_validate ds) v.store)

  -- Fresh deliveries are consumed without an exception: each is settled, in order; the rejected
  -- ones are added to the count of the service; and the store is fed the states of the valid
  -- payloads.
  pub consume_states-Settles :
      (ds : List (InMemoryStateDelivery P × ℕ)) (v : CollisionMonitorService F S)
      → All IsFresh ds
      → Settles ds v (consume_states model_validate device_id ds v)
  unfolding consume_states feed
  consume_states-Settles [] v fresh = ([], refl, refl, tt, omega arith, refl)
  consume_states-Settles ((d, received) ∷ ds) v fresh =
      let report = ingest_payload model_validate device_id d.payload received v in
      let (settled, q, payloads, each, count, fed) = consume_states-Settles ds report.1 fresh.1 in
      let step =
        rejections-step report.0.accepted d settled report.1.rejected_state_count
          v.rejected_state_count (ingest-counts d.payload received v) in
      let d' = settled_as (outcome_of report.0.accepted) d in
      let whole =
        ap (λ x. joined x.0 x.1 (consume_states model_validate device_id ds x.1))
          (consume-settles d received v fresh.0)
        ∙ joined-ok d' report.1 (consume_states model_validate device_id ds report.1) settled q in
      subst (Settles ((d, received) ∷ ds) v) (sym whole) (
        d' ∷ settled,
        refl,
        ap (λ ps. d.payload ∷ ps) payloads,
        (refl, each),
        count ∙ step,
        fed ∙ ingest-feeds d.payload received v (valid_states model_validate ds),
      )
