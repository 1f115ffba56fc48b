-- ===== src/StateStore/Newest.antt =====
-- The store keeps, for each robot, the newest state it was given.
use robot_fleet_management.Base.{
  ℕ, ◌<◌, ◌≡◌, refl, ap, ◌∙◌, true, false, ltb, ◌==◌, ==_iff, if◌then◌else◌, List, [], ◌∷◌, Option,
  none, some, Dict, lookup, lookup-insert, arith, Bool-cases, Option-cases, inl, inr, ◌↔◌,
}
use robot_fleet_management.Models.{RobotState}
use robot_fleet_management.StateStore.{StoredRobotState, update}

module _ {F : Type 0} where
  -- The store after a sequence of updates.
  unfoldable pub feed :
      List (RobotState F × ℕ) → Dict (StoredRobotState F) → Dict (StoredRobotState F)
  feed [] states = states
  feed ((state, received) ∷ us) states = feed us (update state received states).1

  -- The specification for one robot: of two states the later received one is kept unless its
  -- source timestamp is older.
  unfoldable pub newer :
      Option (StoredRobotState F) → RobotState F × ℕ → Option (StoredRobotState F)
  newer none (state, received) = some (record { state = state; received_us = received })
  newer (some old) (state, received) =
      if ltb state.timestamp old.state.timestamp
      then some old
      else some (record { state = state; received_us = received })

  unfoldable pub newest :
      ℕ → Option (StoredRobotState F) → List (RobotState F × ℕ) → Option (StoredRobotState F)
  unfolding newer
  newest r kept [] = kept
  newest r kept (u ∷ us) = newest r (if u.0.device_id == r then newer kept u else kept) us

  lookup-update :
      (r : ℕ) (u : RobotState F × ℕ) (states : Dict (StoredRobotState F))
      → lookup r (update u.0 u.1 states).1
        ≡ (if u.0.device_id == r then newer (lookup r states) u else lookup r states)
  unfolding update newer
  lookup-update r (state, received) states = elim (Bool-cases (state.device_id == r)) [
    | inl here ↦
        let same = (==_iff state.device_id r).0 here in
        let set =
          lookup-insert state.device_id r (record { state = state; received_us = received })
            states in
        ground (arith, same)
    | inr other ↦
        let set =
          lookup-insert state.device_id r (record { state = state; received_us = received })
            states in
        ground arith
  ]

  -- After any sequence of updates the store holds for each robot what the specification keeps of
  -- that robot's states alone.
  pub lookup-feed :
      (r : ℕ) (us : List (RobotState F × ℕ)) (states : Dict (StoredRobotState F))
      → lookup r (feed us states) ≡ newest r (lookup r states) us
  unfolding feed newest
  lookup-feed r [] states = refl
  lookup-feed r (u ∷ us) states =
      lookup-feed r us (update u.0 u.1 states).1
      ∙ ap (λ kept. newest r kept us) (lookup-update r u states)

  -- An update is refused exactly when the stored timestamp is later and then changes nothing; an
  -- accepted one is stored; no other robot's entry changes.
  pub update_lem :
      (state : RobotState F) (received : ℕ) (states : Dict (StoredRobotState F))
      → (((update state received states).0.accepted ≡ false) ↔ (
          (old : StoredRobotState F) × (lookup state.device_id states ≡ some old)
          × (state.timestamp < old.state.timestamp)))
        × ((update state received states).0.accepted ≡ false
            → (update state received states).1 ≡ states)
        × ((update state received states).0.accepted ≡ true
            → lookup state.device_id (update state received states).1
              ≡ some (record { state = state; received_us = received }))
        × ((r : ℕ)
            → (state.device_id == r) ≡ false
            → lookup r (update state received states).1 ≡ lookup r states)
  unfolding update
  update_lem state received states =
      let set = λ (r : ℕ).
        lookup-insert state.device_id r (record { state = state; received_us = received }) states in
      elim (Option-cases (lookup state.device_id states)) [
        | inl n ↦ rw n (
          ((λ h. absurd (cc)), (λ h. absurd (cc))),
          (λ h. absurd (cc)),
          (λ h. ground (arith, set state.device_id)),
          (λ r h. ground (arith, set r)),
        )
        | inr (old, e) ↦ elim (Bool-cases (ltb state.timestamp old.state.timestamp)) [
          | inl older ↦
              rw (e, update, older)
                (
                  ((λ h. (old, refl, ground arith)), (λ h. refl)),
                  (λ h. refl),
                  (λ h. absurd (cc)),
                  (λ r h. refl),
                )
          | inr fresh ↦
              rw (e, update, fresh)
                (
                  ((λ h. absurd (cc)), (λ h. absurd (ground arith))),
                  (λ h. absurd (cc)),
                  (λ h. ground (arith, set state.device_id)),
                  (λ r h. ground (arith, set r)),
                )
        ]
      ]
