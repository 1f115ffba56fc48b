-- ===== src/Grants/Protocol.antt =====
-- The protocol of a tick: finalising closes it, on every path.
use robot_fleet_management.Base.{
  ℕ, ◌≡◌, refl, false, not, List, keys, same_ids, Option, Dict, Result, ok, raise, Bool-cases,
  Result-cases, inl, inr, arith,
}
use robot_fleet_management.Models.{Action, DecisionSource}
use robot_fleet_management.Config.{MonitorConfig}
use robot_fleet_management.Priority.{PriorityBreakdown}
use robot_fleet_management.Conflicts.Model.{ConflictModel}
use robot_fleet_management.Grants.State.{
  GrantManager, GrantDecisionPreview, GrantDecisionResult, clone,
}
use robot_fleet_management.Grants.Acquire.{acquire_grants}
use robot_fleet_management.Grants.Tick.{
  after_fairness, after_acquire, close_on_error, preview_tick, commit_tick, finalise_tick,
}

abbrev pub IsClosed : GrantManager → Type 0
IsClosed g = g.tick_open ≡ false

pub clone-ok : (g : GrantManager) → IsClosed g → (copy : GrantManager) × (clone g ≡ ok copy)
unfolding clone
clone-ok g closed = elim (Result-cases (clone g)) [
  | inl (copy, e) ↦ (copy, e)
  | inr (x, e) ↦ absurd (ground arith)
]

module _ {F : Type 0} (c : MonitorConfig) (m : ConflictModel F) where
  after_fairness-IsClosed :
      (p : GrantDecisionPreview) (acquired : List ℕ) (x : Result (Unit {0}) × GrantManager)
      → IsClosed (after_fairness c m p acquired x).1
  unfolding after_fairness
  after_fairness-IsClosed p acquired (raise e, g) = refl
  after_fairness-IsClosed p acquired (ok u, g) = refl

  after_acquire-IsClosed :
      (p : GrantDecisionPreview) (x : Result (List ℕ) × GrantManager)
      → IsClosed (after_acquire c m p x).1
  unfolding after_acquire
  after_acquire-IsClosed p (raise e, g) = refl
  after_acquire-IsClosed p (ok acquired, g) = after_fairness-IsClosed p acquired _

  close_on_error-IsClosed :
      (x : Result GrantDecisionResult × GrantManager)
      → IsClosed x.1
      → IsClosed (close_on_error c m x).1
  unfolding close_on_error
  close_on_error-IsClosed (raise e, g) h = refl
  close_on_error-IsClosed (ok r, g) h = h

  pub commit_tick-IsClosed :
      (p : GrantDecisionPreview) (g : GrantManager)
      → IsClosed (close_on_error c m (commit_tick c m p g)).1
  unfolding commit_tick close_on_error
  commit_tick-IsClosed p g = elim (Bool-cases (not g.tick_open)) [
    | inl closed ↦ rw (closed, commit_tick, close_on_error) refl
    | inr busy ↦ elim (Bool-cases (not (same_ids (keys p.decisions) (keys m.snapshots)))) [
      | inl other ↦ rw (busy, commit_tick, other, close_on_error) refl
      | inr same ↦
          rw (busy, commit_tick, same)
            (close_on_error-IsClosed (after_acquire c m p (acquire_grants c m p.decisions g))
              (after_acquire-IsClosed p (acquire_grants c m p.decisions g)))
    ]
  ]

  finalise_tick-IsClosed :
      (proposed : Dict Action) (priorities : Dict PriorityBreakdown)
      (sources : Option (Dict DecisionSource)) (g : GrantManager)
      → IsClosed (finalise_tick c m proposed priorities sources g).1
  unfolding finalise_tick
  finalise_tick-IsClosed proposed priorities sources g =
      elim (Result-cases (preview_tick c m g proposed priorities sources)) [
        | inr (e, q) ↦ rw (q, finalise_tick) refl
        | inl (p, q) ↦ rw (q, finalise_tick) (commit_tick-IsClosed p g)
      ]

  -- After finalising a tick, whatever the arguments and whether it returned or raised, the tick
  -- is closed and the manager can be cloned.
  pub clone-finalise_tick :
      (proposed : Dict Action) (priorities : Dict PriorityBreakdown)
      (sources : Option (Dict DecisionSource)) (g : GrantManager)
      → ((finalise_tick c m proposed priorities sources g).1.tick_open ≡ false)
        × ((copy : GrantManager) × (clone (finalise_tick c m proposed priorities sources g).1
              ≡ ok copy))
  clone-finalise_tick proposed priorities sources g =
      let closed = finalise_tick-IsClosed proposed priorities sources g in
      (closed, clone-ok (finalise_tick c m proposed priorities sources g).1 closed)
