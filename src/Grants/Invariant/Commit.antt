-- ===== src/Grants/Invariant/Commit.antt =====
-- Committing and finalising a tick keep the grant manager sound.
use robot_fleet_management.Base.{
  ℕ, ◌≡◌, Bool, not, leb, List, [], ◌∷◌, ◌++◌, sorted, Option, none, some, Dict, lookup, lookup_or,
  insert, lookup-insert, if-either, Result-cases, >>=-eq-ok, keys, same_ids, Result, ok, raise,
  arith, Bool-cases, Option-cases, inl, inr,
}
use robot_fleet_management.Models.{Action, DecisionSource}
use robot_fleet_management.Config.{MonitorConfig}
use robot_fleet_management.Priority.{PriorityBreakdown}
use robot_fleet_management.Conflicts.Model.{ConflictModel}
use robot_fleet_management.Grants.State.{
  GrantManager, GrantRecord, GrantDecisionPreview, GrantDecisionResult, new_grant,
}
use robot_fleet_management.Grants.Lifecycle.{set_grants}
use robot_fleet_management.Grants.Acquire.{
  acquire_one, acquire_each, acquire_grants, next_age, note, fairness_each, update_fairness,
  may_acquire,
}
use robot_fleet_management.Grants.Tick.{
  after_fairness, after_acquire, close_on_error, preview_tick, commit_tick, finalise_tick,
  close_tick,
}
use robot_fleet_management.Grants.Invariant.{IsHeld, IsSound, insert-IsSound, forget-IsSound}

module _ {F : Type 0} (c : MonitorConfig) (m : ConflictModel F) where
  acquire_one-IsHeld :
      (decisions : Dict Action) (r : ℕ) (g : GrantManager) (h : GrantRecord)
      → acquire_one c m decisions r g ≡ ok (some h)
      → IsHeld g.tick_id r h
  unfolding acquire_one new_grant
  acquire_one-IsHeld decisions r g h e =
      let (granted, _, e') = >>=-eq-ok (may_acquire c m decisions r g) _ e in
      elim (Bool-cases (leb 1 r)) [
        | inl named ↦ elim (Bool-cases (leb 1 g.tick_id)) [
          | inl begun ↦ ground arith
          | inr early ↦ absurd (ground arith)
        ]
        | inr empty ↦ absurd (ground arith)
      ]

  acquire_each-IsSound :
      (decisions : Dict Action) (rs acquired : List ℕ) (g : GrantManager)
      → IsSound c g
      → IsSound c (acquire_each c m decisions rs acquired g).1
  unfolding acquire_each
  acquire_each-IsSound decisions [] acquired g s = s
  acquire_each-IsSound decisions (r ∷ rs) acquired g s =
      elim (Result-cases (acquire_one c m decisions r g)) [
        | inr (e, q) ↦ rw (q, acquire_each) s
        | inl (none, q) ↦ rw (q, acquire_each) (acquire_each-IsSound decisions rs acquired g s)
        | inl (some h, q) ↦
            rw (q, acquire_each)
              (acquire_each-IsSound decisions rs (acquired ++ r ∷ [])
                (set_grants (insert r h g.active_grants) g)
                (insert-IsSound c r h g (acquire_one-IsHeld decisions r g h q) s))
      ]

  note-IsSound :
      (r : ℕ) (action : Action) (goal : Bool) (g : GrantManager)
      → IsSound c g
      → IsSound c (note c m r action goal g)
  unfolding note next_age
  note-IsSound r action goal g s = record {
    ages = λ k v e. ground (
      arith,
      s.ages k v,
      lookup-insert r k (next_age c m action goal (lookup_or 0 r g.waiting_ages)) g.waiting_ages,
    );
    grants = s.grants;
  }

  fairness_each-IsSound :
      (decisions : Dict Action) (rs : List ℕ) (g : GrantManager)
      → IsSound c g
      → IsSound c (fairness_each c m decisions rs g).1
  unfolding fairness_each
  fairness_each-IsSound decisions [] g s = s
  fairness_each-IsSound decisions (r ∷ rs) g s = elim (Option-cases (lookup r m.snapshots)) [
    | inl n ↦ rw (n, fairness_each) s
    | inr (snapshot, e) ↦ elim (Option-cases (lookup r decisions)) [
      | inl n ↦ rw (e, fairness_each, n) s
      | inr (action, q) ↦
          rw (e, fairness_each, q)
            (fairness_each-IsSound decisions rs _ (note-IsSound r action snapshot.at_goal g s))
    ]
  ]

  close-IsSound : (g : GrantManager) → IsSound c g → IsSound c (close_tick g)
  close-IsSound g s = record { ages = s.ages; grants = s.grants }

  after_fairness-IsSound :
      (p : GrantDecisionPreview) (acquired : List ℕ) (x : Result (Unit {0}) × GrantManager)
      → IsSound c x.1
      → IsSound c (after_fairness c m p acquired x).1
  unfolding after_fairness
  after_fairness-IsSound p acquired (raise e, g) s = close-IsSound g s
  after_fairness-IsSound p acquired (ok u, g) s = close-IsSound g s

  after_acquire-IsSound :
      (p : GrantDecisionPreview) (x : Result (List ℕ) × GrantManager)
      → IsSound c x.1
      → IsSound c (after_acquire c m p x).1
  unfolding after_acquire update_fairness
  after_acquire-IsSound p (raise e, g) s = close-IsSound g s
  after_acquire-IsSound p (ok acquired, g) s = after_fairness-IsSound p acquired _ (
      fairness_each-IsSound p.decisions (sorted (keys m.snapshots)) _
        (forget-IsSound c (keys m.snapshots) g s))

  -- Committing a tick keeps the manager's state sound, also where it raises.
  pub commit_tick-IsSound :
      (p : GrantDecisionPreview) (g : GrantManager)
      → IsSound c g
      → IsSound c (commit_tick c m p g).1
  unfolding commit_tick acquire_grants
  commit_tick-IsSound p g s = if-either P (not g.tick_open) s (
      if-either P (not (same_ids (keys p.decisions) (keys m.snapshots))) s (
        after_acquire-IsSound p _
          (acquire_each-IsSound p.decisions (sorted (keys p.decisions)) [] g s)))
    where
      P : Result GrantDecisionResult × GrantManager → Type 0
      P x = IsSound c x.1

  close_on_error-IsSound :
      (x : Result GrantDecisionResult × GrantManager)
      → IsSound c x.1
      → IsSound c (close_on_error c m x).1
  unfolding close_on_error
  close_on_error-IsSound (raise e, g) s = close-IsSound g s
  close_on_error-IsSound (ok r, g) s = s

  -- Finalising a tick keeps the manager's state sound, also where it raises.
  pub finalise_tick-IsSound :
      (proposed : Dict Action) (priorities : Dict PriorityBreakdown)
      (sources : Option (Dict DecisionSource)) (g : GrantManager)
      → IsSound c g
      → IsSound c (finalise_tick c m proposed priorities sources g).1
  unfolding finalise_tick
  finalise_tick-IsSound proposed priorities sources g s =
      elim (Result-cases (preview_tick c m g proposed priorities sources)) [
        | inr (e, q) ↦ rw (q, finalise_tick) (close-IsSound g s)
        | inl (p, q) ↦
            rw (q, finalise_tick)
              (close_on_error-IsSound (commit_tick c m p g) (commit_tick-IsSound p g s))
      ]
