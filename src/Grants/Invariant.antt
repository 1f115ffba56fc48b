-- ===== src/Grants/Invariant.antt =====
-- What holds of the grant manager between its operations, whatever they return.
pub mod Prepare
pub mod Commit
pub mod Reach
use robot_fleet_management.Base.{
  ℕ, ◌+◌, ◌-◌, ◌/◌, ◌≤◌, ◌≡◌, refl, sym, ap, ◌∙◌, min, Bool, true, false, not, ◌&&◌, ◌||◌, leb,
  if◌then◌else◌, ◌==◌, List, [], ◌∷◌, ◌++◌, elem, sorted, sort_by, Option, none, some, Dict, lookup,
  lookup_or, insert, erase, lookup-insert, lookup-erase, ==_iff, subst, if-either, Result-cases,
  >>=-eq-ok, keys, same_ids, Result, ok, raise, ◌>>=◌, arith, Bool-cases, Option-cases, inl, inr,
}
use robot_fleet_management.Models.{Action, resume, is_resume, DecisionSource}
use robot_fleet_management.Config.{MonitorConfig}
use robot_fleet_management.Priority.{PriorityBreakdown}
use robot_fleet_management.Conflicts.Model.{ConflictModel}
use robot_fleet_management.Grants.State.{
  GrantManager, GrantRecord, GrantReleaseReason, GrantDecisionPreview, GrantPreparation,
  GrantDecisionResult, release, release_all, revoke_for_safety, new_manager, new_grant,
  conflict_cleared, at_goal, stale_or_disappeared, maximum_lease_fault_guard, stale_tick_limit,
}
use robot_fleet_management.Grants.Lifecycle.{
  has_conflict, forget_absent, forget, set_grants, refresh, reconcile_one, reconcile_each,
  reconcile_lifecycle,
}
use robot_fleet_management.Grants.Group.{
  retain_each, retain_components, safe_relevant_grants, relevant_grants, acquired_before,
  has_safe_completion,
}
use robot_fleet_management.Grants.Acquire.{
  acquire_one, acquire_each, acquire_grants, next_age, note, fairness_each, update_fairness,
  may_acquire,
}
use robot_fleet_management.Grants.Tick.{
  open_tick, prepared, report, after_fairness, after_acquire, close_on_error, prepare_tick,
  preview_tick, commit_tick, finalise_tick, close_tick, set_hard,
}

-- A grant stands under its robot's identifier, and was acquired and seen at ticks that have begun.
abbrev pub IsHeld : ℕ → ℕ → GrantRecord → Type 0
IsHeld tick r h =
    (h.robot_id ≡ r)
    × (1 ≤ h.acquisition_tick)
    × (h.acquisition_tick ≤ h.last_seen_tick)
    × (h.last_seen_tick ≤ tick)

-- Every waiting age is within the cap, and every grant is held as above.
pub record IsSound (c : MonitorConfig) (g : GrantManager) : Type 0 where
  pub ages : (r v : ℕ) → lookup r g.waiting_ages ≡ some v → v ≤ c.priority_waiting_age_cap_ticks
  pub grants : (r : ℕ) (h : GrantRecord) → lookup r g.active_grants ≡ some h → IsHeld g.tick_id r h

forget_absent-some {ℓ} :
    {V : Type ℓ} (present rs : List ℕ) (d : Dict V) (r : ℕ) (v : V)
    → lookup r (forget_absent present rs d) ≡ some v
    → lookup r d ≡ some v
unfolding forget_absent
forget_absent-some present [] d r v e = e
forget_absent-some present (k ∷ rs) d r v e = elim (Bool-cases (elem k present)) [
  | inl here ↦ forget_absent-some present rs d r v (ground arith)
  | inr gone ↦
      let rest = forget_absent-some present rs (erase k d) r v (ground arith) in
      ground (arith, lookup-erase k r d)
]

module _ (c : MonitorConfig) where
  pub release-IsSound :
      (r : ℕ) (reason : GrantReleaseReason) (g : GrantManager)
      → IsSound c g
      → IsSound c (release r reason g)
  unfolding release
  release-IsSound r reason g s = elim (Option-cases (lookup r g.active_grants)) [
    | inl n ↦ rw (n, release) s
    | inr (h, e) ↦
        rw (e, release)
          (record {
            ages = s.ages;
            grants = λ k h' e'. s.grants k h' (ground (arith, lookup-erase r k g.active_grants));
          })
  ]

  pub release_all-IsSound :
      (reason : GrantReleaseReason) (rs : List ℕ) (g : GrantManager)
      → IsSound c g
      → IsSound c (release_all reason rs g)
  unfolding release_all
  release_all-IsSound reason [] g s = s
  release_all-IsSound reason (r ∷ rs) g s =
      release_all-IsSound reason rs (release r reason g) (release-IsSound r reason g s)

  pub insert-IsSound :
      (r : ℕ) (h : GrantRecord) (g : GrantManager)
      → IsHeld g.tick_id r h
      → IsSound c g
      → IsSound c (set_grants (insert r h g.active_grants) g)
  insert-IsSound r h g held s = record {
    ages = s.ages;
    grants = λ k h' e'. elim (Bool-cases (r == k)) [
      | inl here ↦
          let same : h ≡ h' = ground (arith, lookup-insert r k h g.active_grants, e') in
          let (named, one, order, begun) = held in
          subst (IsHeld g.tick_id k) same (named ∙ (==_iff r k).0 here, one, order, begun)
      | inr other ↦ s.grants k h' (ground (arith, lookup-insert r k h g.active_grants))
    ];
  }

pub forget-IsSound :
    (c : MonitorConfig) (present : List ℕ) (g : GrantManager)
    → IsSound c g
    → IsSound c (forget present g)
unfolding forget
forget-IsSound c present g s = record {
  ages =
      λ r v e. s.ages r v (forget_absent-some present (keys g.waiting_ages) g.waiting_ages r v e);
  grants = s.grants;
}
