-- ===== src/Engine/Transaction.antt =====
-- The grant manager that the engine keeps: what a tick does to it, and every state it can reach.
use robot_fleet_management.Base.{
  ℕ, ◌≡◌, refl, sym, ap, ◌∙◌, subst, Bool, true, false, List, [], ◌∷◌, Memᴰ, Option, none, sort_by,
  Result, ok, >>=-eq-ok, ok-injective, Result-cases, Bool-cases, inl, inr, arith,
}
use mathlib.Core.List.Memᴰ as MemD
use robot_fleet_management.Models.{RobotSnapshot}
use robot_fleet_management.Config.{MonitorConfig}
use robot_fleet_management.Conflicts.Model.{ConflictModel}
use robot_fleet_management.Conflicts.Build.{Envelopes}
use robot_fleet_management.Optimiser.Solver.{CpModel, Answer}
use robot_fleet_management.Grants.State.{GrantManager, new_manager, new_preview, AlarmCode, clone}
use robot_fleet_management.Grants.Tick.{commit_tick, close_on_error}
use robot_fleet_management.Grants.Invariant.{IsSound}
use robot_fleet_management.Grants.Invariant.Reach.{
  Reachable, created, cloned, prepared_at, revoked, committed, Reachable-IsSound,
}
use robot_fleet_management.Grants.Protocol.{IsClosed, clone-ok, commit_tick-IsClosed}
use robot_fleet_management.Engine.Codes.{
  FleetDecision, fail_safe_geometry_remains_unsafe, is_nonempty, alarm_codes,
}
use robot_fleet_management.Engine.Decide.{
  TickDraft, Review, Settlement, draft, review, settle, settled, commit, revoke_affected,
  with_manager, by_key, tick_metadata, next_manager, decide,
}
use robot_fleet_management.Engine.Decided.{
  decide-Stages, draft-Drafting, fleet_decision-parts, with_manager-ok,
}

module _ {F : Type 0} (geometry : Envelopes F) (c : MonitorConfig)
    (build : List (RobotSnapshot F) → Result (ConflictModel F))
    (backend : Option (CpModel → Answer)) where
  abbrev Keeps : GrantManager → Type 0
  Keeps g = Reachable F c g × IsClosed g

  revoke_affected-Reachable :
      (affected : List ℕ) (g g' : GrantManager)
      → Reachable F c g
      → revoke_affected geometry c build backend affected g ≡ ok g'
      → Reachable F c g'
  revoke_affected-Reachable [] g g' r h = subst (Reachable F c) (ok-injective h) r
  revoke_affected-Reachable (k ∷ ks) g g' r h = revoked (k ∷ ks) g g' r h

  commit-Keeps :
      (d : TickDraft F) (r : Review F) (s : Settlement)
      → Reachable F c d.provisional_grants
      → commit geometry c build backend d r ≡ ok s
      → Keeps s.manager
  unfolding commit close_on_error
  commit-Keeps d r s reach h =
      let (g1, q1, h1) =
        >>=-eq-ok (revoke_affected geometry c build backend r.affected_robots d.provisional_grants)
          _ h in
      let reach1 = revoke_affected-Reachable r.affected_robots d.provisional_grants g1 reach q1 in
      let (p, q2, h2) =
        >>=-eq-ok
          (new_preview (record {
            decisions = r.decisions;
            decision_sources = r.sources;
            alarms = d.preview.alarms;
          }))
          _ h1 in
      let ((result, g2), q3, h3) = >>=-eq-ok (with_manager (commit_tick c d.model p g1)) _ h2 in
      let whole = with_manager-ok (commit_tick c d.model p g1) q3 in
      let same = ap (λ x. x.1) whole in
      let closed = commit_tick-IsClosed c d.model p g1 in
      subst (λ x. Keeps x.manager) (ok-injective h3)
        (
          subst (Reachable F c) same (committed d.model p g1 reach1),
          subst (λ x. IsClosed (close_on_error c d.model x).1) whole closed,
        )

  settle-safe :
      (d : TickDraft F) (r : Review F) (s : Settlement)
      → is_nonempty r.final_violations ≡ false
      → settle geometry c build backend d r ≡ ok s
      → commit geometry c build backend d r ≡ ok s
  unfolding settle
  settle-safe d r s safe h = ground arith

  settle-unsafe :
      (d : TickDraft F) (r : Review F) (s : Settlement)
      → is_nonempty r.final_violations ≡ true
      → settle geometry c build backend d r ≡ ok s
      → s.grant_result ≡ none
  unfolding settle
  settle-unsafe d r s unsafe h = ground arith

  Mem-unsafe_alarm :
      (alarms : List AlarmCode) (stale overlapping rejected : Bool)
      → Memᴰ fail_safe_geometry_remains_unsafe (alarm_codes alarms stale overlapping rejected true)
  unfolding alarm_codes
  Mem-unsafe_alarm alarms stale overlapping rejected = MemD.append_right _ (Memᴰ.head refl)

  settle-Keeps :
      (d : TickDraft F) (r : Review F) (s : Settlement) (g : GrantManager)
      → Reachable F c d.provisional_grants
      → Keeps g
      → settle geometry c build backend d r ≡ ok s
      → Keeps (next_manager geometry c build backend r s g)
  unfolding settle next_manager
  settle-Keeps d r s g reach kept h = elim (Bool-cases (is_nonempty r.final_violations)) [
    | inl unsafe ↦ rw (unsafe, next_manager) kept
    | inr safe ↦ rw (safe, next_manager) (commit-Keeps d r s reach (settle-safe d r s safe h))
  ]

  decide-Keeps :
      (snapshots : List (RobotSnapshot F)) (now_ms tick_id : ℕ) (g : GrantManager)
      → Keeps g
      → Keeps (decide geometry c build backend snapshots now_ms tick_id g).1
  unfolding decide settled
  decide-Keeps snapshots now_ms tick_id g kept =
      elim (Result-cases (settled geometry c build backend snapshots now_ms tick_id g)) [
        | inr (e, q) ↦ rw (q, decide) kept
        | inl ((d', r', s'), q) ↦
            let (d, q1, h1) =
              >>=-eq-ok (draft geometry c build backend snapshots now_ms tick_id g) _ q in
            let (r, q2, h2) = >>=-eq-ok (review geometry c build backend d) _ h1 in
            let (s, q3, h3) = >>=-eq-ok (settle geometry c build backend d r) _ h2 in
            let x = draft-Drafting geometry c build backend snapshots now_ms tick_id g d q1 in
            let opened = prepared_at d.model now_ms x.copy (cloned g x.copy kept.0 x.cloned) in
            let reach = subst (Reachable F c) (ap (λ y. y.1) x.prepared) opened in
            rw (q ∙ sym h3, decide) (settle-Keeps d r s g reach kept q3)
      ]

  -- The managers of an engine: the one that it starts with, and the one after a call of `decide`
  -- on any snapshots, whether the call returned or raised.
  pub data Kept : GrantManager → Type 0 where
    started : Kept new_manager
    after_decide :
        (snapshots : List (RobotSnapshot F)) (now_ms tick_id : ℕ) (g : GrantManager)
        → Kept g
        → Kept (decide geometry c build backend snapshots now_ms tick_id g).1

  Kept-Keeps : (g : GrantManager) → Kept g → Keeps g
  Kept-Keeps _ started = (created, refl)
  Kept-Keeps _ (after_decide snapshots now_ms tick_id g k) =
      decide-Keeps snapshots now_ms tick_id g (Kept-Keeps g k)

  -- Every manager that an engine keeps between ticks, whatever the snapshots and whether its
  -- calls returned or raised, is sound and has no open tick, so that the next tick can clone it.
  pub Kept-IsSound :
      (g : GrantManager)
      → Kept g
      → IsSound c g × (g.tick_open ≡ false) × ((copy : GrantManager) × (clone g ≡ ok copy))
  Kept-IsSound g k =
      let (reach, closed) = Kept-Keeps g k in
      (Reachable-IsSound c g reach, closed, clone-ok g closed)

  -- Where a tick is decided and not committed, the engine keeps its manager, the decision
  -- reports that manager's waiting ages and no acquired or released grant, and raises the alarm
  -- FAIL_SAFE_GEOMETRY_REMAINS_UNSAFE.
  pub decide-keeps :
      (snapshots : List (RobotSnapshot F)) (now_ms tick_id : ℕ) (g : GrantManager)
      (fd : FleetDecision F)
      → (decide geometry c build backend snapshots now_ms tick_id g).0 ≡ ok fd
      → fd.tick_metadata.state_committed ≡ false
      → ((decide geometry c build backend snapshots now_ms tick_id g).1 ≡ g)
        × (fd.tick_metadata.acquired_grants ≡ [])
        × (fd.tick_metadata.released_grants ≡ [])
        × (fd.tick_metadata.waiting_ages ≡ sort_by by_key g.waiting_ages)
        × Memᴰ fail_safe_geometry_remains_unsafe fd.tick_metadata.alarms
  unfolding tick_metadata
  decide-keeps snapshots now_ms tick_id g fd h uncommitted =
      let w = decide-Stages geometry c build backend snapshots now_ms tick_id g fd h in
      let (each, ids, meta) =
        fleet_decision-parts geometry c build backend w.d w.r w.s tick_id g fd w.reported in
      let unsafe : is_nonempty w.r.final_violations ≡ true =
        ground (arith, ap (λ y. y.state_committed) meta ∙ uncommitted) in
      let nothing = settle-unsafe w.d w.r w.s unsafe w.settling in
      (
        sym w.left ∙ (rw unsafe refl),
        sym (ap (λ y. y.acquired_grants) meta) ∙ (rw (tick_metadata, nothing) refl),
        sym (ap (λ y. y.released_grants) meta) ∙ (rw (tick_metadata, nothing) refl),
        sym (ap (λ y. y.waiting_ages) meta) ∙ (rw (tick_metadata, nothing) refl),
        subst (λ y. Memᴰ fail_safe_geometry_remains_unsafe y.alarms) meta
            (rw (tick_metadata, unsafe) (Mem-unsafe_alarm _ _ _ _)),
      )
