-- ===== src/Engine/Commands.antt =====
-- What the decision of a tick commands: one action for each robot, no conflict where the tick is
-- committed, and Pause for the robots of a violation.
use robot_fleet_management.Base.{
  ℕ, ◌<◌, ◌≡◌, refl, sym, ap, ◌∙◌, subst, true, false, not, List, [], ◌∷◌, map, Memᴰ, All, All-Mem,
  All-map, Option, some, lookup, sorted, Result, ok, >>=-eq-ok, ok-injective, map-sort_by,
}
use robot_fleet_management.Models.{RobotSnapshot, pause}
use robot_fleet_management.Config.{MonitorConfig}
use robot_fleet_management.Conflicts.Model.{ConflictModel}
use robot_fleet_management.Conflicts.Build.{Envelopes, id_of}
use robot_fleet_management.Optimiser.Solver.{CpModel, Answer}
use robot_fleet_management.Grants.State.{GrantManager}
use robot_fleet_management.Grants.Group.{put_all}
use robot_fleet_management.Engine.Codes.{
  GlobalSafetyViolation, RobotDecision, FleetDecision, is_nonempty,
}
use robot_fleet_management.Engine.Validation.{mark_stale, derive_staleness, validate_global_safety}
use robot_fleet_management.Engine.Safety.{
  Mem-normalise_snapshots, normalise_snapshots-sorted, validate_global_safety-clear,
}
use robot_fleet_management.Engine.Decide.{
  TickDraft, Review, review, override, affected_robots, tick_metadata, decide,
}
use robot_fleet_management.Engine.Decided.{
  IsDecided, decide-Stages, draft-Drafting, Drafting, fleet_decision-parts,
}

Mem-map_stale :
    {F : Type 0} (c : MonitorConfig) (now_ms : ℕ) (s : RobotSnapshot F)
    (ordered : List (RobotSnapshot F))
    → Memᴰ s ordered
    → Memᴰ (mark_stale c now_ms s) (derive_staleness c now_ms ordered)
unfolding derive_staleness
Mem-map_stale c now_ms s [] m = elim m [ ]
Mem-map_stale c now_ms s (x ∷ xs) (Memᴰ.head e) = Memᴰ.head (ap (mark_stale c now_ms) e)
Mem-map_stale c now_ms s (x ∷ xs) (Memᴰ.tail m) = Memᴰ.tail (Mem-map_stale c now_ms s xs m)

map-id_of-derive_staleness :
    {F : Type 0} (c : MonitorConfig) (now_ms : ℕ) (ordered : List (RobotSnapshot F))
    → map id_of (derive_staleness c now_ms ordered) ≡ map id_of ordered
unfolding derive_staleness mark_stale
map-id_of-derive_staleness c now_ms [] = refl
map-id_of-derive_staleness c now_ms (x ∷ xs) =
    ap (λ ids. id_of x ∷ ids) (map-id_of-derive_staleness c now_ms xs)

empty : {A : Type 0} (xs : List A) → not (is_nonempty xs) ≡ true → xs ≡ []
empty [] e = refl
empty (x ∷ xs) e = absurd (cc)

module _ {F : Type 0} (geometry : Envelopes F) (c : MonitorConfig)
    (build : List (RobotSnapshot F) → Result (ConflictModel F))
    (backend : Option (CpModel → Answer)) where
  override-clear :
      (d : TickDraft F) (vs : List (GlobalSafetyViolation F)) (r : Review F)
      → validate_global_safety geometry d.preview.decisions d.ordered ≡ ok vs
      → override geometry c build backend d vs ≡ ok r
      → r.final_violations ≡ []
      → validate_global_safety geometry r.decisions d.ordered ≡ ok []
  unfolding override
  override-clear d [] r q h e =
      subst (λ x. validate_global_safety geometry x.decisions d.ordered ≡ ok []) (ok-injective h) q
  override-clear d (v ∷ vs) r q h e =
      let (affected, q1, h1) = >>=-eq-ok (affected_robots d.model (v ∷ vs)) _ h in
      let decisions = put_all pause affected d.preview.decisions in
      let (final, q2, h2) = >>=-eq-ok (validate_global_safety geometry decisions d.ordered) _ h1 in
      let clear = ap (λ x. x.final_violations) (ok-injective h2) ∙ e in
      subst (λ x. validate_global_safety geometry x.decisions d.ordered ≡ ok []) (ok-injective h2)
        (q2 ∙ ap ok clear)

  review-clear :
      (d : TickDraft F) (r : Review F)
      → review geometry c build backend d ≡ ok r
      → r.final_violations ≡ []
      → validate_global_safety geometry r.decisions d.ordered ≡ ok []
  unfolding review
  review-clear d r h e =
      let (vs, q, h1) =
        >>=-eq-ok (validate_global_safety geometry d.preview.decisions d.ordered)
          (override geometry c build backend d) h in
      override-clear d vs r q h1 e

  Mem-ordered :
      {snapshots : List (RobotSnapshot F)} {now_ms : ℕ} {g : GrantManager} (d : TickDraft F)
      → Drafting geometry c build backend snapshots now_ms g d
      → (s : RobotSnapshot F) → Memᴰ s snapshots
      → Memᴰ (mark_stale c now_ms s) d.ordered
  Mem-ordered {snapshots} {now_ms} d x s m = subst (Memᴰ (mark_stale c now_ms s)) (sym x.marked) (
      Mem-map_stale c now_ms s x.normalised
        (Mem-normalise_snapshots s snapshots x.normalised x.sorted_by_id m))

  module _ (snapshots : List (RobotSnapshot F)) (now_ms tick_id : ℕ) (g : GrantManager)
      (fd : FleetDecision F)
      (decided : (decide geometry c build backend snapshots now_ms tick_id g).0 ≡ ok fd) where
    -- Where a tick is committed, no two robots of the fleet conflict under the actions that the
    -- decision gives them.
    pub decide-IsSafe :
        (s t : RobotSnapshot F) (p q : RobotDecision) (e f : geometry.Envelope)
        → fd.tick_metadata.state_committed ≡ true
        → Memᴰ s snapshots
        → Memᴰ t snapshots
        → id_of s < id_of t
        → Memᴰ p fd.decisions
        → Memᴰ q fd.decisions
        → p.robot_id ≡ id_of s
        → q.robot_id ≡ id_of t
        → geometry.action_envelope (mark_stale c now_ms s) p.action ≡ ok e
        → geometry.action_envelope (mark_stale c now_ms t) q.action ≡ ok f
        → geometry.geometries_conflict e f ≡ false
    unfolding mark_stale tick_metadata
    decide-IsSafe s t p q e f committed ms mt lt mp mq ps qt ae bf =
        let w = decide-Stages geometry c build backend snapshots now_ms tick_id g fd decided in
        let x = draft-Drafting geometry c build backend snapshots now_ms tick_id g w.d w.drafted in
        let (each, ids, meta) =
          fleet_decision-parts geometry c build backend w.d w.r w.s tick_id g fd w.reported in
        let none_left = empty w.r.final_violations (ap (λ y. y.state_committed) meta ∙ committed) in
        let clear = review-clear w.d w.r w.reviewed none_left in
        let (lp, _, _, _) = All-Mem (IsDecided w.d w.r w.s tick_id) p fd.decisions each mp in
        let (lq, _, _, _) = All-Mem (IsDecided w.d w.r w.s tick_id) q fd.decisions each mq in
        validate_global_safety-clear geometry w.r.decisions w.d.ordered (mark_stale c now_ms s)
          (mark_stale c now_ms t) p.action q.action e f clear (Mem-ordered w.d x s ms)
          (Mem-ordered w.d x t mt) lt (subst (λ k. lookup k w.r.decisions ≡ some p.action) ps lp)
          (subst (λ k. lookup k w.r.decisions ≡ some q.action) qt lq) ae bf

    -- A decided tick has one decision for each observed robot, in the order of the identifiers,
    -- under the identifier of the tick.
    pub decide-covers :
        (map (λ p. p.robot_id) fd.decisions ≡ sorted (map id_of snapshots))
        × All (λ p. p.tick_id ≡ tick_id) fd.decisions
    decide-covers =
        let w = decide-Stages geometry c build backend snapshots now_ms tick_id g fd decided in
        let x = draft-Drafting geometry c build backend snapshots now_ms tick_id g w.d w.drafted in
        let (each, ids, meta) =
          fleet_decision-parts geometry c build backend w.d w.r w.s tick_id g fd w.reported in
        let (same, _) = normalise_snapshots-sorted snapshots x.normalised x.sorted_by_id in
        (
          ids
              ∙ ap (map id_of) x.marked
              ∙ map-id_of-derive_staleness c now_ms x.normalised
              ∙ ap (map id_of) (sym same)
              ∙ map-sort_by id_of snapshots,
          All-map (IsDecided w.d w.r w.s tick_id) (λ p. p.tick_id ≡ tick_id) fd.decisions
              (λ p is. is.2) each,
        )
