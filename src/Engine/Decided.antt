-- ===== src/Engine/Decided.antt =====
-- What `decide` went through where it returns a decision.
use robot_fleet_management.Base.{
  Error, ℕ, ◌≡◌, refl, sym, ap, ◌∙◌, subst, leb, if◌then◌else◌, List, [], ◌∷◌, map, All, Option,
  some, lookup, elem, Result, ok, raise, >>=-eq-ok, ok-injective, require, or_raise, or_raise-some,
  value_error, key_error, Result-cases, inl, inr,
}
use robot_fleet_management.Models.{RobotSnapshot}
use robot_fleet_management.Config.{MonitorConfig}
use robot_fleet_management.Conflicts.Model.{ConflictModel}
use robot_fleet_management.Conflicts.Build.{Envelopes, id_of}
use robot_fleet_management.Optimiser.Solver.{CpModel, Answer}
use robot_fleet_management.Grants.State.{GrantManager, clone}
use robot_fleet_management.Grants.Tick.{prepare_tick, preview_tick}
use robot_fleet_management.Engine.Solving.{score_priorities, solve_components}
use robot_fleet_management.Grants.Acquire.{component_of}
use robot_fleet_management.Engine.Codes.{
  RobotDecision, FleetDecision, is_nonempty, reason_codes, is_resumed,
}
use robot_fleet_management.Engine.Validation.{
  normalise_snapshots, derive_staleness, validate_global_safety,
}
use robot_fleet_management.Engine.Decide.{
  TickDraft, Review, Settlement, draft, review, settle, settled, robot_decisions, with_manager,
  all_paused, tick_metadata, fleet_decision, decide, acquired_in, next_manager,
}

-- A decision carries the action and the source that the review holds for its robot, and the codes
-- of its part in the tick.
abbrev pub IsDecided :
    {F : Type 0} → TickDraft F → Review F → Settlement → ℕ → RobotDecision → Type 0
IsDecided {F = F} d r s tick_id p =
    (lookup p.robot_id r.decisions ≡ some p.action)
    × (lookup p.robot_id r.sources ≡ some p.decision_source)
    × (p.tick_id ≡ tick_id)
    × ((snapshot : RobotSnapshot F) × (p.reason_codes
          ≡ reason_codes p.robot_id snapshot p.decision_source
              (elem p.robot_id d.model.isolated_robots)
              (elem p.robot_id (acquired_in s.grant_result))
              (is_resumed (lookup p.robot_id d.preparation.hard_assignments))
              (elem p.robot_id r.affected_robots)))

pub with_manager-ok :
    {A : Type 0} (x : Result A × GrantManager) {a : A} {g : GrantManager}
    → with_manager x ≡ ok (a, g)
    → x ≡ (ok a, g)
with_manager-ok (raise e, g) h = cc
with_manager-ok (ok a, g) h = ap (λ y. (ok y.0, y.1)) (ok-injective h)

module _ {F : Type 0} (geometry : Envelopes F) (c : MonitorConfig)
    (build : List (RobotSnapshot F) → Result (ConflictModel F))
    (backend : Option (CpModel → Answer)) where
  pub record Drafting (snapshots : List (RobotSnapshot F)) (now_ms : ℕ) (g : GrantManager)
      (d : TickDraft F) : Type 0 where
    pub normalised : List (RobotSnapshot F)
    pub sorted_by_id : normalise_snapshots snapshots ≡ ok normalised
    pub marked : d.ordered ≡ derive_staleness c now_ms normalised
    pub built : build d.ordered ≡ ok d.model
    pub copy : GrantManager
    pub cloned : clone g ≡ ok copy
    pub prepared : prepare_tick c d.model now_ms copy ≡ (ok d.preparation, d.provisional_grants)
    pub solved :
        solve_components c d.model backend d.priorities d.preparation.hard_assignments
        ≡ ok d.proposals
    pub previewed :
        preview_tick c d.model d.provisional_grants d.proposals.decisions d.priorities
          (some d.proposals.sources)
        ≡ ok d.preview

  pub draft-Drafting :
      (snapshots : List (RobotSnapshot F)) (now_ms tick_id : ℕ) (g : GrantManager) (d : TickDraft F)
      → draft geometry c build backend snapshots now_ms tick_id g ≡ ok d
      → Drafting snapshots now_ms g d
  unfolding draft
  draft-Drafting snapshots now_ms tick_id g d h =
      let (_, _, h1) = >>=-eq-ok (require (leb 1 tick_id) value_error) _ h in
      let (normalised, q2, h2) = >>=-eq-ok (normalise_snapshots snapshots) _ h1 in
      let ordered = derive_staleness c now_ms normalised in
      let (m, q3, h3) = >>=-eq-ok (build ordered) _ h2 in
      let (overlaps, _, h4) =
        >>=-eq-ok
          (validate_global_safety geometry (all_paused geometry c build backend ordered) ordered) _
          h3 in
      let (copy, q5, h5) = >>=-eq-ok (clone g) _ h4 in
      let ((preparation, prepared), q6, h6) =
        >>=-eq-ok (with_manager (prepare_tick c m now_ms copy)) _ h5 in
      let (priorities, _, h7) = >>=-eq-ok (score_priorities c m prepared now_ms) _ h6 in
      let (proposals, q8, h8) =
        >>=-eq-ok (solve_components c m backend priorities preparation.hard_assignments) _ h7 in
      let (preview, q9, h9) =
        >>=-eq-ok
          (preview_tick c m prepared proposals.decisions priorities (some proposals.sources)) _
          h8 in
      subst (Drafting snapshots now_ms g) (ok-injective h9) (record {
        normalised = normalised;
        sorted_by_id = q2;
        marked = refl;
        built = q3;
        copy = copy;
        cloned = q5;
        prepared = with_manager-ok (prepare_tick c m now_ms copy) q6;
        solved = q8;
        previewed = q9;
      })

  pub record Stages (snapshots : List (RobotSnapshot F)) (now_ms tick_id : ℕ) (g : GrantManager)
      (fd : FleetDecision F) : Type 0 where
    pub d : TickDraft F
    pub r : Review F
    pub s : Settlement
    pub drafted : draft geometry c build backend snapshots now_ms tick_id g ≡ ok d
    pub reviewed : review geometry c build backend d ≡ ok r
    pub settling : settle geometry c build backend d r ≡ ok s
    pub reported : fleet_decision geometry c build backend d r s tick_id g ≡ ok fd
    pub left :
        (if is_nonempty r.final_violations then g else s.manager)
        ≡ (decide geometry c build backend snapshots now_ms tick_id g).1

  abbrev stages :
      List (RobotSnapshot F)
      → (now_ms tick_id : ℕ) → GrantManager
      → Result (TickDraft F × Review F × Settlement)
  stages = settled geometry c build backend

  decide-raise :
      (snapshots : List (RobotSnapshot F)) (now_ms tick_id : ℕ) (g : GrantManager) (e : Error)
      → stages snapshots now_ms tick_id g ≡ raise e
      → decide geometry c build backend snapshots now_ms tick_id g ≡ (raise e, g)
  unfolding decide
  decide-raise snapshots now_ms tick_id g e q = rw (q, decide) refl

  decide-ok :
      (snapshots : List (RobotSnapshot F)) (now_ms tick_id : ℕ) (g : GrantManager) (d : TickDraft F)
      (r : Review F) (s : Settlement)
      → stages snapshots now_ms tick_id g ≡ ok (d, r, s)
      → decide geometry c build backend snapshots now_ms tick_id g ≡ (
        fleet_decision geometry c build backend d r s tick_id g,
        next_manager geometry c build backend r s g,
      )
  unfolding decide
  decide-ok snapshots now_ms tick_id g d r s q = rw (q, decide) refl

  pub decide-Stages :
      (snapshots : List (RobotSnapshot F)) (now_ms tick_id : ℕ) (g : GrantManager)
      (fd : FleetDecision F)
      → (decide geometry c build backend snapshots now_ms tick_id g).0 ≡ ok fd
      → Stages snapshots now_ms tick_id g fd
  unfolding settled next_manager
  decide-Stages snapshots now_ms tick_id g fd h =
      elim (Result-cases (stages snapshots now_ms tick_id g)) [
        | inr (e, q) ↦ absurd (cc (h, decide-raise snapshots now_ms tick_id g e q))
        | inl ((d, r, s), q) ↦
            let (d', q1, h1) =
              >>=-eq-ok (draft geometry c build backend snapshots now_ms tick_id g) _ q in
            let (r', q2, h2) = >>=-eq-ok (review geometry c build backend d') _ h1 in
            let (s', q3, h3) = >>=-eq-ok (settle geometry c build backend d' r') _ h2 in
            let whole = decide-ok snapshots now_ms tick_id g d' r' s' (q ∙ sym h3) in
            record {
              d = d';
              r = r';
              s = s';
              drafted = q1;
              reviewed = q2;
              settling = q3;
              reported = sym (ap (λ x. x.0) whole) ∙ h;
              left = sym (ap (λ x. x.1) whole);
            }
      ]

  module _ (d : TickDraft F) (r : Review F) (s : Settlement) (tick_id : ℕ) where
    pub robot_decisions-lookups :
        (ordered : List (RobotSnapshot F)) (decided : List RobotDecision)
        → robot_decisions geometry c build backend d r s tick_id ordered ≡ ok decided
        → All (IsDecided d r s tick_id) decided
          × (map (λ p. p.robot_id) decided ≡ map id_of ordered)
    unfolding robot_decisions
    robot_decisions-lookups [] decided h =
        subst (λ ps. All (IsDecided d r s tick_id) ps × (map (λ p. p.robot_id) ps ≡ []))
          (ok-injective h) (tt, refl)
    robot_decisions-lookups (snapshot ∷ rest) decided h =
        let (source, q1, h1) =
          >>=-eq-ok (or_raise (lookup (id_of snapshot) r.sources) key_error) _ h in
        let (component, q2, h2) =
          >>=-eq-ok
            (or_raise (component_of (id_of snapshot) d.model.connected_components) key_error) _
            h1 in
        let (priority, q3, h3) =
          >>=-eq-ok (or_raise (lookup (id_of snapshot) d.priorities) key_error) _ h2 in
        let (action, q4, h4) =
          >>=-eq-ok (or_raise (lookup (id_of snapshot) r.decisions) key_error) _ h3 in
        let (others, q5, h5) =
          >>=-eq-ok (robot_decisions geometry c build backend d r s tick_id rest) _ h4 in
        let (below, ids) = robot_decisions-lookups rest others q5 in
        subst
          (λ ps.
            All (IsDecided d r s tick_id) ps
            × (map (λ p. p.robot_id) ps ≡ map id_of (snapshot ∷ rest)))
          (ok-injective h5)
          (
            (
              (
                or_raise-some (lookup (id_of snapshot) r.decisions) key_error q4,
                or_raise-some (lookup (id_of snapshot) r.sources) key_error q1,
                refl,
                (snapshot, refl),
              ),
              below,
            ),
            ap (λ ids. id_of snapshot ∷ ids) ids,
          )

  pub fleet_decision-parts :
      (d : TickDraft F) (r : Review F) (s : Settlement) (tick_id : ℕ) (g : GrantManager)
      (fd : FleetDecision F)
      → fleet_decision geometry c build backend d r s tick_id g ≡ ok fd
      → All (IsDecided d r s tick_id) fd.decisions
        × (map (λ p. p.robot_id) fd.decisions ≡ map id_of d.ordered)
        × (tick_metadata geometry c build backend d r s g ≡ fd.tick_metadata)
  unfolding fleet_decision
  fleet_decision-parts d r s tick_id g fd h =
      let (decided, q, h1) =
        >>=-eq-ok (robot_decisions geometry c build backend d r s tick_id d.ordered) _ h in
      let (each, ids) = robot_decisions-lookups d r s tick_id d.ordered decided q in
      let same = ok-injective h1 in
      let ends = ap (λ x. x.decisions) same in
      (
        subst (All (IsDecided d r s tick_id)) ends each,
        subst (λ ps. map (λ p. p.robot_id) ps ≡ map id_of d.ordered) ends ids,
        ap (λ x. x.tick_metadata) same,
      )
