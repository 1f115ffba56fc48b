-- ===== src/Engine/Override.antt =====
-- What the decision commands where the global validator rejected the proposed one.
use robot_fleet_management.Base.{
  ℕ, ◌≡◌, refl, sym, ap, ◌∙◌, subst, ◌==◌, ==_iff, ◌||◌, Bool, true, if◌then◌else◌, List, [], ◌∷◌,
  ◌++◌, Memᴰ, All-Mem, elem-append, elem-sort_by, Option, some, lookup, elem, Result, ok, >>=-eq-ok,
  ok-injective, or_raise, or_raise-some, key_error, Bool-cases, inl, inr, ◌⊎◌, ltb, arith,
}
use mathlib.Core.List.Memᴰ as MemD
use robot_fleet_management.Models.{RobotSnapshot, pause, DecisionSource, fail_safe}
use robot_fleet_management.Config.{MonitorConfig}
use robot_fleet_management.Conflicts.Model.{ConflictModel}
use robot_fleet_management.Conflicts.Build.{Envelopes}
use robot_fleet_management.Optimiser.Solver.{CpModel, Answer}
use robot_fleet_management.Grants.State.{GrantManager}
use robot_fleet_management.Grants.Acquire.{component_of}
use robot_fleet_management.Grants.Group.{put_all}
use robot_fleet_management.Grants.Completion.{lookup-put_all}
use robot_fleet_management.Engine.Codes.{
  GlobalSafetyViolation, RobotDecision, FleetDecision, global_safety_override, reason_codes,
  is_resumed,
}
use robot_fleet_management.Engine.Validation.{validate_global_safety}
use robot_fleet_management.Engine.Decide.{
  TickDraft, Review, review, override, components_of, affected_robots, as_set, tick_metadata,
  decide, acquired_in,
}
use robot_fleet_management.Engine.Decided.{IsDecided, decide-Stages, fleet_decision-parts}

some-injective : {A : Type 0} {a b : A} → some a ≡ some b → a ≡ b
some-injective h = cc

elem-component_of :
    (k : ℕ) (components : List (List ℕ)) (component : List ℕ)
    → component_of k components ≡ some component
    → elem k component ≡ true
unfolding component_of
elem-component_of k [] component h = absurd (cc)
elem-component_of k (x ∷ xs) component h = ground (arith, elem-component_of k xs component)

elem-again :
    (k x : ℕ) (xs : List ℕ) → elem x xs ≡ true → elem k xs ≡ (if k == x then true else elem k xs)
elem-again k x xs again = elim (Bool-cases (k == x)) [
  | inr other ↦ rw other refl
  | inl same ↦ rw (same, subst (λ y. elem y xs ≡ true) (sym ((==_iff k x).0 same)) again) refl
]

elem-as_set : (k : ℕ) (xs : List ℕ) → elem k (as_set xs) ≡ elem k xs
unfolding as_set
elem-as_set k [] = refl
elem-as_set k (x ∷ xs) = elim (Bool-cases (elem x xs)) [
  | inr fresh ↦ rw (fresh, as_set, elem-as_set k xs) refl
  | inl again ↦ rw (again, as_set, elem-as_set k xs) (elem-again k x xs again)
]

elem-joined :
    (k : ℕ) (xs ys zs : List ℕ) → elem k (xs ++ ys ++ zs) ≡ ((elem k xs || elem k ys) || elem k zs)
elem-joined k xs ys zs = rw (elem-append k (xs ++ ys) zs, elem-append k xs ys) refl

module _ {F : Type 0} (m : ConflictModel F) where
  elem-first_two :
      (w : GlobalSafetyViolation F) (first second rest : List ℕ)
      → or_raise (component_of w.robot_i m.connected_components) key_error ≡ ok first
      → or_raise (component_of w.robot_j m.connected_components) key_error ≡ ok second
      → (elem w.robot_i (first ++ second ++ rest) ≡ true)
        × (elem w.robot_j (first ++ second ++ rest) ≡ true)
  elem-first_two w first second rest q1 q2 =
      let i_first =
        elem-component_of w.robot_i m.connected_components first (or_raise-some _ key_error q1) in
      let j_second =
        elem-component_of w.robot_j m.connected_components second (or_raise-some _ key_error q2) in
      (
        ground (arith, i_first, elem-joined w.robot_i first second rest),
        ground (arith, j_second, elem-joined w.robot_j first second rest),
      )

  elem-last :
      (k : ℕ) (first second rest : List ℕ)
      → elem k rest ≡ true
      → elem k (first ++ second ++ rest) ≡ true
  elem-last k first second rest e = ground (arith, e, elem-joined k first second rest)

  elem-components_of :
      (v : GlobalSafetyViolation F) (vs : List (GlobalSafetyViolation F)) (robots : List ℕ)
      → components_of m vs ≡ ok robots
      → Memᴰ v vs
      → (elem v.robot_i robots ≡ true) × (elem v.robot_j robots ≡ true)
  unfolding components_of
  elem-components_of v [] robots h mv = elim mv [ ]
  elem-components_of v (w ∷ ws) robots h mv =
      let (first, q1, h1) =
        >>=-eq-ok (or_raise (component_of w.robot_i m.connected_components) key_error) _ h in
      let (second, q2, h2) =
        >>=-eq-ok (or_raise (component_of w.robot_j m.connected_components) key_error) _ h1 in
      let (rest, q3, h3) = >>=-eq-ok (components_of m ws) _ h2 in
      subst (λ rs. (elem v.robot_i rs ≡ true) × (elem v.robot_j rs ≡ true)) (ok-injective h3)
        (elim (MemD.cases_cons mv) [
          | inl here ↦
              subst
                (λ y.
                  (elem y.robot_i (first ++ second ++ rest) ≡ true)
                  × (elem y.robot_j (first ++ second ++ rest) ≡ true))
                (sym here) (elem-first_two w first second rest q1 q2)
          | inr later ↦
              let (i_rest, j_rest) = elem-components_of v ws rest q3 later in
              (
                elem-last v.robot_i first second rest i_rest,
                elem-last v.robot_j first second rest j_rest,
              )
        ])

  elem-affected_robots :
      (v : GlobalSafetyViolation F) (vs : List (GlobalSafetyViolation F)) (robots : List ℕ) (k : ℕ)
      → affected_robots m vs ≡ ok robots
      → Memᴰ v vs
      → (k ≡ v.robot_i) ⊎ (k ≡ v.robot_j)
      → elem k robots ≡ true
  unfolding affected_robots
  elem-affected_robots v vs robots k h mv named =
      let (raw, q, h1) = >>=-eq-ok (components_of m vs) _ h in
      let (i_in, j_in) = elem-components_of v vs raw q mv in
      let k_in : elem k raw ≡ true = elim named [
        | inl e ↦ subst (λ x. elem x raw ≡ true) (sym e) i_in
        | inr e ↦ subst (λ x. elem x raw ≡ true) (sym e) j_in
      ] in
      subst (λ rs. elem k rs ≡ true) (ok-injective h1)
        (elem-sort_by ltb k (as_set raw) ∙ elem-as_set k raw ∙ k_in)

module _ {F : Type 0} (geometry : Envelopes F) (c : MonitorConfig)
    (build : List (RobotSnapshot F) → Result (ConflictModel F))
    (backend : Option (CpModel → Answer)) where
  -- The decisions, the sources and the affected robots after the override, for a named robot.
  override-pauses :
      (d : TickDraft F) (vs : List (GlobalSafetyViolation F)) (r : Review F)
      (v : GlobalSafetyViolation F) (k : ℕ)
      → override geometry c build backend d vs ≡ ok r
      → Memᴰ v r.initial_violations
      → (k ≡ v.robot_i) ⊎ (k ≡ v.robot_j)
      → (lookup k r.decisions ≡ some pause)
        × (lookup k r.sources ≡ some fail_safe)
        × (elem k r.affected_robots ≡ true)
  unfolding override
  override-pauses d [] r v k h mv named =
      elim (subst (λ x. Memᴰ v x.initial_violations) (sym (ok-injective h)) mv) [ ]
  override-pauses d (w ∷ ws) r v k h mv named =
      let (affected, q1, h1) = >>=-eq-ok (affected_robots d.model (w ∷ ws)) _ h in
      let decisions = put_all pause affected d.preview.decisions in
      let (final, q2, h2) = >>=-eq-ok (validate_global_safety geometry decisions d.ordered) _ h1 in
      let same = ok-injective h2 in
      let mv' = subst (λ x. Memᴰ v x.initial_violations) (sym same) mv in
      let k_in = elem-affected_robots d.model v (w ∷ ws) affected k q1 mv' named in
      subst
        (λ x.
          (lookup k x.decisions ≡ some pause)
          × (lookup k x.sources ≡ some fail_safe)
          × (elem k x.affected_robots ≡ true))
        same
        (
          lookup-put_all pause affected d.preview.decisions k ∙ (rw k_in refl),
          lookup-put_all fail_safe affected d.preview.decision_sources k ∙ (rw k_in refl),
          k_in,
        )

  Mem-override :
      (k : ℕ) (snapshot : RobotSnapshot F) (source : DecisionSource)
      (isolated acquired resumed : Bool)
      → Memᴰ global_safety_override (reason_codes k snapshot source isolated acquired resumed true)
  unfolding reason_codes
  Mem-override k snapshot source isolated acquired resumed = MemD.append_right _ (Memᴰ.head refl)

  module _ (snapshots : List (RobotSnapshot F)) (now_ms tick_id : ℕ) (g : GrantManager)
      (fd : FleetDecision F)
      (decided : (decide geometry c build backend snapshots now_ms tick_id g).0 ≡ ok fd) where
    -- Each of the two robots of a violation that the validator found in the proposed decisions
    -- is sent Pause, from the source FAIL_SAFE and with the code GLOBAL_SAFETY_OVERRIDE.
    pub decide-pauses :
        (v : GlobalSafetyViolation F) (p : RobotDecision)
        → Memᴰ v fd.tick_metadata.initial_global_safety_violations
        → Memᴰ p fd.decisions
        → (p.robot_id ≡ v.robot_i) ⊎ (p.robot_id ≡ v.robot_j)
        → (p.action ≡ pause)
          × (p.decision_source ≡ fail_safe)
          × Memᴰ global_safety_override p.reason_codes
    unfolding tick_metadata review
    decide-pauses v p mv mp named =
        let w = decide-Stages geometry c build backend snapshots now_ms tick_id g fd decided in
        let (each, ids, meta) =
          fleet_decision-parts geometry c build backend w.d w.r w.s tick_id g fd w.reported in
        let (la, ls, _, coded) = All-Mem (IsDecided w.d w.r w.s tick_id) p fd.decisions each mp in
        let (snapshot, codes) = coded in
        let (vs, q, h1) =
          >>=-eq-ok (validate_global_safety geometry w.d.preview.decisions w.d.ordered)
            (override geometry c build backend w.d) w.reviewed in
        let mv' = subst (λ y. Memᴰ v y.initial_global_safety_violations) (sym meta) mv in
        let (a, b, e) = override-pauses w.d vs w.r v p.robot_id h1 mv' named in
        (
          some-injective (sym la ∙ a),
          some-injective (sym ls ∙ b),
          subst (Memᴰ global_safety_override)
              (sym (
                codes
                ∙ ap
                    (λ b.
                      reason_codes p.robot_id snapshot p.decision_source
                        (elem p.robot_id w.d.model.isolated_robots)
                        (elem p.robot_id (acquired_in w.s.grant_result))
                        (is_resumed (lookup p.robot_id w.d.preparation.hard_assignments)) b)
                    e))
              (Mem-override p.robot_id snapshot p.decision_source _ _ _),
        )
