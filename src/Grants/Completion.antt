-- ===== src/Grants/Completion.antt =====
-- What `_grant_group_has_safe_completion` finds: an admissible plan that resumes the whole group.
use robot_fleet_management.Base.{
  ℕ, ◌≡◌, refl, sym, ◌∙◌, true, false, &&-true, if◌then◌else◌, ◌==◌, ==_iff, List, [], ◌∷◌, any,
  elem, distinct, sorted, some, Dict, lookup, insert, lookup-insert, keys, distinct-keys-insert, ok,
  subst, >>=-eq-ok, ok-injective, All, All-of_elem, arith, Bool-cases, inl, inr,
}
use robot_fleet_management.Models.{Action, pause, resume}
use robot_fleet_management.Config.{MonitorConfig}
use robot_fleet_management.Conflicts.Model.{ConflictModel, component_constraints}
use robot_fleet_management.Heuristic.Clause.{Plan}
use robot_fleet_management.Heuristic.Clauses.{IsSafe}
use robot_fleet_management.Heuristic.Solve.{solve}
use robot_fleet_management.Heuristic.Solve.Complete.{Follows}
use robot_fleet_management.Heuristic.Solve.Passed.{solve-IsReady}
use robot_fleet_management.Heuristic.Solve.Liveness.{solve-CanProgress}
use robot_fleet_management.Grants.Group.{
  put_all, neutral_priorities, unavailable, complete_group, has_safe_completion,
}

pub lookup-put_all {ℓ} :
    {V : Type ℓ} (v : V) (rs : List ℕ) (d : Dict V) (r : ℕ)
    → lookup r (put_all v rs d) ≡ (if elem r rs then some v else lookup r d)
unfolding put_all
lookup-put_all v [] d r = refl
lookup-put_all v (k ∷ rs) d r =
    ground (arith, lookup-put_all v rs (insert k v d) r, lookup-insert k r v d)

distinct-keys-put_all {ℓ} :
    {V : Type ℓ} (v : V) (rs : List ℕ) (d : Dict V)
    → distinct (keys d) ≡ true
    → distinct (keys (put_all v rs d)) ≡ true
unfolding put_all
distinct-keys-put_all v [] d h = h
distinct-keys-put_all v (k ∷ rs) d h =
    distinct-keys-put_all v rs (insert k v d) (distinct-keys-insert k v d h)

Follows-some :
    (plan : Plan) (hard : Dict Action) (r : ℕ) (a : Action)
    → Follows plan hard
    → lookup r hard ≡ some a
    → plan r ≡ a
unfolding lookup
Follows-some plan [] r a h e = absurd (cc)
Follows-some plan ((k, b) ∷ hard) r a h e = elim (Bool-cases (k == r)) [
  | inl here ↦ let same = (==_iff k r).0 here in ground (arith, h.0, same)
  | inr other ↦ Follows-some plan hard r a h.1 (ground arith)
]

any-elem :
    (group blocked : List ℕ) (r : ℕ)
    → any (λ k. elem k group) blocked ≡ false
    → elem r blocked ≡ true
    → elem r group ≡ false
any-elem group [] r h e = absurd (cc)
any-elem group (k ∷ blocked) r h e = elim (Bool-cases (k == r)) [
  | inl here ↦ let same = (==_iff k r).0 here in ground (arith, same)
  | inr other ↦ any-elem group blocked r (ground arith) (ground arith)
]

module _ {F : Type 0} (c : MonitorConfig) (m : ConflictModel F) where
  -- Where a group of grants is found to have a safe completion, some plan is safe on the
  -- component, resumes the whole group, and pauses every stale or arrived robot.
  pub has_safe_completion-plan :
      (component group : List ℕ)
      → has_safe_completion c m component group ≡ ok true
      → (plan : Plan) × IsSafe plan (component_constraints (sorted component) m)
        × All (λ r. plan r ≡ resume) group
        × ((blocked : List ℕ) × (unavailable m component ≡ ok blocked)
            × All (λ r. plan r ≡ pause) blocked)
  unfolding has_safe_completion complete_group
  has_safe_completion-plan component group e =
      let (blocked, made, e1) = >>=-eq-ok (unavailable m component) _ e in
      elim (Bool-cases (any (λ r. elem r group) blocked)) [
        | inl clash ↦ absurd (ground arith)
        | inr free ↦
            let tried : complete_group c m component group blocked ≡ ok true =
              ground (arith, free, e1) in
            let (priorities, _, e2) = >>=-eq-ok (neutral_priorities component) _ tried in
            let hard = put_all resume group (put_all pause blocked []) in
            let (result, solved, e3) = >>=-eq-ok (solve c component m priorities hard) _ e2 in
            let unique =
              distinct-keys-put_all resume group (put_all pause blocked [])
                (distinct-keys-put_all pause blocked [] refl) in
            let (objective, ready) =
              solve-IsReady c component m priorities hard result unique solved in
            let (r, solved', progress) =
              solve-CanProgress c component m priorities hard objective ready in
            let moving : r.progress_made ≡ true =
              subst (λ x. x.progress_made ≡ true) (ok-injective (sym solved ∙ solved'))
                (&&-true result.feasible result.progress_made (ok-injective e3)).1 in
            let (plan, (safe, follows), _) = progress.0 moving in
            let look = λ (k : ℕ). lookup-put_all resume group (put_all pause blocked []) k in
            let look' = λ (k : ℕ). lookup-put_all pause blocked [] k in
            (
              plan,
              safe,
              All-of_elem (λ k. plan k ≡ resume) group
                  (λ k h. Follows-some plan hard k resume follows (ground (arith, look k))),
              (
                blocked,
                made,
                All-of_elem (λ k. plan k ≡ pause) blocked
                    (λ k h.
                      let outside = any-elem group blocked k free h in
                      Follows-some plan hard k pause follows (ground (arith, look k, look' k))),
              ),
            )
      ]
