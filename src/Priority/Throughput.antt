-- ===== src/Priority/Throughput.antt =====
-- Throughput comes first: one more resumed robot outweighs every secondary term of a component.
use robot_fleet_management.Base.{
  ℕ, suc, ◌+◌, ◌*◌, ◌≤◌, ◌<◌, ◌≡◌, subst, Bool, true, List, [], ◌∷◌, length, elem, distinct, all,
  sorted, some, Dict, lookup, lookup-insert, insert, keys, ok, >>=-eq-ok, ok-injective, or_raise,
  require, value_error, length-sort_by, length-le_of_elem, elem-all, ltb, key_error, arith,
}
use robot_fleet_management.Config.{MonitorConfig}
use robot_fleet_management.Models.{RobotSnapshot}
use robot_fleet_management.Conflicts.Pairs.{PairwiseCompatibility}
use robot_fleet_management.Conflicts.Model.{ConflictModel, component_constraints}
use robot_fleet_management.Priority.Score.{
  PriorityBreakdown, per_robot, score_robot_priority, score_each, score_component_priorities,
  sum_final, resumed_objective_value,
}

-- A final score is the component's throughput reward and a secondary part within its bound.
abbrev IsScored : ℕ → MonitorConfig → PriorityBreakdown → Type 0
IsScored size c s =
    (size * per_robot size c + 1 ≤ s.final_score)
    × (s.final_score ≤ size * per_robot size c + 1 + per_robot size c)

score_robot_priority-IsScored :
    {F : Type 0} (snapshot : RobotSnapshot F) (pairs : List (PairwiseCompatibility F))
    (c : MonitorConfig) (now age : ℕ) (grant : Bool) (size : ℕ) (s : PriorityBreakdown)
    → score_robot_priority snapshot pairs c now age grant size ≡ ok s
    → IsScored size c s
unfolding score_robot_priority
score_robot_priority-IsScored snapshot pairs c now age grant size s e = ground arith

abbrev AllScored : ℕ → MonitorConfig → Dict PriorityBreakdown → Type 0
AllScored size c scores =
    (r : ℕ) (s : PriorityBreakdown) → lookup r scores ≡ some s → IsScored size c s

score_each-AllScored :
    {F : Type 0} (m : ConflictModel F) (pairs : List (PairwiseCompatibility F)) (c : MonitorConfig)
    (now : ℕ) (ages : Dict ℕ) (grants : List ℕ) (size : ℕ) (rs : List ℕ)
    (scores out : Dict PriorityBreakdown)
    → AllScored size c scores
    → score_each m pairs c now ages grants size rs scores ≡ ok out
    → AllScored size c out
unfolding score_each
score_each-AllScored m pairs c now ages grants size [] scores out h e =
    subst (AllScored size c) (ok-injective e) h
score_each-AllScored m pairs c now ages grants size (r ∷ rs) scores out h e =
    let (snapshot, _, e₁) = >>=-eq-ok (or_raise (lookup r m.snapshots) key_error) _ e in
    let (age, _, e₂) = >>=-eq-ok (or_raise (lookup r ages) key_error) _ e₁ in
    let (s, scored, rest) =
      >>=-eq-ok (score_robot_priority snapshot pairs c now age (elem r grants) size) _ e₂ in
    let new =
      score_robot_priority-IsScored snapshot pairs c now age (elem r grants) size s scored in
    score_each-AllScored m pairs c now ages grants size rs (insert r s scores) out
      (λ k t found. let old = h k t in ground (arith, lookup-insert r k s scores)) rest

one_more :
    (low high n x rest : ℕ)
    → low ≤ x
    → x ≤ high
    → n * low ≤ rest
    → rest ≤ n * high
    → (suc n * low ≤ x + rest) × (x + rest ≤ suc n * high)
one_more low high n x rest h₁ h₂ h₃ h₄ = omega arith

sum_final_bounds :
    (size : ℕ) (c : MonitorConfig) (scores : Dict PriorityBreakdown)
    → AllScored size c scores
    → (rs : List ℕ) (v : ℕ) → sum_final scores rs ≡ ok v
    → (length rs * (size * per_robot size c + 1) ≤ v)
      × (v ≤ length rs * (size * per_robot size c + 1 + per_robot size c))
unfolding sum_final
sum_final_bounds size c scores h [] v e = ground arith
sum_final_bounds size c scores h (r ∷ rs) v e =
    let (s, found, e₁) = >>=-eq-ok (or_raise (lookup r scores) key_error) _ e in
    let (rest, summed, e₂) = >>=-eq-ok (sum_final scores rs) _ e₁ in
    let (low, high) = sum_final_bounds size c scores h rs rest summed in
    let (low', high') = h r s (ground arith) in
    subst
      (λ t.
        (suc (length rs) * (size * per_robot size c + 1) ≤ t)
        × (t ≤ suc (length rs) * (size * per_robot size c + 1 + per_robot size c)))
      (ok-injective e₂)
      (one_more (size * per_robot size c + 1) (size * per_robot size c + 1 + per_robot size c)
        (length rs) s.final_score rest low' high' low high)

mul_mono : (a b k : ℕ) → a ≤ b → a * k ≤ b * k
mul_mono a b k h = grind arith

dominates :
    (size few more secondary low high : ℕ)
    → few < more
    → more ≤ size
    → low ≤ few * (size * secondary + 1 + secondary)
    → more * (size * secondary + 1) ≤ high
    → low < high
dominates size few more secondary low high h₁ h₂ h₃ h₄ = omega (
  arith,
  mul_mono few size secondary (omega arith),
  mul_mono (suc few) more (size * secondary + 1) h₁,
  h₃,
  h₄,
)

scored_parts :
    {F : Type 0} (component : List ℕ) (m : ConflictModel F) (c : MonitorConfig) (now : ℕ)
    (ages : Dict ℕ) (grants : List ℕ) (scores : Dict PriorityBreakdown)
    → score_component_priorities component m c now ages grants ≡ ok scores
    → score_each m
        (component_constraints (sorted component) m)
        c
        now
        ages
        grants
        (length (sorted component))
        (sorted component)
        []
      ≡ ok scores
unfolding score_component_priorities
scored_parts component m c now ages grants scores e = ground arith

summed_parts :
    (scores : Dict PriorityBreakdown) (rs : List ℕ) (v : ℕ)
    → resumed_objective_value scores rs ≡ ok v
    → sum_final scores rs ≡ ok v
unfolding resumed_objective_value
summed_parts scores rs v e =
    (>>=-eq-ok (require (all (λ r. elem r (keys scores)) rs) value_error) _ e).2

-- Where a component has been scored, a list of distinct robots of it that has an objective value
-- has a larger one than every shorter list of robots that has one.
pub resumed_objective_value_throughput :
    {F : Type 0} (component : List ℕ) (m : ConflictModel F) (c : MonitorConfig) (now : ℕ)
    (ages : Dict ℕ) (grants : List ℕ) (scores : Dict PriorityBreakdown) (few more : List ℕ)
    (low high : ℕ)
    → score_component_priorities component m c now ages grants ≡ ok scores
    → distinct more ≡ true
    → all (λ r. elem r component) more ≡ true
    → length few < length more
    → resumed_objective_value scores few ≡ ok low
    → resumed_objective_value scores more ≡ ok high
    → low < high
resumed_objective_value_throughput component m c now ages grants scores few more low high scored d
      inside less e₁ e₂ =
    dominates size (length few) (length more) (per_robot size c) low high less fits
      (sum_final_bounds size c scores all_scored few low (summed_parts scores few low e₁)).1
      (sum_final_bounds size c scores all_scored more high (summed_parts scores more high e₂)).0
  where
    size : ℕ
    size = length (sorted component)

    all_scored : AllScored size c scores
    all_scored =
        score_each-AllScored m (component_constraints (sorted component) m) c now ages grants size
          (sorted component) [] scores (λ r s found. absurd (unfold lookup in cc))
          (scored_parts component m c now ages grants scores scored)

    fits : length more ≤ size
    fits = rw (length-sort_by ltb component) (
        length-le_of_elem more component d
          (λ k h. elem-all (λ r. elem r component) k more inside h))
