-- ===== src/Heuristic/Solve/Ranking.antt =====
-- The rankings of `solve` and `_repair_pass` list exactly the component's robots.
use robot_fleet_management.Base.{
  ℕ, ◌+◌, ◌≡◌, refl, ap, true, &&-true, ◌==◌, List, [], ◌∷◌, map, all, elem, some, Dict,
  lookup-of_elem, keys, ok, arith, inl, inr, Bool-cases, elem-map-sort_by,
}
use robot_fleet_management.Priority.{PriorityBreakdown}
use robot_fleet_management.Heuristic.Solve.{
  Ranked, ranks_before, by_coefficient, by_clearance, index_of, in_order,
}

abbrev ids_of : List Ranked → List ℕ
ids_of keyed = map (λ k. k.robot_id) keyed

pub elem-in_order : (k : ℕ) (keyed : List Ranked) → elem k (in_order keyed) ≡ elem k (ids_of keyed)
unfolding in_order
elem-in_order k keyed = elem-map-sort_by (λ x. x.robot_id) ranks_before k keyed

index_of_lem : (i r : ℕ) (xs : List ℕ) → elem r xs ≡ true → (j : ℕ) × (index_of i r xs ≡ some j)
unfolding index_of
index_of_lem i r [] h = absurd (cc)
index_of_lem i r (x ∷ xs) h = elim (Bool-cases (x == r)) [
  | inl here ↦ (i, rw here)
  | inr other ↦ rw other (index_of_lem (i + 1) r xs (ground arith))
]

pub by_clearance_lem :
    (priorities : Dict PriorityBreakdown) (ranked rs : List ℕ)
    → all (λ r. elem r (keys priorities)) rs ≡ true
    → all (λ r. elem r ranked) rs ≡ true
    → (keyed : List Ranked) × (by_clearance priorities ranked rs ≡ ok keyed) × (ids_of keyed ≡ rs)
unfolding by_clearance
by_clearance_lem priorities ranked [] h g = ([], refl, refl)
by_clearance_lem priorities ranked (r ∷ rs) h g =
    let (h', rest) =
      &&-true (elem r (keys priorities)) (all (λ k. elem k (keys priorities)) rs) h in
    let (g', rest') = &&-true (elem r ranked) (all (λ k. elem k ranked) rs) g in
    let (score, found) = lookup-of_elem r priorities h' in
    let (index, e) = index_of_lem 0 r ranked g' in
    let (keyed, made, same) = by_clearance_lem priorities ranked rs rest rest' in
    (
      record { first_key = score.clearance_conflict_count; second_key = index; robot_id = r }
          ∷ keyed,
      rw (found, by_clearance, e, made) refl,
      ap (◌∷◌ r) same,
    )

pub by_coefficient_lem :
    (coefficients : Dict ℕ) (rs : List ℕ)
    → all (λ r. elem r (keys coefficients)) rs ≡ true
    → (keyed : List Ranked) × (by_coefficient coefficients rs ≡ ok keyed) × (ids_of keyed ≡ rs)
unfolding by_coefficient
by_coefficient_lem coefficients [] h = ([], refl, refl)
by_coefficient_lem coefficients (r ∷ rs) h =
    let (h', rest) =
      &&-true (elem r (keys coefficients)) (all (λ k. elem k (keys coefficients)) rs) h in
    let (coefficient, found) = lookup-of_elem r coefficients h' in
    let (keyed, made, same) = by_coefficient_lem coefficients rs rest in
    (
      record { first_key = coefficient; second_key = 0; robot_id = r } ∷ keyed,
      rw (found, by_coefficient, made) refl,
      ap (◌∷◌ r) same,
    )
