-- ===== src/Conflicts/Graph/Components.antt =====
-- conflicts.decompose_connected_components: the components of the conflict graph.
use robot_fleet_management.Base.{
  All, ℕ, ◌≡◌, refl, ◌∙◌, true, false, ◌||◌, List, [], ◌∷◌, length, any, elem, sorted, Dict, keys,
  ok, arith, Bool-cases, inl, inr, elem-sort_by, ltb,
}
use robot_fleet_management.Conflicts.Graph.{
  neighbours, search, decompose_each, decompose_connected_components,
}
use robot_fleet_management.Conflicts.Graph.Turn.{elem-of_tail, elem-of_cons, only-cons, IsKey}
use robot_fleet_management.Conflicts.Graph.Search.{Listed, IsFresh, Found, search_from-Found}

decompose_each-seen :
    (adjacency : Dict (List ℕ)) (root : ℕ) (roots visited : List ℕ)
    → elem root visited ≡ true
    → decompose_each adjacency (root ∷ roots) visited ≡ decompose_each adjacency roots visited
unfolding decompose_each
decompose_each-seen adjacency root roots visited seen = rw (decompose_each, seen) refl

decompose_each-new :
    (adjacency : Dict (List ℕ)) (root : ℕ) (roots visited found after : List ℕ)
    (groups : List (List ℕ))
    → elem root visited ≡ false
    → search (length adjacency) adjacency (root ∷ []) [] (root ∷ visited) ≡ ok (found, after)
    → decompose_each adjacency roots after ≡ ok groups
    → decompose_each adjacency (root ∷ roots) visited ≡ ok (sorted found ∷ groups)
unfolding decompose_each
decompose_each-new adjacency root roots visited found after groups new e e' =
    rw (decompose_each, new, e, e') refl

-- Each visited robot has all its neighbours among the visited ones.
abbrev Settled : Dict (List ℕ) → List ℕ → Type 0
Settled adjacency visited = (k : ℕ) → elem k visited ≡ true → Listed adjacency visited k

-- The component has with a robot all its neighbours.
abbrev pub Together : Dict (List ℕ) → List ℕ → Type 0
Together adjacency group =
    (k n : ℕ) → elem n (neighbours k adjacency) ≡ true → elem k group ≡ true → elem n group ≡ true

-- No robot is in two groups.
abbrev pub IsApart : List (List ℕ) → Type 0
IsApart [] = Unit
IsApart (group ∷ groups) =
    ((x : ℕ) → elem x group ≡ true → any (elem x) groups ≡ false) × IsApart groups

module _ (adjacency : Dict (List ℕ))
    (closed : (k x : ℕ) → elem x (neighbours k adjacency) ≡ true → elem x (keys adjacency) ≡ true)
    (both_ways : (k x : ℕ)
      → elem x (neighbours k adjacency) ≡ true
      → elem k (neighbours x adjacency) ≡ true) where
  Found-Together :
      (root : ℕ) (visited found after : List ℕ)
      → Settled adjacency visited
      → Found adjacency closed (λ x. elem x visited) (root ∷ visited) found after
      → Together adjacency (sorted found)
  Found-Together root visited found after settled (mono, all_found, fresh, li) k n h g =
      let mine : elem k found ≡ true = ground (arith, elem-sort_by ltb k found) in
      let seen = li k mine n h in
      elim (Bool-cases (elem n visited)) [
        | inl old ↦
            let back = settled n old k (both_ways k n h) in
            absurd (ground (arith, (fresh k mine).1))
        | inr new ↦ ground (arith, all_found n, elem-sort_by ltb n found)
      ]

  Found-Settled :
      (root : ℕ) (visited found after : List ℕ)
      → Settled adjacency visited
      → Found adjacency closed (λ x. elem x visited) (root ∷ visited) found after
      → Settled adjacency after
  Found-Settled root visited found after settled (mono, all_found, fresh, li) k h n g =
      elim (Bool-cases (elem k visited)) [
        | inl old ↦ let next = settled k old n g in mono n (ground arith)
        | inr new ↦ li k (ground (arith, all_found k)) n g
      ]

  still-IsFresh :
      (root : ℕ) (visited found after : List ℕ)
      → Found adjacency closed (λ x. elem x visited) (root ∷ visited) found after
      → (x : ℕ) → IsFresh adjacency closed (λ y. elem y after) x
      → IsFresh adjacency closed (λ y. elem y visited) x
  still-IsFresh root visited found after f x (key, new) = (key, ground (arith, new, f.1 x))

  Found-IsApart :
      (root : ℕ) (visited found after : List ℕ) (groups : List (List ℕ))
      → Found adjacency closed (λ x. elem x visited) (root ∷ visited) found after
      → ((x : ℕ) → any (elem x) groups ≡ true → elem x after ≡ false)
      → (x : ℕ) → elem x (sorted found) ≡ true
      → any (elem x) groups ≡ false
  Found-IsApart root visited found after groups f new x h =
      elim (Bool-cases (any (elem x) groups)) [
        | inl twice ↦ absurd (ground (arith, new x twice, f.1 x, elem-sort_by ltb x found))
        | inr once ↦ once
      ]

  decompose_each_lem :
      (roots visited : List ℕ)
      → ((x : ℕ) → elem x roots ≡ true → IsKey adjacency x)
      → Settled adjacency visited
      → (groups : List (List ℕ)) × (decompose_each adjacency roots visited ≡ ok groups)
        × ((x : ℕ) → any (elem x) groups ≡ true → IsFresh adjacency closed (λ y. elem y visited) x)
        × ((x : ℕ) → elem x roots ≡ true → (elem x visited || any (elem x) groups) ≡ true)
        × IsApart groups
        × All (Together adjacency) groups
  unfolding decompose_each
  decompose_each_lem [] visited known settled =
      ([], refl, (λ x h. absurd (cc)), (λ x h. absurd (cc)), tt, tt)
  decompose_each_lem (root ∷ roots) visited known settled =
      let later = elem-of_tail (IsKey adjacency) root roots known in
      elim (Bool-cases (elem root visited)) [
        | inl seen ↦
            let (groups, e, only, cover, apart, together) =
              decompose_each_lem roots visited later settled in
            (
              groups,
              decompose_each-seen adjacency root roots visited seen ∙ e,
              only,
              elem-of_cons _ root roots (ground arith) cover,
              apart,
              together,
            )
        | inr new ↦
            let (found, after, e, f) =
              search_from-Found adjacency closed root visited (known root (ground arith)) new in
            let (groups, e', only, cover, apart, together) =
              decompose_each_lem roots after later
                (Found-Settled root visited found after settled f) in
            (
              sorted found ∷ groups,
              decompose_each-new adjacency root roots visited found after groups new e e',
              (λ x.
                  only-cons (IsFresh adjacency closed (λ y. elem y visited)) x found groups (f.2 x)
                    λ h. still-IsFresh root visited found after f x (only x h)),
              elem-of_cons _ root roots
                  (ground (arith, f.0 root, f.1 root, elem-sort_by ltb root found))
                  (λ x h. ground (arith, cover x h, f.1 x, elem-sort_by ltb x found)),
              (Found-IsApart root visited found after groups f (λ x h. (only x h).1), apart),
              (Found-Together root visited found after settled f, together),
            )
      ]

  pub decompose_connected_components_lem :
      (groups : List (List ℕ)) × (decompose_connected_components adjacency ≡ ok groups)
      × ((x : ℕ) → any (elem x) groups ≡ elem x (keys adjacency))
      × IsApart groups
      × All (Together adjacency) groups
  unfolding decompose_connected_components
  decompose_connected_components_lem =
      let (groups, e, only, cover, apart, together) =
        decompose_each_lem (sorted (keys adjacency)) []
          (λ x h. ground (arith, elem-sort_by ltb x (keys adjacency))) (λ k h. absurd (cc)) in
      (
        groups,
        e,
        (λ x. elim (Bool-cases (elem x (keys adjacency))) [
          | inl key ↦ ground (arith, cover x, key, elem-sort_by ltb x (keys adjacency))
          | inr other ↦ elim (Bool-cases (any (elem x) groups)) [
            | inl h ↦ absurd (let (key, _) = only x h in ground (arith, key, other))
            | inr h ↦ ground (arith, h, other)
          ]
        ]),
        apart,
        together,
      )
