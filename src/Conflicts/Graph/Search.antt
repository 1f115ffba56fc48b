-- ===== src/Conflicts/Graph/Search.antt =====
-- One search of conflicts.decompose_connected_components: it ends within its fuel, one turn for each
-- robot, and its component keeps the neighbours of its robots.
use robot_fleet_management.Base.{
  ℕ, zero, suc, ◌+◌, ◌≤◌, ◌≡◌, refl, Bool, true, false, not, ◌&&◌, ◌||◌, List, [], ◌∷◌, ◌++◌,
  length, elem, sorted, some, Dict, lookup, lookup-of_elem, keys, length-keys, ok, arith,
  Bool-cases, inl, inr, elem-sort_by, ltb,
}
use robot_fleet_management.Conflicts.Graph.{neighbours, search}
use robot_fleet_management.Conflicts.Graph.Turn.{
  unseen, unseen-le, unseen-lt, turn-inv, elem-of_tail, elem-of_snoc, IsKey, enqueue_lem, Queued,
}

-- Each robot of the component has all its neighbours among the visited ones.
abbrev pub Listed : Dict (List ℕ) → List ℕ → ℕ → Type 0
Listed adjacency visited k =
    (n : ℕ) → elem n (neighbours k adjacency) ≡ true → elem n visited ≡ true

module _ (adjacency : Dict (List ℕ))
    (closed : (k x : ℕ)
      → elem x (neighbours k adjacency) ≡ true
      → elem x (keys adjacency) ≡ true) where
  sorted_neighbours :
      (r : ℕ) (ns : List ℕ)
      → lookup r adjacency ≡ some ns
      → (x : ℕ) → elem x (sorted ns) ≡ true
      → elem x (keys adjacency) ≡ true
  sorted_neighbours r ns listed x h = closed r x (ground (arith, listed, elem-sort_by ltb x ns))

  module _ (earlier : ℕ → Bool) where
    -- A robot of the adjacency that no earlier component has.
    abbrev pub IsFresh : ℕ → Type 0
    IsFresh x = IsKey adjacency x × (earlier x ≡ false)

    abbrev pub Fresh : List ℕ → Type 0
    Fresh rs = (x : ℕ) → elem x rs ≡ true → IsFresh x

    -- What a search keeps: visited are the robots of the earlier components, of this one and of the
    -- queue.
    abbrev Searching : List ℕ → List ℕ → List ℕ → Type 0
    Searching queue component visited =
        Fresh queue
        × Fresh component
        × ((x : ℕ) → elem x visited ≡ (earlier x || (elem x component || elem x queue)))
        × ((k : ℕ) → elem k component ≡ true → Listed adjacency visited k)

    -- What it returns: the robots visited at its start are visited, the others are its component's.
    abbrev pub Found : List ℕ → List ℕ → List ℕ → Type 0
    Found before component visited =
        ((x : ℕ) → elem x before ≡ true → elem x visited ≡ true)
        × ((x : ℕ) → elem x visited ≡ (earlier x || elem x component))
        × Fresh component
        × ((k : ℕ) → elem k component ≡ true → Listed adjacency visited k)

    queued-IsFresh :
        (ns visited queue next : List ℕ) (x : ℕ)
        → (earlier x ≡ true → elem x visited ≡ true)
        → (elem x queue ≡ true → IsFresh x)
        → (elem x ns ≡ true → IsKey adjacency x)
        → elem x next ≡ (elem x queue || (elem x ns && not (elem x visited)))
        → elem x next ≡ true
        → IsFresh x
    queued-IsFresh ns visited queue next x seen old known q h = elim (Bool-cases (elem x queue)) [
      | inl queued ↦ old queued
      | inr other ↦ (
        known (ground arith),
        elim (Bool-cases (earlier x)) [ inl e ↦ absurd (ground (arith, seen e)) | inr e ↦ e ],
      )
    ]

    turn-Searching :
        (r : ℕ) (ns queue component visited after next : List ℕ)
        → lookup r adjacency ≡ some ns
        → Searching (r ∷ queue) component visited
        → Queued adjacency (sorted ns) visited queue after next
        → Searching next (component ++ r ∷ []) after
    turn-Searching r ns queue component visited after next listed (fq, fc, inv, li) (v, q, m) = (
      (λ x.
          queued-IsFresh (sorted ns) visited queue next x (λ e. ground (arith, inv x))
            (elem-of_tail IsFresh r queue fq x) (sorted_neighbours r ns listed x) (q x)),
      elem-of_snoc IsFresh r component (fq r (ground arith)) fc,
      (λ x.
          turn-inv earlier r x (sorted ns) queue component visited after next (inv x) (v x) (q x)),
      elem-of_snoc (Listed adjacency after) r component
          (λ n h. ground (arith, v n, listed, elem-sort_by ltb n ns))
          (λ k h n g. ground (arith, v n, li k h n g)),
    )

    search_lem :
        (fuel : ℕ) (queue component visited : List ℕ)
        → unseen (keys adjacency) visited + length queue ≤ fuel
        → Searching queue component visited
        → (found after : List ℕ) × (search fuel adjacency queue component visited
            ≡ ok (found, after))
          × Found visited found after
    unfolding search
    search_lem zero [] component visited m (fq, fc, inv, li) =
        (component, visited, refl, ((λ x h. h), (λ x. ground (arith, inv x)), fc, li))
    search_lem (suc fuel) [] component visited m (fq, fc, inv, li) =
        (component, visited, refl, ((λ x h. h), (λ x. ground (arith, inv x)), fc, li))
    search_lem zero (r ∷ queue) component visited m s = absurd (omega (arith, m))
    search_lem (suc fuel) (r ∷ queue) component visited m s =
        let (ns, listed) = lookup-of_elem r adjacency (s.0 r (ground arith)).0 in
        let (after, next, e, w) =
          enqueue_lem adjacency (sorted ns) visited queue (sorted_neighbours r ns listed) in
        let (found, last, e', (mono, all_found, fresh, li)) =
          search_lem fuel next (component ++ r ∷ []) after (omega (arith, m, w.2))
            (turn-Searching r ns queue component visited after next listed s w) in
        (
          found,
          last,
          rw (listed, e) e',
          ((λ x h. mono x (ground (arith, w.0 x))), all_found, fresh, li),
        )

  pub search_from-Found :
      (root : ℕ) (visited : List ℕ)
      → elem root (keys adjacency) ≡ true
      → elem root visited ≡ false
      → (found after : List ℕ) × (search
            (length adjacency)
            adjacency
            (root ∷ [])
            []
            (root ∷ visited)
          ≡ ok (found, after))
        × Found (λ x. elem x visited) (root ∷ visited) found after
  search_from-Found root visited key new =
      search_lem (λ x. elem x visited) (length adjacency) (root ∷ []) [] (root ∷ visited)
        (omega (
          arith,
          unseen-lt root (keys adjacency) visited key new,
          unseen-le (keys adjacency) visited,
          length-keys adjacency,
        ))
        (
          elem-of_snoc (IsFresh (λ x. elem x visited)) root [] (key, new) (λ x h. absurd (cc)),
          (λ x h. absurd (cc)),
          (λ x. ground arith),
          λ k h. absurd (cc),
        )
