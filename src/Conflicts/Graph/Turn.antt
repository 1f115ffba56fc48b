-- ===== src/Conflicts/Graph/Turn.antt =====
-- One turn of the search in conflicts.decompose_connected_components: the neighbours of a robot.
use robot_fleet_management.Base.{
  ℕ, ◌+◌, ◌≤◌, ◌≡◌, refl, sym, ◌∙◌, Bool, true, false, not, ◌&&◌, ◌||◌, ◌==◌, List, [], ◌∷◌, ◌++◌,
  length, any, elem, sorted, keep_if, elem-append, subst, Dict, keys, ok, arith, Bool-cases, ==_iff,
  inl, inr, elem-sort_by, length-append, ltb,
}
use robot_fleet_management.Conflicts.Graph.{enqueue}

-- The robots of a list that were not visited.
abbrev pub unseen : List ℕ → List ℕ → ℕ
unseen ks visited = length (keep_if (λ k. not (elem k visited)) ks)

pub unseen-le : (ks visited : List ℕ) → unseen ks visited ≤ length ks
unseen-le [] visited = omega arith
unseen-le (k ∷ ks) visited = ground (arith, unseen-le ks visited)

unseen-visit : (n : ℕ) (ks visited : List ℕ) → unseen ks (n ∷ visited) ≤ unseen ks visited
unseen-visit n [] visited = omega arith
unseen-visit n (k ∷ ks) visited = ground (arith, unseen-visit n ks visited)

pub unseen-lt :
    (n : ℕ) (ks visited : List ℕ)
    → elem n ks ≡ true
    → elem n visited ≡ false
    → unseen ks (n ∷ visited) + 1 ≤ unseen ks visited
unseen-lt n [] visited h g = absurd (cc)
unseen-lt n (k ∷ ks) visited h g = elim (Bool-cases (n == k)) [
  | inl here ↦ ground (arith, unseen-visit n ks visited)
  | inr other ↦ ground (arith, unseen-lt n ks visited)
]

queued-seen :
    (n x : ℕ) (ns visited queue : List ℕ)
    → elem n visited ≡ true
    → (elem x queue || (elem x ns && not (elem x visited)))
      ≡ (elem x queue || (elem x (n ∷ ns) && not (elem x visited)))
queued-seen n x ns visited queue h = elim (Bool-cases (x == n)) [
  | inl here ↦ let same = (==_iff x n).0 here in ground (arith, same)
  | inr other ↦ ground arith
]

visited-seen :
    (n x : ℕ) (ns visited : List ℕ)
    → elem n visited ≡ true
    → (elem x visited || elem x ns) ≡ (elem x visited || elem x (n ∷ ns))
visited-seen n x ns visited h = elim (Bool-cases (x == n)) [
  | inl here ↦ let same = (==_iff x n).0 here in ground (arith, same)
  | inr other ↦ ground arith
]

queued-new :
    (n x : ℕ) (ns visited queue : List ℕ)
    → elem n visited ≡ false
    → (elem x (queue ++ n ∷ []) || (elem x ns && not (elem x (n ∷ visited))))
      ≡ (elem x queue || (elem x (n ∷ ns) && not (elem x visited)))
queued-new n x ns visited queue h = elim (Bool-cases (x == n)) [
  | inl here ↦ let same = (==_iff x n).0 here in ground (arith, same, elem-append x queue (n ∷ []))
  | inr other ↦ ground (arith, elem-append x queue (n ∷ []))
]

pub turn-inv :
    (earlier : ℕ → Bool) (r x : ℕ) (ns queue component visited after next : List ℕ)
    → elem x visited ≡ (earlier x || (elem x component || elem x (r ∷ queue)))
    → elem x after ≡ (elem x visited || elem x ns)
    → elem x next ≡ (elem x queue || (elem x ns && not (elem x visited)))
    → elem x after ≡ (earlier x || (elem x (component ++ r ∷ []) || elem x next))
turn-inv earlier r x ns queue component visited after next inv v q =
    ground (arith, inv, v, q, elem-append x component (r ∷ []))

module _ (P : ℕ → Type 0) where
  pub elem-of_tail :
      (r : ℕ) (queue : List ℕ)
      → ((x : ℕ) → elem x (r ∷ queue) ≡ true → P x)
      → (x : ℕ) → elem x queue ≡ true
      → P x
  elem-of_tail r queue h x e = h x (ground arith)

  pub elem-of_cons :
      (r : ℕ) (queue : List ℕ)
      → P r
      → ((x : ℕ) → elem x queue ≡ true → P x)
      → (x : ℕ) → elem x (r ∷ queue) ≡ true
      → P x
  elem-of_cons r queue h hs x e = elim (Bool-cases (x == r)) [
    | inl here ↦ subst P (sym ((==_iff x r).0 here)) h
    | inr other ↦ hs x (ground arith)
  ]

  pub only-cons :
      (x : ℕ) (found : List ℕ) (groups : List (List ℕ))
      → (elem x found ≡ true → P x)
      → (any (elem x) groups ≡ true → P x)
      → any (elem x) (sorted found ∷ groups) ≡ true
      → P x
  only-cons x found groups hf hg h = elim (Bool-cases (elem x found)) [
    | inl here ↦ hf here
    | inr other ↦ hg (ground (arith, elem-sort_by ltb x found))
  ]

  pub elem-of_next :
      (ns visited queue next : List ℕ) (x : ℕ)
      → (elem x queue ≡ true → P x)
      → (elem x ns ≡ true → P x)
      → elem x next ≡ (elem x queue || (elem x ns && not (elem x visited)))
      → elem x next ≡ true
      → P x
  elem-of_next ns visited queue next x hq hn q e = elim (Bool-cases (elem x queue)) [
    | inl queued ↦ hq queued
    | inr other ↦ hn (ground arith)
  ]

  pub elem-of_snoc :
      (r : ℕ) (component : List ℕ)
      → P r
      → ((x : ℕ) → elem x component ≡ true → P x)
      → (x : ℕ) → elem x (component ++ r ∷ []) ≡ true
      → P x
  elem-of_snoc r component h hc x e = elim (Bool-cases (elem x component)) [
    | inl old ↦ hc x old
    | inr other ↦
        let same : x ≡ r = ground (arith, elem-append x component (r ∷ [])) in subst P (sym same) h
  ]

module _ (adjacency : Dict (List ℕ)) where
  abbrev pub IsKey : ℕ → Type 0
  IsKey x = elem x (keys adjacency) ≡ true

  -- What a turn adds: each neighbour is visited and was visited before or is queued, and for each
  -- robot that is queued one fewer is unseen.
  abbrev pub Queued : List ℕ → List ℕ → List ℕ → List ℕ → List ℕ → Type 0
  Queued ns visited queue after next =
      ((x : ℕ) → elem x after ≡ (elem x visited || elem x ns))
      × ((x : ℕ) → elem x next ≡ (elem x queue || (elem x ns && not (elem x visited))))
      × (unseen (keys adjacency) after + length next
          ≤ unseen (keys adjacency) visited + length queue)

  pub enqueue_lem :
      (ns visited queue : List ℕ)
      → ((x : ℕ) → elem x ns ≡ true → elem x (keys adjacency) ≡ true)
      → (after next : List ℕ) × (enqueue adjacency ns visited queue ≡ ok (after, next))
        × Queued ns visited queue after next
  unfolding enqueue
  enqueue_lem [] visited queue known =
      (visited, queue, refl, ((λ x. ground arith), (λ x. ground arith), omega arith))
  enqueue_lem (n ∷ ns) visited queue known =
      let key = known n (ground arith) in
      let later = λ (x : ℕ) (h : elem x ns ≡ true). known x (ground arith) in
      elim (Bool-cases (elem n visited)) [
        | inl seen ↦
            let (after, next, e, (v, q, m)) = enqueue_lem ns visited queue later in
            (
              after,
              next,
              rw (key, seen) e,
              (
                (λ x. v x ∙ visited-seen n x ns visited seen),
                (λ x. q x ∙ queued-seen n x ns visited queue seen),
                m,
              ),
            )
        | inr new ↦
            let (after, next, e, (v, q, m)) =
              enqueue_lem ns (n ∷ visited) (queue ++ n ∷ []) later in
            (
              after,
              next,
              rw (key, new) e,
              (
                (λ x. ground (arith, v x)),
                (λ x. q x ∙ queued-new n x ns visited queue new),
                omega (
                  arith,
                  m,
                  unseen-lt n (keys adjacency) visited key new,
                  length-append queue (n ∷ []),
                ),
              ),
            )
      ]
