-- ===== src/Base/Increasing.antt =====
-- Lists in the order of a key: sorting orders them, strictly where no key is repeated.
use Prim.Native.Nat.{ℕ, ◌<◌, ◌≤◌}
use mathlib.Core.Path.{◌≡◌, refl, sym, ap, ◌∙◌, subst}
use mathlib.Core.Bool.{Bool, false, ◌||◌}
use mathlib.Core.List.{List, [], ◌∷◌, map, Memᴰ}
use mathlib.Core.Logic.{inl, inr}
use native.Mathlib.Omega.{arith}
use robot_fleet_management.Base.Tests.{◌==◌, ltb, Bool-cases, if-either}
use robot_fleet_management.Base.Lists.{All, All-map}
use robot_fleet_management.Base.Sort.{insert_by, sort_by}

-- Whether two entries that follow each other are equal.
unfoldable pub repeats : List ℕ → Bool
repeats [] = false
repeats (x ∷ []) = false
repeats (x ∷ y ∷ ys) = x == y || repeats (y ∷ ys)

module _ {ℓ} {A : Type ℓ} where
  pub All-Mem {κ} : (P : A → Type κ) (x : A) (xs : List A) → All P xs → Memᴰ x xs → P x
  All-Mem P x [] h m = elim m [ ]
  All-Mem P x (y ∷ ys) h (Memᴰ.head e) = subst P (sym e) h.0
  All-Mem P x (y ∷ ys) h (Memᴰ.tail m) = All-Mem P x ys h.1 m

  Mem-insert_by-here :
      (before : A → A → Bool) (x y : A) (ys : List A) → x ≡ y → Memᴰ x (insert_by before y ys)
  unfolding insert_by
  Mem-insert_by-here before x y [] e = Memᴰ.head e
  Mem-insert_by-here before x y (z ∷ zs) e =
      if-either (Memᴰ x) (before z y) (Memᴰ.tail (Mem-insert_by-here before x y zs e)) (Memᴰ.head e)

  Mem-insert_by :
      (before : A → A → Bool) (x y : A) (ys : List A) → Memᴰ x ys → Memᴰ x (insert_by before y ys)
  unfolding insert_by
  Mem-insert_by before x y [] m = elim m [ ]
  Mem-insert_by before x y (z ∷ zs) (Memᴰ.head e) =
      if-either (Memᴰ x) (before z y) (Memᴰ.head e) (Memᴰ.tail (Memᴰ.head e))
  Mem-insert_by before x y (z ∷ zs) (Memᴰ.tail m) =
      if-either (Memᴰ x) (before z y) (Memᴰ.tail (Mem-insert_by before x y zs m))
        (Memᴰ.tail (Memᴰ.tail m))

  pub Mem-sort_by :
      (before : A → A → Bool) (x : A) (xs : List A) → Memᴰ x xs → Memᴰ x (sort_by before xs)
  unfolding sort_by
  Mem-sort_by before x [] m = elim m [ ]
  Mem-sort_by before x (y ∷ ys) (Memᴰ.head e) = Mem-insert_by-here before x y (sort_by before ys) e
  Mem-sort_by before x (y ∷ ys) (Memᴰ.tail m) =
      Mem-insert_by before x y (sort_by before ys) (Mem-sort_by before x ys m)

  All-insert_by {κ} :
      (P : A → Type κ) (before : A → A → Bool) (x : A) (ys : List A)
      → P x
      → All P ys
      → All P (insert_by before x ys)
  unfolding insert_by
  All-insert_by P before x [] p h = (p, tt)
  All-insert_by P before x (y ∷ ys) p h =
      if-either (All P) (before y x) (h.0, All-insert_by P before x ys p h.1) (p, h)

  pub All-sort_by {κ} :
      (P : A → Type κ) (before : A → A → Bool) (xs : List A) → All P xs → All P (sort_by before xs)
  unfolding sort_by
  All-sort_by P before [] h = tt
  All-sort_by P before (x ∷ xs) h =
      All-insert_by P before x (sort_by before xs) h.0 (All-sort_by P before xs h.1)

module _ {ℓ} {A : Type ℓ} (key : A → ℕ) where
  abbrev IsSorted : List A → Type 0
  IsSorted [] = Unit
  IsSorted (x ∷ xs) = All (λ y. key x ≤ key y) xs × IsSorted xs

  abbrev pub IsIncreasing : List A → Type 0
  IsIncreasing [] = Unit
  IsIncreasing (x ∷ xs) = All (λ y. key x < key y) xs × IsIncreasing xs

  abbrev pub before_key : A → A → Bool
  before_key a b = ltb (key a) (key b)

  insert_by-IsSorted : (x : A) (ys : List A) → IsSorted ys → IsSorted (insert_by before_key x ys)
  unfolding insert_by
  insert_by-IsSorted x [] h = (tt, tt)
  insert_by-IsSorted x (y ∷ ys) h = elim (Bool-cases (ltb (key y) (key x))) [
    | inl go ↦
        rw (go, insert_by)
          (
            All-insert_by (λ z. key y ≤ key z) before_key x ys (ground arith) h.0,
            insert_by-IsSorted x ys h.1,
          )
    | inr stop ↦
        rw (stop, insert_by)
          ((ground arith, All-map _ (λ z. key x ≤ key z) ys (λ z le. ground arith) h.0), h)
  ]

  sort_by-IsSorted : (xs : List A) → IsSorted (sort_by before_key xs)
  unfolding sort_by
  sort_by-IsSorted [] = tt
  sort_by-IsSorted (x ∷ xs) = insert_by-IsSorted x (sort_by before_key xs) (sort_by-IsSorted xs)

  strictly : (xs : List A) → IsSorted xs → repeats (map key xs) ≡ false → IsIncreasing xs
  unfolding repeats
  strictly [] h e = tt
  strictly (x ∷ []) h e = (tt, tt)
  strictly (x ∷ y ∷ ys) h e =
      let rest = strictly (y ∷ ys) h.1 (ground arith) in
      let first : key x < key y = ground (arith, h.0.0) in
      ((first, All-map _ (λ z. key x < key z) ys (λ z lt. omega arith) rest.0), rest)

  pub sort_by-IsIncreasing :
      (xs : List A)
      → repeats (map key (sort_by before_key xs)) ≡ false
      → IsIncreasing (sort_by before_key xs)
  sort_by-IsIncreasing xs e = strictly (sort_by before_key xs) (sort_by-IsSorted xs) e

  map-insert_by :
      (x : A) (ys : List A)
      → map key (insert_by before_key x ys) ≡ insert_by ltb (key x) (map key ys)
  unfolding insert_by
  map-insert_by x [] = refl
  map-insert_by x (y ∷ ys) = ground (arith, map-insert_by x ys)

  -- The keys of a list sorted by them are the keys sorted.
  pub map-sort_by : (xs : List A) → map key (sort_by before_key xs) ≡ sort_by ltb (map key xs)
  unfolding sort_by
  map-sort_by [] = refl
  map-sort_by (x ∷ xs) =
      map-insert_by x (sort_by before_key xs) ∙ ap (insert_by ltb (key x)) (map-sort_by xs)
