-- ===== src/Base/Sort.antt =====
-- Python's stable `sorted`, as insertion by a strict test `before`.
use Prim.Native.Nat.{ℕ, ◌+◌}
use mathlib.Core.Path.{◌≡◌, refl, ap, ◌∙◌}
use mathlib.Core.Bool.{Bool, true, ◌||◌, ◌&&◌}
use mathlib.Core.List.{List, [], ◌∷◌, map}
use mathlib.Core.Logic.{inl, inr}
use native.Mathlib.Omega.{arith}
use robot_fleet_management.Base.Tests.{◌==◌, ltb, if◌then◌else◌, Bool-cases}
use robot_fleet_management.Base.Lists.{elem, length, any, all}

module _ {ℓ} {A : Type ℓ} where
  unfoldable pub insert_by : (A → A → Bool) → A → List A → List A
  insert_by before x [] = x ∷ []
  insert_by before x (y ∷ ys) = if before y x then y ∷ insert_by before x ys else x ∷ y ∷ ys

  unfoldable pub sort_by : (A → A → Bool) → List A → List A
  unfolding insert_by
  sort_by before [] = []
  sort_by before (x ∷ xs) = insert_by before x (sort_by before xs)

  length-insert_by :
      (before : A → A → Bool) (x : A) (ys : List A) → length (insert_by before x ys) ≡ length ys + 1
  unfolding insert_by
  length-insert_by before x [] = omega arith
  length-insert_by before x (y ∷ ys) = ground (arith, length-insert_by before x ys)

  pub length-sort_by :
      (before : A → A → Bool) (xs : List A) → length (sort_by before xs) ≡ length xs
  unfolding sort_by
  length-sort_by before [] = refl
  length-sort_by before (x ∷ xs) =
      omega (arith, length-insert_by before x (sort_by before xs), length-sort_by before xs)

abbrev pub sorted : List ℕ → List ℕ
sorted = sort_by ltb

module _ (before : ℕ → ℕ → Bool) where
  elem-insert_by :
      (k x : ℕ) (ys : List ℕ)
      → elem k (insert_by before x ys) ≡ (if k == x then true else elem k ys)
  unfolding insert_by
  elem-insert_by k x [] = refl
  elem-insert_by k x (y ∷ ys) = ground (arith, elem-insert_by k x ys)

  pub elem-sort_by : (k : ℕ) (xs : List ℕ) → elem k (sort_by before xs) ≡ elem k xs
  unfolding sort_by
  elem-sort_by k [] = refl
  elem-sort_by k (x ∷ xs) =
      ground (arith, elem-insert_by k x (sort_by before xs), elem-sort_by k xs)

module _ {ℓ} {A : Type ℓ} (f : A → ℕ) (before : A → A → Bool) where
  elem-map-insert_by :
      (k : ℕ) (x : A) (ys : List A)
      → elem k (map f (insert_by before x ys)) ≡ (if k == f x then true else elem k (map f ys))
  unfolding insert_by
  elem-map-insert_by k x [] = refl
  elem-map-insert_by k x (y ∷ ys) = elim (Bool-cases (before y x)) [
    | inr stop ↦ rw (stop, insert_by) refl
    | inl go ↦ rw (go, insert_by, elem-map-insert_by k x ys) (ground arith)
  ]

  pub elem-map-sort_by :
      (k : ℕ) (xs : List A) → elem k (map f (sort_by before xs)) ≡ elem k (map f xs)
  unfolding sort_by
  elem-map-sort_by k [] = refl
  elem-map-sort_by k (x ∷ xs) =
      rw (elem-map-insert_by k x (sort_by before xs), elem-map-sort_by k xs) refl

any-insert_by {ℓ} :
    {A : Type ℓ} (f : A → Bool) (before : A → A → Bool) (x : A) (ys : List A)
    → any f (insert_by before x ys) ≡ (f x || any f ys)
unfolding insert_by
any-insert_by f before x [] = refl
any-insert_by f before x (y ∷ ys) = elim (Bool-cases (before y x)) [
  | inl after ↦ rw after (ground (arith, any-insert_by f before x ys))
  | inr here ↦ rw here refl
]

pub any-sort_by {ℓ} :
    {A : Type ℓ} (f : A → Bool) (before : A → A → Bool) (xs : List A)
    → any f (sort_by before xs) ≡ any f xs
unfolding sort_by
any-sort_by f before [] = refl
any-sort_by f before (x ∷ xs) =
    any-insert_by f before x (sort_by before xs) ∙ ap (◌||◌ (f x)) (any-sort_by f before xs)

all-insert_by {ℓ} :
    {A : Type ℓ} (f : A → Bool) (before : A → A → Bool) (x : A) (ys : List A)
    → all f (insert_by before x ys) ≡ (f x && all f ys)
unfolding insert_by
all-insert_by f before x [] = refl
all-insert_by f before x (y ∷ ys) = elim (Bool-cases (before y x)) [
  | inl after ↦ rw after (ground (arith, all-insert_by f before x ys))
  | inr here ↦ rw here refl
]

pub all-sort_by {ℓ} :
    {A : Type ℓ} (f : A → Bool) (before : A → A → Bool) (xs : List A)
    → all f (sort_by before xs) ≡ all f xs
unfolding sort_by
all-sort_by f before [] = refl
all-sort_by f before (x ∷ xs) =
    all-insert_by f before x (sort_by before xs) ∙ ap (◌&&◌ (f x)) (all-sort_by f before xs)
