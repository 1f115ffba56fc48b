-- ===== src/Base/Lists.antt =====
-- Lists with native lengths, and Python's comprehensions, `all`, `any` and `in`.
use Prim.Native.Nat.{ℕ, zero, suc, ◌+◌}
use mathlib.Core.Path.{◌≡◌, refl, ap, sym, subst}
use mathlib.Core.Logic.{inl, inr}
use mathlib.Core.Bool.{Bool, true, false, ◌&&◌, ◌||◌, not}
use mathlib.Core.List.{List, [], ◌∷◌, ◌++◌, map}
use native.Mathlib.Omega.{arith}
use robot_fleet_management.Base.Tests.{◌==◌, ==_iff, if◌then◌else◌, Bool-cases}

abbrev pub All {ℓ κ} : {A : Type ℓ} → (A → Type κ) → List A → Type κ
All P [] = Unit
All P (x ∷ xs) = P x × All P xs

module _ {ℓ} {A : Type ℓ} where
  abbrev pub length : List A → ℕ
  length [] = 0
  length (x ∷ xs) = suc (length xs)

  abbrev pub take : ℕ → List A → List A
  take zero xs = []
  take (suc n) [] = []
  take (suc n) (x ∷ xs) = x ∷ take n xs

  -- A comprehension with a condition.
  abbrev pub keep_if : (A → Bool) → List A → List A
  keep_if p [] = []
  keep_if p (x ∷ xs) = let rest = keep_if p xs in if p x then x ∷ rest else rest

  abbrev pub all : (A → Bool) → List A → Bool
  all p [] = true
  all p (x ∷ xs) = p x && all p xs

  abbrev pub any : (A → Bool) → List A → Bool
  any p [] = false
  any p (x ∷ xs) = p x || any p xs

  pub length-append : (xs ys : List A) → length (xs ++ ys) ≡ length xs + length ys
  length-append [] ys = omega arith
  length-append (x ∷ xs) ys = omega (arith, length-append xs ys)

  pub All-append {κ} : (P : A → Type κ) (xs ys : List A) → All P xs → All P ys → All P (xs ++ ys)
  All-append P [] ys hx hy = hy
  All-append P (x ∷ xs) ys hx hy = (hx.0, All-append P xs ys hx.1 hy)

  pub All-split {κ} : (P : A → Type κ) (xs ys : List A) → All P (xs ++ ys) → All P xs × All P ys
  All-split P [] ys h = (tt, h)
  All-split P (x ∷ xs) ys h = let (hx, hy) = All-split P xs ys h.1 in ((h.0, hx), hy)

  pub All-map {κ μ} :
      (P : A → Type κ) (Q : A → Type μ) (xs : List A) → ((x : A) → P x → Q x) → All P xs → All Q xs
  All-map P Q [] f h = tt
  All-map P Q (x ∷ xs) f h = (f x h.0, All-map P Q xs f h.1)

pub all-map {ℓ κ} :
    {A : Type ℓ} {B : Type κ} (p : B → Bool) (f : A → B) (xs : List A)
    → all p (map f xs) ≡ all (λ x. p (f x)) xs
all-map p f [] = refl
all-map p f (x ∷ xs) = ap (◌&&◌ (p (f x))) (all-map p f xs)

pub &&-true : (a b : Bool) → (a && b) ≡ true → (a ≡ true) × (b ≡ true)
&&-true true b h = (refl, h)
&&-true false b h = absurd (cc)

pub &&-intro : (a b : Bool) → a ≡ true → b ≡ true → (a && b) ≡ true
&&-intro a b h g = rw (h, g)

-- Membership of a robot identifier.
abbrev pub elem : ℕ → List ℕ → Bool
elem k [] = false
elem k (x ∷ xs) = if k == x then true else elem k xs

-- `len(set(xs)) == len(xs)`
abbrev pub distinct : List ℕ → Bool
distinct [] = true
distinct (x ∷ xs) = not (elem x xs) && distinct xs

-- `set(xs) == set(ys)`
abbrev pub same_ids : List ℕ → List ℕ → Bool
same_ids xs ys = all (λ k. elem k ys) xs && all (λ k. elem k xs) ys

pub all-of_elem :
    (p : ℕ → Bool) (xs : List ℕ) → ((k : ℕ) → elem k xs ≡ true → p k ≡ true) → all p xs ≡ true
all-of_elem p [] h = refl
all-of_elem p (x ∷ xs) h = ground (arith, h x, all-of_elem p xs (λ k e. h k (ground arith)))

pub All-elem {κ} : (P : ℕ → Type κ) (k : ℕ) (xs : List ℕ) → All P xs → elem k xs ≡ true → P k
All-elem P k [] h e = absurd (cc)
All-elem P k (x ∷ xs) h e = elim (Bool-cases (k == x)) [
  | inl here ↦ subst P (sym ((==_iff k x).0 here)) h.0
  | inr other ↦ All-elem P k xs h.1 (ground arith)
]

pub All-of_elem {κ} : (P : ℕ → Type κ) (xs : List ℕ) → ((k : ℕ) → elem k xs ≡ true → P k) → All P xs
All-of_elem P [] h = tt
All-of_elem P (x ∷ xs) h = (h x (ground arith), All-of_elem P xs (λ k e. h k (ground arith)))

pub same_ids_refl : (xs : List ℕ) → same_ids xs xs ≡ true
same_ids_refl xs = let h = all-of_elem (λ k. elem k xs) xs (λ k e. e) in rw h

pub elem-append : (k : ℕ) (xs ys : List ℕ) → elem k (xs ++ ys) ≡ (elem k xs || elem k ys)
elem-append k [] ys = refl
elem-append k (x ∷ xs) ys = ground (arith, elem-append k xs ys)

pub elem-all :
    (p : ℕ → Bool) (k : ℕ) (xs : List ℕ) → all p xs ≡ true → elem k xs ≡ true → p k ≡ true
elem-all p k [] h e = ground arith
elem-all p k (x ∷ xs) h e = ground (arith, elem-all p k xs)
