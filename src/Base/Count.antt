-- ===== src/Base/Count.antt =====
-- Counting by distinct keys: a dictionary that is defined exactly on a list of distinct robots has
-- as many entries as the list.
use Prim.Native.Nat.{ℕ, ◌+◌, ◌≤◌}
use mathlib.Core.Path.{◌≡◌, refl}
use mathlib.Core.Bool.{true, false}
use mathlib.Core.List.{List, [], ◌∷◌}
use mathlib.Core.Logic.{inl, inr}
use native.Mathlib.Omega.{arith}
use robot_fleet_management.Base.Tests.{◌==◌, if◌then◌else◌, Bool-cases}
use robot_fleet_management.Base.Lists.{elem, length, distinct}
use robot_fleet_management.Base.Assoc.{Dict, insert, keys}

discard : ℕ → List ℕ → List ℕ
discard k [] = []
discard k (x ∷ xs) = if k == x then xs else x ∷ discard k xs

length-discard : (k : ℕ) (xs : List ℕ) → elem k xs ≡ true → length (discard k xs) + 1 ≡ length xs
unfolding discard
length-discard k [] h = absurd (cc)
length-discard k (x ∷ xs) h = ground (arith, length-discard k xs)

elem-discard :
    (k j : ℕ) (xs : List ℕ) → (j == k) ≡ false → elem j xs ≡ true → elem j (discard k xs) ≡ true
unfolding discard
elem-discard k j [] ne h = absurd (cc)
elem-discard k j (x ∷ xs) ne h = ground (arith, elem-discard k j xs)

pub elem_ne : (j x : ℕ) (xs : List ℕ) → elem j xs ≡ true → elem x xs ≡ false → (j == x) ≡ false
elem_ne j x [] h g = absurd (cc)
elem_ne j x (y ∷ xs) h g = ground (arith, elem_ne j x xs)

pub length-le_of_elem :
    (xs ys : List ℕ)
    → distinct xs ≡ true
    → ((k : ℕ) → elem k xs ≡ true → elem k ys ≡ true)
    → length xs ≤ length ys
length-le_of_elem [] ys d sub = omega arith
length-le_of_elem (x ∷ xs) ys d sub =
    let here : elem x ys ≡ true = sub x (ground arith) in
    let absent : elem x xs ≡ false = ground arith in
    omega (
      arith,
      length-discard x ys here,
      length-le_of_elem xs (discard x ys) (ground arith)
          λ k h. elem-discard x k ys (elem_ne k x xs h absent) (sub k (ground arith)),
    )

module _ {ℓ} {V : Type ℓ} where
  pub length-keys : (d : Dict V) → length (keys d) ≡ length d
  length-keys [] = refl
  length-keys ((k, v) ∷ d) = omega (arith, length-keys d)

  pub elem-keys-insert :
      (j k : ℕ) (v : V) (d : Dict V)
      → elem j (keys (insert k v d)) ≡ (if j == k then true else elem j (keys d))
  unfolding insert
  elem-keys-insert j k v [] = refl
  elem-keys-insert j k v ((i, w) ∷ d) = elim (Bool-cases (i == k)) [
    | inl same ↦ rw same (ground arith)
    | inr other ↦ rw (other, elem-keys-insert j k v d) (ground arith)
  ]

  pub distinct-keys-insert :
      (k : ℕ) (v : V) (d : Dict V)
      → distinct (keys d) ≡ true
      → distinct (keys (insert k v d)) ≡ true
  unfolding insert
  distinct-keys-insert k v [] h = refl
  distinct-keys-insert k v ((i, w) ∷ d) h = elim (Bool-cases (i == k)) [
    | inl same ↦ rw same (ground arith)
    | inr other ↦
        rw (other, elem-keys-insert i k v d, other) (ground (arith, distinct-keys-insert k v d))
  ]
