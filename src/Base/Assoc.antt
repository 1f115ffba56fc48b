-- ===== src/Base/Assoc.antt =====
-- A Python dictionary keyed by robot identifiers, as an association list in insertion order.
use Prim.Native.Nat.{ℕ}
use mathlib.Core.Path.{◌≡◌, refl}
use mathlib.Core.Bool.{true}
use mathlib.Core.List.{List, [], ◌∷◌}
use mathlib.Core.Option.{Option, none, some}
use mathlib.Core.Logic.{inl, inr}
use native.Mathlib.Omega.{arith}
use robot_fleet_management.Base.Tests.{◌==◌, if◌then◌else◌, Bool-cases}
use robot_fleet_management.Base.Lists.{elem}

abbrev pub Dict {ℓ} : Type ℓ → Type ℓ
Dict V = List (ℕ × V)

module _ {ℓ} {V : Type ℓ} where
  -- `d.get(k)`
  unfoldable pub lookup : ℕ → Dict V → Option V
  lookup k [] = none
  lookup k ((j, v) ∷ d) = if j == k then some v else lookup k d

  -- `d[k] = v`
  unfoldable pub insert : ℕ → V → Dict V → Dict V
  insert k v [] = (k, v) ∷ []
  insert k v ((j, w) ∷ d) = if j == k then (k, v) ∷ d else (j, w) ∷ insert k v d

  -- `d.pop(k, None)`, for its effect
  unfoldable pub erase : ℕ → Dict V → Dict V
  erase k [] = []
  erase k ((j, w) ∷ d) = if j == k then erase k d else (j, w) ∷ erase k d

  abbrev pub keys : Dict V → List ℕ
  keys [] = []
  keys ((k, v) ∷ d) = k ∷ keys d

  -- `d.get(k, fallback)`
  abbrev pub lookup_or : V → ℕ → Dict V → V
  lookup_or v k d = elim (lookup k d) [ none ↦ v | some w ↦ w ]

  pub lookup-insert :
      (k j : ℕ) (v : V) (d : Dict V)
      → lookup j (insert k v d) ≡ (if k == j then some v else lookup j d)
  unfolding lookup insert
  lookup-insert k j v [] = refl
  lookup-insert k j v ((i, w) ∷ d) = ground (arith, lookup-insert k j v d)

  pub lookup-erase :
      (k j : ℕ) (d : Dict V) → lookup j (erase k d) ≡ (if k == j then none else lookup j d)
  unfolding lookup erase
  lookup-erase k j [] = ground arith
  lookup-erase k j ((i, w) ∷ d) = ground (arith, lookup-erase k j d)

  pub elem-keys : (k : ℕ) (d : Dict V) {v : V} → lookup k d ≡ some v → elem k (keys d) ≡ true
  unfolding lookup
  elem-keys k [] h = cc
  elem-keys k ((i, w) ∷ d) {v} h = ground (arith, λ (e : lookup k d ≡ some v). elem-keys k d e)

  pub lookup-of_elem :
      (k : ℕ) (d : Dict V) → elem k (keys d) ≡ true → (v : V) × (lookup k d ≡ some v)
  unfolding lookup
  lookup-of_elem k [] h = absurd (cc)
  lookup-of_elem k ((i, w) ∷ d) h = elim (Bool-cases (i == k)) [
    | inl here ↦ (w, rw here)
    | inr other ↦
        let rest : elem k (keys d) ≡ true = ground arith in rw other (lookup-of_elem k d rest)
  ]
