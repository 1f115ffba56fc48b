-- ===== src/Engine/Safety.antt =====
-- What an empty answer of the global validator means, and what a committed tick commands.
use robot_fleet_management.Base.{
  ℕ, ◌<◌, ◌≡◌, sym, ap, ◌∙◌, subst, false, List, [], ◌∷◌, ◌++◌, map, Memᴰ, some, Dict, lookup, keys,
  same_ids, sort_by, before_key, repeats, IsIncreasing, All-Mem, Mem-sort_by, sort_by-IsIncreasing,
  ok, >>=-eq-ok, ok-injective, require, or_raise, value_error, key_error, arith,
}
use mathlib.Core.List.Memᴰ as MemD
use robot_fleet_management.Models.{Action, RobotSnapshot}
use robot_fleet_management.Conflicts.Build.{Envelopes, id_of, pair_with, combinations}
use robot_fleet_management.Engine.Codes.{GlobalSafetyViolation}
use robot_fleet_management.Engine.Validation.{
  normalise_snapshots, final_envelopes, check_pair, violations_of, validate_global_safety,
}

module _ {F : Type 0} where
  Mem-pair_with :
      (s t : RobotSnapshot F) (rest : List (RobotSnapshot F))
      → Memᴰ t rest
      → Memᴰ (s, t) (pair_with s rest)
  Mem-pair_with s t [] m = elim m [ ]
  Mem-pair_with s t (x ∷ rest) (Memᴰ.head e) = Memᴰ.head (ap (λ y. (s, y)) e)
  Mem-pair_with s t (x ∷ rest) (Memᴰ.tail m) = Memᴰ.tail (Mem-pair_with s t rest m)

  -- Of two robots in a list in strict order, the pair in their order is a combination.
  pub Mem-combinations :
      (s t : RobotSnapshot F) (ordered : List (RobotSnapshot F))
      → IsIncreasing id_of ordered
      → Memᴰ s ordered
      → Memᴰ t ordered
      → id_of s < id_of t
      → Memᴰ (s, t) (combinations ordered)
  unfolding combinations
  Mem-combinations s t [] inc ms mt lt = elim ms [ ]
  Mem-combinations s t (x ∷ rest) inc (Memᴰ.head e) (Memᴰ.head f) lt =
      absurd (omega (arith, lt, ap id_of e, ap id_of f))
  Mem-combinations s t (x ∷ rest) inc (Memᴰ.head e) (Memᴰ.tail m) lt =
      subst (λ y. Memᴰ (s, t) (pair_with y rest ++ combinations rest)) e
        (MemD.append_left (combinations rest) (Mem-pair_with s t rest m))
  Mem-combinations s t (x ∷ rest) inc (Memᴰ.tail m) (Memᴰ.head f) lt =
      let later = All-Mem (λ y. id_of x < id_of y) s rest inc.0 m in
      absurd (omega (arith, lt, later, ap id_of f))
  Mem-combinations s t (x ∷ rest) inc (Memᴰ.tail m) (Memᴰ.tail n) lt =
      MemD.append_right (pair_with x rest) (Mem-combinations s t rest inc.1 m n lt)

  pub normalise_snapshots-sorted :
      (snapshots ordered : List (RobotSnapshot F))
      → normalise_snapshots snapshots ≡ ok ordered
      → (sort_by (before_key id_of) snapshots ≡ ordered)
        × (repeats (map id_of (sort_by (before_key id_of) snapshots)) ≡ false)
  unfolding normalise_snapshots
  normalise_snapshots-sorted snapshots ordered h = ground arith

  pub normalise_snapshots-IsIncreasing :
      (snapshots ordered : List (RobotSnapshot F))
      → normalise_snapshots snapshots ≡ ok ordered
      → IsIncreasing id_of ordered
  normalise_snapshots-IsIncreasing snapshots ordered h =
      let (same, fresh) = normalise_snapshots-sorted snapshots ordered h in
      subst (IsIncreasing id_of) same (sort_by-IsIncreasing id_of snapshots fresh)

  pub Mem-normalise_snapshots :
      (s : RobotSnapshot F) (snapshots ordered : List (RobotSnapshot F))
      → normalise_snapshots snapshots ≡ ok ordered
      → Memᴰ s snapshots
      → Memᴰ s ordered
  Mem-normalise_snapshots s snapshots ordered h m =
      let (same, _) = normalise_snapshots-sorted snapshots ordered h in
      subst (Memᴰ s) same (Mem-sort_by (before_key id_of) s snapshots m)

module _ {F : Type 0} (geometry : Envelopes F) (decisions : Dict Action) where
  open geometry use {Envelope, action_envelope, geometries_conflict}

  final_envelopes-split :
      (x : RobotSnapshot F) (rest : List (RobotSnapshot F)) (envelopes : Dict Envelope)
      → final_envelopes geometry decisions (x ∷ rest) ≡ ok envelopes
      → (e : Envelope) × (others : Dict Envelope) × (envelopes ≡ (id_of x, e) ∷ others)
        × (final_envelopes geometry decisions rest ≡ ok others)
  unfolding final_envelopes
  final_envelopes-split x rest envelopes h =
      let (action, q1, h1) = >>=-eq-ok (or_raise (lookup (id_of x) decisions) key_error) _ h in
      let (envelope, q2, h2) = >>=-eq-ok (action_envelope x action) _ h1 in
      let (others, q3, h3) = >>=-eq-ok (final_envelopes geometry decisions rest) _ h2 in
      (envelope, others, sym (ok-injective h3), q3)

  final_envelopes-lookup :
      (s : RobotSnapshot F) (ordered : List (RobotSnapshot F)) (envelopes : Dict Envelope)
      {a : Action} {e : Envelope}
      → IsIncreasing id_of ordered
      → Memᴰ s ordered
      → final_envelopes geometry decisions ordered ≡ ok envelopes
      → lookup (id_of s) decisions ≡ some a
      → action_envelope s a ≡ ok e
      → lookup (id_of s) envelopes ≡ some e
  unfolding final_envelopes lookup
  final_envelopes-lookup s [] envelopes inc m h la ae = elim m [ ]
  final_envelopes-lookup s (x ∷ rest) envelopes {a} {e} inc (Memᴰ.head same) h la ae =
      let lx = subst (λ y. lookup (id_of y) decisions ≡ some a) same la in
      let ax = subst (λ y. action_envelope y a ≡ ok e) same ae in
      subst (λ y. lookup (id_of y) envelopes ≡ some e) (sym same) (ground arith)
  final_envelopes-lookup s (x ∷ rest) envelopes {a} {e} inc (Memᴰ.tail m) h la ae =
      let later = All-Mem (λ y. id_of x < id_of y) s rest inc.0 m in
      let (envelope, others, split, q) = final_envelopes-split x rest envelopes h in
      let found = final_envelopes-lookup s rest others inc.1 m q la ae in
      subst (λ d. lookup (id_of s) d ≡ some e) (sym split) (ground (arith, found, later))

  check_pair-clear :
      (envelopes : Dict Envelope) (i j : ℕ) (others : List (GlobalSafetyViolation F))
      {e f : Envelope}
      → check_pair geometry decisions envelopes i j others ≡ ok []
      → lookup i envelopes ≡ some e
      → lookup j envelopes ≡ some f
      → (geometries_conflict e f ≡ false) × (others ≡ [])
  unfolding check_pair
  check_pair-clear envelopes i j others h le lf = ground arith

  check_pair-others :
      (envelopes : Dict Envelope) (i j : ℕ) (others : List (GlobalSafetyViolation F))
      → check_pair geometry decisions envelopes i j others ≡ ok []
      → others ≡ []
  unfolding check_pair
  check_pair-others envelopes i j others h = ground arith

  violations_of-clear :
      (envelopes : Dict Envelope) (s t : RobotSnapshot F)
      (pairs : List (RobotSnapshot F × RobotSnapshot F)) {e f : Envelope}
      → violations_of geometry decisions envelopes pairs ≡ ok []
      → Memᴰ (s, t) pairs
      → lookup (id_of s) envelopes ≡ some e
      → lookup (id_of t) envelopes ≡ some f
      → geometries_conflict e f ≡ false
  unfolding violations_of
  violations_of-clear envelopes s t [] h m le lf = elim m [ ]
  violations_of-clear envelopes s t ((a, b) ∷ pairs) {e} {f} h (Memᴰ.head same) le lf =
      let (others, q, h1) =
        >>=-eq-ok (violations_of geometry decisions envelopes pairs)
          (check_pair geometry decisions envelopes (id_of a) (id_of b)) h in
      let la = subst (λ p. lookup (id_of p.0) envelopes ≡ some e) same le in
      let lb = subst (λ p. lookup (id_of p.1) envelopes ≡ some f) same lf in
      (check_pair-clear envelopes (id_of a) (id_of b) others h1 la lb).0
  violations_of-clear envelopes s t ((a, b) ∷ pairs) h (Memᴰ.tail m) le lf =
      let (others, q, h1) =
        >>=-eq-ok (violations_of geometry decisions envelopes pairs)
          (check_pair geometry decisions envelopes (id_of a) (id_of b)) h in
      let none_left = check_pair-others envelopes (id_of a) (id_of b) others h1 in
      violations_of-clear envelopes s t pairs (q ∙ ap ok none_left) m le lf

  -- Where the validator returns no violation, the envelopes of any two robots of the fleet under
  -- their decided actions do not conflict.
  pub validate_global_safety-clear :
      (snapshots : List (RobotSnapshot F)) (s t : RobotSnapshot F) (a b : Action) (e f : Envelope)
      → validate_global_safety geometry decisions snapshots ≡ ok []
      → Memᴰ s snapshots
      → Memᴰ t snapshots
      → id_of s < id_of t
      → lookup (id_of s) decisions ≡ some a
      → lookup (id_of t) decisions ≡ some b
      → action_envelope s a ≡ ok e
      → action_envelope t b ≡ ok f
      → geometries_conflict e f ≡ false
  unfolding validate_global_safety
  validate_global_safety-clear snapshots s t a b e f h ms mt lt la lb ae bf =
      let (ordered, q1, h1) = >>=-eq-ok (normalise_snapshots snapshots) _ h in
      let same = same_ids (keys decisions) (map id_of ordered) in
      let (_, _, h2) = >>=-eq-ok (require same value_error) _ h1 in
      let (envelopes, q3, h3) = >>=-eq-ok (final_envelopes geometry decisions ordered) _ h2 in
      let inc = normalise_snapshots-IsIncreasing snapshots ordered q1 in
      let ns = Mem-normalise_snapshots s snapshots ordered q1 ms in
      let nt = Mem-normalise_snapshots t snapshots ordered q1 mt in
      violations_of-clear envelopes s t (combinations ordered) h3
        (Mem-combinations s t ordered inc ns nt lt)
        (final_envelopes-lookup s ordered envelopes inc ns q3 la ae)
        (final_envelopes-lookup t ordered envelopes inc nt q3 lb bf)
