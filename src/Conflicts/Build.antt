-- ===== src/Conflicts/Build.antt =====
-- conflicts.build_conflict_model, over an interface for envelopes.
use robot_fleet_management.Base.{
  ℕ, Bool, true, false, not, ◌&&◌, ◌==◌, ltb, List, [], ◌∷◌, ◌++◌, map, keep_if, any, min, max,
  elem, sorted, sort_by, repeats, none, some, Dict, lookup, keys, Result, ok, ◌>>=◌, ◌>>◌,
  value_error, key_error, require, or_raise,
}
use robot_fleet_management.Models.{Action, pause, resume, RobotSnapshot}
use robot_fleet_management.Conflicts.Pairs.{
  NoGoodConstraint, Bounds, PairwiseCompatibility, forbidden_assignments, no_good_constraints,
}
use robot_fleet_management.Conflicts.Model.{ConflictModel}
use robot_fleet_management.Conflicts.Graph.{
  build_adjacency, edge_before, decompose_connected_components,
}

-- What geometry.py gives: the area that a robot may cover under an action, which may fail, whether
-- two areas conflict, and the bounds of one.
pub record Envelopes (F : Type 0) : Type 1 where
  pub Envelope : Type 0
  pub action_envelope : RobotSnapshot F → Action → Result Envelope
  pub geometries_conflict : Envelope → Envelope → Bool
  pub bounds : Envelope → Bounds F

abbrev pub id_of : {F : Type 0} → RobotSnapshot F → ℕ
id_of s = s.state.device_id

unfoldable pub normalise_snapshots :
    {F : Type 0} → List (RobotSnapshot F) → Result (List (RobotSnapshot F))
unfolding repeats
normalise_snapshots snapshots = do
  let ordered = sort_by (λ a b. ltb (id_of a) (id_of b)) snapshots
  require (not (repeats (map id_of ordered))) value_error
  ok ordered

abbrev pub pair_with :
    {F : Type 0}
    → RobotSnapshot F
    → List (RobotSnapshot F)
    → List (RobotSnapshot F × RobotSnapshot F)
pair_with s rest = map (λ t. (s, t)) rest

-- `combinations(ordered, 2)`
unfoldable pub combinations :
    {F : Type 0} → List (RobotSnapshot F) → List (RobotSnapshot F × RobotSnapshot F)
combinations [] = []
combinations (s ∷ rest) = pair_with s rest ++ combinations rest

unfoldable pub all_pairs :
    {F : Type 0} → List (RobotSnapshot F) → List (RobotSnapshot F × RobotSnapshot F)
unfolding combinations
all_pairs snapshots = combinations (sort_by (λ a b. ltb (id_of a) (id_of b)) snapshots)

abbrev has_neighbours : ℕ → Dict (List ℕ) → Bool
has_neighbours r adjacency = elim (lookup r adjacency) [
  | none ↦ false
  | some [] ↦ false
  | some (n ∷ ns) ↦ true
]

module _ {F : Type 0} (geometry : Envelopes F) where
  open geometry use {Envelope, action_envelope, geometries_conflict, bounds}

  -- `_build_envelope_cache`: both envelopes of every robot.
  unfoldable pub build_envelope_cache : List (RobotSnapshot F) → Result (Dict (Envelope × Envelope))
  build_envelope_cache [] = ok []
  build_envelope_cache (s ∷ rest) = do
    paused ← action_envelope s pause
    resumed ← action_envelope s resume
    others ← build_envelope_cache rest
    ok ((id_of s, (paused, resumed)) ∷ others)

  abbrev pick : Action → Envelope × Envelope → Envelope
  pick pause both = both.0
  pick resume both = both.1

  -- `_evaluate_cached_pair` on two snapshots in order.
  unfoldable pub evaluate_cached_pair :
      ℕ → ℕ → Dict (Envelope × Envelope) → Result (PairwiseCompatibility F)
  evaluate_cached_pair robot_i robot_j envelopes = do
    both_i ← or_raise (lookup robot_i envelopes) key_error
    both_j ← or_raise (lookup robot_j envelopes) key_error
    ok (record {
      robot_i = robot_i;
      robot_j = robot_j;
      compatibility = λ i j. not (geometries_conflict (pick i both_i) (pick j both_j));
      envelope_bounds = λ i j. (bounds (pick i both_i), bounds (pick j both_j));
    })

  abbrev same_pair : ℕ → ℕ → PairwiseCompatibility F → Bool
  same_pair i j p = p.robot_i == i && p.robot_j == j

  -- The loop over the candidate pairs; a pair that was evaluated is skipped.
  unfoldable pub evaluate_each :
      List ℕ
      → Dict (Envelope × Envelope)
      → List (RobotSnapshot F × RobotSnapshot F)
      → List (PairwiseCompatibility F)
      → Result (List (PairwiseCompatibility F))
  unfolding evaluate_cached_pair
  evaluate_each ids envelopes [] built = ok built
  evaluate_each ids envelopes ((a, b) ∷ candidates) built = do
    require (not (id_of a == id_of b)) value_error
    require (elem (id_of a) ids && elem (id_of b) ids) value_error
    let i = min (id_of a) (id_of b)
    let j = max (id_of a) (id_of b)
    let fresh : Result (List (PairwiseCompatibility F)) = do
      pair ← evaluate_cached_pair i j envelopes
      ok (built ++ pair ∷ [])
    next ← elim (any (same_pair i j) built) [ true ↦ ok built | false ↦ fresh ]
    evaluate_each ids envelopes candidates next

  unfoldable pub is_edge : PairwiseCompatibility F → Bool
  unfolding forbidden_assignments
  is_edge p = elim (forbidden_assignments p) [ [] ↦ false | a ∷ as' ↦ true ]

  all_no_goods : List (PairwiseCompatibility F) → List NoGoodConstraint
  unfolding no_good_constraints
  all_no_goods [] = []
  all_no_goods (p ∷ pairs) = no_good_constraints p ++ all_no_goods pairs

  -- The generator of candidate pairs is an argument, with `all_pairs` as the default.
  unfoldable pub build_conflict_model :
      (List (RobotSnapshot F) → List (RobotSnapshot F × RobotSnapshot F))
      → List (RobotSnapshot F)
      → Result (ConflictModel F)
  unfolding normalise_snapshots build_envelope_cache evaluate_each build_adjacency
      decompose_connected_components is_edge all_no_goods
  build_conflict_model generate snapshots = do
    ordered ← normalise_snapshots snapshots
    let ids = map id_of ordered
    envelopes ← build_envelope_cache ordered
    evaluated ← evaluate_each ids envelopes (generate ordered) []
    let pairs = sort_by (λ p q. edge_before (p.robot_i, p.robot_j) (q.robot_i, q.robot_j)) evaluated
    let edges = map (λ p. (p.robot_i, p.robot_j)) (keep_if is_edge pairs)
    adjacency ← build_adjacency ids edges
    components ← decompose_connected_components adjacency
    ok (record {
      snapshots = map (λ s. (id_of s, s)) ordered;
      pairwise_constraints = pairs;
      no_goods = all_no_goods pairs;
      edges = edges;
      adjacency = adjacency;
      isolated_robots = keep_if (λ r. not (has_neighbours r adjacency)) (sorted (keys adjacency));
      connected_components = components;
    })
