-- ===== src/Conflicts/Graph.antt =====
-- conflicts.build_adjacency and decompose_connected_components.
pub mod Adjacency
pub mod Turn
pub mod Search
pub mod Components
pub mod Connected
use robot_fleet_management.Base.{
  ℕ, zero, suc, ◌+◌, Bool, true, false, not, ◌&&◌, ◌||◌, ◌==◌, ltb, if◌then◌else◌, List, [], ◌∷◌,
  ◌++◌, map, length, elem, sorted, sort_by, Option, none, some, Dict, lookup, lookup_or, insert,
  keys, Result, ok, raise, ◌>>=◌, ◌>>◌, value_error, key_error, out_of_fuel, require, or_raise,
}

-- `set.add`, on a list without repetitions.
unfoldable pub add : ℕ → List ℕ → List ℕ
add j ns = if elem j ns then ns else j ∷ ns

abbrev pub neighbours : ℕ → Dict (List ℕ) → List ℕ
neighbours k adjacency = lookup_or [] k adjacency

-- `mutable[i].add(j)`
unfoldable pub link : ℕ → ℕ → Dict (List ℕ) → Dict (List ℕ)
unfolding add
link i j adjacency = insert i (add j (neighbours i adjacency)) adjacency

unfoldable pub add_edges : List (ℕ × ℕ) → Dict (List ℕ) → Result (Dict (List ℕ))
unfolding link
add_edges [] adjacency = ok adjacency
add_edges ((i, j) ∷ edges) adjacency = do
  require (elem i (keys adjacency) && elem j (keys adjacency)) value_error
  require (ltb i j) value_error
  add_edges edges (link j i (link i j adjacency))

-- The order of tuples: by the first robot, then by the second.
unfoldable pub edge_before : ℕ × ℕ → ℕ × ℕ → Bool
edge_before (i, j) (k, l) = ltb i k || (i == k && ltb j l)

unfoldable pub build_adjacency : List ℕ → List (ℕ × ℕ) → Result (Dict (List ℕ))
unfolding add_edges edge_before
build_adjacency ids edges = add_edges (sort_by edge_before edges) (map (λ r. (r, [])) (sorted ids))

-- The loop over the neighbours of one robot, with `visited` and `queue`.
unfoldable pub enqueue : Dict (List ℕ) → List ℕ → List ℕ → List ℕ → Result (List ℕ × List ℕ)
enqueue adjacency [] visited queue = ok (visited, queue)
enqueue adjacency (n ∷ ns) visited queue = do
  require (elem n (keys adjacency)) value_error
  enqueue adjacency ns (if elem n visited then visited else n ∷ visited)
      (if elem n visited then queue else queue ++ n ∷ [])

-- The `while queue` loop: the component and `visited`. Each turn takes one robot off the queue, and
-- a robot is queued once.
unfoldable pub search : ℕ → Dict (List ℕ) → List ℕ → List ℕ → List ℕ → Result (List ℕ × List ℕ)
unfolding enqueue
search fuel adjacency [] component visited = ok (component, visited)
search zero adjacency (r ∷ queue) component visited = raise out_of_fuel
search (suc fuel) adjacency (r ∷ queue) component visited = do
  ns ← or_raise (lookup r adjacency) key_error
  next ← enqueue adjacency (sorted ns) visited queue
  search fuel adjacency next.1 (component ++ r ∷ []) next.0

unfoldable pub decompose_each : Dict (List ℕ) → List ℕ → List ℕ → Result (List (List ℕ))
unfolding search
decompose_each adjacency [] visited = ok []
decompose_each adjacency (root ∷ roots) visited =
    let found : Result (List (List ℕ)) = do
      result ← search (length adjacency) adjacency (root ∷ []) [] (root ∷ visited)
      rest ← decompose_each adjacency roots result.1
      ok (sorted result.0 ∷ rest)
    in elim (elem root visited) [ true ↦ decompose_each adjacency roots visited | false ↦ found ]

unfoldable pub decompose_connected_components : Dict (List ℕ) → Result (List (List ℕ))
unfolding decompose_each
decompose_connected_components adjacency = decompose_each adjacency (sorted (keys adjacency)) []
