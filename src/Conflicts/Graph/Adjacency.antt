-- ===== src/Conflicts/Graph/Adjacency.antt =====
-- The adjacency lists the other ends of each robot's edges.
use robot_fleet_management.Base.{
  ℕ, ◌≡◌, refl, sym, ap, Bool, ◌&&◌, ◌||◌, ◌==◌, ltb, List, [], ◌∷◌, map, any, elem, sorted,
  sort_by, any-sort_by, Dict, lookup, lookup-insert, keys, ok, >>=-eq-ok, ok-injective, require,
  value_error, arith, Bool-cases, ==_iff, inl, inr,
}
use robot_fleet_management.Conflicts.Graph.{
  add, neighbours, link, add_edges, edge_before, build_adjacency,
}

-- The edge joins the two robots, in either order.
abbrev pub joins : ℕ → ℕ → ℕ × ℕ → Bool
joins k x e = (e.0 == k && e.1 == x) || (e.1 == k && e.0 == x)

elem-add : (j x : ℕ) (ns : List ℕ) → elem x (add j ns) ≡ (j == x || elem x ns)
unfolding add
elem-add j x ns = elim (Bool-cases (j == x)) [
  | inl here ↦ let same = (==_iff j x).0 here in ground (arith, same)
  | inr other ↦ ground arith
]

elem-neighbours-link :
    (i j k x : ℕ) (adjacency : Dict (List ℕ))
    → elem x (neighbours k (link i j adjacency))
      ≡ ((i == k && j == x) || elem x (neighbours k adjacency))
unfolding link
elem-neighbours-link i j k x adjacency =
    let set = lookup-insert i k (add j (neighbours i adjacency)) adjacency in
    elim (Bool-cases (i == k)) [
      | inl here ↦
          let same = (==_iff i k).0 here in
          ground (arith, set, same, elem-add j x (neighbours i adjacency))
      | inr other ↦ ground (arith, set)
    ]

add_edges_lem :
    (edges : List (ℕ × ℕ)) (adjacency out : Dict (List ℕ)) (k x : ℕ)
    → add_edges edges adjacency ≡ ok out
    → elem x (neighbours k out) ≡ (any (joins k x) edges || elem x (neighbours k adjacency))
unfolding add_edges
add_edges_lem [] adjacency out k x e = ap (λ d. elem x (neighbours k d)) (sym (ok-injective e))
add_edges_lem ((i, j) ∷ edges) adjacency out k x e =
    let (_, _, e1) =
      >>=-eq-ok (require (elem i (keys adjacency) && elem j (keys adjacency)) value_error) _ e in
    let (_, _, e2) = >>=-eq-ok (require (ltb i j) value_error) _ e1 in
    let rest = add_edges_lem edges (link j i (link i j adjacency)) out k x e2 in
    ground (
      arith,
      rest,
      elem-neighbours-link j i k x (link i j adjacency),
      elem-neighbours-link i j k x adjacency,
    )

no_neighbours : (ids : List ℕ) (k : ℕ) → neighbours k (map (λ r. (r, [])) ids) ≡ []
unfolding lookup
no_neighbours [] k = refl
no_neighbours (r ∷ ids) k = ground (arith, no_neighbours ids k)

-- Where the adjacency is built, a robot is listed as another's neighbour exactly when some edge
-- joins the two, in either order.
pub build_adjacency_lem :
    (ids : List ℕ) (edges : List (ℕ × ℕ)) (out : Dict (List ℕ)) (k x : ℕ)
    → build_adjacency ids edges ≡ ok out
    → elem x (neighbours k out) ≡ any (joins k x) edges
unfolding build_adjacency
build_adjacency_lem ids edges out k x e =
    let made =
      add_edges_lem (sort_by edge_before edges) (map (λ r. (r, [])) (sorted ids)) out k x e in
    ground (arith, made, no_neighbours (sorted ids) k, any-sort_by (joins k x) edge_before edges)
