-- ===== src/Conflicts/Graph/Connected.antt =====
-- conflicts.build_adjacency with conflicts.decompose_connected_components: proofs.
use robot_fleet_management.Base.{
  ℕ, ◌≡◌, refl, sym, ap, subst, ◌∙◌, Bool, true, false, ◌&&◌, ◌==◌, ltb, List, [], ◌∷◌, map, any,
  elem, All, All-map, sorted, sort_by, any-sort_by, Dict, keys, elem-keys-insert, elem-sort_by, ok,
  >>=-eq-ok, ok-injective, require, require-ok, value_error, arith, Bool-cases, ==_iff, inl, inr,
}
use robot_fleet_management.Conflicts.Graph.{
  add, neighbours, link, add_edges, edge_before, build_adjacency, decompose_connected_components,
}
use robot_fleet_management.Conflicts.Graph.Adjacency.{joins, build_adjacency_lem}
use robot_fleet_management.Conflicts.Graph.Components.{IsApart, decompose_connected_components_lem}

elem-keys-link :
    (i j x : ℕ) (adjacency : Dict (List ℕ))
    → elem i (keys adjacency) ≡ true
    → elem x (keys (link i j adjacency)) ≡ elem x (keys adjacency)
unfolding link
elem-keys-link i j x adjacency h = elim (Bool-cases (x == i)) [
  | inl here ↦
      let same = (==_iff x i).0 here in
      ground (arith, same, elem-keys-insert x i (add j (neighbours i adjacency)) adjacency)
  | inr other ↦ ground (arith, elem-keys-insert x i (add j (neighbours i adjacency)) adjacency)
]

edge-end :
    (i j k x : ℕ) (rs : List ℕ)
    → elem i rs ≡ true
    → elem j rs ≡ true
    → joins k x (i, j) ≡ true
    → elem x rs ≡ true
edge-end i j k x rs hi hj h = elim (Bool-cases (j == x)) [
  | inl here ↦ subst (λ y. elem y rs ≡ true) ((==_iff j x).0 here) hj
  | inr other ↦
      let last : (i == x) ≡ true = ground arith in
      subst (λ y. elem y rs ≡ true) ((==_iff i x).0 last) hi
]

-- An edge is added between two robots of the adjacency, which keeps its robots.
add_edges-keys :
    (edges : List (ℕ × ℕ)) (adjacency out : Dict (List ℕ)) (x : ℕ)
    → add_edges edges adjacency ≡ ok out
    → (elem x (keys out) ≡ elem x (keys adjacency))
      × ((k : ℕ) → any (joins k x) edges ≡ true → elem x (keys adjacency) ≡ true)
unfolding add_edges
add_edges-keys [] adjacency out x e =
    (ap (λ d. elem x (keys d)) (sym (ok-injective e)), λ k h. absurd (cc))
add_edges-keys ((i, j) ∷ edges) adjacency out x e =
    let (_, e0, e1) =
      >>=-eq-ok (require (elem i (keys adjacency) && elem j (keys adjacency)) value_error) _ e in
    let (_, _, e2) = >>=-eq-ok (require (ltb i j) value_error) _ e1 in
    let known = require-ok (elem i (keys adjacency) && elem j (keys adjacency)) value_error e0 in
    let here : elem i (keys adjacency) ≡ true = ground arith in
    let there : elem j (keys adjacency) ≡ true = ground arith in
    let first = λ (y : ℕ). elem-keys-link i j y adjacency here in
    let second = elem-keys-link j i x (link i j adjacency) (first j ∙ there) in
    let (same, ends) = add_edges-keys edges (link j i (link i j adjacency)) out x e2 in
    (
      same ∙ second ∙ first x,
      λ k h. elim (Bool-cases (joins k x (i, j))) [
        | inl joined ↦ edge-end i j k x (keys adjacency) here there joined
        | inr later ↦ sym (second ∙ first x) ∙ ends k (ground arith)
      ],
    )

abbrev unlinked : List ℕ → Dict (List ℕ)
unlinked ids = map (λ r. (r, [])) ids

keys-new : (ids : List ℕ) (x : ℕ) → elem x (keys (unlinked ids)) ≡ elem x ids
keys-new [] x = refl
keys-new (r ∷ ids) x = ground (arith, keys-new ids x)

iff-eq : (a b : Bool) → (a ≡ true → b ≡ true) → (b ≡ true → a ≡ true) → a ≡ b
iff-eq true b f g = sym (f refl)
iff-eq false true f g = g refl
iff-eq false false f g = refl

joins-swap : (k x : ℕ) (edges : List (ℕ × ℕ)) → any (joins k x) edges ≡ any (joins x k) edges
joins-swap k x [] = refl
joins-swap k x ((i, j) ∷ edges) = ground (arith, joins-swap k x edges)

-- Where the adjacency of a conflict graph is built, its decomposition returns: the robots of the
-- components are those given, no robot is in two components, and two robots that an edge joins
-- are in the same component.
pub decompose-build_adjacency :
    (ids : List ℕ) (edges : List (ℕ × ℕ)) (adjacency : Dict (List ℕ))
    → build_adjacency ids edges ≡ ok adjacency
    → (groups : List (List ℕ)) × (decompose_connected_components adjacency ≡ ok groups)
      × ((x : ℕ) → any (elem x) groups ≡ elem x ids)
      × IsApart groups
      × All (λ group. (k x : ℕ) → any (joins k x) edges ≡ true → elem k group ≡ elem x group) groups
unfolding build_adjacency
decompose-build_adjacency ids edges adjacency e =
    let listed = λ (k x : ℕ). build_adjacency_lem ids edges adjacency k x e in
    let made =
      λ (x : ℕ). add_edges-keys (sort_by edge_before edges) (unlinked (sorted ids)) adjacency x e in
    let same = λ (x : ℕ). (made x).0 ∙ keys-new (sorted ids) x ∙ elem-sort_by ltb x ids in
    let back = λ (k x : ℕ) (h : elem x (neighbours k adjacency) ≡ true).
      listed x k ∙ joins-swap x k edges ∙ sym (listed k x) ∙ h in
    let closed = λ (k x : ℕ) (h : elem x (neighbours k adjacency) ≡ true).
      (made x).0
      ∙ (made x).1 k (any-sort_by (joins k x) edge_before edges ∙ sym (listed k x) ∙ h) in
    let (groups, r, cover, apart, together) =
      decompose_connected_components_lem adjacency closed back in
    (
      groups,
      r,
      (λ x. cover x ∙ same x),
      apart,
      All-map _ _ groups
          (λ group t k x h.
            iff-eq (elem k group) (elem x group) (t k x (listed k x ∙ h))
              (t x k (back k x (listed k x ∙ h))))
          together,
    )
