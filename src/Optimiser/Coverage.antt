-- ===== src/Optimiser/Coverage.antt =====
-- The objective encoding has one coefficient for each robot of the component, in order.
use robot_fleet_management.Base.{
  ℕ, ◌≡◌, sym, ap, ◌∙◌, all, elem, leb, List, [], ◌∷◌, sorted, Dict, lookup, keys, ok, >>=-eq-ok,
  ok-injective, or_raise, require, key_error, value_error,
}
use robot_fleet_management.Priority.{PriorityBreakdown}
use robot_fleet_management.Optimiser.Objective.{
  ObjectiveEncoding, coefficients_of, build_objective_encoding, cp_sat_integer_limit,
}

keys-coefficients_of :
    (priorities : Dict PriorityBreakdown) (scale : ℕ) (ranks : Dict ℕ) (rs : List ℕ) (d : Dict ℕ)
    → coefficients_of priorities scale ranks rs ≡ ok d
    → keys d ≡ rs
unfolding coefficients_of
keys-coefficients_of priorities scale ranks [] d e = ap keys (sym (ok-injective e))
keys-coefficients_of priorities scale ranks (r ∷ rs) d e =
    let (score, _, e') = >>=-eq-ok (or_raise (lookup r priorities) key_error) _ e in
    let (rank, _, e'') = >>=-eq-ok (or_raise (lookup r ranks) key_error) _ e' in
    let (rest, made, last) = >>=-eq-ok (coefficients_of priorities scale ranks rs) _ e'' in
    ap keys (sym (ok-injective last))
    ∙ ap (◌∷◌ r) (keys-coefficients_of priorities scale ranks rs rest made)

pub keys-build_objective_encoding :
    (component : List ℕ) (priorities : Dict PriorityBreakdown) (objective : ObjectiveEncoding)
    → build_objective_encoding component priorities ≡ ok objective
    → keys objective.coefficients ≡ sorted component
unfolding build_objective_encoding
keys-build_objective_encoding component priorities objective e =
    let (_, _, e') =
      >>=-eq-ok (require (all (λ r. elem r (keys priorities)) (sorted component)) value_error) _
        e in
    let (d, made, e'') = >>=-eq-ok (coefficients_of priorities _ _ (sorted component)) _ e' in
    let (_, _, last) =
      >>=-eq-ok (require (all (λ e. leb e.1 cp_sat_integer_limit) d) value_error) _ e'' in
    ap (λ o. keys o.coefficients) (sym (ok-injective last))
    ∙ keys-coefficients_of priorities _ _ (sorted component) d made
