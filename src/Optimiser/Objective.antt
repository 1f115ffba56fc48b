-- ===== src/Optimiser/Objective.antt =====
-- optimiser.build_objective_encoding.
use robot_fleet_management.Base.{
  ℕ, ◌+◌, ◌-◌, ◌*◌, leb, List, [], ◌∷◌, length, all, elem, sorted, Dict, lookup, keys, Result, ok,
  ◌>>=◌, ◌>>◌, value_error, key_error, require, or_raise,
}
use robot_fleet_management.Priority.{PriorityBreakdown}

pub record ObjectiveEncoding : Type 0 where
  pub coefficients : Dict ℕ
  pub utility_scale : ℕ
  pub rank_bonuses : Dict ℕ

-- _CP_SAT_INTEGER_LIMIT, 2 ^ 63 - 1
abbrev pub cp_sat_integer_limit : ℕ
cp_sat_integer_limit = 9_223_372_036_854_775_807

-- The comprehension over `enumerate(ordered)`, from an index on.
unfoldable pub rank_bonuses_from : ℕ → ℕ → List ℕ → Dict ℕ
rank_bonuses_from count index [] = []
rank_bonuses_from count index (r ∷ rs) =
    (r, count - index - 1) ∷ rank_bonuses_from count (index + 1) rs

-- `sum(rank_bonuses.values())`
unfoldable pub sum_values : Dict ℕ → ℕ
sum_values [] = 0
sum_values ((r, v) ∷ d) = v + sum_values d

unfoldable pub coefficients_of : Dict PriorityBreakdown → ℕ → Dict ℕ → List ℕ → Result (Dict ℕ)
coefficients_of priorities scale ranks [] = ok []
coefficients_of priorities scale ranks (r ∷ rs) = do
  score ← or_raise (lookup r priorities) key_error
  rank ← or_raise (lookup r ranks) key_error
  rest ← coefficients_of priorities scale ranks rs
  ok ((r, score.final_score * scale + rank) ∷ rest)

-- The component's robots are distinct, so each comprehension adds one entry for each.
unfoldable pub build_objective_encoding : List ℕ → Dict PriorityBreakdown → Result ObjectiveEncoding
unfolding rank_bonuses_from sum_values coefficients_of
build_objective_encoding component priorities = do
  let ordered = sorted component
  require (all (λ r. elem r (keys priorities)) ordered) value_error
  let ranks = rank_bonuses_from (length ordered) 0 ordered
  let scale = sum_values ranks + 1
  coefficients ← coefficients_of priorities scale ranks ordered
  require (all (λ e. leb e.1 cp_sat_integer_limit) coefficients) value_error
  ok (record { coefficients = coefficients; utility_scale = scale; rank_bonuses = ranks })
