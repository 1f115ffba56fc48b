-- ===== src/Conflicts/Model.antt =====
-- conflicts.ConflictModel, and the selection of one component's constraints.
use robot_fleet_management.Base.{ℕ, List, keep_if, Dict}
use robot_fleet_management.Models.{RobotSnapshot}
use robot_fleet_management.Conflicts.Pairs.{NoGoodConstraint, PairwiseCompatibility, within}

pub record ConflictModel (F : Type 0) : Type 0 where
  pub snapshots : Dict (RobotSnapshot F)
  pub pairwise_constraints : List (PairwiseCompatibility F)
  pub no_goods : List NoGoodConstraint
  pub edges : List (ℕ × ℕ)
  pub adjacency : Dict (List ℕ)
  pub isolated_robots : List ℕ
  pub connected_components : List (List ℕ)

-- The same selection is written out in priority.py, optimiser.py, heuristic.py and grants.py.
unfoldable pub component_constraints :
    {F : Type 0} → List ℕ → ConflictModel F → List (PairwiseCompatibility F)
component_constraints ids m = keep_if (within ids) m.pairwise_constraints
