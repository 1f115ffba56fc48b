-- ===== src/Examples/Scores.antt =====
-- The theorems about scores, settings and the state store at concrete inputs.
use robot_fleet_management.Base.{
  elem, any, All, List, ok, ℕ, ◌+◌, ◌≡◌, ◌≤◌, ◌<◌, ◌↔◌, ◌==◌, max, refl, true, false, [], ◌∷◌, some,
  Dict, sort_by, insert, lookup, arith,
}
use robot_fleet_management.Models.{RobotState}
use robot_fleet_management.Config.{default_config, post_init, IsValid, post_init-IsValid}
use robot_fleet_management.Conflicts.Model.{component_constraints}
use robot_fleet_management.Priority.{
  PriorityBreakdown, deadline_urgency, score_component_priorities, resumed_objective_value,
  score_robot_priority,
}
use robot_fleet_management.Priority.Urgency.{deadline_urgency_lem}
use robot_fleet_management.Priority.Throughput.{resumed_objective_value_throughput}
use robot_fleet_management.StateStore.{StoredRobotState, update}
use robot_fleet_management.StateStore.Newest.{feed, newest, lookup-feed, update_lem}
use robot_fleet_management.Conflicts.Graph.{
  build_adjacency, neighbours, decompose_connected_components,
}
use robot_fleet_management.Conflicts.Graph.Components.{IsApart}
use robot_fleet_management.Conflicts.Graph.Connected.{decompose-build_adjacency}
use robot_fleet_management.Conflicts.Graph.Adjacency.{joins, build_adjacency_lem}
use robot_fleet_management.Examples.{fleet, seen}

abbrev score_of : ℕ → ℕ → PriorityBreakdown
score_of r waiting = record {
  robot_id = r;
  base_progress_value = 10;
  loaded_bonus = 0;
  deadline_urgency = 80;
  low_battery_urgency = 0;
  waiting_age_bonus = waiting;
  active_grant_continuation_bonus = 0;
  clearance_bonus = 25;
  clearance_conflict_count = 1;
  remaining_slack_ms = 58000;
  secondary_score = 115 + waiting;
  throughput_reward = 671;
  final_score = 786 + waiting;
}

abbrev scored : Dict PriorityBreakdown
scored = (1, score_of 1 0) ∷ (2, score_of 2 15) ∷ []

resumed_objective_value_throughput_example : 801 < 1587
unfolding score_component_priorities component_constraints lookup insert sort_by
    resumed_objective_value score_robot_priority
resumed_objective_value_throughput_example =
    resumed_objective_value_throughput (1 ∷ 2 ∷ []) fleet default_config 2000 ((1, 0) ∷ (2, 3) ∷ [])
      [] scored (2 ∷ []) (1 ∷ 2 ∷ []) 801 1587 refl refl refl (omega arith) refl refl

default-IsValid : IsValid default_config
unfolding post_init
default-IsValid = post_init-IsValid default_config refl

deadline_urgency_lem_example :
    ((deadline_urgency 5000 1000 default_config).0 ≤ 100)
    × (5000 ≤ 1000 → (deadline_urgency 5000 1000 default_config).0 ≡ 100)
    × (1000 + default_config.priority_deadline_horizon_ms ≤ 5000
        → (deadline_urgency 5000 1000 default_config).0 ≡ 0)
    × ((deadline_urgency 9000 1000 default_config).0
        ≤ (deadline_urgency 5000 1000 default_config).0)
    × (1000 + (deadline_urgency 5000 1000 default_config).1 ≡ max 1000 5000)
deadline_urgency_lem_example =
    deadline_urgency_lem 5000 9000 1000 default_config default-IsValid (omega arith)

build_adjacency_lem_example :
    elem 1 (neighbours 2 ((1, 2 ∷ []) ∷ (2, 1 ∷ []) ∷ (3, []) ∷ [])) ≡ any (joins 2 1) ((1, 2) ∷ [])
unfolding build_adjacency sort_by insert lookup
build_adjacency_lem_example =
    build_adjacency_lem (1 ∷ 2 ∷ 3 ∷ []) ((1, 2) ∷ []) ((1, 2 ∷ []) ∷ (2, 1 ∷ []) ∷ (3, []) ∷ []) 2
      1 refl

decompose-build_adjacency_example :
    (groups : List (List ℕ)) × (decompose_connected_components
        ((1, 2 ∷ []) ∷ (2, 1 ∷ []) ∷ (3, []) ∷ [])
      ≡ ok groups)
    × ((x : ℕ) → any (elem x) groups ≡ elem x (3 ∷ 1 ∷ 2 ∷ []))
    × IsApart groups
    × All
        (λ group. (k x : ℕ) → any (joins k x) ((1, 2) ∷ []) ≡ true → elem k group ≡ elem x group)
        groups
unfolding build_adjacency sort_by insert lookup
decompose-build_adjacency_example =
    decompose-build_adjacency (3 ∷ 1 ∷ 2 ∷ []) ((1, 2) ∷ [])
      ((1, 2 ∷ []) ∷ (2, 1 ∷ []) ∷ (3, []) ∷ []) refl

-- A state of robot 1 with a source timestamp.
abbrev at : ℕ → RobotState ℕ
at time = record {
  device_id = 1;
  timestamp = time;
  pose = (seen 1).state.pose;
  battery_level = 50_000_000;
  loaded = false;
  deadline = 60000;
  path = [];
}

lookup-feed_example :
    lookup 1 (feed ((at 20, 5) ∷ (at 10, 6) ∷ (at 20, 7) ∷ []) [])
    ≡ newest 1 (lookup 1 []) ((at 20, 5) ∷ (at 10, 6) ∷ (at 20, 7) ∷ [])
lookup-feed_example = lookup-feed 1 ((at 20, 5) ∷ (at 10, 6) ∷ (at 20, 7) ∷ []) []

abbrev kept : Dict (StoredRobotState ℕ)
kept = (1, record { state = at 20; received_us = 5 }) ∷ []

update_lem_example :
    (((update (at 10) 6 kept).0.accepted ≡ false)
      ↔ ((old : StoredRobotState ℕ) × (lookup 1 kept ≡ some old) × (10 < old.state.timestamp)))
    × ((update (at 10) 6 kept).0.accepted ≡ false → (update (at 10) 6 kept).1 ≡ kept)
    × ((update (at 10) 6 kept).0.accepted ≡ true
        → lookup 1 (update (at 10) 6 kept).1 ≡ some (record { state = at 10; received_us = 6 }))
    × ((r : ℕ) → (1 == r) ≡ false → lookup r (update (at 10) 6 kept).1 ≡ lookup r kept)
update_lem_example = update_lem (at 10) 6 kept
