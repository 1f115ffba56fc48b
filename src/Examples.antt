-- ===== src/Examples.antt =====
-- The theorems at concrete inputs: two robots that may not resume together.
mod Search
mod Scores
mod Solving
mod Manager
mod Ticks
mod Service
mod Simulation
use robot_fleet_management.Base.{
  same_ids, all, if◌then◌else◌, ℕ, ◌≡◌, refl, ◌↔◌, Bool, true, false, not, ◌&&◌, List, [], ◌∷◌,
  Option, none, some, Dict, sorted, sort_by, Result, ok, raise, lookup, insert,
}
use robot_fleet_management.Models.{
  Action, pause, resume, is_resume, heuristic, fail_safe, Pose, RobotState, RobotSnapshot,
}
use robot_fleet_management.Config.{MonitorConfig, default_config}
use robot_fleet_management.Priority.{PriorityBreakdown}
use robot_fleet_management.Conflicts.Pairs.{PairwiseCompatibility}
use robot_fleet_management.Conflicts.Model.{ConflictModel, component_constraints}
use robot_fleet_management.Optimiser.Objective.{ObjectiveEncoding, build_objective_encoding}
use robot_fleet_management.Optimiser.Validate.{decides, validate_component_decisions}
use robot_fleet_management.Optimiser.Validity.{
  safe_under, accept_if, validate_component_decisions_lem,
}
use robot_fleet_management.Grants.Group.{neutral}
use robot_fleet_management.Heuristic.Solve.{HeuristicResult, solve, named_priorities}
use robot_fleet_management.Heuristic.Clause.{Plan, build_clauses}
use robot_fleet_management.Heuristic.Propagate.{propagated}
use robot_fleet_management.Heuristic.Greedy.{greedy_pass, greedy_loop, choose}
use robot_fleet_management.Heuristic.Solve.Ready.{IsReady}
use robot_fleet_management.Heuristic.Solve.Liveness.{
  CanProgress, IsAdmissible, solve-CanProgress, solve-feasible, solve-validates, solve-source,
}

abbrev origin : Pose ℕ
origin = record { x = 0; y = 0; theta = 0 }

abbrev seen : ℕ → RobotSnapshot ℕ
seen r = record {
  state = record {
    device_id = r;
    timestamp = 1000;
    pose = origin;
    battery_level = 50_000_000;
    loaded = false;
    deadline = 60000;
    path = origin ∷ [];
  };
  received_at_ms = 1000;
  stale = false;
  next_pose = origin;
  at_goal = false;
}

-- At most one of the two robots may resume.
abbrev crossing : PairwiseCompatibility ℕ
crossing = record {
  robot_i = 1;
  robot_j = 2;
  compatibility = λ i j. not (is_resume i && is_resume j);
  envelope_bounds = λ i j. ((0, 0, 1, 1), (0, 0, 1, 1));
}

abbrev fleet : ConflictModel ℕ
fleet = record {
  snapshots = (1, seen 1) ∷ (2, seen 2) ∷ [];
  pairwise_constraints = crossing ∷ [];
  no_goods = [];
  edges = (1, 2) ∷ [];
  adjacency = (1, 2 ∷ []) ∷ (2, 1 ∷ []) ∷ [];
  isolated_robots = [];
  connected_components = (1 ∷ 2 ∷ []) ∷ [];
}

abbrev scores : Dict PriorityBreakdown
scores = (1, neutral 1) ∷ (2, neutral 2) ∷ []

abbrev encoding : ObjectiveEncoding
encoding = record {
  coefficients = (1, 3) ∷ (2, 2) ∷ [];
  utility_scale = 2;
  rank_bonuses = (1, 1) ∷ (2, 0) ∷ [];
}

-- Robot 2 must resume.
abbrev hard : Dict Action
hard = (2, resume) ∷ []

ready : IsReady (1 ∷ 2 ∷ []) fleet scores hard encoding
unfolding named_priorities build_objective_encoding lookup sort_by
ready = record {
  some_robot = refl;
  unique = refl;
  known = refl;
  scored = refl;
  named = refl;
  hard_known = refl;
  hard_unique = refl;
  encoded = refl;
}

solve-CanProgress_example :
    (r : HeuristicResult) × (solve default_config (1 ∷ 2 ∷ []) fleet scores hard ≡ ok r)
    × ((r.progress_made ≡ true)
        ↔ CanProgress
            (sorted (1 ∷ 2 ∷ []))
            (component_constraints (sorted (1 ∷ 2 ∷ [])) fleet)
            hard)
solve-CanProgress_example =
    solve-CanProgress default_config (1 ∷ 2 ∷ []) fleet scores hard encoding ready

solve_run :
    solve default_config (1 ∷ 2 ∷ []) fleet scores hard
    ≡ ok (record {
      feasible = true;
      decisions = (1, pause) ∷ (2, resume) ∷ [];
      decision_source = heuristic;
      progress_made = true;
      fallback_reason = none;
    })
unfolding solve sort_by lookup build_clauses component_constraints build_objective_encoding
    greedy_pass propagated insert greedy_loop choose validate_component_decisions
solve_run = refl

solve-feasible_example :
    (r : HeuristicResult) × (solve default_config (1 ∷ 2 ∷ []) fleet scores hard ≡ ok r)
    × ((r.feasible ≡ true) ↔ (
        (plan : Plan) × IsAdmissible plan (component_constraints (sorted (1 ∷ 2 ∷ [])) fleet) hard))
solve-feasible_example = solve-feasible default_config (1 ∷ 2 ∷ []) fleet scores hard encoding ready

solve-validates_example :
    (r : HeuristicResult) × (solve default_config (1 ∷ 2 ∷ []) fleet scores hard ≡ ok r)
    × (r.feasible ≡ true
        → validate_component_decisions
            (sorted (1 ∷ 2 ∷ []))
            r.decisions
            (component_constraints (sorted (1 ∷ 2 ∷ [])) fleet)
            hard
          ≡ ok tt)
solve-validates_example =
    solve-validates default_config (1 ∷ 2 ∷ []) fleet scores hard encoding ready

solve-source_example :
    (r : HeuristicResult) × (solve default_config (1 ∷ 2 ∷ []) fleet scores hard ≡ ok r)
    × (r.decision_source ≡ (if r.progress_made then heuristic else fail_safe))
solve-source_example = solve-source default_config (1 ∷ 2 ∷ []) fleet scores hard encoding ready

validate_component_decisions_lem_example :
    validate_component_decisions (1 ∷ 2 ∷ []) ((1, pause) ∷ (2, resume) ∷ []) (crossing ∷ []) hard
    ≡ accept_if (
        same_ids (1 ∷ 2 ∷ []) (sorted (1 ∷ 2 ∷ []))
        && all (safe_under ((1, pause) ∷ (2, resume) ∷ [])) (crossing ∷ [])
        && all (λ h. decides ((1, pause) ∷ (2, resume) ∷ []) h.0 h.1) hard)
validate_component_decisions_lem_example =
    validate_component_decisions_lem (1 ∷ 2 ∷ []) ((1, pause) ∷ (2, resume) ∷ []) (crossing ∷ [])
      hard refl
