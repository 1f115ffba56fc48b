-- ===== src/Simulator/Limits.antt =====
-- How long a scenario runs: never past its limit, and up to it unless every robot arrives.
use robot_fleet_management.Base.{
  ℕ, suc, zero, ◌+◌, ◌-◌, ◌*◌, ◌/◌, ◌≤◌, ◌≡◌, refl, ap, subst, true, false, leb, leb→le,
  if◌then◌else◌, List, [], ◌∷◌, map, all, ◌&&◌, length, Option, ok, >>=-eq-ok, ok-injective,
  require, require-ok, value_error, Bool-cases, inl, inr, ◌⊎◌, arith,
}
use robot_fleet_management.Simulator.Robot.{SimulatedRobot, at_goal, summary}
use robot_fleet_management.Simulator.Scenario.{
  ScenarioDefinition, SimulatorTickOutcome, SimulatorTickTransport, SimulationResult, tick_limit,
  create_robots, run_one, run_ticks, run_scenario,
}

all-summary :
    {F : Type 0} (rs : List (SimulatedRobot F))
    → all at_goal rs ≡ all (λ x. x.goal_reached) (map summary rs)
unfolding summary
all-summary [] = refl
all-summary (r ∷ rs) = ap (λ b. at_goal r && b) (all-summary rs)

module _ {F : Type 0} (transport : SimulatorTickTransport F) where
  -- One outcome for each tick, within the ticks that were left, and all of them where a robot has
  -- not arrived.
  abbrev IsWithin :
      (left tick : ℕ) → ℕ × List (SimulatedRobot F) × List SimulatorTickOutcome → Type 0
  IsWithin left tick (last, final, outcomes) =
      (last + 1 ≡ tick + length outcomes)
      × (length outcomes ≤ left)
      × (1 ≤ left → 1 ≤ length outcomes)
      × (all at_goal final ≡ false → length outcomes ≡ left)

  stops :
      (left tick : ℕ) (moved : List (SimulatedRobot F)) (outcome : SimulatorTickOutcome)
      (y : ℕ × List (SimulatedRobot F) × List SimulatorTickOutcome)
      → all at_goal moved ≡ true
      → (tick, moved, []) ≡ y
      → IsWithin (suc left) tick (y.0, y.1, outcome ∷ y.2)
  stops left tick moved outcome y arrived e =
      subst (λ z. IsWithin (suc left) tick (z.0, z.1, outcome ∷ z.2)) e
        (omega arith, omega arith, (λ some_left. omega arith), λ away. absurd (cc))

  continues :
      (left tick : ℕ) (outcome : SimulatorTickOutcome)
      (y : ℕ × List (SimulatedRobot F) × List SimulatorTickOutcome)
      → IsWithin left (tick + 1) y
      → IsWithin (suc left) tick (y.0, y.1, outcome ∷ y.2)
  continues left tick outcome y (count, within, some_outcome, full) = (
    omega (arith, count),
    omega (arith, within),
    (λ some_left. omega arith),
    λ away. omega (arith, full away),
  )

  run_ticks-IsWithin :
      (start duration_ms left tick : ℕ) (robots : List (SimulatedRobot F)) (s : transport.State)
      (x : ℕ × List (SimulatedRobot F) × List SimulatorTickOutcome)
      → 1 ≤ tick
      → run_ticks transport start duration_ms left tick robots s ≡ ok x
      → IsWithin left tick x
  unfolding run_ticks
  run_ticks-IsWithin start duration_ms zero tick robots s x from_one h =
      subst (IsWithin zero tick) (ok-injective h)
        (omega arith, omega arith, (λ e. absurd (omega arith)), λ e. refl)
  run_ticks-IsWithin start duration_ms (suc left) tick robots s x from_one h =
      let ((moved, outcome, s'), q1, h1) =
        >>=-eq-ok (run_one transport tick (start + (tick - 1) * duration_ms) robots s) _ h in
      let rest = run_ticks transport start duration_ms left (tick + 1) moved s' in
      let (y, q2, h2) = >>=-eq-ok (if all at_goal moved then ok (tick, moved, []) else rest) _ h1 in
      subst (IsWithin (suc left) tick) (ok-injective h2) (elim (Bool-cases (all at_goal moved)) [
        | inl arrived ↦
            let here = subst (λ b. (if b then ok (tick, moved, []) else rest) ≡ ok y) arrived q2 in
            stops left tick moved outcome y arrived (ok-injective here)
        | inr going ↦
            let there = subst (λ b. (if b then ok (tick, moved, []) else rest) ≡ ok y) going q2 in
            continues left tick outcome y
              (run_ticks-IsWithin start duration_ms left (tick + 1) moved s' y (omega arith) there)
      ])

  -- Where a scenario returns a result, it has run at least one tick and at most the limit, with
  -- one outcome for each; it is complete exactly when the summary of every robot says so; and it
  -- is complete or has run all the ticks of the limit.
  pub run_scenario-within :
      (scenario : ScenarioDefinition F) (start : ℕ) (maximum_ticks : Option ℕ) (s : transport.State)
      (r : SimulationResult)
      → run_scenario transport scenario start maximum_ticks s ≡ ok r
      → (1 ≤ r.ticks)
        × (r.ticks ≤ tick_limit scenario maximum_ticks)
        × (length r.tick_outcomes ≡ r.ticks)
        × (r.completed ≡ all (λ x. x.goal_reached) r.robots)
        × ((r.completed ≡ true) ⊎ (r.ticks ≡ tick_limit scenario maximum_ticks))
  unfolding run_scenario
  run_scenario-within scenario start maximum_ticks s r h =
      let limit = tick_limit scenario maximum_ticks in
      let (robots, q1, h1) = >>=-eq-ok (create_robots scenario start) _ h in
      let (_, q2, h2) = >>=-eq-ok (require (leb 1 limit) value_error) _ h1 in
      let (x, q3, h3) =
        >>=-eq-ok (run_ticks transport start (scenario.tick_interval_us / 1000) limit 1 robots s) _
          h2 in
      let some_tick = leb→le 1 limit (require-ok (leb 1 limit) value_error q2) in
      let (count, within, some_outcome, full) =
        run_ticks-IsWithin start (scenario.tick_interval_us / 1000) limit 1 robots s x (omega arith)
          q3 in
      let lower = some_outcome some_tick in
      let same : length x.2 ≡ x.0 = omega (arith, count) in
      subst
        (λ (y : SimulationResult).
          (1 ≤ y.ticks)
          × (y.ticks ≤ limit)
          × (length y.tick_outcomes ≡ y.ticks)
          × (y.completed ≡ all (λ z. z.goal_reached) y.robots)
          × ((y.completed ≡ true) ⊎ (y.ticks ≡ limit)))
        (ok-injective h3)
        (
          omega (arith, count, lower),
          omega (arith, count, within),
          same,
          all-summary x.1,
          elim (Bool-cases (all at_goal x.1)) [
            | inl arrived ↦ inl arrived
            | inr away ↦ inr (omega (arith, count, full away))
          ],
        )
