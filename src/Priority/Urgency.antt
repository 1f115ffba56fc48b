-- ===== src/Priority/Urgency.antt =====
-- The deadline term: bounded, and never smaller when less slack is left.
use robot_fleet_management.Base.{ℕ, ◌+◌, ◌-◌, ◌*◌, ◌/◌, ◌≤◌, ◌<◌, min, max, ◌≡◌, arith}
use robot_fleet_management.Config.{MonitorConfig, IsValid}
use robot_fleet_management.Priority.Score.{deadline_urgency}

div_le : (a b n : ℕ) → 0 < n → a ≤ b → a / n ≤ b / n
div_le a b n pos h = grind arith

mul_div_le : (m k n : ℕ) → 0 < n → k ≤ n → m * k / n ≤ m
mul_div_le m k n pos h = grind arith

mul_le : (m a b : ℕ) → a ≤ b → m * a ≤ m * b
mul_le m a b h = grind arith

mul_div_self : (m n k : ℕ) → 0 < n → k ≡ 0 → m * (n - k) / n ≡ m
mul_div_self m n k pos h = grind arith

mul_div_zero : (m n k : ℕ) → 0 < n → k ≡ n → m * (n - k) / n ≡ 0
mul_div_zero m n k pos h = grind arith

-- Under a valid configuration urgency is at most its maximum, reaches it when the deadline has
-- passed, is 0 from the horizon on, does not grow with a later deadline, and the slack is the
-- time left.
pub deadline_urgency_lem :
    (deadline later now : ℕ) (c : MonitorConfig)
    → IsValid c
    → deadline ≤ later
    → ((deadline_urgency deadline now c).0 ≤ c.priority_deadline_urgency_maximum)
      × (deadline ≤ now → (deadline_urgency deadline now c).0 ≡ c.priority_deadline_urgency_maximum)
      × (now + c.priority_deadline_horizon_ms ≤ deadline → (deadline_urgency deadline now c).0 ≡ 0)
      × ((deadline_urgency later now c).0 ≤ (deadline_urgency deadline now c).0)
      × (now + (deadline_urgency deadline now c).1 ≡ max now deadline)
unfolding deadline_urgency
deadline_urgency_lem deadline later now c valid h = (
  mul_div_le m (n - min (deadline - now) n) n valid.horizon (omega arith),
  (λ due. mul_div_self m n (min (deadline - now) n) valid.horizon (omega arith)),
  (λ far. mul_div_zero m n (min (deadline - now) n) valid.horizon (omega arith)),
  div_le (m * (n - min (later - now) n)) (m * (n - min (deadline - now) n)) n valid.horizon
      (mul_le m (n - min (later - now) n) (n - min (deadline - now) n) (omega arith)),
  omega arith,
)
  where
    open c use {priority_deadline_urgency_maximum as m, priority_deadline_horizon_ms as n}
