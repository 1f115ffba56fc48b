-- ===== src/Simulator/Journey.antt =====
-- A simulated robot stays on its path, and the monitor sees the node that it would move to.
use robot_fleet_management.Base.{
  ℕ, suc, zero, ◌+◌, ◌≤◌, ◌≡◌, refl, sym, ap, ◌∙◌, subst, Bool, true, false, ◌||◌, leb,
  if◌then◌else◌, List, [], ◌∷◌, length, ok, >>=-eq-ok, ok-injective, require, value_error,
  if-either, arith,
}
use robot_fleet_management.Models.{
  Floats, Action, resume, is_pause, Pose, derive_next_pose, next_of, poses_equal,
}
use robot_fleet_management.Config.{full_battery}
use robot_fleet_management.Simulator.Robot.{
  SimulatedRobot, new_robot, at_goal, pop_node, advance_for_tick, receive_action, state_payload,
  mark_state_published,
}

unfoldable pub drop {ℓ} : {A : Type ℓ} → ℕ → List A → List A
drop zero xs = xs
drop (suc n) [] = []
drop (suc n) (x ∷ xs) = drop n xs

-- The robot stands on the first node of the rest of its path, which began with `start`.
pub record IsOnPath {F : Type 0} (start : Pose F) (r : SimulatedRobot F) : Type 0 where
  pub ahead : List (Pose F)
  pub stands : r.remaining_path ≡ r.pose ∷ ahead
  pub along : drop r.nodes_advanced (start ∷ r.future_path) ≡ r.remaining_path

-- The states of a robot: created, and after any advance, action or publication.
pub data Travelled {F : Type 0} (start : Pose F) : SimulatedRobot F → Type 0 where
  created :
      (robot_id : ℕ) (path : List (Pose F)) (loaded : Bool) (battery deadline : ℕ)
      (r : SimulatedRobot F)
      → new_robot robot_id start path loaded battery deadline ≡ ok r
      → Travelled start r
  advanced :
      (tick : ℕ) (r r' : SimulatedRobot F)
      → Travelled start r
      → advance_for_tick tick r ≡ ok r'
      → Travelled start r'
  instructed :
      (action : Action) (r : SimulatedRobot F)
      → Travelled start r
      → Travelled start (receive_action action r)
  announced : (r : SimulatedRobot F) → Travelled start r → Travelled start (mark_state_published r)

suc_is_plus : (n : ℕ) → suc n ≡ n + 1
suc_is_plus n = omega arith

more_than_one {ℓ} : {A : Type ℓ} (x y : A) (ys : List A) → leb (length (x ∷ y ∷ ys)) 1 ≡ false
more_than_one x y ys = ground arith

drop-next {ℓ} :
    {A : Type ℓ} (n : ℕ) (xs : List A) {x : A} {rest : List A}
    → drop n xs ≡ x ∷ rest
    → drop (suc n) xs ≡ rest
unfolding drop
drop-next zero [] h = absurd (cc)
drop-next zero (y ∷ ys) h = cc
drop-next (suc n) [] h = absurd (cc)
drop-next (suc n) (y ∷ ys) h = drop-next n ys h

module _ {F : Type 0} (start : Pose F) where
  pop_node-IsOnPath :
      (tick : ℕ) (path : List (Pose F)) (r : SimulatedRobot F)
      → r.remaining_path ≡ path
      → IsOnPath start r
      → IsOnPath start (pop_node tick path r)
  unfolding pop_node
  pop_node-IsOnPath tick [] r e p = p
  pop_node-IsOnPath tick (here ∷ []) r e p = p
  pop_node-IsOnPath tick (here ∷ next ∷ rest) r e p = record {
    ahead = rest;
    stands = refl;
    along =
        subst (λ n. drop n (start ∷ r.future_path) ≡ next ∷ rest) (suc_is_plus r.nodes_advanced)
          (drop-next r.nodes_advanced (start ∷ r.future_path) (p.along ∙ e));
  }

  advance_for_tick-IsOnPath :
      (tick : ℕ) (r r' : SimulatedRobot F)
      → advance_for_tick tick r ≡ ok r'
      → IsOnPath start r
      → IsOnPath start r'
  unfolding advance_for_tick
  advance_for_tick-IsOnPath tick r r' h p =
      let (_, _, h1) = >>=-eq-ok (require (leb 1 tick) value_error) _ h in
      subst (IsOnPath start) (ok-injective h1) (
        if-either (IsOnPath start) (at_goal r || is_pause r.latest_action) p
          (pop_node-IsOnPath tick r.remaining_path r refl p))

  new_robot-IsOnPath :
      (robot_id : ℕ) (path : List (Pose F)) (loaded : Bool) (battery deadline : ℕ)
      (r : SimulatedRobot F)
      → new_robot robot_id start path loaded battery deadline ≡ ok r
      → IsOnPath start r
  unfolding new_robot drop
  new_robot-IsOnPath robot_id path loaded battery deadline r h =
      let (_, _, h1) = >>=-eq-ok (require (leb 1 robot_id) value_error) _ h in
      let (_, _, h2) = >>=-eq-ok (require (leb battery full_battery) value_error) _ h1 in
      subst (IsOnPath start) (ok-injective h2)
        (record { ahead = path; stands = refl; along = refl })

  -- In every state that a simulated robot can reach, the rest of its path begins with its pose,
  -- and is the path from its start less as many nodes as it has advanced.
  pub Travelled-IsOnPath : (r : SimulatedRobot F) → Travelled start r → IsOnPath start r
  unfolding receive_action mark_state_published
  Travelled-IsOnPath r (created robot_id path loaded battery deadline _ h) =
      new_robot-IsOnPath robot_id path loaded battery deadline r h
  Travelled-IsOnPath r (advanced tick r0 _ t h) =
      advance_for_tick-IsOnPath tick r0 r h (Travelled-IsOnPath r0 t)
  Travelled-IsOnPath _ (instructed action r0 t) =
      let p = Travelled-IsOnPath r0 t in
      record { ahead = p.ahead; stands = p.stands; along = p.along }
  Travelled-IsOnPath _ (announced r0 t) =
      let p = Travelled-IsOnPath r0 t in
      record { ahead = p.ahead; stands = p.stands; along = p.along }

module _ (floats : Floats) (start : Pose floats.Float) where
  seen :
      (r : SimulatedRobot floats.Float) (tick timestamp : ℕ) (tolerance : floats.Float)
      (ahead : List (Pose floats.Float))
      → 1 ≤ tick
      → r.remaining_path ≡ r.pose ∷ ahead
      → poses_equal floats r.pose r.pose tolerance ≡ ok true
      → (r' : SimulatedRobot floats.Float) × (advance_for_tick tick (receive_action resume r)
          ≡ ok r')
        × (derive_next_pose floats (state_payload timestamp r) tolerance ≡ ok (r'.pose, at_goal r))
  unfolding advance_for_tick receive_action derive_next_pose state_payload pop_node next_of
  seen r tick timestamp tolerance [] some_tick stands same =
      let ticking : leb 1 tick ≡ true = ground arith in
      let there : at_goal r ≡ true = ap (λ path. leb (length path) 1) stands in
      (
        receive_action resume r,
        rw (ticking, advance_for_tick, receive_action, there) refl,
        subst
            (λ b.
              next_of floats r.pose (if b then [] else r.remaining_path) tolerance ≡ ok (r.pose, b))
            (sym there) refl,
      )
  seen r tick timestamp tolerance (n ∷ ns) some_tick stands same =
      let ticking : leb 1 tick ≡ true = ground arith in
      let away : at_goal r ≡ false =
        ap (λ path. leb (length path) 1) stands ∙ more_than_one r.pose n ns in
      let second : next_of floats r.pose (r.pose ∷ n ∷ ns) tolerance ≡ ok (n, false) =
        rw same refl in
      (
        pop_node tick (r.pose ∷ n ∷ ns) (receive_action resume r),
        rw (ticking, advance_for_tick, receive_action, away)
            (ap (λ path. ok (pop_node tick path (receive_action resume r))) stands),
        subst
            (λ b. next_of floats r.pose (if b then [] else r.remaining_path) tolerance ≡ ok (n, b))
            (sym away)
            (subst (λ path. next_of floats r.pose path tolerance ≡ ok (n, false)) (sym stands)
              second),
      )

  -- The next pose that the monitor derives from the state of a robot is where the robot will
  -- stand after it is told to Resume and a tick passes, and the monitor sees it at its goal
  -- exactly when no node is left; given that a pose equals itself within the tolerance.
  pub derive_next_pose-advance :
      (r : SimulatedRobot floats.Float) (tick timestamp : ℕ) (tolerance : floats.Float)
      → Travelled start r
      → 1 ≤ tick
      → poses_equal floats r.pose r.pose tolerance ≡ ok true
      → (r' : SimulatedRobot floats.Float) × (advance_for_tick tick (receive_action resume r)
          ≡ ok r')
        × (derive_next_pose floats (state_payload timestamp r) tolerance ≡ ok (r'.pose, at_goal r))
  derive_next_pose-advance r tick timestamp tolerance t some_tick same =
      let p = Travelled-IsOnPath start r t in
      seen r tick timestamp tolerance p.ahead some_tick p.stands same
