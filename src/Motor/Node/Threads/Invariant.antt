-- ===== src/Motor/Node/Threads/Invariant.antt =====
-- What holds between any two steps of the node's threads
-- (catkin_ws/src/motor_driver/src/motor_driver_node.cpp).
use ku_polishing_robot_drive.Base.{
  All, All-append, Bool, List, [], arith, false, if◌then◌else◌, refl, sym, true, ℕ, ◌++◌, ◌+◌, ◌<◌,
  ◌∷◌, ◌≡◌,
}
use ku_polishing_robot_drive.Motor.Node.{
  Config, compute_want_enabled, initial_node, update_enable_state,
}
use ku_polishing_robot_drive.Motor.Node.Threads.{
  System, Worker, disabling, enabling, rechecking, releasing, resetting, running, start_system,
  goal_of,
}

-- the threads that hold `transition_in_progress_`
unfoldable pub holders : List Worker → ℕ
holders [] = 0
holders (running goal ∷ ws) = holders ws + 1
holders (releasing want ∷ ws) = holders ws + 1
holders (rechecking want ∷ ws) = holders ws

pub holders-append : (xs ys : List Worker) → holders (xs ++ ys) ≡ holders xs + holders ys
unfolding holders
holders-append [] ys = omega arith
holders-append (running goal ∷ xs) ys = omega (arith, holders-append xs ys)
holders-append (releasing want ∷ xs) ys = omega (arith, holders-append xs ys)
holders-append (rechecking want ∷ xs) ys = holders-append xs ys

-- The interlock, which no callback changes.
abbrev pub interlock : Config → Bool
interlock c = compute_want_enabled c (initial_node 0)

-- A thread that could enable the motors was started with the interlock satisfied.
abbrev pub IsAllowed : Config → Worker → Type 0
IsAllowed c (running enabling) = interlock c ≡ true
IsAllowed c (running disabling) = Unit
IsAllowed c (running resetting) = interlock c ≡ true
IsAllowed c (releasing want) = Unit
IsAllowed c (rechecking want) = Unit

pub record Inv (c : Config) (s : System) : Type 0 where
  pub one : holders s.workers ≡ (if s.node.transition_in_progress then 1 else 0)
  pub allowed : All (IsAllowed c) s.workers
  pub steady : compute_want_enabled c s.node ≡ interlock c
  pub enabled : s.node.motors_enabled ≡ true → interlock c ≡ true
  pub decision :
      s.decided ≡ true
      → (interlock c ≡ true) × (s.node.last_reset_attempt + c.fault_reset_interval < s.time)

pub All-split {ℓ κ} :
    {A : Type ℓ} (P : A → Type κ) (xs : List A) (y : A) (ys : List A)
    → All P (xs ++ y ∷ ys)
    → All P xs × P y × All P ys
All-split P [] y ys h = (tt, h.0, h.1)
All-split P (x ∷ xs) y ys h = let (a, b, d) = All-split P xs y ys h.1 in ((h.0, a), b, d)

pub All-join {ℓ κ} :
    {A : Type ℓ} (P : A → Type κ) (xs ys : List A) → All P xs → All P ys → All P (xs ++ ys)
All-join P xs ys hx hy = All-append P xs ys hx hy

pub goal_of-IsAllowed :
    (c : Config) (want : Bool) → want ≡ interlock c → IsAllowed c (running (goal_of want))
goal_of-IsAllowed c true e = sym e
goal_of-IsAllowed c false e = tt

pub start_system-Inv : (c : Config) (now : ℕ) → Inv c (start_system c now)
unfolding update_enable_state holders compute_want_enabled
start_system-Inv c now = record {
  one = refl;
  allowed = (goal_of-IsAllowed c _ refl, tt);
  steady = refl;
  enabled = λ h. cc;
  decision = λ h. cc;
}
