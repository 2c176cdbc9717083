-- ===== src/Motor/Node/Threads/Exclusion.antt =====
-- What the flag of the node's threads gives
-- (catkin_ws/src/motor_driver/src/motor_driver_node.cpp).
use ku_polishing_robot_drive.Base.{
  All, Bool, List, Option, [], ap, arith, false, if◌then◌else◌, refl, true, ℕ, ◌++◌, ◌+◌, ◌<◌, ◌∷◌,
  ◌≡◌, ◌≢◌, ◌≤◌,
}
use ku_polishing_robot_drive.Motor.Node.{Config}
use ku_polishing_robot_drive.Motor.Node.Threads.Invariant.{
  IsAllowed, holders, interlock, start_system-Inv,
}
use ku_polishing_robot_drive.Motor.Node.Threads.Preserved.{Reach-Inv}
use ku_polishing_robot_drive.Motor.Node.Threads.{
  finish, release, here, next, Reach, Goal, System, Worker, after, disabling, enabling, rechecking,
  releasing, resetting, running, start_system,
}

-- Whatever the order of callbacks, timer ticks and thread steps since the start of the node, and
-- however the drives answer: exactly one thread drives the motors or is about to clear
-- `transition_in_progress_` while that flag is set, and none while it is not.
pub holders-eq :
    {W : Type 0} {c : Config} {now : ℕ} {s : System}
    → Reach W c (start_system c now) s
    → holders s.workers ≡ (if s.node.transition_in_progress then 1 else 0)
holders-eq {c} {now} r = (Reach-Inv (start_system-Inv c now) r).one

-- While the interlock is not satisfied, the motors are never enabled, and no thread runs that could
-- enable them.
pub interlock_keeps_off :
    {W : Type 0} {c : Config} {now : ℕ} {s : System}
    → Reach W c (start_system c now) s
    → interlock c ≡ false
    → (s.node.motors_enabled ≡ false)
      × All (λ w. (w ≢ running enabling) × (w ≢ running resetting)) s.workers
interlock_keeps_off {c} {now} {s} r off =
    let inv = Reach-Inv (start_system-Inv c now) r in
    (ground (arith, inv.enabled, off), quiet s.workers inv.allowed)
  where
    quiet :
        (ws : List Worker)
        → All (IsAllowed c) ws
        → All (λ w. (w ≢ running enabling) × (w ≢ running resetting)) ws
    quiet [] h = tt
    quiet (running enabling ∷ ws) h = absurd (cc)
    quiet (running disabling ∷ ws) h = ((λ e. cc, λ e. cc), quiet ws h.1)
    quiet (running resetting ∷ ws) h = absurd (cc)
    quiet (releasing want ∷ ws) h = ((λ e. cc, λ e. cc), quiet ws h.1)
    quiet (rechecking want ∷ ws) h = ((λ e. cc, λ e. cc), quiet ws h.1)

-- When the control loop starts a reset, the interlock is satisfied, and more than the interval of
-- resets has passed since the last one was started.
pub reset_interval :
    {W : Type 0} {c : Config} {now : ℕ} {s : System}
    → Reach W c (start_system c now) s
    → (later : ℕ) → s.time ≤ later
    → s.decided ≡ true
    → (interlock c ≡ true) × (s.node.last_reset_attempt + c.fault_reset_interval < later)
reset_interval {c} {now} r later time go =
    let (on, due) = (Reach-Inv (start_system-Inv c now) r).decision go in (on, omega arith)

-- A thread that holds the flag, among the threads.
data Holder (ws : List Worker) : Type 0 where
  runs : (front back : List Worker) (goal : Goal) → ws ≡ front ++ running goal ∷ back → Holder ws
  stops :
      (front back : List Worker) (want : Option Bool)
      → ws ≡ front ++ releasing want ∷ back
      → Holder ws

behind : (w : Worker) (ws : List Worker) → Holder ws → Holder (w ∷ ws)
behind w ws (runs front back goal e) =
    runs (w ∷ front) back goal (ap (λ (l : List Worker). w ∷ l) e)
behind w ws (stops front back want e) =
    stops (w ∷ front) back want (ap (λ (l : List Worker). w ∷ l) e)

find-Holder : (ws : List Worker) → 0 < holders ws → Holder ws
unfolding holders
find-Holder [] h = absurd (omega arith)
find-Holder (running goal ∷ ws) h = runs [] ws goal refl
find-Holder (releasing want ∷ ws) h = stops [] ws want refl
find-Holder (rechecking want ∷ ws) h = behind (rechecking want) ws (find-Holder ws h)

-- While `transition_in_progress_` is set, the threads can go on until it is cleared: from every
-- reachable state some steps lead to a state in which it is not set.
pub transition_ends :
    {W : Type 0} {c : Config} {now : ℕ} {s : System}
    → Reach W c (start_system c now) s
    → s.node.transition_in_progress ≡ true
    → (t : System) × Reach W c s t × (t.node.transition_in_progress ≡ false)
transition_ends {W} {c} {now} {s} r set =
    go (find-Holder s.workers (ground (arith, holders-eq r, set)))
  where
    go : Holder s.workers → (t : System) × Reach W c s t × (t.node.transition_in_progress ≡ false)
    go (runs front back goal e) = (
      _,
      next (next here (finish front back goal true e)) (release front back (after goal) refl),
      refl,
    )
    go (stops front back want e) = (_, next here (release front back want e), refl)
