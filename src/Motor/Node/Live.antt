-- ===== src/Motor/Node/Live.antt =====
-- The node with the states of its motors: callbacks, received frames and the node's threads, which
-- all change the same states (catkin_ws/src/motor_driver/src/motor_driver_node.cpp and
-- motor_controller.cpp). The threads' steps are those of Motor/Node/Threads.
pub mod Simulation
pub mod Targets
pub mod Stopped
pub mod Stale
use ku_polishing_robot_drive.Base.{
  List, false, if◌then◌else◌, length, ltb, some, true, ℕ, ◌++◌, ◌∷◌, ◌≡◌, ◌≤◌,
}
use ku_polishing_robot_drive.Motor.Velocity.{Speeds}
use ku_polishing_robot_drive.Motor.Controller.{
  Frame, MotorState, States, begin_configure, can_callback, end_configure, find_state, update_state,
}
use ku_polishing_robot_drive.Motor.Node.{Config, cmd_callback, control_loop, stop_targets}
use ku_polishing_robot_drive.Motor.Node.Threads.{
  Step, System, Worker, claim, command, disabling, finish, leave, pass, release, resetting, running,
  tick, start_system,
}

pub record Live (W : Type 0) : Type 0 where
  pub system : System
  pub states : States W

-- the steps of Motor/Node/Threads that are not a callback's
abbrev pub IsThread : {W : Type 0} {c : Config} {s t : System} → Step W c s t → Type 0
IsThread (command now h) = ⊥
IsThread (tick now states has_fault timeout h undecided) = ⊥
IsThread (claim now h go free) = Unit
IsThread (pass go busy) = Unit
IsThread (finish front back goal good e) = Unit
IsThread (release front back want e) = Unit
IsThread (leave front back want e) = Unit

module _ {W : Type 0} (speeds : Speeds W) (c : Config) where
  -- `cmdCallback`; a message that is too short does not read the clock
  abbrev pub after_command : ℕ → List W → Live W → Live W
  after_command now rpms s =
      let (n, states) = cmd_callback speeds c now rpms s.system.node s.states in
      record {
        system = record s.system {
          node = n;
          time = if ltb (length rpms) (length c.motors) then s.system.time else now;
        };
        states = states;
      }

  -- `controlLoop`, up to its last `exchange`
  abbrev pub after_loop : ℕ → ℕ → Live W → Live W
  after_loop now steady s =
      let t = control_loop speeds c now steady s.system.node s.states in
      record {
        system = record s.system { node = t.node; decided = t.want_reset; time = now };
        states = t.states;
      }

  pub data Event (s : Live W) : Live W → Type 0 where
    ordered : (now : ℕ) (rpms : List W) → s.system.time ≤ now → Event s (after_command now rpms s)
    looped :
        (now steady : ℕ)
        → s.system.time ≤ now
        → s.system.decided ≡ false
        → Event s (after_loop now steady s)
    heard :
        (steady : ℕ) (frame : Frame)
        → Event s (record s { states = can_callback steady frame s.states })
    moved :
        {t : System} (step : Step W c s.system t)
        → IsThread step
        → Event s (record s { system = t })
    -- a thread that disables the motors sets their speeds to 0 first
    halted :
        (front back : List Worker)
        → s.system.workers ≡ front ++ running disabling ∷ back
        → Event s (record s { states = stop_targets speeds c.motors s.states })
    -- a reset configures the nodes that need it
    begun :
        (front back : List Worker) (id steady : ℕ) (m : MotorState W)
        → s.system.workers ≡ front ++ running resetting ∷ back
        → find_state id s.states ≡ some m
        → m.needs_reinit ≡ true
        → Event s (record s {
          states = update_state id (begin_configure speeds.zero_speed steady) s.states;
        })
    ended :
        (front back : List Worker) (id steady : ℕ)
        → s.system.workers ≡ front ++ running resetting ∷ back
        → Event s (record s { states = update_state id (end_configure steady) s.states })

  pub data Run (s : Live W) : Live W → Type 0 where
    here : Run s s
    next : {t u : Live W} → Run s t → Event t u → Run s u

-- The node after its constructor: the controller is initialised, then the first transition starts.
abbrev pub start_live : {W : Type 0} → Config → ℕ → States W → Live W
start_live c now states = record { system = start_system c now; states = states }
