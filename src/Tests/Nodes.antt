-- ===== src/Tests/Nodes.antt =====
-- The node of the drive motors (catkin_ws/src/motor_driver/src/motor_driver_node.cpp) at concrete
-- inputs.
use ku_polishing_robot_drive.Base.{
  All, [], arith, false, neg, pos, refl, some, true, ℕ, ℤ, ◌∷◌, ◌≡◌, ◌≢◌,
}
use ku_polishing_robot_drive.Motor.Cia402.{get_cia402_state, decide_state}
use ku_polishing_robot_drive.Motor.Controller.{find_state, is_operation_enabled, reinit_pending}
use ku_polishing_robot_drive.Motor.Node.{any_not_enabled}
use ku_polishing_robot_drive.Motor.Node.{
  Config, Node, control_loop, initial_node, wants_reset, update_enable_state, compute_want_enabled,
  any_not_enabled,
}
use ku_polishing_robot_drive.Motor.Node.Commands.{
  control_loop-is_error, control_loop-target, halted, target,
}
use ku_polishing_robot_drive.Motor.Node.Views.{IsFed, NoAlarm, health, view}
use ku_polishing_robot_drive.Motor.Node.Threads.{
  System, Reach, running, releasing, rechecking, enabling, disabling, resetting, start_system, here,
  next, tick, finish, release,
}
use ku_polishing_robot_drive.Motor.Node.Threads.Invariant.{holders}
use ku_polishing_robot_drive.Motor.Node.Threads.Exclusion.{
  holders-eq, interlock_keeps_off, transition_ends,
}
use ku_polishing_robot_drive.Motor.Velocity.{Speeds}
use ku_polishing_robot_drive.Motor.Controller.{MotorState, States, find_state, is_operation_enabled}

abbrev pub config : Config
config = record {
  motors = (1, false) ∷ (2, true) ∷ [];
  cmd_timeout = 500;
  feedback_timeout = 300;
  reinit_feedback_loss = 2000;
  fault_reset_interval = 1000;
  require_traction_enable = false;
  use_brake_interlock = false;
}

abbrev pub speeds : Speeds ℤ
speeds = record {
  zero_speed = pos 0;
  negate = neg;
  to_pps = λ w. w;
  of_pps = λ z. z;
  of_pps_reversed = neg;
}

-- a motor in STO that still has a target speed
abbrev motor : ℕ → ℤ → MotorState ℤ
motor code speed = record {
  voltage = 0;
  error_code = code;
  status_flags = 0x4050;
  current_raw = pos 0;
  last_alarm_code = 0;
  target_velocity = speed;
  feedback_velocity = pos 0;
  feedback_position = pos 0;
  last_feedback_time = 900;
  needs_reinit = false;
  reinit_suppress_until = 0;
}

abbrev pub good : States ℤ
good = (1, motor 0 (pos 40)) ∷ (2, motor 0 (pos 40)) ∷ []

abbrev pub driving : Node
driving = record (initial_node 100) { motors_enabled = true }

good-health :
    All (λ m. NoAlarm (view health m.0 good) × IsFed 1000 300 (view health m.0 good)) config.motors
unfolding find_state
good-health = ((refl, omega arith), ((refl, omega arith), tt))

control_loop-is_error_example :
    (control_loop speeds config 1000 1000 driving good).node.is_error ≡ false
control_loop-is_error_example =
    (control_loop-is_error speeds config 1000 1000 driving good).1 good-health

control_loop-target_example :
    view target 2 (control_loop speeds config 1000 1000 driving good).states
    ≡ some (halted speeds 2)
unfolding find_state
control_loop-target_example = control_loop-target speeds config 1000 1000 2 driving good

-- The motors are enabled, the thread ends, and a tick finds them disabled.
abbrev pub enabling_system : System
enabling_system = record {
  node = record (initial_node 0) {
    transition_in_progress = true;
    last_brake_want_enabled = true;
    brake_fb_initialized = true;
  };
  workers = running enabling ∷ [];
  decided = false;
  time = 0;
}

abbrev pub enabled_system : System
enabled_system = record enabling_system {
  node = record enabling_system.node { motors_enabled = true };
  workers = releasing (some true) ∷ [];
}

abbrev free_system : System
free_system = record enabled_system {
  node = record enabled_system.node { transition_in_progress = false };
  workers = rechecking true ∷ [];
}

abbrev deciding_system : System
deciding_system = record free_system { decided = true; time = 1500 }

to_enabled : Reach ℤ config (start_system config 0) enabled_system
unfolding update_enable_state compute_want_enabled
to_enabled = next here (finish [] [] enabling true refl)

to_deciding : Reach ℤ config (start_system config 0) deciding_system
unfolding wants_reset any_not_enabled compute_want_enabled is_operation_enabled find_state
    get_cia402_state decide_state reinit_pending
to_deciding =
    next (next to_enabled (release [] [] (some true) refl))
      (tick 1500 good false false (omega arith) refl)

holders-eq_example : holders enabled_system.workers ≡ 1
holders-eq_example = holders-eq to_enabled

transition_ends_example :
    (t : System) × Reach ℤ config enabled_system t × (t.node.transition_in_progress ≡ false)
transition_ends_example = transition_ends to_enabled refl

-- With `require_traction_enable` the motors stay off: the callback that would set
-- `last_traction_enable_cmd_` is commented out.
abbrev pub locked : Config
locked = record config { require_traction_enable = true }

abbrev pub disabling_system : System
disabling_system = record enabling_system {
  node = record enabling_system.node { last_brake_want_enabled = false };
  workers = running disabling ∷ [];
}

to_disabling : Reach ℤ locked (start_system locked 0) disabling_system
unfolding update_enable_state compute_want_enabled
to_disabling = here

interlock_keeps_off_example :
    (disabling_system.node.motors_enabled ≡ false)
    × All (λ w. (w ≢ running enabling) × (w ≢ running resetting)) disabling_system.workers
unfolding compute_want_enabled
interlock_keeps_off_example = interlock_keeps_off to_disabling refl
