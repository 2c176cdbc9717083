-- ===== src/Lift/Events.antt =====
-- The life of the lift driver (catkin_ws/src/lift_driver/src/lift_driver_node.cpp): the constructor
-- and the callbacks and timer ticks that ROS makes, one at a time, on its single spinner thread.
use ku_polishing_robot_drive.Base.{Bool, List, [], false, if◌then◌else◌, ltb, pos, u16, ℕ, ℤ, ◌∷◌}
use Prim.Native.String.{String}
use ku_polishing_robot_drive.Lift.Driver.{
  Config, Driver, manual, publish, send, homed_msg, send_velocity,
}
use ku_polishing_robot_drive.Lift.Protocol.{position_vel}
use ku_polishing_robot_drive.Lift.Poll.{poll}
use ku_polishing_robot_drive.Lift.Commands.{
  command_callback, velocity_cmd_callback, position_cmd_callback, inc_position_cmd_callback,
  home_callback, reset_callback,
}

-- `LiftDriver::LiftDriver`, after the parameters are read; `serial_open` is what `serial_->open` did
unfoldable pub initial : Config → Bool → Bool → Bool → Driver
initial c serial_open enable_position_control auto_home_on_start =
    let d : Driver = record {
      serial_open = serial_open;
      got_data = false;
      current_pos = pos 0;
      status_byte = 0;
      di_byte = 0;
      rpm = pos 0;
      last_rx = 0;
      rx_buf = [];
      mode = manual;
      homed = false;
      target_pos = pos 0;
      home_dir_speed = pos 0;
      home_start = 0;
      home_start_pos = pos 0;
      home_alarm_seen = false;
      home_log_time = 0;
      home_log_pos = pos 0;
      stall_since = 0;
      stall_ref_pos = pos 0;
      stall_tracking = false;
      pending_home = false;
      last_vel_cmd = pos 0;
      vel_cmd_time = 0;
      vel_ref_pos = pos 0;
      vel_ref_time = 0;
      vel_ref_valid = false;
      alarm_active = false;
      alarm_status = 0;
      alarm_reset_attempts = 0;
      alarm_reset_exhausted = false;
      last_alarm_reset = 0;
      resume_mode = manual;
      resume_target = pos 0;
      resume_cycles = 0;
      sent = [];
      published = [];
    } in
    if enable_position_control
    then record (publish (homed_msg false) (
        if ltb 0 c.posi_base_vel_rpm then send (position_vel (u16 c.posi_base_vel_rpm)) d else d)) {
          pending_home = auto_home_on_start;
        }
    else d

-- A callback or a tick, with the time at which it runs.
pub data Event : Type 0 where
  command : String → Event
  velocity_cmd position_cmd inc_position_cmd : ℤ → Event
  home reset : Bool → Event
  tick : List ℕ → Event

unfoldable pub step : Config → Driver → ℕ × Event → Driver
step c d (now, command text) = command_callback c now text d
step c d (now, velocity_cmd rpm) = velocity_cmd_callback now rpm d
step c d (now, position_cmd target) = position_cmd_callback target d
step c d (now, inc_position_cmd counts) = inc_position_cmd_callback counts d
step c d (now, home start) = home_callback c now start d
step c d (now, reset go) = reset_callback c now go d
step c d (now, tick received) = poll c now received d

unfoldable pub run : Config → Driver → List (ℕ × Event) → Driver
run c d [] = d
run c d (e ∷ es) = run c (step c d e) es

-- `LiftDriver::~LiftDriver`
unfoldable pub destroy : ℕ → Driver → Driver
destroy now d = record (send_velocity now (pos 0) d) { serial_open = false }
