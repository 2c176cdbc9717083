-- ===== src/Lift/Params.antt =====
-- The constructor of `LiftDriver` from its parameters
-- (catkin_ws/src/lift_driver/src/lift_driver_node.cpp).
use ku_polishing_robot_drive.Base.{
  Bool, dist_ℤ, false, if◌then◌else◌, ltb_ℤ, pos, pos_part, true, ℕ, ℤ,
}
use Prim.Native.String.{String}
use ku_polishing_robot_drive.ParamServer.{byte_of, Doubles, Server, param, raised}
use ku_polishing_robot_drive.Lift.Protocol.{Ids}
use ku_polishing_robot_drive.Lift.Driver.{Config, Driver}
use ku_polishing_robot_drive.Lift.Events.{initial}

pub record Settings (R : Type 0) : Type 0 where
  pub config : Config
  pub enable_position_control : Bool
  pub auto_home_on_start : Bool
  pub port : String
  pub baud : ℤ
  pub poll_rate : R

module _ {R : Type 0} (f : Doubles R) (s : Server R) where
  unfoldable pub read_ids : Ids
  read_ids = record {
    motor_rmid = byte_of (param (s.integer "motor_rmid") (pos 183));
    host_mid = byte_of (param (s.integer "host_mid") (pos 172));
    ctrl_id = byte_of (param (s.integer "controller_id") (pos 1));
  }

  -- a factor below 1 would slow down, and is not allowed
  unfoldable pub post_home_speed_scale : R
  post_home_speed_scale =
      raised f (f.decimal 1 0) (param (s.double "post_home_speed_scale") (f.decimal 2 0))

  -- the speed for position moves before homing; 0 without position control
  unfoldable pub posi_base_vel : Bool → ℕ
  posi_base_vel enabled =
      let set = param (s.integer "posi_ctrl_vel_rpm") (pos 0) in
      let up = param (s.integer "up_speed_rpm") (pos 0) in
      if enabled then (if ltb_ℤ (pos 0) set then pos_part set else dist_ℤ up (pos 0)) else 0

  abbrev limit_of : String → ℕ → ℕ → ℕ
  limit_of name m e = f.nanoseconds (param (s.double name) (f.decimal m e))

  -- `pos_part` is the test against 0, or where only a value above 0 counts
  unfoldable pub read_config : Bool → Config
  read_config enabled = record {
    ids = read_ids;
    up_speed_rpm = param (s.integer "up_speed_rpm") (pos 0);
    timeout = limit_of "timeout_sec" 1 0;
    posi_base_vel_rpm = posi_base_vel enabled;
    home_speed_rpm = pos_part (param (s.integer "home_speed_rpm") (pos 0));
    home_stall_counts = param (s.integer "home_stall_counts") (pos 5);
    home_stall = limit_of "home_stall_sec" 15 1;
    home_min = limit_of "home_min_sec" 1 0;
    home_timeout = limit_of "home_timeout_sec" 40 0;
    in_position_tol = param (s.integer "in_position_tol") (pos 20);
    post_home_scaled = λ v. f.times v post_home_speed_scale;
    post_home_speeds_up = f.less (f.decimal 1 0) post_home_speed_scale;
    use_limit_switch_for_home = param (s.truth "use_limit_switch_for_home") true;
    limit_di_descend_mask = byte_of (param (s.integer "limit_di_descend_mask") (pos 4));
    auto_release_on_stop = param (s.truth "auto_release_on_stop") true;
    release_grace = limit_of "release_grace_sec" 2 0;
    release_stop = limit_of "release_stop_sec" 1 0;
    auto_reset_on_alarm = param (s.truth "auto_reset_on_alarm") true;
    alarm_reset_interval =
        f.nanoseconds
          (raised f (f.decimal 1 1) (param (s.double "alarm_reset_interval_sec") (f.decimal 2 0)));
    alarm_reset_max_attempts = pos_part (param (s.integer "alarm_reset_max_attempts") (pos 5));
    alarm_resume_max_cycles = pos_part (param (s.integer "alarm_resume_max_cycles") (pos 3));
  }

  unfoldable pub read_settings : Settings R
  read_settings =
      let enabled = param (s.truth "enable_position_control") true in
      record {
        config = read_config enabled;
        enable_position_control = enabled;
        auto_home_on_start = param (s.truth "auto_home_on_start") false;
        port = param (s.text "port") "/dev/ttyUSB0";
        baud = param (s.integer "baud") (pos 19200);
        poll_rate = param (s.double "poll_rate") (f.decimal 10 0);
      }

  -- The constructor; the Boolean is what `serial_->open` did with the port.
  unfoldable pub launch : Bool → Config × Driver
  launch opened =
      let t = read_settings in
      (t.config, initial t.config opened t.enable_position_control t.auto_home_on_start)
