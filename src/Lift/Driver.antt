-- ===== src/Lift/Driver.antt =====
-- The state of `LiftDriver` (catkin_ws/src/lift_driver/include/lift_driver/lift_driver_node.hpp),
-- its parameters, and the operations that the callbacks and the timer share.
-- Times are nanoseconds since ROS time 0, and a handler reads the clock once, as `now`.
-- Comparisons of a difference of times with a limit are written as a comparison of sums.
use ku_polishing_robot_drive.Base.{
  Bool, List, Option, arith, bit_and, dist_ℤ, eqb_ℤ, false, if◌then◌else◌, leb, ltb, ltb_ℤ, negsuc,
  pos, refl, signed32, to_u32, true, u8, ℕ, ℤ, ◌&&◌, ◌+◌, ◌-ℤ◌, ◌==◌, ◌∷◌, ◌≡◌,
}
use ku_polishing_robot_drive.Lift.Protocol.{Ids, Command, velocity}

pub data Mode : Type 0 where
  manual position homing : Mode

abbrev pub is_manual : Mode → Bool
is_manual manual = true
is_manual _ = false

pub record Config : Type 0 where
  pub ids : Ids
  pub up_speed_rpm : ℤ
  pub timeout : ℕ
  pub posi_base_vel_rpm : ℕ
  pub home_speed_rpm : ℕ
  pub home_stall_counts : ℤ
  pub home_stall : ℕ
  pub home_min : ℕ
  pub home_timeout : ℕ
  pub in_position_tol : ℤ
  -- `std::lround(v * post_home_speed_scale_)` and `post_home_speed_scale_ > 1.0`
  pub post_home_scaled : ℤ → ℤ
  pub post_home_speeds_up : Bool
  pub use_limit_switch_for_home : Bool
  pub limit_di_descend_mask : ℕ
  pub auto_release_on_stop : Bool
  pub release_grace : ℕ
  pub release_stop : ℕ
  pub auto_reset_on_alarm : Bool
  pub alarm_reset_interval : ℕ
  pub alarm_reset_max_attempts : ℕ
  pub alarm_resume_max_cycles : ℕ

-- The text of `/lift/status`, by its parts: fresh, mode, homed, position, target, status byte, input
-- byte, alarm with tries and whether given up, and a pending resume.
pub record StatusLine : Type 0 where
  pub connected : Bool
  pub mode : Mode
  pub homed : Bool
  pub at : ℤ
  pub target : Option ℤ
  pub status : ℕ
  pub di : ℕ
  pub alarm : Option (ℕ × Bool)
  pub resume_pending : Option Mode

-- What is published, by topic.
pub data Message : Type 0 where
  homed_msg error_msg : Bool → Message
  position_msg : ℤ → Message
  alarm_msg : ℕ → Message
  status_msg : StatusLine → Message

pub record Driver : Type 0 where
  pub serial_open : Bool
  -- received data
  pub got_data : Bool
  pub current_pos : ℤ
  pub status_byte : ℕ
  pub di_byte : ℕ
  pub rpm : ℤ
  pub last_rx : ℕ
  pub rx_buf : List ℕ
  -- position control and homing
  pub mode : Mode
  pub homed : Bool
  pub target_pos : ℤ
  pub home_dir_speed : ℤ
  pub home_start : ℕ
  pub home_start_pos : ℤ
  pub home_alarm_seen : Bool
  pub home_log_time : ℕ
  pub home_log_pos : ℤ
  pub stall_since : ℕ
  pub stall_ref_pos : ℤ
  pub stall_tracking : Bool
  pub pending_home : Bool
  -- the manual velocity command
  pub last_vel_cmd : ℤ
  pub vel_cmd_time : ℕ
  pub vel_ref_pos : ℤ
  pub vel_ref_time : ℕ
  pub vel_ref_valid : Bool
  -- alarm
  pub alarm_active : Bool
  pub alarm_status : ℕ
  pub alarm_reset_attempts : ℕ
  pub alarm_reset_exhausted : Bool
  pub last_alarm_reset : ℕ
  pub resume_mode : Mode
  pub resume_target : ℤ
  pub resume_cycles : ℕ
  -- what went out, newest first
  pub sent : List Command
  pub published : List Message

-- `sendFrame` returns at once if the port is not open.
unfoldable pub send : Command → Driver → Driver
send command d = if d.serial_open then record d { sent = command ∷ d.sent } else d

unfoldable pub publish : Message → Driver → Driver
publish message d = record d { published = message ∷ d.published }

-- a change of the speed restarts the watch for a standstill
unfoldable pub track_velocity : ℕ → ℤ → Driver → Driver
track_velocity now rpm d =
    if eqb_ℤ rpm d.last_vel_cmd
    then d
    else record d { last_vel_cmd = rpm; vel_cmd_time = now; vel_ref_valid = false }

unfoldable pub send_velocity : ℕ → ℤ → Driver → Driver
send_velocity now rpm d = send (velocity rpm) (track_velocity now rpm d)

-- the DIR input: 0 means that the lower limit is reached; stale data say nothing
unfoldable pub at_lower_limit : Config → ℕ → Bool → Bool
at_lower_limit c di fresh = fresh && (bit_and di (u8 c.limit_di_descend_mask) == 0)

-- saturation to `int16_t`
unfoldable pub saturate16 : ℤ → ℤ
saturate16 v =
    if ltb_ℤ (pos 32767) v then pos 32767 else if ltb_ℤ v (negsuc 32767) then negsuc 32767 else v

-- `manualUpSpeed`; the factor before homing is 1.0, and `lround` of an `int` is that `int`
unfoldable pub manual_up_speed : Config → Driver → ℤ
manual_up_speed c d =
    saturate16 (if d.homed then c.post_home_scaled c.up_speed_rpm else c.up_speed_rpm)

-- `cancelResume`
unfoldable pub cancel_resume : Driver → Driver
cancel_resume d = record d { resume_cycles = 0; resume_mode = manual }

-- `std::abs` of a difference of `int32_t` values, both wrapping at 32 bits
unfoldable pub distance : ℤ → ℤ → ℤ
distance a b = signed32 (to_u32 (pos (dist_ℤ (signed32 (to_u32 (a -ℤ b))) (pos 0))))

-- a number of counts above a limit, both `int`
unfoldable pub exceeds : ℤ → ℤ → Bool
exceeds n limit = ltb_ℤ limit n

-- A time limit: `(now - since).toSec() >= limit`, and with `>`.
abbrev pub elapsed : ℕ → ℕ → ℕ → Bool
elapsed since limit now = leb (since + limit) now

abbrev pub overrun : ℕ → ℕ → ℕ → Bool
overrun since limit now = ltb (since + limit) now

-- The part of the state that decides what the driver does next: the mode, the origin, the alarm and
-- the resume.
pub record Core : Type 0 where
  pub mode : Mode
  pub homed : Bool
  pub alarm_active : Bool
  pub attempts : ℕ
  pub exhausted : Bool
  pub resume_mode : Mode
  pub resume_target : ℤ
  pub resume_cycles : ℕ
  pub target_pos : ℤ

abbrev pub core : Driver → Core
core d = record {
  mode = d.mode;
  homed = d.homed;
  alarm_active = d.alarm_active;
  attempts = d.alarm_reset_attempts;
  exhausted = d.alarm_reset_exhausted;
  resume_mode = d.resume_mode;
  resume_target = d.resume_target;
  resume_cycles = d.resume_cycles;
  target_pos = d.target_pos;
}

-- Sending and publishing leave the core as it is.
pub core-send : (command : Command) (d : Driver) → core (send command d) ≡ core d
unfolding send
core-send command d = ground arith

pub core-publish : (message : Message) (d : Driver) → core (publish message d) ≡ core d
unfolding publish
core-publish message d = refl

pub core-send_velocity : (now : ℕ) (rpm : ℤ) (d : Driver) → core (send_velocity now rpm d) ≡ core d
unfolding send_velocity track_velocity
core-send_velocity now rpm d = rw core-send (ground arith)
