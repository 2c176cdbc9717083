-- ===== src/Lift/Commands.antt =====
-- The ROS callbacks of catkin_ws/src/lift_driver/src/lift_driver_node.cpp: manual commands, position
-- commands, homing and the alarm reset.
use ku_polishing_robot_drive.Base.{
  Bool, Option, dist_ℤ, false, if◌then◌else◌, int16, leb, ltb, neg, neg_part, none, not, pos, some,
  true, ℕ, ℤ, ◌+ℤ◌, ◌==◌,
}
use text.Mathlib.Text.{◌==◌ as str_eq}
use Prim.Native.String.{String}
use ku_polishing_robot_drive.Lift.Protocol
use ku_polishing_robot_drive.Lift.Protocol.{Command, alarm_reset, inc_position}
use ku_polishing_robot_drive.Lift.Driver.{
  manual, position, homing, Config, Driver, send, send_velocity, cancel_resume, manual_up_speed,
}
use ku_polishing_robot_drive.Lift.Alarm.{request_alarm_reset}

-- the texts that `/lift/command` knows
pub data ManualCommand : Type 0 where
  up down stop : ManualCommand

unfoldable pub parse_command : String → Option ManualCommand
parse_command text =
    if str_eq text "up"
    then some up
    else if str_eq text "down"
    then some down
    else if str_eq text "stop"
    then some stop
    else none

unfoldable pub command_speed : Config → Driver → ManualCommand → ℤ
command_speed c d up = manual_up_speed c d
command_speed c d down = int16 (neg (manual_up_speed c d))
command_speed c d stop = pos 0

unfoldable pub manual_command : Config → ℕ → ManualCommand → Driver → Driver
manual_command c now command d =
    let t = cancel_resume (record d { mode = manual }) in
    send_velocity now (command_speed c t command) t

unfoldable pub command_callback : Config → ℕ → String → Driver → Driver
command_callback c now text d = elim (parse_command text) [
  | none ↦ d
  | some command ↦ manual_command c now command d
]

-- the argument is an `int16_t`
unfoldable pub velocity_cmd_callback : ℕ → ℤ → Driver → Driver
velocity_cmd_callback now rpm d = send_velocity now rpm (cancel_resume (record d { mode = manual }))

-- an absolute move wants an origin and no alarm
unfoldable pub position_cmd_callback : ℤ → Driver → Driver
position_cmd_callback target d =
    if not d.homed
    then d
    else if d.alarm_active
    then d
    else send (Protocol.position target)
        (record (cancel_resume d) { target_pos = target; mode = position })

unfoldable pub inc_position_cmd_callback : ℤ → Driver → Driver
inc_position_cmd_callback counts d =
    if d.alarm_active
    then d
    else send (inc_position counts)
        (record (cancel_resume d) { target_pos = d.current_pos +ℤ counts; mode = position })

-- the size of the homing speed, and the speed itself: against the direction of `up`
unfoldable pub home_speed : Config → ℕ
home_speed c = if ltb 0 c.home_speed_rpm then c.home_speed_rpm else dist_ℤ c.up_speed_rpm (pos 0)

unfoldable pub home_velocity : Config → ℤ
home_velocity c =
    int16 (if leb (neg_part c.up_speed_rpm) 0 then neg (pos (home_speed c)) else pos (home_speed c))

unfoldable pub home_abort : ℕ → Driver → Driver
home_abort now d =
    let t = cancel_resume (record d { pending_home = false }) in
    elim t.mode [ homing ↦ send_velocity now (pos 0) (record t { mode = manual }) | _ ↦ t ]

unfoldable pub home_begin : Config → ℕ → Driver → Driver
home_begin c now d = cancel_resume (record d {
  home_dir_speed = home_velocity c;
  mode = homing;
  home_start = now;
  home_start_pos = d.current_pos;
  home_log_time = now;
  home_log_pos = d.current_pos;
  home_alarm_seen = false;
  stall_tracking = false;
  pending_home = false;
})

unfoldable pub home_callback : Config → ℕ → Bool → Driver → Driver
home_callback c now start d =
    if not start
    then home_abort now d
    else if d.alarm_active
    then d
    else if home_speed c == 0
    then d
    else home_begin c now d

unfoldable pub reset_callback : Config → ℕ → Bool → Driver → Driver
reset_callback c now go d =
    if not go
    then d
    else (let t = record d {
      alarm_reset_attempts = 0;
      alarm_reset_exhausted = false;
      resume_cycles = 0;
    } in
        if not t.alarm_active
        then record (send alarm_reset t) { last_alarm_reset = now }
        else request_alarm_reset c now true t)
