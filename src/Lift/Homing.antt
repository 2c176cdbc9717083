-- ===== src/Lift/Homing.antt =====
-- How long homing can last (catkin_ws/src/lift_driver/src/lift_driver_node.cpp): the start of homing
-- under the callbacks and the parts of a tick.
pub mod Ticks
pub mod Ends
use ku_polishing_robot_drive.Base.{
  Bool, Option-cases, arith, false, inl, inr, pos, true, ℕ, ℤ, ◌+ℤ◌, ◌≡◌,
}
use Prim.Native.String.{String}
use ku_polishing_robot_drive.Lift.Protocol
use ku_polishing_robot_drive.Lift.Protocol.{Command, alarm_reset, inc_position}
use ku_polishing_robot_drive.Lift.Driver.{
  Config, Driver, Mode, cancel_resume, homing, manual, position, publish, send, send_velocity,
  track_velocity,
}
use ku_polishing_robot_drive.Lift.Alarm.{request_alarm_reset}
use ku_polishing_robot_drive.Lift.Commands.{
  command_callback, command_speed, home_abort, home_callback, inc_position_cmd_callback,
  manual_command, parse_command, position_cmd_callback, reset_callback, velocity_cmd_callback,
}

-- The mode, the start of homing, and whether a homing waits for the line.
abbrev pub clock : Driver → Mode × ℕ × Bool
clock d = (d.mode, d.home_start, d.pending_home)

pub clock-send : (command : Command) (d : Driver) → clock (send command d) ≡ clock d
unfolding send
clock-send command d = ground arith

pub clock-send_velocity :
    (now : ℕ) (rpm : ℤ) (d : Driver) → clock (send_velocity now rpm d) ≡ clock d
unfolding send_velocity track_velocity
clock-send_velocity now rpm d = rw clock-send (ground arith)

-- No homing waits, and one that is in progress began then.
pub record Since (start : ℕ) (k : Mode × ℕ × Bool) : Type 0 where
  pub settled : k.2 ≡ false
  pub began : k.0 ≡ homing → k.1 ≡ start

pub velocity_cmd-Since :
    (start now : ℕ) (rpm : ℤ) (d : Driver)
    → Since start (clock d)
    → Since start (clock (velocity_cmd_callback now rpm d))
unfolding velocity_cmd_callback cancel_resume
velocity_cmd-Since start now rpm d h =
    ground (arith, clock-send_velocity now rpm (cancel_resume (record d { mode = manual })))

pub command-Since :
    (c : Config) (start now : ℕ) (text : String) (d : Driver)
    → Since start (clock d)
    → Since start (clock (command_callback c now text d))
unfolding command_callback manual_command velocity_cmd_callback
command-Since c start now text d h = elim (Option-cases (parse_command text)) [
  | inl e ↦ rw (e, command_callback) h
  | inr (m, e) ↦
      rw (e, command_callback)
        (velocity_cmd-Since start now
          (command_speed c (cancel_resume (record d { mode = manual })) m) d h)
]

pub position_cmd-Since :
    (start : ℕ) (target : ℤ) (d : Driver)
    → Since start (clock d)
    → Since start (clock (position_cmd_callback target d))
unfolding position_cmd_callback cancel_resume
position_cmd-Since start target d h = ground (
  arith,
  clock-send (Protocol.position target)
      (record (cancel_resume d) { target_pos = target; mode = position }),
)

pub inc_position_cmd-Since :
    (start : ℕ) (counts : ℤ) (d : Driver)
    → Since start (clock d)
    → Since start (clock (inc_position_cmd_callback counts d))
unfolding inc_position_cmd_callback cancel_resume
inc_position_cmd-Since start counts d h = ground (
  arith,
  clock-send (inc_position counts)
      (record (cancel_resume d) { target_pos = d.current_pos +ℤ counts; mode = position }),
)

pub home_abort-Since :
    (start now : ℕ) (d : Driver) → Since start (clock d) → Since start (clock (home_abort now d))
unfolding home_abort cancel_resume
home_abort-Since start now d h =
    let t = cancel_resume (record d { pending_home = false }) in
    ground (arith, clock-send_velocity now (pos 0) (record t { mode = manual }))

pub clock-request_alarm_reset :
    (c : Config) (now : ℕ) (by_hand : Bool) (d : Driver)
    → clock (request_alarm_reset c now by_hand d) ≡ clock d
unfolding request_alarm_reset
clock-request_alarm_reset c now by_hand d =
    ground (
      arith,
      clock-send_velocity now (pos 0) d,
      clock-send alarm_reset (send_velocity now (pos 0) d),
    )

pub clock-reset :
    (c : Config) (now : ℕ) (go : Bool) (d : Driver) → clock (reset_callback c now go d) ≡ clock d
unfolding reset_callback
clock-reset c now go d =
    let t = record d {
      alarm_reset_attempts = 0;
      alarm_reset_exhausted = false;
      resume_cycles = 0;
    } in
    ground (arith, clock-send alarm_reset t, clock-request_alarm_reset c now true t)
