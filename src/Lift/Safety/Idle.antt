-- ===== src/Lift/Safety/Idle.antt =====
-- The lift driver without a command to move (catkin_ws/src/lift_driver/src/lift_driver_node.cpp).
pub mod Runs
use ku_polishing_robot_drive.Base.{
  All, Bool, List, Option, arith, false, has_bit, none, pos, refl, some, true, zero, ℕ, ℤ, ◌≡◌,
}
use Prim.Native.String.{String}
use ku_polishing_robot_drive.Lift.Protocol.{Command, alarm_reset, monitor, position_vel, velocity}
use ku_polishing_robot_drive.Lift.Receive.{read_and_parse}
use ku_polishing_robot_drive.Lift.Receive.Stream.{scan-keeps}
use ku_polishing_robot_drive.Lift.Driver.{
  Config, Driver, Mode, cancel_resume, homing, manual, publish, send, send_velocity, track_velocity,
}
use ku_polishing_robot_drive.Lift.Alarm.{
  alarm_clear, alarm_rise, alarm_watch, auto_reset, remember, request_alarm_reset,
  resume_after_alarm, update_alarm,
}
use ku_polishing_robot_drive.Lift.Motion.{motion_by_mode, release_if_blocked, update_motion}
use ku_polishing_robot_drive.Lift.Poll.{
  control, handle_frame, is_fresh, poll, publish_state, receive,
}
use ku_polishing_robot_drive.Lift.Commands.{
  command_callback, command_speed, home_abort, home_callback, manual_command, parse_command,
  reset_callback, velocity_cmd_callback, up, down, stop, ManualCommand,
}
use ku_polishing_robot_drive.Lift.Events.{
  Event, command, home, inc_position_cmd, initial, position_cmd, reset, run, step, tick,
  velocity_cmd,
}

-- a frame that moves nothing and takes no origin
abbrev pub IsStill : Command → Type 0
IsStill (velocity rpm) = rpm ≡ pos 0
IsStill (position_vel rpm) = Unit
IsStill alarm_reset = Unit
IsStill monitor = Unit
IsStill _ = ⊥

-- a message that asks for a motion
abbrev pub asks : ManualCommand → Bool
asks stop = false
asks _ = true

abbrev pub asks_for : Option ManualCommand → Bool
asks_for none = false
asks_for (some m) = asks m

unfoldable pub moves : ℕ × Event → Bool
moves (now, command text) = asks_for (parse_command text)
moves (now, velocity_cmd (pos zero)) = false
moves (now, velocity_cmd _) = true
moves (now, position_cmd target) = true
moves (now, inc_position_cmd counts) = true
moves (now, home start) = start
moves (now, reset go) = false
moves (now, tick received) = false

abbrev pub view : Driver → Mode × Bool × ℤ × Mode × List Command
view d = (d.mode, d.pending_home, d.last_vel_cmd, d.resume_mode, d.sent)

-- Nothing moves, and nothing waits to.
pub record Idle (k : Mode × Bool × ℤ × Mode × List Command) : Type 0 where
  pub resting : k.0 ≡ manual
  pub settled : k.1 ≡ false
  pub stopped : k.2 ≡ pos 0
  pub finished : k.3 ≡ manual
  pub quiet : All IsStill k.4

pub send-Idle :
    (frame : Command) (d : Driver) → IsStill frame → Idle (view d) → Idle (view (send frame d))
unfolding send
send-Idle frame d still h = ground arith

track_velocity-Idle :
    (now : ℕ) (d : Driver) → Idle (view d) → Idle (view (track_velocity now (pos 0) d))
unfolding track_velocity
track_velocity-Idle now d h = ground arith

pub send_velocity-Idle :
    (now : ℕ) (d : Driver) → Idle (view d) → Idle (view (send_velocity now (pos 0) d))
unfolding send_velocity
send_velocity-Idle now d h =
    send-Idle (velocity (pos 0)) (track_velocity now (pos 0) d) refl (track_velocity-Idle now d h)

request_alarm_reset-Idle :
    (c : Config) (now : ℕ) (by_hand : Bool) (d : Driver)
    → Idle (view d)
    → Idle (view (request_alarm_reset c now by_hand d))
unfolding request_alarm_reset
request_alarm_reset-Idle c now by_hand d h =
    let s = send_velocity-Idle now d h in
    ground (arith, send-Idle alarm_reset (send_velocity now (pos 0) d) tt s)

pub reset-Idle :
    (c : Config) (now : ℕ) (go : Bool) (d : Driver)
    → Idle (view d)
    → Idle (view (reset_callback c now go d))
unfolding reset_callback
reset-Idle c now go d h =
    let t = record d {
      alarm_reset_attempts = 0;
      alarm_reset_exhausted = false;
      resume_cycles = 0;
    } in
    ground (arith, send-Idle alarm_reset t tt h, request_alarm_reset-Idle c now true t h)

alarm_rise-Idle : (now st : ℕ) (d : Driver) → Idle (view d) → Idle (view (alarm_rise now st d))
unfolding alarm_rise remember
alarm_rise-Idle now st d h =
    let s = record d {
      alarm_active = true;
      alarm_status = st;
      alarm_reset_attempts = 0;
      alarm_reset_exhausted = false;
      last_alarm_reset = 0;
    } in
    let t = send_velocity-Idle now s h in ground (arith, t)

alarm_watch-Idle :
    (now : ℕ) (alarm : Bool) (st : ℕ) (d : Driver)
    → Idle (view d)
    → Idle (view (alarm_watch now alarm st d))
unfolding alarm_watch
alarm_watch-Idle now alarm st d h = ground (arith, alarm_rise-Idle now st d h)

alarm_clear-Idle :
    (c : Config) (now st : ℕ) (at : ℤ) (d : Driver)
    → Idle (view d)
    → Idle (view (alarm_clear c now st at d))
unfolding alarm_clear resume_after_alarm
alarm_clear-Idle c now st at d h = ground arith

auto_reset-Idle :
    (c : Config) (now : ℕ) (d : Driver) → Idle (view d) → Idle (view (auto_reset c now d))
unfolding auto_reset
auto_reset-Idle c now d h = ground (arith, request_alarm_reset-Idle c now false d h)

pub update_alarm-Idle :
    (c : Config) (now st : ℕ) (fresh : Bool) (at : ℤ) (d : Driver)
    → Idle (view d)
    → Idle (view (update_alarm c now st fresh at d))
unfolding update_alarm
update_alarm-Idle c now st fresh at d h =
    let t = alarm_watch now (has_bit st 0) st d in
    let ht = alarm_watch-Idle now (has_bit st 0) st d h in
    ground (arith, ht, alarm_clear-Idle c now st at t ht, auto_reset-Idle c now t ht)
