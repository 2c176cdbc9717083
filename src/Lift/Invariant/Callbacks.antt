-- ===== src/Lift/Invariant/Callbacks.antt =====
-- The ROS callbacks keep the invariant.
use ku_polishing_robot_drive.Base.{
  Bool, Option-cases, arith, false, inl, inr, pos, true, ℕ, ℤ, ◌+ℤ◌,
}
use ku_polishing_robot_drive.Lift.Protocol
use ku_polishing_robot_drive.Lift.Protocol.{Command, alarm_reset, inc_position}
use Prim.Native.String.{String}
use ku_polishing_robot_drive.Lift.Driver.{
  manual, position, Config, Driver, core, core-send, core-send_velocity, cancel_resume,
}
use ku_polishing_robot_drive.Lift.Commands.{
  parse_command, command_speed, manual_command, command_callback, velocity_cmd_callback,
  position_cmd_callback, inc_position_cmd_callback, home_abort, home_begin, home_callback,
  reset_callback,
}
use ku_polishing_robot_drive.Lift.Invariant.{Inv}
use ku_polishing_robot_drive.Lift.Invariant.Alarms.{request_alarm_reset-Inv}

pub velocity_cmd-Inv :
    (c : Config) (now : ℕ) (rpm : ℤ) (d : Driver)
    → Inv c (core d)
    → Inv c (core (velocity_cmd_callback now rpm d))
unfolding velocity_cmd_callback cancel_resume
velocity_cmd-Inv c now rpm d h =
    ground (arith, core-send_velocity now rpm (cancel_resume (record d { mode = manual })))

pub command-Inv :
    (c : Config) (now : ℕ) (text : String) (d : Driver)
    → Inv c (core d)
    → Inv c (core (command_callback c now text d))
unfolding command_callback manual_command velocity_cmd_callback
command-Inv c now text d h = elim (Option-cases (parse_command text)) [
  | inl e ↦ rw (e, command_callback) h
  | inr (m, e) ↦
      rw (e, command_callback)
        (velocity_cmd-Inv c now (command_speed c (cancel_resume (record d { mode = manual })) m) d
          h)
]

pub position_cmd-Inv :
    (c : Config) (target : ℤ) (d : Driver)
    → Inv c (core d)
    → Inv c (core (position_cmd_callback target d))
unfolding position_cmd_callback cancel_resume
position_cmd-Inv c target d h = ground (
  arith,
  core-send (Protocol.position target)
      (record (cancel_resume d) { target_pos = target; mode = position }),
)

pub inc_position_cmd-Inv :
    (c : Config) (counts : ℤ) (d : Driver)
    → Inv c (core d)
    → Inv c (core (inc_position_cmd_callback counts d))
unfolding inc_position_cmd_callback cancel_resume
inc_position_cmd-Inv c counts d h = ground (
  arith,
  core-send (inc_position counts)
      (record (cancel_resume d) { target_pos = d.current_pos +ℤ counts; mode = position }),
)

home_abort-Inv :
    (c : Config) (now : ℕ) (d : Driver) → Inv c (core d) → Inv c (core (home_abort now d))
unfolding home_abort cancel_resume
home_abort-Inv c now d h =
    let t = cancel_resume (record d { pending_home = false }) in
    ground (arith, core-send_velocity now (pos 0) (record t { mode = manual }))

pub home-Inv :
    (c : Config) (now : ℕ) (start : Bool) (d : Driver)
    → Inv c (core d)
    → Inv c (core (home_callback c now start d))
unfolding home_callback home_begin cancel_resume
home-Inv c now start d h = ground (arith, home_abort-Inv c now d h)

pub reset-Inv :
    (c : Config) (now : ℕ) (go : Bool) (d : Driver)
    → Inv c (core d)
    → Inv c (core (reset_callback c now go d))
unfolding reset_callback
reset-Inv c now go d h =
    let t = record d {
      alarm_reset_attempts = 0;
      alarm_reset_exhausted = false;
      resume_cycles = 0;
    } in
    ground (arith, core-send alarm_reset t, request_alarm_reset-Inv c now true t)
