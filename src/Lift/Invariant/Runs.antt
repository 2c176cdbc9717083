-- ===== src/Lift/Invariant/Runs.antt =====
-- The invariant over whole runs of the lift driver.
use ku_polishing_robot_drive.Base.{
  Bool, List, [], arith, if◌then◌else◌, not, refl, true, ℕ, ℤ, ◌&&◌, ◌++◌, ◌∙◌, ◌∷◌, ◌≡◌,
}
use ku_polishing_robot_drive.Lift.Protocol.{monitor}
use ku_polishing_robot_drive.Lift.Receive.{read_and_parse}
use ku_polishing_robot_drive.Lift.Receive.Stream.{scan-keeps}
use ku_polishing_robot_drive.Lift.Driver.{Config, Driver, core, core-send, send, publish}
use ku_polishing_robot_drive.Lift.Poll.{
  handle_frame, receive, control, publish_state, is_fresh, poll,
}
use ku_polishing_robot_drive.Lift.Events.{
  Event, command, velocity_cmd, position_cmd, inc_position_cmd, home, reset, tick, initial, step,
  run,
}
use ku_polishing_robot_drive.Lift.Invariant.{Inv}
use ku_polishing_robot_drive.Lift.Alarm.{update_alarm}
use ku_polishing_robot_drive.Lift.Motion.{update_motion}
use ku_polishing_robot_drive.Lift.Commands.{home_callback}
use ku_polishing_robot_drive.Lift.Invariant.Alarms.{update_alarm-Inv}
use ku_polishing_robot_drive.Lift.Invariant.Motions.{update_motion-Inv, core-release_if_blocked}
use ku_polishing_robot_drive.Lift.Invariant.Callbacks.{
  velocity_cmd-Inv, command-Inv, position_cmd-Inv, inc_position_cmd-Inv, home-Inv, reset-Inv,
}

core-handle_frame :
    (now : ℕ) (d : Driver) (pid : ℕ) (bytes : List ℕ) → core (handle_frame now d pid bytes) ≡ core d
unfolding handle_frame
core-handle_frame now d pid bytes = ground arith

pub core-receive :
    (c : Config) (now : ℕ) (received : List ℕ) (d : Driver)
    → core (receive c now received d) ≡ core d
unfolding receive read_and_parse
core-receive c now received d =
    scan-keeps c.ids (handle_frame now) (λ t. core t ≡ core d)
      (λ t pid bytes e. core-handle_frame now t pid bytes ∙ e) (d.rx_buf ++ received) d refl

pub core-publish_state :
    (fresh : Bool) (at : ℤ) (st di : ℕ) (d : Driver)
    → core (publish_state fresh at st di d) ≡ core d
unfolding publish_state publish
core-publish_state fresh at st di d = ground arith

control-Inv :
    (c : Config) (now : ℕ) (fresh : Bool) (at : ℤ) (st di : ℕ) (d : Driver)
    → Inv c (core d)
    → Inv c (core (control c now fresh at st di d))
unfolding control
control-Inv c now fresh at st di d h =
    let t = update_alarm c now st fresh at d in
    let ht = update_alarm-Inv c now st fresh at d h in
    let u =
      if t.pending_home && fresh && not t.alarm_active then home_callback c now true t else t in
    let hu : Inv c (core u) = ground (arith, ht, home-Inv c now true t ht) in
    rw (core-release_if_blocked c now at fresh di (update_motion c now at fresh di u))
      (update_motion-Inv c now at fresh di u hu)

poll-Inv :
    (c : Config) (now : ℕ) (received : List ℕ) (d : Driver)
    → Inv c (core d)
    → Inv c (core (poll c now received d))
unfolding poll
poll-Inv c now received d h =
    let t = receive c now received (send monitor d) in
    let fresh = is_fresh c now t in
    let ht : Inv c (core t) =
      rw (core-receive c now received (send monitor d), core-send monitor d) h in
    rw
      (core-publish_state fresh t.current_pos t.status_byte t.di_byte
        (control c now fresh t.current_pos t.status_byte t.di_byte t))
      (control-Inv c now fresh t.current_pos t.status_byte t.di_byte t ht)

pub step-Inv :
    (c : Config) (d : Driver) (e : ℕ × Event) → Inv c (core d) → Inv c (core (step c d e))
unfolding step
step-Inv c d (now, command text) h = command-Inv c now text d h
step-Inv c d (now, velocity_cmd rpm) h = velocity_cmd-Inv c now rpm d h
step-Inv c d (now, position_cmd target) h = position_cmd-Inv c target d h
step-Inv c d (now, inc_position_cmd counts) h = inc_position_cmd-Inv c counts d h
step-Inv c d (now, home start) h = home-Inv c now start d h
step-Inv c d (now, reset go) h = reset-Inv c now go d h
step-Inv c d (now, tick received) h = poll-Inv c now received d h

initial-Inv :
    (c : Config) (serial_open enabled auto_home : Bool)
    → Inv c (core (initial c serial_open enabled auto_home))
unfolding initial publish send
initial-Inv c serial_open enabled auto_home = ground arith

pub run_from-Inv :
    (c : Config) (d : Driver) (es : List (ℕ × Event)) → Inv c (core d) → Inv c (core (run c d es))
unfolding run
run_from-Inv c d [] h = h
run_from-Inv c d (e ∷ es) h = run_from-Inv c (step c d e) es (step-Inv c d e h)

-- After the constructor and any sequence of callbacks and ticks, with any data from the line, the
-- lift driver is in manual mode whenever an alarm is active; only a position move waits for its
-- resume, and only during an alarm; the reset attempts and the resumes stay within their limits,
-- where these are not 0 (unlimited); automatic reset is given up only during an alarm.
pub run-Inv :
    (c : Config) (serial_open enabled auto_home : Bool) (es : List (ℕ × Event))
    → Inv c (core (run c (initial c serial_open enabled auto_home) es))
run-Inv c serial_open enabled auto_home es =
    run_from-Inv c (initial c serial_open enabled auto_home) es
      (initial-Inv c serial_open enabled auto_home)
