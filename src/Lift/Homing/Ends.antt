-- ===== src/Lift/Homing/Ends.antt =====
-- The end of homing over whole runs of the lift driver
-- (catkin_ws/src/lift_driver/src/lift_driver_node.cpp).
use ku_polishing_robot_drive.Base.{
  All, Bool, List, [], ap, arith, false, refl, sym, ℕ, ℤ, ◌++◌, ◌+◌, ◌<◌, ◌∙◌, ◌∷◌, ◌≡◌, ◌≢◌,
}
use ku_polishing_robot_drive.Lift.Protocol.{monitor}
use ku_polishing_robot_drive.Lift.Receive.{read_and_parse}
use ku_polishing_robot_drive.Lift.Receive.Stream.{scan-keeps}
use ku_polishing_robot_drive.Lift.Driver.{Config, Driver, core, core-send, homing, publish, send}
use ku_polishing_robot_drive.Lift.Alarm.{update_alarm}
use ku_polishing_robot_drive.Lift.Motion.{release_if_blocked, update_motion}
use ku_polishing_robot_drive.Lift.Poll.{
  control, handle_frame, is_fresh, poll, publish_state, receive,
}
use ku_polishing_robot_drive.Lift.Commands.{home_callback}
use ku_polishing_robot_drive.Lift.Events.{
  Event, command, home, inc_position_cmd, initial, position_cmd, reset, run, step, tick,
  velocity_cmd,
}
use ku_polishing_robot_drive.Lift.Invariant.{Inv}
use ku_polishing_robot_drive.Lift.Invariant.Runs.{core-receive, run-Inv, step-Inv}
use ku_polishing_robot_drive.Lift.Homing.{
  Since, clock, clock-reset, clock-send, command-Since, home_abort-Since, inc_position_cmd-Since,
  position_cmd-Since, velocity_cmd-Since,
}
use ku_polishing_robot_drive.Lift.Homing.Ticks.{
  clock-release_if_blocked, update_alarm-Since, update_motion-Since, update_motion-late,
}

clock-handle_frame :
    (now : ℕ) (d : Driver) (pid : ℕ) (bytes : List ℕ)
    → clock (handle_frame now d pid bytes) ≡ clock d
unfolding handle_frame
clock-handle_frame now d pid bytes = ground arith

clock-receive :
    (c : Config) (now : ℕ) (received : List ℕ) (d : Driver)
    → clock (receive c now received d) ≡ clock d
unfolding receive read_and_parse
clock-receive c now received d =
    scan-keeps c.ids (handle_frame now) (λ t. clock t ≡ clock d)
      (λ t pid bytes e. clock-handle_frame now t pid bytes ∙ e) (d.rx_buf ++ received) d refl

clock-publish_state :
    (fresh : Bool) (at : ℤ) (st di : ℕ) (d : Driver)
    → clock (publish_state fresh at st di d) ≡ clock d
unfolding publish_state publish
clock-publish_state fresh at st di d = ground arith

-- No homing waits, so a tick makes the motion right after the alarm handling.
control-settled :
    (c : Config) (now : ℕ) (fresh : Bool) (at : ℤ) (st di : ℕ) (d : Driver)
    → (update_alarm c now st fresh at d).pending_home ≡ false
    → control c now fresh at st di d
      ≡ release_if_blocked c now at fresh di
          (update_motion c now at fresh di (update_alarm c now st fresh at d))
unfolding control
control-settled c now fresh at st di d none_waits = rw none_waits refl

clock-control :
    (c : Config) (start now : ℕ) (fresh : Bool) (at : ℤ) (st di : ℕ) (d : Driver)
    → Inv c (core d)
    → Since start (clock d)
    → clock (control c now fresh at st di d)
      ≡ clock (update_motion c now at fresh di (update_alarm c now st fresh at d))
clock-control c start now fresh at st di d inv h =
    let t = update_alarm c now st fresh at d in
    let ht = update_alarm-Since c start now st fresh at d inv h in
    ap clock (control-settled c now fresh at st di d ht.settled)
    ∙ clock-release_if_blocked c now at fresh di (update_motion c now at fresh di t)

-- The state that a tick works on keeps the invariant and the start of homing.
clock-poll :
    (c : Config) (start now : ℕ) (received : List ℕ) (d : Driver)
    → Inv c (core d)
    → Since start (clock d)
    → (u : Driver) × (at : ℤ) × (fresh : Bool) × (di : ℕ) × Since start (clock u)
      × (clock (poll c now received d) ≡ clock (update_motion c now at fresh di u))
unfolding poll
clock-poll c start now received d inv h =
    let t = receive c now received (send monitor d) in
    let fresh = is_fresh c now t in
    let at = t.current_pos in
    let st = t.status_byte in
    let inv_t : Inv c (core t) =
      rw (core-receive c now received (send monitor d), core-send monitor d) inv in
    let ht : Since start (clock t) =
      rw (clock-receive c now received (send monitor d), clock-send monitor d) h in
    (
      update_alarm c now st fresh at t,
      at,
      fresh,
      t.di_byte,
      update_alarm-Since c start now st fresh at t inv_t ht,
      clock-publish_state fresh at st t.di_byte (control c now fresh at st t.di_byte t)
          ∙ clock-control c start now fresh at st t.di_byte t inv_t ht,
    )

-- Whether an event asks for homing.
abbrev pub starts_homing : ℕ × Event → Bool
starts_homing (now, home start) = start
starts_homing (now, _) = false

poll-Since :
    (c : Config) (start now : ℕ) (received : List ℕ) (d : Driver)
    → Inv c (core d)
    → Since start (clock d)
    → Since start (clock (poll c now received d))
poll-Since c start now received d inv h =
    let (u, at, fresh, di, hu, e) = clock-poll c start now received d inv h in
    rw e (update_motion-Since c start now at fresh di u hu)

poll-late :
    (c : Config) (start now : ℕ) (received : List ℕ) (d : Driver)
    → Inv c (core d)
    → Since start (clock d)
    → start + c.home_timeout < now
    → (poll c now received d).mode ≢ homing
poll-late c start now received d inv h late =
    let (u, at, fresh, di, hu, e) = clock-poll c start now received d inv h in
    λ m. update_motion-late c start now at fresh di u hu late (sym (ap (λ k. k.0) e) ∙ m)

step-Since :
    (c : Config) (start : ℕ) (d : Driver) (e : ℕ × Event)
    → starts_homing e ≡ false
    → Inv c (core d)
    → Since start (clock d)
    → Since start (clock (step c d e))
unfolding step home_callback
step-Since c start d (now, command text) never inv h = command-Since c start now text d h
step-Since c start d (now, velocity_cmd rpm) never inv h = velocity_cmd-Since start now rpm d h
step-Since c start d (now, position_cmd target) never inv h = position_cmd-Since start target d h
step-Since c start d (now, inc_position_cmd counts) never inv h =
    inc_position_cmd-Since start counts d h
step-Since c start d (now, home go) never inv h = rw never (home_abort-Since start now d h)
step-Since c start d (now, reset go) never inv h = rw (clock-reset c now go d) h
step-Since c start d (now, tick received) never inv h = poll-Since c start now received d inv h

run-late :
    (c : Config) (start : ℕ) (d : Driver) (es : List (ℕ × Event)) (now : ℕ) (received : List ℕ)
    → All (λ e. starts_homing e ≡ false) es
    → start + c.home_timeout < now
    → Inv c (core d)
    → Since start (clock d)
    → (run c d (es ++ (now, tick received) ∷ [])).mode ≢ homing
unfolding run step
run-late c start d [] now received never late inv h = poll-late c start now received d inv h late
run-late c start d (e ∷ es) now received (never, rest) late inv h =
    run-late c start (step c d e) es now received rest late (step-Inv c d e inv)
      (step-Since c start d e never inv h)

-- Let the lift driver run from its constructor through any callbacks and ticks, until no homing waits
-- for the line. Then, after any further events of which none asks for homing, a tick later than the
-- homing time limit after the last start of homing leaves the driver in a mode other than homing,
-- whatever arrived on the line.
pub homing_ends :
    (c : Config) (serial_open enabled auto_home : Bool) (before after : List (ℕ × Event)) (now : ℕ)
    (received : List ℕ)
    → (run c (initial c serial_open enabled auto_home) before).pending_home ≡ false
    → All (λ e. starts_homing e ≡ false) after
    → (run c (initial c serial_open enabled auto_home) before).home_start + c.home_timeout < now
    → (run c
        (run c (initial c serial_open enabled auto_home) before)
        (after ++ (now, tick received) ∷ [])).mode
      ≢ homing
homing_ends c serial_open enabled auto_home before after now received settled never late =
    let d = run c (initial c serial_open enabled auto_home) before in
    run-late c d.home_start d after now received never late
      (run-Inv c serial_open enabled auto_home before)
      (record { settled = settled; began = λ _. refl })
