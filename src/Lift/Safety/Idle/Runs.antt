-- ===== src/Lift/Safety/Idle/Runs.antt =====
-- Ticks, callbacks and whole runs of the lift driver without a command to move
-- (catkin_ws/src/lift_driver/src/lift_driver_node.cpp).
use ku_polishing_robot_drive.Base.{
  All, Bool, List, Option-cases, [], ap, arith, false, inl, inr, negsuc, pos, refl, suc, sym, zero,
  ℕ, ℤ, ◌++◌, ◌∙◌, ◌∷◌, ◌≡◌,
}
use Prim.Native.String.{String}
use ku_polishing_robot_drive.Lift.Protocol.{monitor}
use ku_polishing_robot_drive.Lift.Receive.{read_and_parse}
use ku_polishing_robot_drive.Lift.Receive.Stream.{scan-keeps}
use ku_polishing_robot_drive.Lift.Driver.{
  Config, Driver, Mode, cancel_resume, homing, manual, publish, send,
}
use ku_polishing_robot_drive.Lift.Alarm.{update_alarm}
use ku_polishing_robot_drive.Lift.Motion.{motion_by_mode, release_if_blocked, update_motion}
use ku_polishing_robot_drive.Lift.Poll.{
  control, handle_frame, is_fresh, poll, publish_state, receive,
}
use ku_polishing_robot_drive.Lift.Commands.{
  command_callback, command_speed, home_abort, home_callback, manual_command, parse_command,
  velocity_cmd_callback, up, down, stop, ManualCommand,
}
use ku_polishing_robot_drive.Lift.Events.{
  Event, command, home, inc_position_cmd, initial, position_cmd, reset, run, step, tick,
  velocity_cmd,
}
use ku_polishing_robot_drive.Lift.Safety.Idle.{
  Idle, IsStill, asks, asks_for, moves, reset-Idle, send-Idle, send_velocity-Idle,
  update_alarm-Idle, view,
}

-- In manual mode there is no motion to go on with, and without a speed nothing to release.
motion_at_rest :
    (c : Config) (m : Mode) (now : ℕ) (at : ℤ) (fresh : Bool) (di : ℕ) (d : Driver)
    → m ≡ manual
    → motion_by_mode m c now at fresh di d ≡ d
unfolding motion_by_mode
motion_at_rest c manual now at fresh di d e = refl
motion_at_rest c homing now at fresh di d e = absurd (cc)
motion_at_rest c Mode.position now at fresh di d e = absurd (cc)

release_at_rest :
    (c : Config) (now : ℕ) (at : ℤ) (fresh : Bool) (di : ℕ) (d : Driver)
    → d.last_vel_cmd ≡ pos 0
    → release_if_blocked c now at fresh di d ≡ d
unfolding release_if_blocked
release_at_rest c now at fresh di d e = ground arith

control_at_rest :
    (c : Config) (now : ℕ) (fresh : Bool) (at : ℤ) (st di : ℕ) (d : Driver)
    → Idle (view (update_alarm c now st fresh at d))
    → control c now fresh at st di d ≡ update_alarm c now st fresh at d
unfolding control update_motion
control_at_rest c now fresh at st di d h =
    let t = update_alarm c now st fresh at d in
    simp h.settled (
      ap (release_if_blocked c now at fresh di)
        (motion_at_rest c t.mode now at fresh di t h.resting)
      ∙ release_at_rest c now at fresh di t h.stopped)

control-Idle :
    (c : Config) (now : ℕ) (fresh : Bool) (at : ℤ) (st di : ℕ) (d : Driver)
    → Idle (view d)
    → Idle (view (control c now fresh at st di d))
control-Idle c now fresh at st di d h =
    let t = update_alarm-Idle c now st fresh at d h in
    rw (control_at_rest c now fresh at st di d t) t

view-handle_frame :
    (now : ℕ) (d : Driver) (pid : ℕ) (bytes : List ℕ) → view (handle_frame now d pid bytes) ≡ view d
unfolding handle_frame
view-handle_frame now d pid bytes = ground arith

view-receive :
    (c : Config) (now : ℕ) (received : List ℕ) (d : Driver)
    → view (receive c now received d) ≡ view d
unfolding receive read_and_parse
view-receive c now received d =
    scan-keeps c.ids (handle_frame now) (λ t. view t ≡ view d)
      (λ t pid bytes e. view-handle_frame now t pid bytes ∙ e) (d.rx_buf ++ received) d refl

view-publish_state :
    (fresh : Bool) (at : ℤ) (st di : ℕ) (d : Driver)
    → view (publish_state fresh at st di d) ≡ view d
unfolding publish_state publish
view-publish_state fresh at st di d = ground arith

poll-Idle :
    (c : Config) (now : ℕ) (received : List ℕ) (d : Driver)
    → Idle (view d)
    → Idle (view (poll c now received d))
unfolding poll
poll-Idle c now received d h =
    let t = receive c now received (send monitor d) in
    let fresh = is_fresh c now t in
    let ht : Idle (view t) =
      rw (view-receive c now received (send monitor d)) (send-Idle monitor d tt h) in
    rw
      (view-publish_state fresh t.current_pos t.status_byte t.di_byte
        (control c now fresh t.current_pos t.status_byte t.di_byte t))
      (control-Idle c now fresh t.current_pos t.status_byte t.di_byte t ht)

velocity_cmd-Idle :
    (now : ℕ) (d : Driver) → Idle (view d) → Idle (view (velocity_cmd_callback now (pos 0) d))
unfolding velocity_cmd_callback cancel_resume
velocity_cmd-Idle now d h =
    send_velocity-Idle now (cancel_resume (record d { mode = manual })) (record {
      resting = refl;
      settled = h.settled;
      stopped = h.stopped;
      finished = refl;
      quiet = h.quiet;
    })

manual_command-Idle :
    (c : Config) (now : ℕ) (m : ManualCommand) (d : Driver)
    → asks m ≡ false
    → Idle (view d)
    → Idle (view (manual_command c now m d))
unfolding manual_command command_speed velocity_cmd_callback
manual_command-Idle c now stop d e h = velocity_cmd-Idle now d h
manual_command-Idle c now up d e h = absurd (cc)
manual_command-Idle c now down d e h = absurd (cc)

command-Idle :
    (c : Config) (now : ℕ) (text : String) (d : Driver)
    → moves (now, command text) ≡ false
    → Idle (view d)
    → Idle (view (command_callback c now text d))
unfolding command_callback moves
command-Idle c now text d e h = elim (Option-cases (parse_command text)) [
  | inl n ↦ rw (n, command_callback) h
  | inr (m, s) ↦
      let still : asks m ≡ false = sym (ap asks_for s) ∙ e in
      rw (s, command_callback) (manual_command-Idle c now m d still h)
]

home_abort-Idle : (now : ℕ) (d : Driver) → Idle (view d) → Idle (view (home_abort now d))
unfolding home_abort cancel_resume
home_abort-Idle now d h = rw h.resting (record {
  resting = refl;
  settled = refl;
  stopped = h.stopped;
  finished = refl;
  quiet = h.quiet;
})

step-Idle :
    (c : Config) (d : Driver) (e : ℕ × Event)
    → moves e ≡ false
    → Idle (view d)
    → Idle (view (step c d e))
unfolding step moves home_callback
step-Idle c d (now, command text) never h = command-Idle c now text d never h
step-Idle c d (now, velocity_cmd (pos zero)) never h = velocity_cmd-Idle now d h
step-Idle c d (now, velocity_cmd (pos (suc n))) never h = absurd (cc)
step-Idle c d (now, velocity_cmd (negsuc n)) never h = absurd (cc)
step-Idle c d (now, position_cmd target) never h = absurd (cc)
step-Idle c d (now, inc_position_cmd counts) never h = absurd (cc)
step-Idle c d (now, home start) never h = rw never (home_abort-Idle now d h)
step-Idle c d (now, reset go) never h = reset-Idle c now go d h
step-Idle c d (now, tick received) never h = poll-Idle c now received d h

initial-Idle :
    (c : Config) (serial_open enabled : Bool) → Idle (view (initial c serial_open enabled false))
unfolding initial publish send
initial-Idle c serial_open enabled = ground arith

run-Idle :
    (c : Config) (d : Driver) (es : List (ℕ × Event))
    → All (λ e. moves e ≡ false) es
    → Idle (view d)
    → Idle (view (run c d es))
unfolding run
run-Idle c d [] never h = h
run-Idle c d (e ∷ es) never h = run-Idle c (step c d e) es never.1 (step-Idle c d e never.0 h)

-- Without automatic homing at the start, and as long as no message asks for a motion (up, down, a
-- velocity other than 0, a position, homing), whatever arrives on the line, alarms included, and
-- however often alarms are reset, the lift driver sends no velocity but 0 and no frame that moves the
-- lift or takes an origin.
pub run_still :
    (c : Config) (serial_open enabled : Bool) (es : List (ℕ × Event))
    → All (λ e. moves e ≡ false) es
    → All IsStill (run c (initial c serial_open enabled false) es).sent
run_still c serial_open enabled es never =
    (run-Idle c (initial c serial_open enabled false) es never
      (initial-Idle c serial_open enabled)).quiet
