-- ===== src/Lift/Poll.antt =====
-- The timer of catkin_ws/src/lift_driver/src/lift_driver_node.cpp: `handleFrame`, `readAndParse` and
-- `pollTimer`. The bytes that the serial port delivers are an argument, none on a timeout or an error.
use ku_polishing_robot_drive.Base.{
  Bool, List, Option, drop, get_or, if◌then◌else◌, leb, length, ltb, none, not, some, true, ℕ, ℤ,
  ◌&&◌, ◌+◌, ◌==◌,
}
use ku_polishing_robot_drive.Lift.Protocol.{monitor, le16, le32}
use ku_polishing_robot_drive.Lift.Protocol.Pid
use ku_polishing_robot_drive.Lift.Receive.{read_and_parse}
use ku_polishing_robot_drive.Lift.Driver.{
  Mode, manual, position, Config, Driver, StatusLine, position_msg, status_msg, error_msg,
  alarm_msg, send, publish,
}
use ku_polishing_robot_drive.Lift.Alarm.{update_alarm}
use ku_polishing_robot_drive.Lift.Motion.{update_motion, release_if_blocked}
use ku_polishing_robot_drive.Lift.Commands.{home_callback}

unfoldable pub handle_frame : ℕ → Driver → ℕ → List ℕ → Driver
handle_frame now d pid bytes =
    if pid == Pid.monitor && leb 12 (length bytes)
    then record d {
      rpm = le16 bytes;
      status_byte = get_or bytes 6 0;
      current_pos = le32 (drop 7 bytes);
      di_byte = get_or bytes 11 0;
      got_data = true;
      last_rx = now;
    }
    else if pid == Pid.posi_data && leb 4 (length bytes)
    then record d { current_pos = le32 bytes; got_data = true; last_rx = now }
    else d

-- `readAndParse` on the driver's own buffer
unfoldable pub receive : Config → ℕ → List ℕ → Driver → Driver
receive c now received d =
    let (t, rest) = read_and_parse c.ids (handle_frame now) d.rx_buf received d in
    record t { rx_buf = rest }

-- data count as fresh for `timeout_sec` after the last frame
unfoldable pub is_fresh : Config → ℕ → Driver → Bool
is_fresh c now d = d.got_data && ltb now (d.last_rx + c.timeout)

abbrev pending_resume : Mode → Option Mode
pending_resume manual = none
pending_resume m = some m

abbrev shown_target : Mode → ℤ → Option ℤ
shown_target position target = some target
shown_target _ target = none

unfoldable pub status_line : Bool → ℤ → ℕ → ℕ → Driver → StatusLine
status_line fresh at st di d = record {
  connected = fresh;
  mode = d.mode;
  homed = d.homed;
  at = at;
  target = shown_target d.mode d.target_pos;
  status = st;
  di = di;
  alarm = if d.alarm_active then some (d.alarm_reset_attempts, d.alarm_reset_exhausted) else none;
  resume_pending = pending_resume d.resume_mode;
}

-- the publications at the end of a tick
unfoldable pub publish_state : Bool → ℤ → ℕ → ℕ → Driver → Driver
publish_state fresh at st di d =
    let t =
      publish (error_msg d.alarm_active)
        (publish (status_msg (status_line fresh at st di d)) (publish (position_msg at) d)) in
    if d.alarm_active then publish (alarm_msg st) t else t

-- What a tick does with its snapshot of the data: the alarm first, then a pending homing, the motion,
-- and the release of a blocked manual command.
unfoldable pub control : Config → ℕ → Bool → ℤ → ℕ → ℕ → Driver → Driver
control c now fresh at st di d =
    let t = update_alarm c now st fresh at d in
    let u =
      if t.pending_home && fresh && not t.alarm_active then home_callback c now true t else t in
    release_if_blocked c now at fresh di (update_motion c now at fresh di u)

unfoldable pub poll : Config → ℕ → List ℕ → Driver → Driver
poll c now received d =
    let t = receive c now received (send monitor d) in
    let fresh = is_fresh c now t in
    publish_state fresh t.current_pos t.status_byte t.di_byte
      (control c now fresh t.current_pos t.status_byte t.di_byte t)
