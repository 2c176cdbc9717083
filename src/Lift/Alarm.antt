-- ===== src/Lift/Alarm.antt =====
-- Alarm handling of catkin_ws/src/lift_driver/src/lift_driver_node.cpp: `updateAlarm`,
-- `requestAlarmReset` and `resumeAfterAlarm`.
use ku_polishing_robot_drive.Base.{
  Bool, false, has_bit, if◌then◌else◌, leb, ltb, not, pos, true, ℕ, ℤ, ◌&&◌, ◌+◌, ◌-ℤ◌, ◌==◌, ◌||◌,
}
use ku_polishing_robot_drive.Lift.Protocol
use ku_polishing_robot_drive.Lift.Protocol.{alarm_reset, inc_position}
use ku_polishing_robot_drive.Lift.Driver.{
  is_manual, Mode, manual, position, homing, Config, Driver, send, send_velocity, elapsed,
}

unfoldable pub request_alarm_reset : Config → ℕ → Bool → Driver → Driver
request_alarm_reset c now by_hand d =
    if not by_hand
      && ltb 0 c.alarm_reset_max_attempts
      && leb c.alarm_reset_max_attempts d.alarm_reset_attempts
    then record d { alarm_reset_exhausted = true }
    else (let t = send alarm_reset (send_velocity now (pos 0) d) in
        record t { last_alarm_reset = now; alarm_reset_attempts = t.alarm_reset_attempts + 1 })

unfoldable pub resume_homing : ℕ → ℤ → Driver → Driver
resume_homing now at d = record d {
  resume_mode = manual;
  mode = homing;
  home_start = now;
  home_start_pos = at;
  home_log_time = now;
  home_log_pos = at;
  home_alarm_seen = false;
  stall_tracking = false;
}

-- with no origin the same target is reached by a relative move
unfoldable pub resume_position : ℤ → Driver → Driver
resume_position at d =
    let t = record d { resume_mode = manual; target_pos = d.resume_target; mode = position } in
    if t.homed
    then send (Protocol.position t.target_pos) t
    else send (inc_position (t.target_pos -ℤ at)) t

unfoldable pub resume_by_mode : Mode → ℕ → ℤ → Driver → Driver
resume_by_mode manual now at d = d
resume_by_mode homing now at d = resume_homing now at d
resume_by_mode position now at d = resume_position at d

unfoldable pub resume_after_alarm : Config → ℕ → ℤ → Driver → Driver
resume_after_alarm c now at d =
    if is_manual d.resume_mode
    then d
    else if ltb 0 c.alarm_resume_max_cycles && leb c.alarm_resume_max_cycles d.resume_cycles
    then record d { resume_mode = manual }
    else resume_by_mode d.resume_mode now at (record d { resume_cycles = d.resume_cycles + 1 })

-- An alarm while homing aborts it; any other motion is kept for the resume.
unfoldable pub remember : Mode → Driver → Driver
remember homing d = record d { mode = manual; home_alarm_seen = true }
remember manual d = record d { mode = manual }
remember position d = record d {
  resume_mode = position;
  resume_target = d.target_pos;
  mode = manual;
}

-- the rising edge
unfoldable pub alarm_rise : ℕ → ℕ → Driver → Driver
alarm_rise now st d =
    let t = send_velocity now (pos 0) (record d {
      alarm_active = true;
      alarm_status = st;
      alarm_reset_attempts = 0;
      alarm_reset_exhausted = false;
      last_alarm_reset = 0;
    }) in
    remember t.mode t

unfoldable pub alarm_watch : ℕ → Bool → ℕ → Driver → Driver
alarm_watch now alarm st d =
    if alarm && not d.alarm_active
    then alarm_rise now st d
    else if alarm
    then record d { alarm_status = st }
    else d

-- the falling edge
unfoldable pub alarm_clear : Config → ℕ → ℕ → ℤ → Driver → Driver
alarm_clear c now st at d = resume_after_alarm c now at (record d {
  alarm_active = false;
  alarm_status = st;
  alarm_reset_attempts = 0;
  alarm_reset_exhausted = false;
})

unfoldable pub auto_reset : Config → ℕ → Driver → Driver
auto_reset c now d =
    if d.alarm_active
      && c.auto_reset_on_alarm
      && not d.alarm_reset_exhausted
      && (d.last_alarm_reset == 0 || elapsed d.last_alarm_reset c.alarm_reset_interval now)
    then request_alarm_reset c now false d
    else d

unfoldable pub update_alarm : Config → ℕ → ℕ → Bool → ℤ → Driver → Driver
update_alarm c now st fresh at d =
    if not fresh
    then d
    else (let alarm = has_bit st 0 in
        let t = alarm_watch now alarm st d in
        if not alarm && t.alarm_active then alarm_clear c now st at t else auto_reset c now t)
