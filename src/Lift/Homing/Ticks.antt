-- ===== src/Lift/Homing/Ticks.antt =====
-- The start of homing under a tick: the alarm, the motion, the release
-- (catkin_ws/src/lift_driver/src/lift_driver_node.cpp).
use ku_polishing_robot_drive.Base.{
  Bool, arith, false, has_bit, pos, refl, subst, sym, to_u16, true, ℕ, ℤ, ◌+◌, ◌-ℤ◌, ◌<◌, ◌≡◌, ◌≢◌,
}
use ku_polishing_robot_drive.Lift.Protocol
use ku_polishing_robot_drive.Lift.Protocol.{
  alarm_reset, inc_position, monitor, position_reset, position_vel,
}
use ku_polishing_robot_drive.Lift.Driver.{
  Config, Driver, Mode, core, homing, manual, position, publish, send, send_velocity,
}
use ku_polishing_robot_drive.Lift.Alarm.{
  alarm_clear, alarm_rise, alarm_watch, auto_reset, remember, resume_after_alarm, resume_by_mode,
  resume_position, update_alarm,
}
use ku_polishing_robot_drive.Lift.Motion.{
  home_done, home_log, motion_by_mode, post_home_vel, release_if_blocked, update_homing,
  update_motion, update_position, watch_release, watch_stall,
}
use ku_polishing_robot_drive.Lift.Invariant.{Inv}
use ku_polishing_robot_drive.Lift.Invariant.Alarms.{alarm_watch-Inv}
use ku_polishing_robot_drive.Lift.Homing.{
  Since, clock, clock-request_alarm_reset, clock-send, clock-send_velocity,
}

alarm_rise-Since :
    (start now st : ℕ) (d : Driver)
    → Since start (clock d)
    → Since start (clock (alarm_rise now st d))
unfolding alarm_rise remember
alarm_rise-Since start now st d h =
    let s = record d {
      alarm_active = true;
      alarm_status = st;
      alarm_reset_attempts = 0;
      alarm_reset_exhausted = false;
      last_alarm_reset = 0;
    } in
    ground (arith, clock-send_velocity now (pos 0) s)

resume_position-Since :
    (start : ℕ) (at : ℤ) (d : Driver)
    → Since start (clock d)
    → Since start (clock (resume_position at d))
unfolding resume_position
resume_position-Since start at d h =
    let t = record d { resume_mode = manual; target_pos = d.resume_target; mode = position } in
    ground (
      arith,
      clock-send (Protocol.position t.target_pos) t,
      clock-send (inc_position (t.target_pos -ℤ at)) t,
    )

resume_after_alarm-Since :
    (c : Config) (start now : ℕ) (at : ℤ) (d : Driver)
    → d.resume_mode ≢ homing
    → Since start (clock d)
    → Since start (clock (resume_after_alarm c now at d))
unfolding resume_after_alarm resume_by_mode
resume_after_alarm-Since c start now at d no_homing h =
    let t = record d { resume_cycles = d.resume_cycles + 1 } in
    ground (arith, resume_position-Since start at t)

alarm_watch-Since :
    (start now : ℕ) (alarm : Bool) (st : ℕ) (d : Driver)
    → Since start (clock d)
    → Since start (clock (alarm_watch now alarm st d))
unfolding alarm_watch
alarm_watch-Since start now alarm st d h = ground (arith, alarm_rise-Since start now st d h)

alarm_clear-Since :
    (c : Config) (start now st : ℕ) (at : ℤ) (d : Driver)
    → Inv c (core d)
    → Since start (clock d)
    → Since start (clock (alarm_clear c now st at d))
unfolding alarm_clear
alarm_clear-Since c start now st at d inv h =
    let kind = inv.resume_kind in
    let t = record d {
      alarm_active = false;
      alarm_status = st;
      alarm_reset_attempts = 0;
      alarm_reset_exhausted = false;
    } in
    resume_after_alarm-Since c start now at t (ground arith) h

clock-auto_reset : (c : Config) (now : ℕ) (d : Driver) → clock (auto_reset c now d) ≡ clock d
unfolding auto_reset
clock-auto_reset c now d = ground (arith, clock-request_alarm_reset c now false d)

pub update_alarm-Since :
    (c : Config) (start now st : ℕ) (fresh : Bool) (at : ℤ) (d : Driver)
    → Inv c (core d)
    → Since start (clock d)
    → Since start (clock (update_alarm c now st fresh at d))
unfolding update_alarm
update_alarm-Since c start now st fresh at d inv h =
    let t = alarm_watch now (has_bit st 0) st d in
    let kept = alarm_watch-Inv c now (has_bit st 0) st d inv in
    let since = alarm_watch-Since start now (has_bit st 0) st d h in
    ground (arith, since, alarm_clear-Since c start now st at t kept, clock-auto_reset c now t)

clock-home_log : (now : ℕ) (at : ℤ) (d : Driver) → clock (home_log now at d) ≡ clock d
unfolding home_log
clock-home_log now at d = ground arith

-- Where homing is done, the mode is manual.
clock-home_done :
    (c : Config) (now : ℕ) (d : Driver)
    → clock (home_done c now d) ≡ clock (record d { mode = manual })
unfolding home_done publish
clock-home_done c now d =
    let v = send_velocity now (pos 0) d in
    let t = send position_reset v in
    let u = record t { homed = true; mode = manual; resume_cycles = 0 } in
    ground (
      arith,
      clock-send_velocity now (pos 0) d,
      clock-send position_reset v,
      clock-send (position_vel (to_u16 (post_home_vel c))) u,
    )

watch_stall-Since :
    (c : Config) (start now : ℕ) (at : ℤ) (d : Driver)
    → Since start (clock d)
    → Since start (clock (watch_stall c now at d))
unfolding watch_stall
watch_stall-Since c start now at d h = ground (arith, clock-home_done c now d)

update_homing-Since :
    (c : Config) (start now : ℕ) (at : ℤ) (fresh : Bool) (di : ℕ) (d : Driver)
    → Since start (clock d)
    → Since start (clock (update_homing c now at fresh di d))
unfolding update_homing
update_homing-Since c start now at fresh di d0 h =
    let d = home_log now at d0 in
    let t = send_velocity now d.home_dir_speed d in
    ground (
      arith,
      clock-home_log now at d0,
      clock-send_velocity now (pos 0) d,
      clock-send_velocity now d.home_dir_speed d,
      clock-home_done c now d,
      watch_stall-Since c start now at t,
    )

-- Past the time limit homing is over.
update_homing-late :
    (c : Config) (now : ℕ) (at : ℤ) (fresh : Bool) (di : ℕ) (d : Driver)
    → d.home_start + c.home_timeout < now
    → (update_homing c now at fresh di d).mode ≡ manual
unfolding update_homing
update_homing-late c now at fresh di d late = ground (arith, clock-home_log now at d)

motion_by_mode-Since :
    (c : Config) (m : Mode) (start now : ℕ) (at : ℤ) (fresh : Bool) (di : ℕ) (d : Driver)
    → Since start (clock d)
    → Since start (clock (motion_by_mode m c now at fresh di d))
unfolding motion_by_mode update_position
motion_by_mode-Since c manual start now at fresh di d h = h
motion_by_mode-Since c position start now at fresh di d h = ground arith
motion_by_mode-Since c homing start now at fresh di d h =
    update_homing-Since c start now at fresh di d h

motion_by_mode-late :
    (c : Config) (m : Mode) (now : ℕ) (at : ℤ) (fresh : Bool) (di : ℕ) (d : Driver)
    → d.mode ≡ m
    → (m ≡ homing → d.home_start + c.home_timeout < now)
    → (motion_by_mode m c now at fresh di d).mode ≢ homing
unfolding motion_by_mode update_position
motion_by_mode-late c manual now at fresh di d e late = ground arith
motion_by_mode-late c position now at fresh di d e late = ground arith
motion_by_mode-late c homing now at fresh di d e late =
    ground (arith, update_homing-late c now at fresh di d (late refl))

pub update_motion-Since :
    (c : Config) (start now : ℕ) (at : ℤ) (fresh : Bool) (di : ℕ) (d : Driver)
    → Since start (clock d)
    → Since start (clock (update_motion c now at fresh di d))
unfolding update_motion
update_motion-Since c start now at fresh di d h =
    motion_by_mode-Since c d.mode start now at fresh di d h

pub update_motion-late :
    (c : Config) (start now : ℕ) (at : ℤ) (fresh : Bool) (di : ℕ) (d : Driver)
    → Since start (clock d)
    → start + c.home_timeout < now
    → (update_motion c now at fresh di d).mode ≢ homing
unfolding update_motion
update_motion-late c start now at fresh di d h late =
    motion_by_mode-late c d.mode now at fresh di d refl
      (λ e. subst (λ s. s + c.home_timeout < now) (sym (h.began e)) late)

pub clock-release_if_blocked :
    (c : Config) (now : ℕ) (at : ℤ) (fresh : Bool) (di : ℕ) (d : Driver)
    → clock (release_if_blocked c now at fresh di d) ≡ clock d
unfolding release_if_blocked watch_release
clock-release_if_blocked c now at fresh di d = ground (arith, clock-send_velocity now (pos 0) d)
