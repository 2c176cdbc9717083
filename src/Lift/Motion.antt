-- ===== src/Lift/Motion.antt =====
-- Motion of catkin_ws/src/lift_driver/src/lift_driver_node.cpp: the state machine `updateMotion`
-- for homing and position moves, and `releaseIfBlocked` for the manual velocity command.
use ku_polishing_robot_drive.Base.{
  Bool, eqb_ℤ, false, if◌then◌else◌, ltb, ltb_ℤ, not, pos, to_u16, true, ℕ, ℤ, ◌&&◌, ◌||◌,
}
use ku_polishing_robot_drive.Lift.Protocol.{position_reset, position_vel}
use ku_polishing_robot_drive.Lift.Driver.{
  distance, exceeds, is_manual, Mode, manual, position, homing, Config, Driver, send, publish,
  send_velocity, at_lower_limit, homed_msg, elapsed, overrun,
}

-- the position speed after homing, at most 32767
unfoldable pub post_home_vel : Config → ℤ
post_home_vel c =
    let scaled = c.post_home_scaled (pos c.posi_base_vel_rpm) in
    if ltb_ℤ (pos 32767) scaled then pos 32767 else scaled

-- Homing ends at the lower limit: stop, take this place for the origin, raise the position speed.
unfoldable pub home_done : Config → ℕ → Driver → Driver
home_done c now d =
    let t = send position_reset (send_velocity now (pos 0) d) in
    let u = record t { homed = true; mode = manual; resume_cycles = 0 } in
    publish (homed_msg true) (
      if ltb 0 c.posi_base_vel_rpm && c.post_home_speeds_up
      then send (position_vel (to_u16 (post_home_vel c))) u
      else u)

unfoldable pub home_log : ℕ → ℤ → Driver → Driver
home_log now at d =
    if elapsed d.home_log_time 5_000_000_000 now
    then record d { home_log_time = now; home_log_pos = at }
    else d

-- The standstill test, after the descent was commanded once more.
unfoldable pub watch_stall : Config → ℕ → ℤ → Driver → Driver
watch_stall c now at d =
    if not d.stall_tracking || exceeds (distance at d.stall_ref_pos) c.home_stall_counts
    then record d { stall_ref_pos = at; stall_since = now; stall_tracking = true }
    else if elapsed d.home_start c.home_min now && elapsed d.stall_since c.home_stall now
    then home_done c now d
    else d

unfoldable pub update_homing : Config → ℕ → ℤ → Bool → ℕ → Driver → Driver
update_homing c now at fresh di d0 =
    let d = home_log now at d0 in
    if overrun d.home_start c.home_timeout now
    then record (send_velocity now (pos 0) d) { mode = manual; resume_cycles = 0 }
    else if c.use_limit_switch_for_home && at_lower_limit c di fresh
    then home_done c now d
    else (let t = send_velocity now d.home_dir_speed d in
        if not fresh then record t { stall_tracking = false } else watch_stall c now at t)

unfoldable pub update_position : Config → ℤ → Bool → Driver → Driver
update_position c at fresh d =
    if fresh && not (exceeds (distance d.target_pos at) c.in_position_tol)
    then record d { mode = manual; resume_cycles = 0 }
    else d

unfoldable pub motion_by_mode : Mode → Config → ℕ → ℤ → Bool → ℕ → Driver → Driver
motion_by_mode homing c now at fresh di d = update_homing c now at fresh di d
motion_by_mode position c now at fresh di d = update_position c at fresh d
motion_by_mode manual c now at fresh di d = d

unfoldable pub update_motion : Config → ℕ → ℤ → Bool → ℕ → Driver → Driver
update_motion c now at fresh di d = motion_by_mode d.mode c now at fresh di d

unfoldable pub watch_release : Config → ℕ → ℤ → Driver → Driver
watch_release c now at d =
    if not (elapsed d.vel_cmd_time c.release_grace now)
    then d
    else if not d.vel_ref_valid || exceeds (distance at d.vel_ref_pos) c.home_stall_counts
    then record d { vel_ref_pos = at; vel_ref_time = now; vel_ref_valid = true }
    else if elapsed d.vel_ref_time c.release_stop now
    then send_velocity now (pos 0) d
    else d

unfoldable pub release_if_blocked : Config → ℕ → ℤ → Bool → ℕ → Driver → Driver
release_if_blocked c now at fresh di d =
    if not c.auto_release_on_stop
      || not (is_manual d.mode)
      || eqb_ℤ d.last_vel_cmd (pos 0)
      || not fresh
    then d
    else if ltb_ℤ d.last_vel_cmd (pos 0) && at_lower_limit c di fresh
    then send_velocity now (pos 0) d
    else watch_release c now at d
