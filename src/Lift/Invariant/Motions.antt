-- ===== src/Lift/Invariant/Motions.antt =====
-- The motion state machine and the release of a blocked command keep the invariant.
use ku_polishing_robot_drive.Base.{Bool, arith, pos, to_u16, true, ℕ, ℤ, ◌≡◌, ◌⊎◌}
use ku_polishing_robot_drive.Lift.Protocol.{position_reset, position_vel}
use ku_polishing_robot_drive.Lift.Driver.{
  Mode, manual, position, homing, Config, Driver, Core, core, core-send, core-send_velocity,
  send_velocity, send, publish,
}
use ku_polishing_robot_drive.Lift.Motion.{
  home_done, home_log, watch_stall, update_homing, update_position, motion_by_mode, update_motion,
  watch_release, release_if_blocked, post_home_vel,
}
use ku_polishing_robot_drive.Lift.Invariant.{Inv}

-- The core after homing is done.
pub core-home_done :
    (c : Config) (now : ℕ) (d : Driver)
    → core (home_done c now d) ≡ record (core d) { homed = true; mode = manual; resume_cycles = 0 }
unfolding home_done publish
core-home_done c now d =
    let v = send_velocity now (pos 0) d in
    let t = send position_reset v in
    let u = record t { homed = true; mode = manual; resume_cycles = 0 } in
    ground (
      arith,
      core-send_velocity now (pos 0) d,
      core-send position_reset v,
      core-send (position_vel (to_u16 (post_home_vel c))) u,
    )

core-home_log : (now : ℕ) (at : ℤ) (d : Driver) → core (home_log now at d) ≡ core d
unfolding home_log
core-home_log now at d = ground arith

-- What homing may do to the core: nothing, stop, or finish.
abbrev pub HomingEffect : Core → Core → Type 0
HomingEffect k k' =
    (k' ≡ k)
    ⊎ ((k' ≡ record k { mode = manual; resume_cycles = 0 })
        ⊎ (k' ≡ record k { homed = true; mode = manual; resume_cycles = 0 }))

watch_stall-effect :
    (c : Config) (now : ℕ) (at : ℤ) (d : Driver)
    → HomingEffect (core d) (core (watch_stall c now at d))
unfolding watch_stall
watch_stall-effect c now at d = ground (arith, core-home_done c now d)

pub update_homing-effect :
    (c : Config) (now : ℕ) (at : ℤ) (fresh : Bool) (di : ℕ) (d : Driver)
    → HomingEffect (core d) (core (update_homing c now at fresh di d))
unfolding update_homing
update_homing-effect c now at fresh di d0 =
    let d = home_log now at d0 in
    let t = send_velocity now d.home_dir_speed d in
    ground (
      arith,
      core-home_log now at d0,
      core-send_velocity now (pos 0) d,
      core-send_velocity now d.home_dir_speed d,
      core-home_done c now d,
      watch_stall-effect c now at t,
    )

motion_by_mode-Inv :
    (c : Config) (m : Mode) (now : ℕ) (at : ℤ) (fresh : Bool) (di : ℕ) (d : Driver)
    → Inv c (core d)
    → Inv c (core (motion_by_mode m c now at fresh di d))
unfolding motion_by_mode update_position
motion_by_mode-Inv c homing now at fresh di d h =
    ground (arith, update_homing-effect c now at fresh di d)
motion_by_mode-Inv c position now at fresh di d h = ground arith
motion_by_mode-Inv c manual now at fresh di d h = h

pub update_motion-Inv :
    (c : Config) (now : ℕ) (at : ℤ) (fresh : Bool) (di : ℕ) (d : Driver)
    → Inv c (core d)
    → Inv c (core (update_motion c now at fresh di d))
unfolding update_motion
update_motion-Inv c now at fresh di d h = motion_by_mode-Inv c d.mode now at fresh di d h

pub core-release_if_blocked :
    (c : Config) (now : ℕ) (at : ℤ) (fresh : Bool) (di : ℕ) (d : Driver)
    → core (release_if_blocked c now at fresh di d) ≡ core d
unfolding release_if_blocked watch_release
core-release_if_blocked c now at fresh di d = ground (arith, core-send_velocity now (pos 0) d)
