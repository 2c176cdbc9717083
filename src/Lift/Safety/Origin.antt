-- ===== src/Lift/Safety/Origin.antt =====
-- When the lift driver (catkin_ws/src/lift_driver/src/lift_driver_node.cpp) takes an origin.
pub mod History
use ku_polishing_robot_drive.Base.{
  Bool, List, [], arith, bit_and, false, if◌then◌else◌, pos, true, u8, ℕ, ℤ, ◌+◌, ◌<◌, ◌∷◌, ◌≡◌,
  ◌≤◌, ◌⊎◌,
}
use ku_polishing_robot_drive.Lift.Protocol.{Command, position_reset}
use ku_polishing_robot_drive.Lift.Commands.{home_begin}
use ku_polishing_robot_drive.Lift.Motion.{
  home_done, home_log, motion_by_mode, update_homing, update_motion, update_position, watch_stall,
}
use ku_polishing_robot_drive.Lift.Driver.{
  Config, Driver, Mode, at_lower_limit, cancel_resume, distance, elapsed, exceeds, homing, manual,
  overrun, position, publish, send, send_velocity, track_velocity,
}

-- what a tick has: the time, the position, whether the data are fresh, the inputs
pub record Reading : Type 0 where
  pub now : ℕ
  pub at : ℤ
  pub fresh : Bool
  pub di : ℕ

-- `updateMotion` at the ticks, the last one first
unfoldable pub motions : Config → List Reading → Driver → Driver
motions c [] d = d
motions c (r ∷ rs) d = update_motion c r.now r.at r.fresh r.di (motions c rs d)

abbrev is_reset : Command → Bool
is_reset position_reset = true
is_reset _ = false

-- how often an origin was taken
unfoldable pub origins : List Command → ℕ
origins [] = 0
origins (k ∷ ks) = (if is_reset k then 1 else 0) + origins ks

abbrev pub Near : Config → ℤ → ℤ → Type 0
Near c at ref = exceeds (distance at ref) c.home_stall_counts ≡ false

-- The last readings are fresh and near a position, back to one at some time and at that position.
abbrev pub Lasted : Config → ℕ → ℤ → List Reading → Type 0
Lasted c since ref [] = ⊥
Lasted c since ref (r ∷ rs) =
    (r.fresh ≡ true)
    × (((r.now ≡ since) × (r.at ≡ ref)) ⊎ (Near c r.at ref × Lasted c since ref rs))

-- The lift stands still: for `home_stall` the readings were fresh and near a position.
pub record Still (c : Config) (r : Reading) (rs : List Reading) : Type 0 where
  pub since : ℕ
  pub ref : ℤ
  pub lasted : Lasted c since ref rs
  pub near : Near c r.at ref
  pub long : since + c.home_stall ≤ r.now

-- Sending a velocity and the log leave the homing data alone.
abbrev pub homing_data : Driver → Mode × ℕ × Bool × ℕ × ℤ × ℕ
homing_data d =
    (d.mode, d.home_start, d.stall_tracking, d.stall_since, d.stall_ref_pos, origins d.sent)

pub homing_data-send_velocity :
    (now : ℕ) (rpm : ℤ) (d : Driver) → homing_data (send_velocity now rpm d) ≡ homing_data d
unfolding send_velocity track_velocity send origins
homing_data-send_velocity now rpm d = ground arith

pub homing_data-home_log :
    (now : ℕ) (at : ℤ) (d : Driver) → homing_data (home_log now at d) ≡ homing_data d
unfolding home_log
homing_data-home_log now at d = ground arith

pub home_done-data :
    (c : Config) (now : ℕ) (d : Driver)
    → ((home_done c now d).mode ≡ manual) × ((home_done c now d).home_start ≡ d.home_start)
unfolding home_done send publish send_velocity track_velocity
home_done-data c now d = ground arith

-- A standstill, by the driver's own data.
abbrev pub Stalled : Config → ℕ → ℤ → Driver → Type 0
Stalled c now at d =
    (d.stall_tracking ≡ true)
    × Near c at d.stall_ref_pos
    × (d.home_start + c.home_min ≤ now)
    × (d.stall_since + c.home_stall ≤ now)

watch_stall-origins :
    (c : Config) (now : ℕ) (at : ℤ) (d : Driver)
    → origins d.sent < origins (watch_stall c now at d).sent
    → Stalled c now at d
unfolding watch_stall
watch_stall-origins c now at d more = ground arith

-- The reason for an origin.
abbrev pub LimitSeen : Config → Reading → Driver → Type 0
LimitSeen c r d =
    (r.fresh ≡ true)
    × (r.now ≤ d.home_start + c.home_timeout)
    × (((c.use_limit_switch_for_home ≡ true) × (bit_and r.di (u8 c.limit_di_descend_mask) ≡ 0))
        ⊎ Stalled c r.now r.at d)

update_homing-origins :
    (c : Config) (r : Reading) (d : Driver)
    → origins d.sent < origins (update_homing c r.now r.at r.fresh r.di d).sent
    → LimitSeen c r d
unfolding update_homing at_lower_limit
update_homing-origins c r d0 more =
    let d = home_log r.now r.at d0 in
    ground (
      arith,
      homing_data-home_log r.now r.at d0,
      homing_data-send_velocity r.now (pos 0) d,
      homing_data-send_velocity r.now d.home_dir_speed d,
      watch_stall-origins c r.now r.at (send_velocity r.now d.home_dir_speed d),
    )

pub motion_by_mode-origins :
    (c : Config) (m : Mode) (r : Reading) (d : Driver)
    → d.mode ≡ m
    → origins d.sent < origins (motion_by_mode m c r.now r.at r.fresh r.di d).sent
    → (d.mode ≡ homing) × LimitSeen c r d
unfolding motion_by_mode update_position
motion_by_mode-origins c homing r d e more = (e, update_homing-origins c r d more)
motion_by_mode-origins c position r d e more = absurd (ground arith)
motion_by_mode-origins c manual r d e more = absurd (omega arith)
