-- ===== src/Lift/Invariant.antt =====
-- What holds of the lift driver between two callbacks
-- (catkin_ws/src/lift_driver/src/lift_driver_node.cpp), as a predicate on the core of its state.
pub mod Alarms
pub mod Motions
pub mod Callbacks
pub mod Runs
use ku_polishing_robot_drive.Base.{true, ◌<◌, ◌≡◌, ◌≤◌, ◌⊎◌}
use ku_polishing_robot_drive.Lift.Driver.{manual, position, homing, Config, Core}

pub record Inv (c : Config) (k : Core) : Type 0 where
  -- no motion is in progress during an alarm
  pub alarm_manual : k.alarm_active ≡ true → k.mode ≡ manual
  -- only a position move waits for its resume, and only during an alarm
  pub resume_kind : (k.resume_mode ≡ manual) ⊎ (k.resume_mode ≡ position)
  pub resume_alarm : k.resume_mode ≡ position → k.alarm_active ≡ true
  -- the limits on retries are kept
  pub attempts_capped : 0 < c.alarm_reset_max_attempts → k.attempts ≤ c.alarm_reset_max_attempts
  pub cycles_capped : 0 < c.alarm_resume_max_cycles → k.resume_cycles ≤ c.alarm_resume_max_cycles
  pub exhausted_alarm : k.exhausted ≡ true → k.alarm_active ≡ true
