-- ===== src/Tests/Motors.antt =====
-- The drive motors (catkin_ws/src/motor_driver) on concrete inputs.
use ku_polishing_robot_drive.Base.{refl, ◌≡◌}
use ku_polishing_robot_drive.Motor.Cia402.{
  get_cia402_state, operation_enabled, switch_on_disabled, operation_enabled_iff,
}

after_sto : get_cia402_state 0x4050 ≡ switch_on_disabled
unfolding get_cia402_state
after_sto = refl

operation_enabled_iff_example : get_cia402_state 0x4637 ≡ operation_enabled
operation_enabled_iff_example = (operation_enabled_iff 0x4637).1 (refl, refl, refl, refl, refl)
