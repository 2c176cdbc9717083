-- ===== src/Motor.antt =====
-- The drive motors (catkin_ws/src/motor_driver): the CANopen controller.
pub mod CanOpen
pub mod Cia402
pub mod Controller
pub mod Mapping
pub mod Enable
pub mod Velocity
pub mod Node
