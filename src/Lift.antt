-- ===== src/Lift.antt =====
-- The lift driver (catkin_ws/src/lift_driver).
pub mod Serial
pub mod Status
pub mod Protocol
pub mod Receive
pub mod Driver
pub mod Alarm
pub mod Motion
pub mod Commands
pub mod Poll
pub mod Events
pub mod Params
pub mod Invariant
pub mod Safety
pub mod Homing
