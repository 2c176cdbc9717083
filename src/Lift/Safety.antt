-- ===== src/Lift/Safety.antt =====
-- What the lift driver does where safety depends on it, proved of
-- catkin_ws/src/lift_driver/src/lift_driver_node.cpp.
pub mod Stop
pub mod Idle
pub mod Origin
