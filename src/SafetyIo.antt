-- ===== src/SafetyIo.antt =====
-- The safety I/O driver (catkin_ws/src/safety_io_driver): its Modbus/TCP client and its node.
pub mod Modbus
pub mod Socket
pub mod Node
pub mod Setup
pub mod Lock
pub mod Life
