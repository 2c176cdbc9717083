-- ===== src/Crevis.antt =====
-- The Crevis I/O driver (catkin_ws/src/crevis_io_driver): its Modbus/TCP client and its node.
pub mod Modbus
pub mod Node
pub mod Wire
