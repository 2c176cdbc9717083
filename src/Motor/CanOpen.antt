-- ===== src/Motor/CanOpen.antt =====
-- The CANopen identifiers and NMT commands of
-- catkin_ws/src/motor_driver/include/motor_driver/motor_controller.hpp.
use ku_polishing_robot_drive.Base.{ℕ}

abbrev pub nmt_start_remote_node : ℕ
nmt_start_remote_node = 0x01

abbrev pub nmt_reset_communication : ℕ
nmt_reset_communication = 0x82

abbrev pub nmt_id : ℕ
nmt_id = 0x000

abbrev pub sync_id : ℕ
sync_id = 0x080

abbrev pub sdo_rx_id_base : ℕ
sdo_rx_id_base = 0x600

abbrev pub tpdo1_id_base : ℕ
tpdo1_id_base = 0x180

abbrev pub rpdo1_id_base : ℕ
rpdo1_id_base = 0x200

abbrev pub tpdo2_id_base : ℕ
tpdo2_id_base = 0x280

abbrev pub rpdo2_id_base : ℕ
rpdo2_id_base = 0x300

abbrev pub tpdo3_id_base : ℕ
tpdo3_id_base = 0x380

abbrev pub heartbeat_id_base : ℕ
heartbeat_id_base = 0x700
