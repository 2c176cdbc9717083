-- ===== src/Motor/Mapping.antt =====
-- The frames that `MotorController` writes to configure a drive: `setup_pdo_mapping` and
-- `configure_node` (catkin_ws/src/motor_driver/src/motor_controller.cpp).
pub mod Dictionary
pub mod Downloads
pub mod Configured
pub mod Drives
use ku_polishing_robot_drive.Base.{List, [], le32_bytes, length, u8, ℕ, ◌%◌, ◌++◌, ◌+◌, ◌/◌, ◌∷◌}
use ku_polishing_robot_drive.Motor.CanOpen.{
  nmt_id, nmt_reset_communication, nmt_start_remote_node, rpdo1_id_base, rpdo2_id_base,
  sdo_rx_id_base, tpdo1_id_base, tpdo2_id_base, tpdo3_id_base,
}
use ku_polishing_robot_drive.Can.{Frame}

-- SDO downloads of four bytes (0x23) and of one byte (0x2F)
unfoldable pub sdo4 : ℕ → ℕ → ℕ → ℕ → Frame
sdo4 node index sub value = record {
  can_id = sdo_rx_id_base + node;
  dlc = 8;
  payload = 0x23 ∷ index % 256 ∷ index / 256 % 256 ∷ sub ∷ le32_bytes value;
}

unfoldable pub sdo1 : ℕ → ℕ → ℕ → ℕ → Frame
sdo1 node index sub value = record {
  can_id = sdo_rx_id_base + node;
  dlc = 8;
  payload = 0x2F ∷ index % 256 ∷ index / 256 % 256 ∷ sub ∷ value ∷ 0 ∷ 0 ∷ 0 ∷ [];
}

-- the loop over the mapped objects, with `sub_index` of 8 bits
unfoldable pub map_objects : ℕ → ℕ → ℕ → List ℕ → List Frame
map_objects node map_index sub [] = []
map_objects node map_index sub (o ∷ os) =
    sdo4 node map_index sub o ∷ map_objects node map_index (u8 (sub + 1)) os

unfoldable pub setup_pdo_mapping : ℕ → ℕ → ℕ → ℕ → List ℕ → List Frame
setup_pdo_mapping node comm_index map_index cob_base objects =
    sdo4 node comm_index 1 (0x80000000 + (cob_base + node))
    ∷ sdo1 node comm_index 2 1
    ∷ sdo1 node map_index 0 0
    ∷ (map_objects node map_index 1 objects
        ++ (sdo1 node map_index 0 (u8 (length objects))
            ∷ sdo4 node comm_index 1 (cob_base + node)
            ∷ []))

abbrev pub nmt : ℕ → ℕ → Frame
nmt command node = record { can_id = nmt_id; dlc = 2; payload = command ∷ node ∷ [] }

-- a call of `setup_pdo_mapping`
pub record Mapping : Type 0 where
  pub comm_index : ℕ
  pub map_index : ℕ
  pub cob_base : ℕ
  pub objects : List ℕ

-- the five calls of `configure_node`: RPDO1, RPDO2, TPDO1, TPDO2, TPDO3
abbrev pub rpdo1 : Mapping
rpdo1 = record {
  comm_index = 0x1400;
  map_index = 0x1600;
  cob_base = rpdo1_id_base;
  objects = 0x60400010 ∷ 0x60600008 ∷ [];
}

abbrev pub rpdo2 : Mapping
rpdo2 = record {
  comm_index = 0x1401;
  map_index = 0x1601;
  cob_base = rpdo2_id_base;
  objects = 0x60FF0020 ∷ [];
}

abbrev pub tpdo1 : Mapping
tpdo1 = record {
  comm_index = 0x1800;
  map_index = 0x1A00;
  cob_base = tpdo1_id_base;
  objects = 0x60410010 ∷ 0x60610008 ∷ [];
}

abbrev pub tpdo2 : Mapping
tpdo2 = record {
  comm_index = 0x1801;
  map_index = 0x1A01;
  cob_base = tpdo2_id_base;
  objects = 0x606C0020 ∷ 0x60640020 ∷ [];
}

abbrev pub tpdo3 : Mapping
tpdo3 = record {
  comm_index = 0x1802;
  map_index = 0x1A02;
  cob_base = tpdo3_id_base;
  objects = 0x60790010 ∷ 0x60780010 ∷ 0x26010010 ∷ 0x26020010 ∷ [];
}

unfoldable pub mapping_frames : ℕ → List Mapping → List Frame
mapping_frames node [] = []
mapping_frames node (m ∷ ms) =
    setup_pdo_mapping node m.comm_index m.map_index m.cob_base m.objects ++ mapping_frames node ms

-- what `configure_node` writes
unfoldable pub configure_frames : ℕ → List Frame
configure_frames node =
    nmt nmt_reset_communication node
    ∷ (mapping_frames node (rpdo1 ∷ rpdo2 ∷ tpdo1 ∷ tpdo2 ∷ tpdo3 ∷ [])
        ++ nmt nmt_start_remote_node node ∷ [])
