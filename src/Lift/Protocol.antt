-- ===== src/Lift/Protocol.antt =====
-- The MDROBOT RS485 frames of catkin_ws/src/lift_driver/src/lift_driver_node.cpp: parameter ids,
-- the byte layout that `sendFrame` writes, and the reading of little-endian fields.
-- A frame is `RMID TMID ID PID DataNum DATA.. CHK`; bytes are numbers below 256.
pub mod Pid
pub mod Frames
pub mod Fields
use ku_polishing_robot_drive.Base.{
  List, [], get_or, le16_bytes, le32_bytes, length, signed16, signed32, to_u16, to_u32, u8, ℕ, ℤ,
  ◌*◌, ◌++◌, ◌+◌, ◌-◌, ◌∷◌,
}

-- `motor_rmid_`, `host_mid_`, `ctrl_id_`
pub record Ids : Type 0 where
  pub motor_rmid : ℕ
  pub host_mid : ℕ
  pub ctrl_id : ℕ

-- `b[0] | (b[1] << 8)` over bytes, where `|` of disjoint bits is a sum
unfoldable pub le16 : List ℕ → ℤ
le16 b = signed16 (get_or b 0 0 + get_or b 1 0 * 256)

unfoldable pub le32 : List ℕ → ℤ
le32 b =
    signed32 (get_or b 0 0 + get_or b 1 0 * 256 + get_or b 2 0 * 65536 + get_or b 3 0 * 16777216)

-- `for (uint8_t b : f) sum = static_cast<uint8_t>(sum + b);`
unfoldable pub sum_bytes : ℕ → List ℕ → ℕ
sum_bytes sum [] = sum
sum_bytes sum (b ∷ bs) = sum_bytes (u8 (sum + b)) bs

-- `static_cast<uint8_t>(-static_cast<int>(sum))` of a byte
unfoldable pub checksum : ℕ → ℕ
checksum sum = u8 (256 - sum)

-- the frame without its checksum
unfoldable pub frame_body : Ids → ℕ → List ℕ → List ℕ
frame_body ids pid bytes =
    ids.motor_rmid ∷ ids.host_mid ∷ ids.ctrl_id ∷ pid ∷ u8 (length bytes) ∷ bytes

-- the bytes that `sendFrame` hands to the serial port
unfoldable pub frame : Ids → ℕ → List ℕ → List ℕ
unfolding frame_body sum_bytes checksum
frame ids pid bytes =
    frame_body ids pid bytes ++ checksum (sum_bytes 0 (frame_body ids pid bytes)) ∷ []

-- What the driver sends, one constructor for each `send...` function: `sendVelocity`,
-- `sendPosition`, `sendIncPosition`, `sendPositionVel`, `sendPositionReset`, `sendAlarmReset` and
-- `requestMonitor`.
pub data Command : Type 0 where
  velocity position inc_position : ℤ → Command
  position_vel : ℕ → Command
  position_reset alarm_reset monitor : Command

-- the pid and the data of a command
unfoldable pub command_pid : Command → ℕ
command_pid (velocity rpm) = Pid.vel_cmd
command_pid (position counts) = Pid.posi_cmd
command_pid (inc_position counts) = Pid.inc_posi_cmd
command_pid (position_vel rpm) = Pid.tar_posi_vel
command_pid position_reset = Pid.posi_reset
command_pid alarm_reset = Pid.alarm_reset
command_pid monitor = Pid.req_pid_data

unfoldable pub command_data : Command → List ℕ
command_data (velocity rpm) = le16_bytes (to_u16 rpm)
command_data (position counts) = le32_bytes (to_u32 counts)
command_data (inc_position counts) = le32_bytes (to_u32 counts)
command_data (position_vel rpm) = le16_bytes rpm
command_data position_reset = 0 ∷ []
command_data alarm_reset = 0 ∷ []
command_data monitor = Pid.monitor ∷ []

unfoldable pub encode : Ids → Command → List ℕ
unfolding frame command_pid command_data
encode ids command = frame ids (command_pid command) (command_data command)
