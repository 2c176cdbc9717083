-- ===== src/Lift/Protocol/Pid.antt =====
-- The parameter ids of catkin_ws/src/lift_driver/src/lift_driver_node.cpp.
use ku_polishing_robot_drive.Base.{ℕ}

abbrev pub alarm_reset : ℕ
alarm_reset = 12

abbrev pub posi_reset : ℕ
posi_reset = 13

abbrev pub req_pid_data : ℕ
req_pid_data = 4

abbrev pub vel_cmd : ℕ
vel_cmd = 130

abbrev pub tar_posi_vel : ℕ
tar_posi_vel = 176

abbrev pub monitor : ℕ
monitor = 196

abbrev pub posi_data : ℕ
posi_data = 197

abbrev pub posi_cmd : ℕ
posi_cmd = 243

abbrev pub inc_posi_cmd : ℕ
inc_posi_cmd = 244
