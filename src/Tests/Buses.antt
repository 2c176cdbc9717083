-- ===== src/Tests/Buses.antt =====
-- The CAN interface and the frames to the drives (catkin_ws/src/can_interface,
-- catkin_ws/src/motor_driver) on concrete inputs.
use ku_polishing_robot_drive.Base.{
  List, [], get_or, if◌then◌else◌, length, refl, some, true, ◌&&◌, ◌==◌, ◌∷◌, ◌≡◌,
}
use ku_polishing_robot_drive.Motor.Mapping.Drives.{Drive}
use ku_polishing_robot_drive.Motor.Mapping.Dictionary.{download}
use ku_polishing_robot_drive.Motor.Mapping.{rpdo2}
use ku_polishing_robot_drive.Can.Frames.{
  Call, calls_of, opening, pointer, vector, closing, call, write, writing, raw,
}
use ku_polishing_robot_drive.Can.{
  new_interface, open_device, write_vector, write_frame, close_device, write_pointer,
}
use ku_polishing_robot_drive.Motor.Mapping.Configured.{configured, configured}
use ku_polishing_robot_drive.Motor.Mapping.Dictionary.{Pdo}
use ku_polishing_robot_drive.Motor.Mapping.{Mapping, rpdo2}

-- open, a write of two bytes, a write of nine bytes that is refused, a write by pointer, close
abbrev calls : List Call
calls =
    opening (record { socket = true; ioctl = true; bind = true })
    ∷ writing true (vector 0x0 (0x82 ∷ 1 ∷ []))
    ∷ writing true (vector 0x0 (1 ∷ 2 ∷ 3 ∷ 4 ∷ 5 ∷ 6 ∷ 7 ∷ 8 ∷ 9 ∷ []))
    ∷ writing true (pointer [] 0x80 (some (7 ∷ 8 ∷ 9 ∷ [])) 2)
    ∷ writing true (raw (record { can_id = 5; dlc = 1; payload = 3 ∷ [] }))
    ∷ closing
    ∷ []

three_frames : length (calls_of calls new_interface).written ≡ 3
unfolding calls_of call write open_device close_device write_vector write_pointer write_frame
three_frames = refl

-- a drive that holds another mapping, which is enabled
abbrev old : Mapping → Pdo
old m = record { cob_id = 0x181; transmission = 255; count = 1; objects = 0x60640020 ∷ [] }

-- what the reset of the communication puts in place: nothing is mapped, and it is enabled
abbrev default_pdo : Pdo
default_pdo = record { cob_id = 0x201; transmission = 254; count = 0; objects = [] }

-- the simulated drive of node 1: every object apart; a reset brings back the defaults
abbrev drive : Drive (Mapping → Pdo)
drive = record {
  accept = λ frame d m.
      if frame.can_id == 0 && get_or frame.payload 0 0 == 0x82
      then default_pdo
      else download 1 m.comm_index m.map_index (d m) frame;
  pdo = λ m d. d m;
}
