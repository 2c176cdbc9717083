-- ===== src/Motor/Mapping/Drives.antt =====
-- Any drive that keeps to CiA 301 and receives the frames of `configure_node`
-- (catkin_ws/src/motor_driver/src/motor_controller.cpp). It takes the frames one after the other; the
-- waits between them, in which a drive that was reset gets ready again, are left out.
use ku_polishing_robot_drive.Base.{List, [], ℕ, ◌+◌, ◌∷◌, ◌≡◌, ◌⊎◌}
use ku_polishing_robot_drive.Motor.Mapping.Dictionary.{Pdo, download}
use ku_polishing_robot_drive.Motor.Mapping.{Mapping, nmt, sdo_rx_id_base, nmt_start_remote_node}
use ku_polishing_robot_drive.Can.{Frame}

-- What a drive does with a frame, and its process data objects.
pub record Drive (D : Type 0) : Type 0 where
  pub accept : Frame → D → D
  pub pdo : Mapping → D → Pdo

-- The frames after which CiA 301 says what a drive holds: a write to an object of the node, and the
-- start of the node. Not the reset of its communication, which may put anything in place of its objects.
abbrev pub IsSettled : ℕ → Frame → Type 0
IsSettled node frame =
    (frame.can_id ≡ sdo_rx_id_base + node) ⊎ (frame ≡ nmt nmt_start_remote_node node)

module _ {D : Type 0} (drive : Drive D) where
  -- A write to an object of the node sets it, a mapping only while its object is disabled and empty;
  -- the start of the node leaves the objects. What any other frame does is left open.
  abbrev pub KeepsToCia301 : ℕ → Type 0
  KeepsToCia301 node =
      (m : Mapping) (frame : Frame) (d : D)
      → IsSettled node frame
      → drive.pdo m (drive.accept frame d)
        ≡ download node m.comm_index m.map_index (drive.pdo m d) frame

  abbrev pub accept_all : List Frame → D → D
  accept_all [] d = d
  accept_all (frame ∷ frames) d = accept_all frames (drive.accept frame d)
