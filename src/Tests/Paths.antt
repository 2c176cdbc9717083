-- ===== src/Tests/Paths.antt =====
-- The drive train from `/cmd_vel` to the odometry at concrete speeds.
use ku_polishing_robot_drive.Base.{[], ap, arith, false, neg, pos, refl, true, ℤ, ◌+ℤ◌, ◌∷◌, ◌≡◌}
use ku_polishing_robot_drive.CommandPath.{Report}
use ku_polishing_robot_drive.CommandPath.Measured.{IsOdd}
use ku_polishing_robot_drive.CommandPath.Odometry.{through, velocity_callback-through}
use ku_polishing_robot_drive.BaseController.{
  Config, control_timer, effective, initial, is_invalid, limited, motor_rpm, update_odom,
  velocity_callback,
}
use ku_polishing_robot_drive.Motor.Controller.{find_state}
use ku_polishing_robot_drive.CommandPath.Stopped.{Rests, control_timer-sync_round}
use ku_polishing_robot_drive.Motor.Node.{cmd_callback}
use ku_polishing_robot_drive.Motor.Velocity.{sync_frame, sync_round, velocity_frame}
use ku_polishing_robot_drive.Tests.Bases.{moving, whole, whole-IsNumbers}
use ku_polishing_robot_drive.Tests.Bases.{config as base}
use ku_polishing_robot_drive.Tests.Drives.{both, still, tens, tens-IsSymmetric}
use ku_polishing_robot_drive.Tests.Nodes.{config, driving}

tens-IsOdd : IsOdd tens
tens-IsOdd = record { symmetric = tens-IsSymmetric; of_pps_neg = λ z. refl }

-- left and right are exchanged, and motor 2 is directed the other way round
abbrev crossed : Config ℤ
crossed = record base { swap_lr = true }

abbrev first : Report
first = record { node = 1; position = 0 ∷ 0 ∷ 0 ∷ 0 ∷ []; now = 600 }

abbrev second : Report
second = record { node = 2; position = 5 ∷ 0 ∷ 0 ∷ 0 ∷ []; now = 601 }

velocity_callback-through_example :
    velocity_callback whole crossed 700
      (through whole tens config 600 driving first second
        (control_timer whole crossed 600 moving)
        both)
      moving
    ≡ update_odom whole crossed 700 (pos 120) (pos 180) moving
unfolding effective limited motor_rpm initial is_invalid find_state ◌+ℤ◌
velocity_callback-through_example =
    velocity_callback-through whole tens crossed config 600 700 moving moving driving first second
      false true both still still tens-IsOdd refl refl refl (omega arith) (omega arith)
      (omega arith) ((omega arith, omega arith), (omega arith, omega arith))
      ((omega arith, omega arith), (omega arith, omega arith)) refl refl

rests_zero : (w : ℤ) → tens.to_pps w ≡ pos 0 → tens.to_pps (tens.negate w) ≡ pos 0
rests_zero w e = ap neg e

tens-Rests : Rests whole tens
tens-Rests = record { nothing = refl; single_zero = refl; negated = rests_zero }

control_timer-sync_round_example :
    sync_round tens
      (1 ∷ 2 ∷ [])
      (cmd_callback tens config 602 (control_timer whole crossed 601 moving) driving both).1
    ≡ velocity_frame 1 (pos 0) ∷ velocity_frame 2 (pos 0) ∷ sync_frame ∷ []
control_timer-sync_round_example =
    control_timer-sync_round whole tens tens-Rests whole-IsNumbers crossed config 601 602 moving
      driving 1 2 false true both (omega arith) refl refl
