-- ===== src/CommandPath.antt =====
-- How the nodes of the drive train work together (catkin_ws/src/motor_driver): `/motor/cmd` of the
-- base controller goes through the motor driver node and the controller to the bus, and what the
-- drives report comes back on `/motor/velocity` to the odometry.
pub mod Measured
pub mod Odometry
pub mod Stopped
use ku_polishing_robot_drive.Base.{List, [], ℕ, ◌∷◌}
use ku_polishing_robot_drive.Can.{Frame as CanFrame}
use ku_polishing_robot_drive.Motor.Controller.{States, can_callback}
use ku_polishing_robot_drive.Motor.Velocity.Feedback.{echo}
use ku_polishing_robot_drive.Motor.Velocity.{Speeds}

-- A drive that reports the speed that it was sent, at some position and some time.
pub record Report : Type 0 where
  pub node : ℕ
  pub position : List ℕ
  pub now : ℕ

module _ {W : Type 0} (speeds : Speeds W) where
  -- The frames of a round of `sync_loop`, each taken up and reported back by its drive.
  abbrev pub echo_all : List Report → List CanFrame → States W → States W
  echo_all [] frames states = states
  echo_all (d ∷ ds) [] states = states
  echo_all (d ∷ ds) (frame ∷ frames) states =
      echo_all ds frames (can_callback d.now (echo speeds d.node frame d.position) states)

  -- a speed as far as a frame can carry it
  abbrev pub rounded : W → W
  rounded w = speeds.of_pps (speeds.to_pps w)
