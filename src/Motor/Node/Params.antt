-- ===== src/Motor/Node/Params.antt =====
-- The parameters of `MotorDriverNode`
-- (catkin_ws/src/motor_driver/src/motor_driver_node.cpp).
use ku_polishing_robot_drive.Base.{false, map, ℕ}
use mathlib.Core.Option
use ku_polishing_robot_drive.ParamServer.{Doubles, Server, byte_of, param}
use ku_polishing_robot_drive.Motor.Node.{Config, load_motors}
use Prim.Native.String.{String}

pub record Settings (R : Type 0) : Type 0 where
  pub config : Config
  pub can_device : String
  pub control_frequency : R

unfoldable pub read_settings : {R : Type 0} → Doubles R → Server R → Settings R
read_settings f s =
    let limit : String → ℕ → ℕ → ℕ =
      λ name m e. f.nanoseconds (param (s.double name) (f.decimal m e)) in
    record {
      config = record {
        motors =
            load_motors (Option.map (map byte_of) (s.integers "drive_motor_ids"))
              (s.integers "motor_directions");
        cmd_timeout = limit "cmd_timeout_sec" 1 0;
        feedback_timeout = limit "feedback_timeout_sec" 5 1;
        reinit_feedback_loss = limit "reinit_feedback_loss_sec" 3 0;
        fault_reset_interval = limit "fault_reset_interval_sec" 2 0;
        require_traction_enable = param (s.truth "require_traction_enable") false;
        use_brake_interlock = param (s.truth "use_brake_interlock") false;
      };
      can_device = param (s.text "can_device") "can0";
      control_frequency = param (s.double "control_frequency") (f.decimal 50 0);
    }
