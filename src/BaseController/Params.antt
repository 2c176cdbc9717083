-- ===== src/BaseController/Params.antt =====
-- The parameters of `BaseController`
-- (catkin_ws/src/motor_driver/src/base_controller_node.cpp).
use ku_polishing_robot_drive.Base.{false, true}
use ku_polishing_robot_drive.ParamServer.{Doubles, Server, param}
use ku_polishing_robot_drive.BaseController.{Config}
use Prim.Native.String.{String}

pub record Settings (R : Type 0) : Type 0 where
  pub config : Config R
  pub odom_frame : String
  pub base_frame : String
  pub control_rate : R

module _ {R : Type 0} (f : Doubles R) (s : Server R) where
  unfoldable pub read_settings : Settings R
  read_settings = record {
    config = record {
      wheel_radius = param (s.double "wheel_radius") (f.decimal 1 1);
      wheel_separation = param (s.double "wheel_separation") (f.decimal 5 1);
      gear_ratio = param (s.double "gear_ratio") (f.decimal 1 0);
      max_linear_vel = param (s.double "max_linear_vel") (f.decimal 0 0);
      max_angular_vel = param (s.double "max_angular_vel") (f.decimal 0 0);
      cmd_vel_timeout = f.nanoseconds (param (s.double "cmd_vel_timeout") (f.decimal 5 1));
      publish_tf = param (s.truth "publish_tf") true;
      swap_lr = param (s.truth "swap_lr") false;
    };
    odom_frame = param (s.text "odom_frame") "odom";
    base_frame = param (s.text "base_frame") "base_link";
    control_rate = param (s.double "control_rate") (f.decimal 50 0);
  }
