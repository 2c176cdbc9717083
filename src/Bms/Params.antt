-- ===== src/Bms/Params.antt =====
-- The parameters of `BmsDriver` (catkin_ws/src/bms_driver/src/bms_driver_node.cpp).
use ku_polishing_robot_drive.Base.{pos}
use ku_polishing_robot_drive.ParamServer.{Doubles, Server, byte_of, param}
use ku_polishing_robot_drive.Bms.{Config}
use Prim.Native.String.{String}

pub record Settings (R : Type 0) : Type 0 where
  pub config : Config
  pub can_device : String
  pub frame_id : String
  pub poll_rate : R
  pub publish_rate : R
  pub design_capacity : R

unfoldable pub read_settings : {R : Type 0} → Doubles R → Server R → Settings R
read_settings f s = record {
  config = record {
    bms_addr = byte_of (param (s.integer "bms_addr") (pos 1));
    host_addr = byte_of (param (s.integer "host_addr") (pos 64));
    timeout = f.nanoseconds (param (s.double "timeout_sec") (f.decimal 3 0));
  };
  can_device = param (s.text "can_device") "can1";
  frame_id = param (s.text "frame_id") "bms";
  poll_rate = param (s.double "poll_rate") (f.decimal 2 0);
  publish_rate = param (s.double "publish_rate") (f.decimal 2 0);
  design_capacity = param (s.double "design_capacity") (f.decimal 0 0);
}
