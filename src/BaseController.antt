-- ===== src/BaseController.antt =====
-- The base controller: speeds of the robot to speeds of its wheels and back to odometry
-- (catkin_ws/src/motor_driver/src/base_controller_node.cpp). The floating-point operations are an
-- argument. Times are nanoseconds; a message has the order of publication.
pub mod Limits
pub mod Params
use ku_polishing_robot_drive.Base.{
  Bool, List, Option, [], false, if◌then◌else◌, leb, ltb, none, not, some, true, ℕ, ◌+◌, ◌-◌, ◌||◌,
  ◌∷◌,
}

-- `double`, with `static_cast<float>` as `single` and a number of nanoseconds in seconds
pub record Numbers (R : Type 0) : Type 0 where
  pub zero_r : R
  pub two : R
  pub add : R → R → R
  pub sub : R → R → R
  pub mul : R → R → R
  pub div : R → R → R
  pub negate : R → R
  pub less : R → R → Bool
  pub is_zero : R → Bool
  pub cos : R → R
  pub sin : R → R
  pub atan2 : R → R → R
  pub single : R → R
  pub seconds : ℕ → R
  pub rad_to_rpm : R
  pub rpm_to_rad : R

pub record Config (R : Type 0) : Type 0 where
  pub wheel_radius : R
  pub wheel_separation : R
  pub gear_ratio : R
  pub max_linear_vel : R
  pub max_angular_vel : R
  pub cmd_vel_timeout : ℕ
  pub publish_tf : Bool
  pub swap_lr : Bool

pub record BaseState (R : Type 0) : Type 0 where
  pub target_v : R
  pub target_w : R
  pub last_cmd_vel_time : ℕ
  pub x : R
  pub y : R
  pub theta : R
  pub odom_initialized : Bool
  pub last_odom_time : ℕ

-- `/odom`, and whether the same pose is sent as a transform
pub record Odometry (R : Type 0) : Type 0 where
  pub stamp : ℕ
  pub x : R
  pub y : R
  pub theta : R
  pub v : R
  pub w : R
  pub sends_tf : Bool

module _ {R : Type 0} (num : Numbers R) where
  unfoldable pub initial : BaseState R
  initial = record {
    target_v = num.zero_r;
    target_w = num.zero_r;
    last_cmd_vel_time = 0;
    x = num.zero_r;
    y = num.zero_r;
    theta = num.zero_r;
    odom_initialized = false;
    last_odom_time = 0;
  }

  unfoldable pub cmd_vel_callback : ℕ → R → R → BaseState R → BaseState R
  cmd_vel_callback now v w s = record s { target_v = v; target_w = w; last_cmd_vel_time = now }

  -- `std::min` and `std::max`
  abbrev pub min_r : R → R → R
  min_r a b = if num.less b a then b else a

  abbrev pub max_r : R → R → R
  max_r a b = if num.less a b then b else a

  -- a limit of 0 is off
  unfoldable pub limited : R → R → R
  limited limit v =
      if num.less num.zero_r limit then max_r (num.negate limit) (min_r v limit) else v

  -- a wheel's speed in revolutions of its motor
  unfoldable pub motor_rpm : Config R → R → R
  motor_rpm c v = num.mul (num.mul (num.div v c.wheel_radius) num.rad_to_rpm) c.gear_ratio

  -- `wheel_radius_ <= 0.0 || gear_ratio_ == 0.0`
  unfoldable pub is_invalid : Config R → Bool
  is_invalid c = not (num.less num.zero_r c.wheel_radius) || num.is_zero c.gear_ratio

  abbrev pub turn_of : Config R → R → R
  turn_of c w = num.div (num.mul w c.wheel_separation) num.two

  -- the speeds that the timer goes by
  unfoldable pub effective : Config R → ℕ → BaseState R → R × R
  effective c now s =
      let stale = ltb (s.last_cmd_vel_time + c.cmd_vel_timeout) now in
      (
        limited c.max_linear_vel (if stale then num.zero_r else s.target_v),
        limited c.max_angular_vel (if stale then num.zero_r else s.target_w),
      )

  -- `controlTimer`: the message on `/motor/cmd`
  unfoldable pub control_timer : Config R → ℕ → BaseState R → List R
  control_timer c now s =
      let (v, w) = effective c now s in
      let rpm_l = num.single (motor_rpm c (num.sub v (turn_of c w))) in
      let rpm_r = num.single (motor_rpm c (num.add v (turn_of c w))) in
      if is_invalid c
      then num.single num.zero_r ∷ num.single num.zero_r ∷ []
      else if c.swap_lr
      then rpm_r ∷ rpm_l ∷ []
      else rpm_l ∷ rpm_r ∷ []

  unfoldable pub wheel_speed : Config R → R → R
  wheel_speed c rpm = num.mul (num.mul (num.div rpm c.gear_ratio) num.rpm_to_rad) c.wheel_radius

  -- one step of the integration, and the message
  unfoldable pub integrate : Config R → ℕ → R → R → BaseState R → BaseState R × Option (Odometry R)
  integrate c now v w s =
      let dt = num.seconds (now - s.last_odom_time) in
      let dtheta = num.mul w dt in
      let theta_mid = num.add s.theta (num.div dtheta num.two) in
      let x' = num.add s.x (num.mul (num.mul v (num.cos theta_mid)) dt) in
      let y' = num.add s.y (num.mul (num.mul v (num.sin theta_mid)) dt) in
      let turned = num.add s.theta dtheta in
      let theta' = num.atan2 (num.sin turned) (num.cos turned) in
      (
        record s { x = x'; y = y'; theta = theta'; last_odom_time = now },
        some (record {
          stamp = now;
          x = x';
          y = y';
          theta = theta';
          v = v;
          w = w;
          sends_tf = c.publish_tf;
        }),
      )

  -- the first message only starts the clock, and time that does not go on is not integrated
  unfoldable pub update_odom :
      Config R → ℕ → R → R → BaseState R → BaseState R × Option (Odometry R)
  update_odom c now m_l m_r s =
      let v_l = wheel_speed c m_l in
      let v_r = wheel_speed c m_r in
      let v = num.div (num.add v_l v_r) num.two in
      let w = num.div (num.sub v_r v_l) c.wheel_separation in
      if not s.odom_initialized
      then (record s { last_odom_time = now; odom_initialized = true }, none)
      else if leb now s.last_odom_time
      then (record s { last_odom_time = now }, none)
      else integrate c now v w s

  -- `velocityCallback`
  unfoldable pub velocity_callback :
      Config R → ℕ → List R → BaseState R → BaseState R × Option (Odometry R)
  velocity_callback c now [] s = (s, none)
  velocity_callback c now (a ∷ []) s = (s, none)
  velocity_callback c now (a ∷ b ∷ rest) s =
      if is_invalid c
      then (s, none)
      else if c.swap_lr
      then update_odom c now b a s
      else update_odom c now a b s
