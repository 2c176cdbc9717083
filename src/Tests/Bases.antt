-- ===== src/Tests/Bases.antt =====
-- The base controller (catkin_ws/src/motor_driver/src/base_controller_node.cpp) with whole numbers
-- in place of floating-point ones.
use ku_polishing_robot_drive.Base.{
  [], arith, eqb_ℤ, false, ltb_ℤ, neg, negsuc, pos, refl, suc, true, zero, ℤ, ◌*◌, ◌+ℤ◌, ◌+◌, ◌/◌,
  ◌∷◌, ◌≡◌,
}
use ku_polishing_robot_drive.BaseController.{is_invalid, motor_rpm, effective, limited}
use ku_polishing_robot_drive.BaseController.{BaseState, Config, Numbers, control_timer, initial}
use ku_polishing_robot_drive.BaseController.Limits.{IsNumbers}

abbrev pub times : ℤ → ℤ → ℤ
times (pos a) (pos b) = pos (a * b)
times (pos a) (negsuc b) = neg (pos (a * (b + 1)))
times (negsuc a) (pos b) = neg (pos ((a + 1) * b))
times (negsuc a) (negsuc b) = pos ((a + 1) * (b + 1))

-- the quotient towards zero; 0 by a divisor that is not positive
abbrev pub quotient : ℤ → ℤ → ℤ
quotient (pos zero) b = pos 0
quotient (pos (suc a)) (pos b) = pos ((a + 1) / b)
quotient (negsuc a) (pos b) = neg (pos ((a + 1) / b))
quotient _ (negsuc b) = pos 0

abbrev pub whole : Numbers ℤ
whole = record {
  zero_r = pos 0;
  two = pos 2;
  add = ◌+ℤ◌;
  sub = λ a b. a +ℤ neg b;
  mul = times;
  div = quotient;
  negate = neg;
  less = ltb_ℤ;
  is_zero = λ a. eqb_ℤ a (pos 0);
  cos = λ a. pos 1;
  sin = λ a. pos 0;
  atan2 = λ a b. pos 0;
  single = λ a. a;
  seconds = λ n. pos (n / 1000000000);
  rad_to_rpm = pos 10;
  rpm_to_rad = pos 1;
}

pub whole-IsNumbers : IsNumbers whole
unfolding ◌+ℤ◌
whole-IsNumbers = record {
  zero_mul = times_zero;
  zero_div = λ a h. refl;
  two_positive = refl;
  zero_sub_zero = refl;
  zero_add_zero = refl;
  less_asym = λ a b h. ground arith;
  negate_less = λ a h. ground arith;
}
  where
    times_zero : (a : ℤ) → times (pos 0) a ≡ pos 0
    times_zero (pos n) = ground arith
    times_zero (negsuc n) = ground arith

abbrev pub config : Config ℤ
config = record {
  wheel_radius = pos 1;
  wheel_separation = pos 2;
  gear_ratio = pos 3;
  max_linear_vel = pos 5;
  max_angular_vel = pos 0;
  cmd_vel_timeout = 500;
  publish_tf = true;
  swap_lr = false;
}

abbrev pub moving : BaseState ℤ
moving = record (initial whole) { target_v = pos 9; target_w = pos 1; last_cmd_vel_time = 100 }

-- a fresh command is limited to 5
limited_command : control_timer whole config 600 moving ≡ pos 120 ∷ pos 180 ∷ []
unfolding control_timer initial is_invalid motor_rpm ◌+ℤ◌ effective limited
limited_command = refl
