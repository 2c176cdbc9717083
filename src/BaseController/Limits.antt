-- ===== src/BaseController/Limits.antt =====
-- Limits and the stop on stale commands
-- (catkin_ws/src/motor_driver/src/base_controller_node.cpp).
use ku_polishing_robot_drive.Base.{
  Bool-cases, [], arith, false, if◌then◌else◌, inl, inr, lt→ltb, refl, true, ℕ, ◌+◌, ◌<◌, ◌∷◌, ◌≡◌,
}
use mathlib.Core.Bool.{Bool}
use ku_polishing_robot_drive.BaseController.{
  BaseState, Config, Numbers, control_timer, effective, is_invalid, limited, motor_rpm, turn_of,
}

-- What IEEE arithmetic gives for finite numbers, with the two zeros taken as equal.
pub record IsNumbers {R : Type 0} (num : Numbers R) : Type 0 where
  pub zero_mul : (a : R) → num.mul num.zero_r a ≡ num.zero_r
  pub zero_div : (a : R) → num.less num.zero_r a ≡ true → num.div num.zero_r a ≡ num.zero_r
  pub two_positive : num.less num.zero_r num.two ≡ true
  pub zero_sub_zero : num.sub num.zero_r num.zero_r ≡ num.zero_r
  pub zero_add_zero : num.add num.zero_r num.zero_r ≡ num.zero_r
  pub less_asym : (a b : R) → num.less a b ≡ true → num.less b a ≡ false
  pub negate_less :
      (a : R) → num.less num.zero_r a ≡ true → num.less (num.negate a) num.zero_r ≡ true

if-same : {A : Type 0} (b : Bool) (x : A) → (if b then x else x) ≡ x
if-same true x = refl
if-same false x = refl

module _ {R : Type 0} (num : Numbers R) (laws : IsNumbers num) where
  limited-zero : (limit : R) → limited num limit num.zero_r ≡ num.zero_r
  unfolding limited
  limited-zero limit = ground (arith, laws.less_asym num.zero_r limit, laws.negate_less limit)

  effective-stale :
      (c : Config R) (now : ℕ) (s : BaseState R)
      → s.last_cmd_vel_time + c.cmd_vel_timeout < now
      → effective num c now s ≡ (num.zero_r, num.zero_r)
  unfolding effective
  effective-stale c now s late = rw (
    lt→ltb (s.last_cmd_vel_time + c.cmd_vel_timeout) now late,
    limited-zero c.max_linear_vel,
    limited-zero c.max_angular_vel,
  )

  motor_rpm-zero :
      (c : Config R)
      → num.less num.zero_r c.wheel_radius ≡ true
      → motor_rpm num c num.zero_r ≡ num.zero_r
  unfolding motor_rpm
  motor_rpm-zero c round = rw (
    motor_rpm,
    laws.zero_div c.wheel_radius round,
    laws.zero_mul num.rad_to_rpm,
    laws.zero_mul c.gear_ratio,
  )

  -- no speed and no turn is no speed of either wheel
  motor_rpm-still :
      (c : Config R)
      → num.less num.zero_r c.wheel_radius ≡ true
      → (motor_rpm num c (num.sub num.zero_r (turn_of num c num.zero_r)) ≡ num.zero_r)
        × (motor_rpm num c (num.add num.zero_r (turn_of num c num.zero_r)) ≡ num.zero_r)
  motor_rpm-still c round =
      let turn : turn_of num c num.zero_r ≡ num.zero_r =
        rw (turn_of, laws.zero_mul c.wheel_separation, laws.zero_div num.two laws.two_positive) in
      (
        rw (turn, laws.zero_sub_zero) (motor_rpm-zero c round),
        rw (turn, laws.zero_add_zero) (motor_rpm-zero c round),
      )

  -- Where the last `/cmd_vel` is older than its timeout, both motors are commanded 0, whatever the
  -- last command and the parameters are.
  pub control_timer-stale :
      (c : Config R) (now : ℕ) (s : BaseState R)
      → s.last_cmd_vel_time + c.cmd_vel_timeout < now
      → control_timer num c now s ≡ num.single num.zero_r ∷ num.single num.zero_r ∷ []
  unfolding control_timer is_invalid
  control_timer-stale c now s late =
      rw (effective-stale c now s late) (elim (Bool-cases (num.less num.zero_r c.wheel_radius)) [
        | inl round ↦
            let (left, right) = motor_rpm-still c round in
            rw (left, right, round)
              (ground (arith, if-same (num.is_zero c.gear_ratio), if-same c.swap_lr))
        | inr flat ↦ rw flat
      ])
