-- ===== src/CommandPath/Odometry.antt =====
-- The odometry of drives that move as commanded (catkin_ws/src/motor_driver).
use ku_polishing_robot_drive.Base.{
  Bool, List, [], ap, arith, false, if◌then◌else◌, refl, some, true, ℕ, ◌<◌, ◌∙◌, ◌∷◌, ◌≡◌, ◌≢◌,
}
use ku_polishing_robot_drive.CommandPath.{Report, echo_all, rounded}
use ku_polishing_robot_drive.CommandPath.Measured.{Fits, IsOdd, velocities-echo}
use ku_polishing_robot_drive.BaseController.{
  BaseState, Config as BaseConfig, Numbers, control_timer, effective, is_invalid, motor_rpm,
  turn_of, update_odom, velocity_callback,
}
use ku_polishing_robot_drive.Motor.Node.{Config, Node, cmd_callback, velocities}
use ku_polishing_robot_drive.Motor.Velocity.{Speeds, sync_round}
use ku_polishing_robot_drive.Motor.Controller.{MotorState, States, find_state}

module _ {R : Type 0} (num : Numbers R) (speeds : Speeds R) where
  -- the speeds of the two motors that the timer aims at
  abbrev pub rpm_left : BaseConfig R → ℕ → BaseState R → R
  rpm_left bc now s =
      let (v, w) = effective num bc now s in
      num.single (motor_rpm num bc (num.sub v (turn_of num bc w)))

  abbrev pub rpm_right : BaseConfig R → ℕ → BaseState R → R
  rpm_right bc now s =
      let (v, w) = effective num bc now s in
      num.single (motor_rpm num bc (num.add v (turn_of num bc w)))

  control_timer-swap :
      (bc : BaseConfig R) (now : ℕ) (s : BaseState R)
      → is_invalid num bc ≡ false
      → control_timer num bc now s ≡ (
          if bc.swap_lr
          then rpm_right bc now s ∷ rpm_left bc now s ∷ []
          else rpm_left bc now s ∷ rpm_right bc now s ∷ [])
  unfolding control_timer
  control_timer-swap bc now s good = rw good refl

  velocity_callback-swap :
      (bc : BaseConfig R) (now : ℕ) (l r : R) (s : BaseState R)
      → is_invalid num bc ≡ false
      → velocity_callback num bc now (if bc.swap_lr then r ∷ l ∷ [] else l ∷ r ∷ []) s
        ≡ update_odom num bc now l r s
  unfolding velocity_callback
  velocity_callback-swap bc now l r s good = ground arith

  -- What the drive train does between `/motor/cmd` and `/motor/velocity`: the node's callback, one
  -- round of `sync_loop`, the reports of both drives, the node's message.
  abbrev pub through : Config → ℕ → Node → Report → Report → List R → States R → List R
  through c now n a b cmd states =
      let commanded = (cmd_callback speeds c now cmd n states).1 in
      velocities speeds c.motors (
        echo_all speeds (a ∷ b ∷ []) (sync_round speeds (a.node ∷ b.node ∷ []) commanded) commanded)

  through-rounded :
      (swap : Bool) (c : Config) (now : ℕ) (n : Node) (a b : Report) (da db : Bool) (l r : R)
      (states : States R) (ma mb : MotorState R)
      → IsOdd speeds
      → c.motors ≡ (a.node, da) ∷ (b.node, db) ∷ []
      → n.motors_enabled ≡ true
      → a.node < 128
      → b.node < 128
      → a.node ≢ b.node
      → Fits speeds l
      → Fits speeds r
      → find_state a.node states ≡ some ma
      → find_state b.node states ≡ some mb
      → through c now n a b (if swap then r ∷ l ∷ [] else l ∷ r ∷ []) states ≡ (
          if swap
          then rounded speeds r ∷ rounded speeds l ∷ []
          else rounded speeds l ∷ rounded speeds r ∷ [])
  unfolding cmd_callback
  through-rounded false c now n a b da db l r states ma mb laws pair on sa sb apart fl fr ha hb =
      rw (pair, on) (velocities-echo speeds a b da db l r states ma mb laws sa sb apart fl fr ha hb)
  through-rounded true c now n a b da db l r states ma mb laws pair on sa sb apart fl fr ha hb =
      rw (pair, on) (velocities-echo speeds a b da db r l states ma mb laws sa sb apart fr fl ha hb)

  -- If both drives move exactly as their frames say, the odometry goes by the left and right speeds
  -- that the timer aimed at, each rounded to what a frame can carry: whatever the exchange of left and
  -- right, the directions, the ids and the mounting of the motors are, every inversion is taken back.
  -- The motors are enabled, both have states, and the parameters are valid.
  pub velocity_callback-through :
      (bc : BaseConfig R) (c : Config) (now later : ℕ) (s t : BaseState R) (n : Node) (a b : Report)
      (da db : Bool) (states : States R) (ma mb : MotorState R)
      → IsOdd speeds
      → is_invalid num bc ≡ false
      → c.motors ≡ (a.node, da) ∷ (b.node, db) ∷ []
      → n.motors_enabled ≡ true
      → a.node < 128
      → b.node < 128
      → a.node ≢ b.node
      → Fits speeds (rpm_left bc now s)
      → Fits speeds (rpm_right bc now s)
      → find_state a.node states ≡ some ma
      → find_state b.node states ≡ some mb
      → velocity_callback num bc later (through c now n a b (control_timer num bc now s) states) t
        ≡ update_odom num bc later
            (rounded speeds (rpm_left bc now s))
            (rounded speeds (rpm_right bc now s))
            t
  velocity_callback-through bc c now later s t n a b da db states ma mb laws good pair on sa sb
        apart fl fr ha hb =
      let l : R = rpm_left bc now s in
      let r : R = rpm_right bc now s in
      ap (λ (cmd : List R). velocity_callback num bc later (through c now n a b cmd states) t)
        (control_timer-swap bc now s good)
      ∙ ap (λ (vs : List R). velocity_callback num bc later vs t)
          (through-rounded bc.swap_lr c now n a b da db l r states ma mb laws pair on sa sb apart fl
            fr ha hb)
      ∙ velocity_callback-swap bc later (rounded speeds l) (rounded speeds r) t good
