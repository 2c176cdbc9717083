-- ===== src/Tests/Drives.antt =====
-- Simulated drives behind the motor controller (catkin_ws/src/motor_driver) at concrete inputs.
use ku_polishing_robot_drive.Base.{
  All, Bool-cases, List, [], arith, false, get_or, if◌then◌else◌, inl, inr, leb, ltb, neg, negsuc,
  pos, refl, some, true, ℕ, ℤ, ◌&&◌, ◌<◌, ◌==◌, ◌∷◌, ◌≡◌,
}
use ku_polishing_robot_drive.Motor.Enable.{
  third_step, second_step, reach, wait_for_state, enable_rounds, enable_node,
  switch_to_velocity_mode,
}
use ku_polishing_robot_drive.Motor.Cia402.{fault}
use ku_polishing_robot_drive.Motor.Cia402.{get_cia402_state, decide_state}
use ku_polishing_robot_drive.Motor.Enable.{
  reinit_node, reset_node, all_enabled, is_state, same_state, state_code, command_twice,
  clear_fault, change_motor_state, wait_for_state, reach, second_step,
}
use ku_polishing_robot_drive.Motor.Enable.{
  Bus, reset_motor, enable_motor, command_twice, enable_rounds, is_state, clear_fault, enable_node,
  reset_node,
}
use ku_polishing_robot_drive.Motor.Enable.Outcome.{
  drive_of, enable_motor-Enabled, reset_motor-undisturbed, Enabled,
}
use ku_polishing_robot_drive.Motor.Enable.Reaches.{enable_motor-enables, Obeys}
use ku_polishing_robot_drive.Motor.Velocity.Feedback.{IsSymmetric}
use ku_polishing_robot_drive.Motor.Velocity.{Speeds}
use ku_polishing_robot_drive.Motor.Controller.{MotorState, States}

-- a drive that follows each controlword at once; it is its statusword
abbrev follow : ℕ → ℕ → ℕ
follow controlword d =
    if controlword == 0x06
    then 0x21
    else if controlword == 0x07
    then 0x23
    else if controlword == 0x0F
    then 0x27
    else if controlword == 0x80
    then 0x40
    else d

abbrev drives : Bus ℕ
drives = record {
  send = λ frame d.
      if leb 0x200 frame.can_id && ltb frame.can_id 0x280
      then follow (get_or frame.payload 0 0) d
      else d;
  elapse = λ ms d. d;
  status = λ d. d;
  invalidate = λ d. 0;
  needs_reinit = λ d. false;
}

-- an enabled drive, one in a fault, one that has just started
abbrev three : List (ℕ × ℕ)
three = (1, 0x27) ∷ (2, 0x08) ∷ (3, 0x40) ∷ []

no_fault : is_state drives fault 0x40 ≡ false
unfolding is_state get_cia402_state decide_state same_state state_code
no_fault = refl

cleared :
    (node : ℕ) → node < 128 → (d : ℕ) → is_state drives fault (clear_fault drives node d) ≡ false
unfolding clear_fault change_motor_state
cleared node small d = elim (Bool-cases (is_state drives fault d)) [
  | inl faulty ↦ ground (arith, no_fault, faulty)
  | inr fine ↦ ground (arith, fine)
]

drives-Obeys : (node : ℕ) → node < 128 → Obeys drives node 0
unfolding command_twice clear_fault is_state get_cia402_state decide_state same_state state_code
    change_motor_state
drives-Obeys node small = record {
  shutdown_ready = λ d h. ground arith;
  switch_on_on = λ d h. ground arith;
  enable_enabled = λ d h. ground arith;
  reset_fault = cleared node small;
}

three-Obeys : All (λ n. Obeys drives n.0 0) three
three-Obeys = (
  drives-Obeys 1 (omega arith),
  (drives-Obeys 2 (omega arith), (drives-Obeys 3 (omega arith), tt)),
)

enable_motor-enables_example : (enable_motor drives three).1 ≡ true
enable_motor-enables_example = enable_motor-enables drives 0 three (omega arith) three-Obeys

three_reset : (reset_motor drives three).1 ≡ true
unfolding reset_motor enable_motor enable_rounds enable_node reset_node reinit_node all_enabled
    wait_for_state reach second_step third_step switch_to_velocity_mode command_twice clear_fault
    is_state get_cia402_state decide_state same_state state_code change_motor_state
three_reset = refl

enable_motor-Enabled_example :
    All (Enabled drives) (enable_motor drives three).0
    × All (Enabled drives) (reset_motor drives three).0
enable_motor-Enabled_example =
    enable_motor-Enabled drives three three
      (enable_motor-enables drives 0 three (omega arith) three-Obeys) three_reset

reset_motor-undisturbed_example : drive_of drives 1 (reset_motor drives three).0 ≡ some 0x27
unfolding drive_of is_state get_cia402_state decide_state same_state state_code
reset_motor-undisturbed_example = reset_motor-undisturbed drives 1 0x27 three refl refl refl

-- whole revolutions, of 10 increments for the test
abbrev pub tens : Speeds ℤ
tens = record {
  zero_speed = pos 0;
  negate = neg;
  to_pps = λ w. w;
  of_pps = λ z. z;
  of_pps_reversed = neg;
}

pub neg-neg : (z : ℤ) → neg (neg z) ≡ z
neg-neg (pos n) = ground arith
neg-neg (negsuc n) = ground arith

pub tens-IsSymmetric : IsSymmetric tens
tens-IsSymmetric = record {
  negate_negate = neg-neg;
  to_pps_negate = λ w. refl;
  of_pps_reversed_neg = neg-neg;
}

abbrev pub still : MotorState ℤ
still = record {
  voltage = 0;
  error_code = 0;
  status_flags = 0x27;
  current_raw = pos 0;
  last_alarm_code = 0;
  target_velocity = pos 0;
  feedback_velocity = pos 0;
  feedback_position = pos 0;
  last_feedback_time = 0;
  needs_reinit = false;
  reinit_suppress_until = 0;
}

abbrev pub both : States ℤ
both = (1, still) ∷ (2, still) ∷ []
