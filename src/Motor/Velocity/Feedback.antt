-- ===== src/Motor/Velocity/Feedback.antt =====
-- Commanded and measured speeds have the same sign convention
-- (catkin_ws/src/motor_driver/src/motor_controller.cpp).
use ku_polishing_robot_drive.Base.{
  ==_iff, IsInt32, List, ap, arith, false, if◌then◌else◌, neg, refl, signed32, signed32-to_u32,
  some, to_u32, to_u32-lt, ℕ, ℤ, ◌%◌, ◌*◌, ◌++◌, ◌+◌, ◌/◌, ◌<◌, ◌==◌, ◌∙◌, ◌≡◌,
}
use ku_polishing_robot_drive.Motor.Controller.Callback.{
  find_state-can_callback, find_state-update_state,
}
use ku_polishing_robot_drive.Motor.Controller.{
  Frame, MotorState, States, can_callback, code_of, field32, find_state, node_of, frame_effect,
  take_tpdo2,
}
use ku_polishing_robot_drive.Motor.Velocity.{
  Speeds, get_feedback_velocity, set_target_velocity, target_frame, velocity_frame,
}
use ku_polishing_robot_drive.Can.{Frame as CanFrame}

-- What IEEE arithmetic gives: a product and a quotient change their sign with one of their operands,
-- and so does the truncation of a product.
pub record IsSymmetric {W : Type 0} (speeds : Speeds W) : Type 0 where
  pub negate_negate : (w : W) → speeds.negate (speeds.negate w) ≡ w
  pub to_pps_negate : (w : W) → speeds.to_pps (speeds.negate w) ≡ neg (speeds.to_pps w)
  pub of_pps_reversed_neg : (z : ℤ) → speeds.of_pps_reversed (neg z) ≡ speeds.of_pps z

module _ {W : Type 0} (speeds : Speeds W) where
  -- TPDO2 of a drive that moves as the frame commands, at some position.
  abbrev pub echo : ℕ → CanFrame → List ℕ → Frame
  echo node command position = record {
    can_id = 0x280 + node;
    dlc = 8;
    payload = command.payload ++ position;
  }

  -- The frame that an echo is made of carries the value, whatever bytes follow.
  field32-velocity_frame :
      (node : ℕ) (z : ℤ) (position : List ℕ)
      → IsInt32 z
      → signed32 (field32 ((velocity_frame node z).payload ++ position) 0) ≡ z
  unfolding velocity_frame
  field32-velocity_frame node z position h =
      let e : to_u32 z % 256
            + to_u32 z / 256 % 256 * 256
            + (to_u32 z / 65536 % 256 + to_u32 z / 16777216 % 256 * 256) * 65536
          ≡ to_u32 z =
        omega (arith, to_u32-lt z) in
      ap signed32 e ∙ signed32-to_u32 z h

  pub find_state-set_target_velocity :
      (node : ℕ) (rpm : W) (states : States W) (m : MotorState W)
      → find_state node states ≡ some m
      → find_state node (set_target_velocity speeds node rpm states)
        ≡ some (record m { target_velocity = if node == 2 then speeds.negate rpm else rpm })
  unfolding set_target_velocity
  find_state-set_target_velocity node rpm states m h =
      rw
        (
          find_state-update_state node node
              (λ (t : MotorState W). record t {
                target_velocity = if node == 2 then speeds.negate rpm else rpm;
              })
              states,
          (==_iff node node).1 refl,
          h,
        )
        refl

  pub target_frame-found :
      (node : ℕ) (states : States W) (m : MotorState W)
      → find_state node states ≡ some m
      → target_frame speeds node states ≡ velocity_frame node (speeds.to_pps m.target_velocity)
  unfolding target_frame
  target_frame-found node states m h = rw (h, target_frame) refl

  -- What a node is sent depends on its own state only.
  pub target_frame-same :
      (node : ℕ) (a b : States W)
      → find_state node a ≡ find_state node b
      → target_frame speeds node a ≡ target_frame speeds node b
  unfolding target_frame
  target_frame-same node a b e = rw (e, target_frame) refl

  pub find_state-other :
      (other node : ℕ) (w : W) (states : States W)
      → (node == other) ≡ false
      → find_state other (set_target_velocity speeds node w states) ≡ find_state other states
  unfolding set_target_velocity
  find_state-other other node w states e = find_state-update_state node other _ states ∙ simp e refl

  frame_effect-velocity :
      (now : ℕ) (frame : Frame) (m : MotorState W)
      → frame.dlc ≡ 8
      → (frame_effect now 0x280 frame m).feedback_velocity ≡ signed32 (field32 frame.payload 0)
  unfolding frame_effect take_tpdo2
  frame_effect-velocity now frame m size = ground arith

  pub find_state-echo :
      (now node : ℕ) (command : CanFrame) (position : List ℕ) (states : States W) (m : MotorState W)
      → node < 128
      → find_state node states ≡ some m
      → find_state node (can_callback now (echo node command position) states)
        ≡ some (frame_effect now 0x280 (echo node command position) m)
  find_state-echo now node command position states m small h =
      let frame : Frame = echo node command position in
      let id : node_of frame ≡ node = omega arith in
      let code : code_of frame ≡ 0x280 = omega arith in
      find_state-can_callback now frame states node
      ∙ (rw (id, code, h, (==_iff node node).1 refl) refl)

  get_feedback_velocity-found :
      (node : ℕ) (states : States W) (m : MotorState W)
      → find_state node states ≡ some m
      → get_feedback_velocity speeds node states ≡ (
          if node == 2
          then speeds.of_pps_reversed m.feedback_velocity
          else speeds.of_pps m.feedback_velocity)
  unfolding get_feedback_velocity
  get_feedback_velocity-found node states m h = rw (h, get_feedback_velocity) refl

  pub feedback-echo :
      (now node : ℕ) (z : ℤ) (position : List ℕ) (states : States W) (m : MotorState W)
      → node < 128
      → IsInt32 z
      → find_state node states ≡ some m
      → get_feedback_velocity speeds node
          (can_callback now (echo node (velocity_frame node z) position) states)
        ≡ (if node == 2 then speeds.of_pps_reversed z else speeds.of_pps z)
  feedback-echo now node z position states m small word h =
      let command : CanFrame = velocity_frame node z in
      get_feedback_velocity-found node _ _
        (find_state-echo now node command position states m small h)
      ∙ ap (λ (v : ℤ). if node == 2 then speeds.of_pps_reversed v else speeds.of_pps v)
          (frame_effect-velocity now (echo node command position) m refl
            ∙ field32-velocity_frame node z position word)

  -- A drive that reports exactly the speed that it was sent is measured, for every node and at every
  -- position, as the commanded speed, rounded to what a frame can carry: the inversion for motor 2
  -- is taken back.
  pub get_feedback_velocity-echo :
      (now node : ℕ) (rpm : W) (position : List ℕ) (states : States W) (m : MotorState W)
      → IsSymmetric speeds
      → node < 128
      → IsInt32 (speeds.to_pps rpm)
      → IsInt32 (speeds.to_pps (speeds.negate rpm))
      → find_state node states ≡ some m
      → get_feedback_velocity speeds node (
          can_callback now
            (echo node
              (target_frame speeds node (set_target_velocity speeds node rpm states))
              position)
            (set_target_velocity speeds node rpm states))
        ≡ speeds.of_pps (speeds.to_pps rpm)
  get_feedback_velocity-echo now node rpm position states m laws small word reversed h =
      let t : W = if node == 2 then speeds.negate rpm else rpm in
      let found = find_state-set_target_velocity node rpm states m h in
      rw (target_frame-found node _ _ found) (
        feedback-echo now node (speeds.to_pps t) position _ _ small (ground arith) found
        ∙ ground (arith, laws.to_pps_negate rpm, laws.of_pps_reversed_neg (speeds.to_pps rpm)))
