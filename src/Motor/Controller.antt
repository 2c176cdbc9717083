-- ===== src/Motor/Controller.antt =====
-- The per-node state of `MotorController` and the handling of received CAN frames
-- (catkin_ws/src/motor_driver/src/motor_controller.cpp). Times are nanoseconds of the steady clock.
-- Floating-point speeds are an abstract type `W`; the controller stores them and sends them on.
pub mod Callback
pub mod Setup
use ku_polishing_robot_drive.Base.{
  Bool, List, Option, [], false, get_or, if◌then◌else◌, leb, ltb, none, signed16, signed32, some,
  true, ℕ, ℤ, ◌%◌, ◌&&◌, ◌*◌, ◌+◌, ◌/◌, ◌==◌, ◌||◌, ◌∷◌,
}
use ku_polishing_robot_drive.Motor.CanOpen.{
  heartbeat_id_base, tpdo1_id_base, tpdo2_id_base, tpdo3_id_base,
}
use ku_polishing_robot_drive.Motor.Cia402.{get_cia402_state, operation_enabled}

pub record MotorState (W : Type 0) : Type 0 where
  pub voltage : ℕ
  pub error_code : ℕ
  pub status_flags : ℕ
  pub current_raw : ℤ
  pub last_alarm_code : ℕ
  pub target_velocity : W
  pub feedback_velocity : ℤ
  pub feedback_position : ℤ
  pub last_feedback_time : ℕ
  pub needs_reinit : Bool
  pub reinit_suppress_until : ℕ

-- `motor_states_`, by node id
abbrev pub States : Type 0 → Type 0
States W = List (ℕ × MotorState W)

pub record Frame : Type 0 where
  pub can_id : ℕ
  pub dlc : ℕ
  pub payload : List ℕ

-- the little-endian fields of a process data object
abbrev pub field16 : List ℕ → ℕ → ℕ
field16 bytes i = get_or bytes i 0 + get_or bytes (i + 1) 0 * 256

abbrev pub field32 : List ℕ → ℕ → ℕ
field32 bytes i = field16 bytes i + field16 bytes (i + 2) * 65536

-- `frame.can_id & 0x7F` and `frame.can_id & 0xFF80`
abbrev pub node_of : Frame → ℕ
node_of frame = frame.can_id % 128

abbrev pub code_of : Frame → ℕ
code_of frame = frame.can_id % 65536 / 128 * 128

module _ {W : Type 0} where
  unfoldable pub find_state : ℕ → States W → Option (MotorState W)
  find_state node [] = none
  find_state node ((k, m) ∷ rest) = if k == node then some m else find_state node rest

  unfoldable pub update_state : ℕ → (MotorState W → MotorState W) → States W → States W
  update_state node f [] = []
  update_state node f ((k, m) ∷ rest) =
      if k == node then (k, f m) ∷ rest else (k, m) ∷ update_state node f rest

  -- `request_reinit`: nothing while the node is being configured
  unfoldable pub mark_reinit : ℕ → MotorState W → MotorState W
  mark_reinit now m =
      if ltb now m.reinit_suppress_until then m else record m { needs_reinit = true }

  unfoldable pub request_reinit : ℕ → ℕ → States W → States W
  request_reinit now node states = update_state node (mark_reinit now) states

  -- TPDO1, TPDO2 and TPDO3, of 3, 8 and 6 bytes
  unfoldable pub take_tpdo1 : Frame → MotorState W → MotorState W
  take_tpdo1 frame m =
      if leb 3 frame.dlc then record m { status_flags = field16 frame.payload 0 } else m

  unfoldable pub take_tpdo2 : ℕ → Frame → MotorState W → MotorState W
  take_tpdo2 now frame m =
      if leb 8 frame.dlc
      then record m {
        feedback_velocity = signed32 (field32 frame.payload 0);
        feedback_position = signed32 (field32 frame.payload 4);
        last_feedback_time = now;
      }
      else m

  unfoldable pub take_tpdo3 : Frame → MotorState W → MotorState W
  take_tpdo3 frame m =
      if leb 6 frame.dlc
      then record m {
        voltage = field16 frame.payload 0;
        current_raw = signed16 (field16 frame.payload 2);
        error_code = field16 frame.payload 4;
      }
      else m

  -- the change that a frame makes to its node, by its function code
  unfoldable pub frame_effect : ℕ → ℕ → Frame → MotorState W → MotorState W
  frame_effect now code frame m =
      if code == heartbeat_id_base
      then if frame.dlc == 1 && get_or frame.payload 0 0 == 0 then mark_reinit now m else m
      else if code == tpdo1_id_base
      then take_tpdo1 frame m
      else if code == tpdo2_id_base
      then take_tpdo2 now frame m
      else if code == tpdo3_id_base
      then take_tpdo3 frame m
      else m

  unfoldable pub can_callback : ℕ → Frame → States W → States W
  can_callback now frame states =
      update_state (node_of frame) (frame_effect now (code_of frame) frame) states

  -- the state that `configure_node` sets before it writes to the bus: 5 s of suppression, no pending
  -- request, no statusword, no speed
  unfoldable pub begin_configure : W → ℕ → MotorState W → MotorState W
  begin_configure zero_speed now m = record m {
    reinit_suppress_until = now + 5_000_000_000;
    needs_reinit = false;
    status_flags = 0;
    target_velocity = zero_speed;
  }

  -- and after it
  unfoldable pub end_configure : ℕ → MotorState W → MotorState W
  end_configure now m = record m { last_feedback_time = now }

  unfoldable pub is_operation_enabled : ℕ → States W → Bool
  is_operation_enabled node states = elim (find_state node states) [
    | none ↦ false
    | some m ↦ elim (get_cia402_state m.status_flags) [ operation_enabled ↦ true | _ ↦ false ]
  ]

  unfoldable pub reinit_pending : List ℕ → States W → Bool
  reinit_pending [] states = false
  reinit_pending (id ∷ ids) states =
      elim (find_state id states) [ none ↦ false | some m ↦ m.needs_reinit ]
      || reinit_pending ids states
