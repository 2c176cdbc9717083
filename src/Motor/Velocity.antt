-- ===== src/Motor/Velocity.antt =====
-- Speeds, feedback, alarms and status of the drives: the remaining methods of `MotorController`
-- (catkin_ws/src/motor_driver/src/motor_controller.cpp). The floating-point operations are an
-- argument.
pub mod Feedback
use ku_polishing_robot_drive.Base.{
  Bool, List, Option, [], false, if◌then◌else◌, le32_bytes, ltb, none, not, pos, some, to_u32, true,
  ℕ, ℤ, ◌++◌, ◌+◌, ◌/◌, ◌==◌, ◌∷◌,
}
use ku_polishing_robot_drive.Motor.CanOpen.{rpdo2_id_base, sync_id}
use ku_polishing_robot_drive.Motor.Controller.{MotorState, States, find_state, update_state}
use ku_polishing_robot_drive.Can.{Frame as CanFrame}
use Prim.Native.String.{String}

-- `rpm * (-1.0f)`, `static_cast<int32_t>(rpm * 2730.66f)`, and the divisions of a feedback value,
-- taken as a float, by 2730.66f and by -2730.66f
pub record Speeds (W : Type 0) : Type 0 where
  pub zero_speed : W
  pub negate : W → W
  pub to_pps : W → ℤ
  pub of_pps : ℤ → W
  pub of_pps_reversed : ℤ → W

-- `get_kinco_error_message`
unfoldable pub get_kinco_error_message : ℕ → String
get_kinco_error_message code =
    if code == 0x7380
    then "Encoder ABZ signal incorrect"
    else if code == 0x7381
    then "Encoder UVW signal incorrect"
    else if code == 0x4210
    then "Controller Temperature"
    else if code == 0x3210
    then "Overvoltage"
    else if code == 0x3220
    then "Undervoltage"
    else if code == 0x2320
    then "Short circuit of driver output"
    else if code == 0x7110
    then "Driver brake resistor is abnormal"
    else if code == 0x8611
    then "Following error"
    else if code == 0x5112
    then "Low logic voltage"
    else if code == 0x2350
    then "Motor or controller IIt (Overload)"
    else if code == 0x8A80
    then "Over input frequency"
    else if code == 0x4310
    then "Motor temperature"
    else if code == 0x7122
    then "Motor excitation"
    else if code == 0x6310
    then "EEPROM data"
    else if code == 0x5210
    then "Current sensor error"
    else if code == 0x6010
    then "Watchdog error"
    else if code == 0x6011
    then "Wrong interrupt"
    else if code == 0x7400
    then "MCU ID error"
    else if code == 0x6320
    then "Motor configuration error"
    else if code == 0x5443
    then "External enable error"
    else if code == 0x5442
    then "Positive limit error"
    else if code == 0x5441
    then "Negative limit error"
    else if code == 0x6012
    then "SPI internal error"
    else if code == 0x8A81
    then "Close loop direction error"
    else if code == 0x7306
    then "Encoder count wrong / Master counting error"
    else if code == 0x0000
    then "No error"
    else "Unknown error code"

-- the parts of the alarm text
pub record Alarm : Type 0 where
  pub node : ℕ
  pub text : String
  pub code : ℕ

-- `MotorSnapshot`
pub record Snapshot : Type 0 where
  pub current_raw : ℤ
  pub status_flags : ℕ
  pub voltage : ℕ
  pub error_code : ℕ

abbrev no_snapshot : Snapshot
no_snapshot = record { current_raw = pos 0; status_flags = 0; voltage = 0; error_code = 0 }

-- `send_velocity_command`: RPDO2, low byte first
unfoldable pub velocity_frame : ℕ → ℤ → CanFrame
velocity_frame node pps = record {
  can_id = rpdo2_id_base + node;
  dlc = 4;
  payload = le32_bytes (to_u32 pps);
}

abbrev pub sync_frame : CanFrame
sync_frame = record { can_id = sync_id; dlc = 0; payload = [] }

module _ {W : Type 0} where
  -- what `get_alarm` does to the state of its node, and what it returns
  unfoldable pub settle_alarm : MotorState W → MotorState W
  settle_alarm m =
      if not (m.error_code == 0)
      then record m { last_alarm_code = m.error_code }
      else if not (m.last_alarm_code == 0)
      then record m { last_alarm_code = 0 }
      else m

  unfoldable pub alarm_of : ℕ → States W → Option Alarm
  alarm_of node states = elim (find_state node states) [
    | none ↦ none
    | some m ↦
        if m.error_code == 0
        then none
        else some (record {
          node = node;
          text = get_kinco_error_message m.error_code;
          code = m.error_code;
        })
  ]

  unfoldable pub get_alarm : ℕ → States W → States W × Option Alarm
  get_alarm node states = (update_state node settle_alarm states, alarm_of node states)

  unfoldable pub get_status : ℕ → States W → Snapshot
  get_status node states = elim (find_state node states) [
    | none ↦ no_snapshot
    | some m ↦ record {
      current_raw = m.current_raw;
      status_flags = m.status_flags;
      voltage = m.voltage / 10;
      error_code = m.error_code;
    }
  ]

  -- `get_feedback_age_sec` compared with a limit; a node without a state is too old for any
  unfoldable pub older_than : ℕ → ℕ → ℕ → States W → Bool
  older_than now limit node states = elim (find_state node states) [
    | none ↦ true
    | some m ↦ ltb (m.last_feedback_time + limit) now
  ]

  module _ (speeds : Speeds W) where
    -- Motor 2 is mounted the other way round.
    unfoldable pub set_target_velocity : ℕ → W → States W → States W
    set_target_velocity node rpm states =
        update_state node
          (λ m. record m { target_velocity = if node == 2 then speeds.negate rpm else rpm }) states

    unfoldable pub target_frame : ℕ → States W → CanFrame
    target_frame node states = elim (find_state node states) [
      | none ↦ velocity_frame node (speeds.to_pps speeds.zero_speed)
      | some m ↦ velocity_frame node (speeds.to_pps m.target_velocity)
    ]

    -- one round of `sync_loop`; every node of the list has a state
    unfoldable pub sync_round : List ℕ → States W → List CanFrame
    sync_round [] states = sync_frame ∷ []
    sync_round (node ∷ nodes) states = target_frame node states ∷ sync_round nodes states

    -- `sync_loop`, by what each round finds: `is_running_`, and the states
    unfoldable pub sync_loop : List ℕ → List (Bool × States W) → List CanFrame
    sync_loop nodes [] = []
    sync_loop nodes ((false, states) ∷ rounds) = []
    sync_loop nodes ((true, states) ∷ rounds) = sync_round nodes states ++ sync_loop nodes rounds

    unfoldable pub get_feedback_velocity : ℕ → States W → W
    get_feedback_velocity node states = elim (find_state node states) [
      | none ↦ speeds.zero_speed
      | some m ↦
          if node == 2
          then speeds.of_pps_reversed m.feedback_velocity
          else speeds.of_pps m.feedback_velocity
    ]
