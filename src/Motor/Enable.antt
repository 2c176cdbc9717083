-- ===== src/Motor/Enable.antt =====
-- Enabling and resetting drives: `wait_for_state`, `enable_motor`, `disable_motor`, `reset_motor`
-- (catkin_ws/src/motor_driver/src/motor_controller.cpp). A drive, with its connection, is an
-- argument: what a frame does to it, what passing time does, and the statusword that the controller
-- has received last. Each node has its own drive; time passes for a drive in its own waits.
pub mod Outcome
pub mod Reaches
use ku_polishing_robot_drive.Base.{
  Bool, List, [], false, if◌then◌else◌, suc, true, zero, ℕ, ◌%◌, ◌&&◌, ◌+◌, ◌/◌, ◌==◌, ◌∷◌,
}
use ku_polishing_robot_drive.Motor.CanOpen.{rpdo1_id_base, rpdo2_id_base, sdo_rx_id_base}
use ku_polishing_robot_drive.Motor.Mapping.{mapping_frames, nmt, rpdo1, rpdo2, tpdo1, tpdo2, tpdo3}
use ku_polishing_robot_drive.Motor.Cia402.{
  Cia402State, fault, fault_reaction_active, get_cia402_state, not_ready_to_switch_on,
  operation_enabled, quick_stop_active, ready_to_switch_on, switch_on_disabled, switched_on,
}
use ku_polishing_robot_drive.Can.{Frame}

pub record Bus (D : Type 0) : Type 0 where
  pub send : Frame → D → D
  pub elapse : ℕ → D → D
  pub status : D → ℕ
  -- the controller's statusword is set to 0, and the request for a re-initialisation is taken back
  pub invalidate : D → D
  pub needs_reinit : D → Bool

-- the numbers of the enumeration
unfoldable pub state_code : Cia402State → ℕ
state_code not_ready_to_switch_on = 0
state_code switch_on_disabled = 1
state_code ready_to_switch_on = 2
state_code switched_on = 3
state_code operation_enabled = 4
state_code quick_stop_active = 5
state_code fault_reaction_active = 6
state_code fault = 7

unfoldable pub same_state : Cia402State → Cia402State → Bool
unfolding state_code
same_state a b = state_code a == state_code b

-- `change_motor_state`: RPDO1 with the controlword and the mode
unfoldable pub change_motor_state : ℕ → ℕ → ℕ → Frame
change_motor_state node controlword mode = record {
  can_id = rpdo1_id_base + node;
  dlc = 3;
  payload = controlword % 256 ∷ controlword / 256 % 256 ∷ mode ∷ [];
}

-- `Controlword`
abbrev pub shutdown : ℕ
shutdown = 0x0006

abbrev pub switch_on : ℕ
switch_on = 0x0007

abbrev pub enable_operation : ℕ
enable_operation = 0x000F

abbrev pub fault_reset : ℕ
fault_reset = 0x0080

module _ {D : Type 0} (bus : Bus D) where
  unfoldable pub is_state : Cia402State → D → Bool
  is_state target d = same_state (get_cia402_state (bus.status d)) target

  -- `wait_for_state`, with the number of rounds of 10 ms that fit into the timeout; the drive is the
  -- one that the loop leaves
  unfoldable pub wait_for_state : Cia402State → ℕ → D → D × Bool
  wait_for_state target zero d = (d, false)
  wait_for_state target (suc rounds) d =
      let later = wait_for_state target rounds (bus.elapse 10 d) in
      if is_state target d then (d, true) else if is_state fault d then (d, false) else later

  -- a wait of 100 ms before each of two equal commands, and the wait for what they ask
  unfoldable pub command_twice : ℕ → ℕ → D → D
  command_twice node controlword d =
      let frame = change_motor_state node controlword 3 in
      bus.send frame (bus.elapse 100 (bus.send frame (bus.elapse 100 d)))

  unfoldable pub reach : ℕ → ℕ → ℕ → Cia402State → D → D × Bool
  reach rounds node controlword target d =
      wait_for_state target rounds (command_twice node controlword d)

  -- a fault is reset first
  unfoldable pub clear_fault : ℕ → D → D
  clear_fault node d =
      if is_state fault d
      then bus.elapse 100 (bus.send (change_motor_state node fault_reset 0) d)
      else d

  unfoldable pub switch_to_velocity_mode : ℕ → D → D
  switch_to_velocity_mode node d = bus.elapse 50 (
      bus.send
        (record {
          can_id = sdo_rx_id_base + node;
          dlc = 8;
          payload = 0x2F ∷ 0x60 ∷ 0x60 ∷ 0 ∷ 3 ∷ 0 ∷ 0 ∷ 0 ∷ [];
        })
        d)

  unfoldable pub third_step : ℕ → ℕ → D × Bool → D × Bool
  third_step rounds node (d, false) = (d, false)
  third_step rounds node (d, true) = reach rounds node enable_operation operation_enabled d

  unfoldable pub second_step : ℕ → ℕ → D × Bool → D × Bool
  second_step rounds node (d, false) = (d, false)
  second_step rounds node (d, true) =
      third_step rounds node (reach rounds node switch_on switched_on d)

  -- the task of `enable_motor` for one node
  unfoldable pub enable_node : ℕ → ℕ → D → D × Bool
  enable_node rounds node d =
      if is_state operation_enabled d
      then (d, true)
      else second_step rounds node (
          reach rounds node shutdown ready_to_switch_on
            (clear_fault node (switch_to_velocity_mode node d)))

  -- The nodes and their drives; 2000 ms are 200 rounds.
  unfoldable pub enable_rounds : ℕ → List (ℕ × D) → List (ℕ × D) × Bool
  enable_rounds rounds [] = ([], true)
  enable_rounds rounds ((node, d) ∷ rest) =
      let (d', good) = enable_node rounds node d in
      let (rest', all_good) = enable_rounds rounds rest in ((node, d') ∷ rest', good && all_good)

  unfoldable pub enable_motor : List (ℕ × D) → List (ℕ × D) × Bool
  enable_motor nodes = enable_rounds 200 nodes

  -- `configure_node`: 500 ms after the reset, 20 ms after each write of a parameter, 100 ms at the end
  unfoldable pub send_slowly : List Frame → D → D
  send_slowly [] d = d
  send_slowly (frame ∷ frames) d = send_slowly frames (bus.elapse 20 (bus.send frame d))

  unfoldable pub configure_node : ℕ → D → D
  configure_node node d = bus.elapse 100 (
      bus.send (nmt 0x01 node) (
        send_slowly (mapping_frames node (rpdo1 ∷ rpdo2 ∷ tpdo1 ∷ tpdo2 ∷ tpdo3 ∷ []))
          (bus.elapse 500 (bus.send (nmt 0x82 node) (bus.invalidate d)))))

  unfoldable pub reinit_node : ℕ → D → D
  reinit_node node d = if bus.needs_reinit d then configure_node node d else d

  -- a drive that is enabled is left alone
  unfoldable pub reset_node : ℕ → D → D
  reset_node node d =
      if is_state operation_enabled d
      then d
      else (let frame = change_motor_state node fault_reset 0 in
          bus.send frame (bus.elapse 100 (bus.send frame d)))

  abbrev pub each : (ℕ → D → D) → List (ℕ × D) → List (ℕ × D)
  each f [] = []
  each f ((node, d) ∷ rest) = (node, f node d) ∷ each f rest

  -- the last loop of `reset_motor`
  unfoldable pub all_enabled : ℕ → List (ℕ × D) → List (ℕ × D) × Bool
  all_enabled rounds [] = ([], true)
  all_enabled rounds ((node, d) ∷ rest) =
      let (d', good) = wait_for_state operation_enabled rounds d in
      let (rest', all_good) = all_enabled rounds rest in ((node, d') ∷ rest', good && all_good)

  unfoldable pub reset_motor : List (ℕ × D) → List (ℕ × D) × Bool
  reset_motor nodes = all_enabled 200 (enable_motor (each reset_node (each reinit_node nodes))).0

  -- `disable_motor`, with the frame of a velocity 0
  unfoldable pub disable_motor : List (ℕ × D) → List (ℕ × D)
  disable_motor nodes =
      each (λ node d. bus.elapse 50 (bus.send (change_motor_state node shutdown 3) d))
        (each
          (λ node d. bus.elapse 50 (
            bus.send
              (record { can_id = rpdo2_id_base + node; dlc = 4; payload = 0 ∷ 0 ∷ 0 ∷ 0 ∷ [] }) d))
          nodes)

  -- `MotorController::~MotorController`, with an interface or not; the sync thread has ended
  unfoldable pub destroy : Bool → List (ℕ × D) → List (ℕ × D)
  destroy has_interface nodes = if has_interface then disable_motor nodes else nodes
