-- ===== src/Motor/Controller/Callback.antt =====
-- What a received CAN frame may change
-- (catkin_ws/src/motor_driver/src/motor_controller.cpp).
use ku_polishing_robot_drive.Base.{[], arith, if◌then◌else◌, ℕ, ◌==◌, ◌∷◌, ◌≡◌}
use ku_polishing_robot_drive.Motor.Controller.{
  Frame, MotorState, States, can_callback, code_of, find_state, frame_effect, node_of, update_state,
}
use mathlib.Core.Option

module _ {W : Type 0} where
  pub find_state-update_state :
      (node other : ℕ) (f : MotorState W → MotorState W) (states : States W)
      → find_state other (update_state node f states) ≡ (
          if node == other then Option.map f (find_state other states) else find_state other states)
  unfolding find_state update_state
  find_state-update_state node other f [] = ground arith
  find_state-update_state node other f ((k, m) ∷ rest) =
      ground (arith, find_state-update_state node other f rest)

  -- A received frame changes the state of its own node only, by what its function code says; the
  -- states of all other nodes stay as they are, and a frame of an unknown node makes no state.
  pub find_state-can_callback :
      (now : ℕ) (frame : Frame) (states : States W) (node : ℕ)
      → find_state node (can_callback now frame states) ≡ (
          if node_of frame == node
          then Option.map (frame_effect now (code_of frame) frame) (find_state node states)
          else find_state node states)
  unfolding can_callback
  find_state-can_callback now frame states node =
      find_state-update_state (node_of frame) node (frame_effect now (code_of frame) frame) states
