-- ===== src/Motor/Controller/Setup.antt =====
-- `init` of `MotorController` (catkin_ws/src/motor_driver/src/motor_controller.cpp): the states of
-- the nodes. The frames of `configure_node` are in Motor/Mapping.
use ku_polishing_robot_drive.Base.{
  Bool, List, [], false, if◌then◌else◌, none, pos, some, true, ℕ, ◌++◌, ◌∷◌,
}
use ku_polishing_robot_drive.Motor.Controller.{
  MotorState, States, begin_configure, end_configure, find_state, update_state,
}

module _ {W : Type 0} (zero_speed : W) where
  abbrev pub new_state : MotorState W
  new_state = record {
    voltage = 0;
    error_code = 0;
    status_flags = 0;
    current_raw = pos 0;
    last_alarm_code = 0;
    target_velocity = zero_speed;
    feedback_velocity = pos 0;
    feedback_position = pos 0;
    last_feedback_time = 0;
    needs_reinit = false;
    reinit_suppress_until = 0;
  }

  -- `emplace` keeps a state that is there
  unfoldable pub emplace : ℕ → States W → States W
  emplace id states = elim (find_state id states) [
    | none ↦ states ++ (id, new_state) ∷ []
    | some m ↦ states
  ]

  unfoldable pub emplace_all : List ℕ → States W → States W
  emplace_all [] states = states
  emplace_all (id ∷ ids) states = emplace_all ids (emplace id states)

  -- the calls of `configure_node`, each with the times of its start and its end
  unfoldable pub configure_all : List (ℕ × ℕ × ℕ) → States W → States W
  configure_all [] states = states
  configure_all ((id, begun, ended) ∷ rest) states = configure_all rest (
      update_state id (end_configure ended)
        (update_state id (begin_configure zero_speed begun) states))

  unfoldable pub start_feedback : ℕ → List ℕ → States W → States W
  start_feedback now [] states = states
  start_feedback now (id ∷ ids) states =
      start_feedback now ids (update_state id (λ m. record m { last_feedback_time = now }) states)

  abbrev pub ids_of : List (ℕ × ℕ × ℕ) → List ℕ
  ids_of [] = []
  ids_of ((id, begun, ended) ∷ rest) = id ∷ ids_of rest

  -- Whether the bus opens; the nodes, with the times of their configuration. The Boolean is
  -- `is_running_`.
  unfoldable pub init : Bool → List (ℕ × ℕ × ℕ) → ℕ → States W × Bool
  init opened nodes now =
      let states = emplace_all (ids_of nodes) [] in
      if opened
      then (start_feedback now (ids_of nodes) (configure_all nodes states), true)
      else (states, false)
