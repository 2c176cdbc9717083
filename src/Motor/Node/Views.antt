-- ===== src/Motor/Node/Views.antt =====
-- Parts of a motor's state that the loops of `controlLoop` leave as they are
-- (catkin_ws/src/motor_driver/src/motor_driver_node.cpp).
use ku_polishing_robot_drive.Base.{
  Bool, List, Option, Option-cases, [], arith, false, inl, inr, none, refl, some, ℕ, ◌+◌, ◌↔◌, ◌∙◌,
  ◌∷◌, ◌≡◌, ◌≤◌,
}
use ku_polishing_robot_drive.Motor.Node.{Config, check_alarms, check_feedback, stop_targets}
use ku_polishing_robot_drive.Motor.Velocity.{
  Speeds, get_alarm, set_target_velocity, settle_alarm, alarm_of, older_than,
}
use ku_polishing_robot_drive.Motor.Controller.{
  MotorState, States, find_state, mark_reinit, request_reinit, update_state,
}
use mathlib.Core.Option

-- A part of a motor's state, if the motor has one, and what leaves it as it is.
module _ {W V : Type 0} (part : MotorState W → V) where
  abbrev pub view : ℕ → States W → Option V
  view id states = Option.map part (find_state id states)

  pub view-update_state :
      (id k : ℕ) (f : MotorState W → MotorState W) (states : States W)
      → ((m : MotorState W) → part (f m) ≡ part m)
      → view id (update_state k f states) ≡ view id states
  unfolding find_state update_state
  view-update_state id k f [] keep = refl
  view-update_state id k f ((j, m) ∷ rest) keep =
      ground (arith, view-update_state id k f rest keep, keep m)

  pub check_alarms-view :
      (id : ℕ) (motors : List (ℕ × Bool)) (states : States W)
      → ((m : MotorState W) → part (settle_alarm m) ≡ part m)
      → view id (check_alarms motors states).0 ≡ view id states
  unfolding check_alarms get_alarm
  check_alarms-view id [] states keep = refl
  check_alarms-view id ((k, reversed) ∷ motors) states keep = ground (
    arith,
    check_alarms-view id motors (update_state k settle_alarm states) keep,
    view-update_state id k settle_alarm states keep,
  )

  pub check_feedback-view :
      (c : Config) (steady id : ℕ) (motors : List (ℕ × Bool)) (states : States W)
      → ((m : MotorState W) → part (mark_reinit steady m) ≡ part m)
      → view id (check_feedback c steady motors states).0 ≡ view id states
  unfolding check_feedback request_reinit
  check_feedback-view c steady id [] states keep = refl
  check_feedback-view c steady id ((k, reversed) ∷ motors) states keep = ground (
    arith,
    check_feedback-view c steady id motors states keep,
    check_feedback-view c steady id motors (update_state k (mark_reinit steady) states) keep,
    view-update_state id k (mark_reinit steady) states keep,
  )

  pub stop_targets-view :
      (speeds : Speeds W) (id : ℕ) (motors : List (ℕ × Bool)) (states : States W)
      → ((m : MotorState W) (w : W) → part (record m { target_velocity = w }) ≡ part m)
      → view id (stop_targets speeds motors states) ≡ view id states
  unfolding stop_targets set_target_velocity
  stop_targets-view speeds id [] states keep = refl
  stop_targets-view speeds id ((k, reversed) ∷ motors) states keep =
      stop_targets-view speeds id motors _ keep ∙ view-update_state id k _ states (λ m. keep m _)

-- The motor reports no error.
abbrev pub NoAlarm : Option (ℕ × ℕ) → Type 0
NoAlarm none = Unit
NoAlarm (some (code, fed_at)) = code ≡ 0

-- The motor has reported its speed within a time.
abbrev pub IsFed : ℕ → ℕ → Option (ℕ × ℕ) → Type 0
IsFed steady limit none = ⊥
IsFed steady limit (some (code, fed_at)) = steady ≤ fed_at + limit

module _ {W : Type 0} where
  -- the error code and the time of the last feedback
  abbrev pub health : MotorState W → ℕ × ℕ
  health m = (m.error_code, m.last_feedback_time)

  pub settle_alarm-health : (m : MotorState W) → health (settle_alarm m) ≡ health m
  unfolding settle_alarm
  settle_alarm-health m = ground arith

  pub mark_reinit-health : (now : ℕ) (m : MotorState W) → health (mark_reinit now m) ≡ health m
  unfolding mark_reinit
  mark_reinit-health now m = ground arith

  pub settle_alarm-target :
      (m : MotorState W) → (settle_alarm m).target_velocity ≡ m.target_velocity
  unfolding settle_alarm
  settle_alarm-target m = ground arith

  pub mark_reinit-target :
      (now : ℕ) (m : MotorState W) → (mark_reinit now m).target_velocity ≡ m.target_velocity
  unfolding mark_reinit
  mark_reinit-target now m = ground arith

  pub alarm_of-none :
      (id : ℕ) (states : States W) → (alarm_of id states ≡ none) ↔ NoAlarm (view health id states)
  unfolding alarm_of
  alarm_of-none id states = elim (Option-cases (find_state id states)) [
    | inl missing ↦ rw (missing, alarm_of) (λ h. tt, λ h. refl)
    | inr (m, found) ↦ rw (found, alarm_of) (ground arith)
  ]

  pub older_than-false :
      (steady limit id : ℕ) (states : States W)
      → (older_than steady limit id states ≡ false) ↔ IsFed steady limit (view health id states)
  unfolding older_than
  older_than-false steady limit id states = elim (Option-cases (find_state id states)) [
    | inl missing ↦ rw (missing, older_than) (λ h. cc, λ h. absurd h)
    | inr (m, found) ↦ rw (found, older_than) (ground arith)
  ]
