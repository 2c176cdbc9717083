-- ===== src/Motor/Node/Live/Targets.antt =====
-- What keeps the speeds of all motors at 0 (catkin_ws/src/motor_driver).
use ku_polishing_robot_drive.Base.{
  All, All-append, Bool, Bool-cases, List, Option-cases, [], ap, arith, false, if◌then◌else◌, inl,
  inr, pos, same, subst, sym, true, ℕ, ◌==◌, ◌∙◌, ◌∷◌, ◌≡◌,
}
use ku_polishing_robot_drive.Motor.Controller.Setup.{
  configure_all, emplace, emplace_all, ids_of, init, new_state, start_feedback,
}
use ku_polishing_robot_drive.Motor.Node.Views.{mark_reinit-target, settle_alarm-target}
use ku_polishing_robot_drive.Motor.Controller.{
  Frame, MotorState, States, begin_configure, can_callback, code_of, end_configure, find_state,
  frame_effect, mark_reinit, node_of, request_reinit, take_tpdo1, take_tpdo2, take_tpdo3,
  update_state,
}
use ku_polishing_robot_drive.Motor.Node.{Config, check_alarms, check_feedback, stop_targets}
use ku_polishing_robot_drive.Motor.Velocity.{
  Speeds, get_alarm, older_than, set_target_velocity, settle_alarm,
}

module _ {W : Type 0} (P : MotorState W → Type 0) where
  abbrev pub Each : States W → Type 0
  Each = All (λ e. P e.1)

  Each-update_state :
      (node : ℕ) (f : MotorState W → MotorState W) (states : States W)
      → ((m : MotorState W) → P m → P (f m))
      → Each states
      → Each (update_state node f states)
  unfolding update_state
  Each-update_state node f [] keep h = h
  Each-update_state node f ((k, m) ∷ rest) keep h = elim (Bool-cases (k == node)) [
    | inl same ↦ rw same (keep m h.0, h.1)
    | inr other ↦ rw other (h.0, Each-update_state node f rest keep h.1)
  ]

-- IEEE arithmetic: a speed of 0, of either sign, is 0 increments.
pub record HasZero {W : Type 0} (speeds : Speeds W) : Type 0 where
  pub zero : speeds.to_pps speeds.zero_speed ≡ pos 0
  pub negative_zero : speeds.to_pps (speeds.negate speeds.zero_speed) ≡ pos 0

module _ {W : Type 0} (speeds : Speeds W) where
  -- the speed that `sync_loop` sends to the motor is 0
  abbrev pub IsStill : MotorState W → Type 0
  IsStill m = speeds.to_pps m.target_velocity ≡ pos 0

  abbrev pub AllStill : States W → Type 0
  AllStill = Each IsStill

  pub frame_effect-target :
      (now code : ℕ) (frame : Frame) (m : MotorState W)
      → (frame_effect now code frame m).target_velocity ≡ m.target_velocity
  unfolding frame_effect mark_reinit take_tpdo1 take_tpdo2 take_tpdo3
  frame_effect-target now code frame m = ground arith

  -- what leaves the target as it is leaves it at 0
  still : (m t : MotorState W) → t.target_velocity ≡ m.target_velocity → IsStill m → IsStill t
  still m t e h = ap speeds.to_pps e ∙ h

  pub can_callback-AllStill :
      (now : ℕ) (frame : Frame) (states : States W)
      → AllStill states
      → AllStill (can_callback now frame states)
  unfolding can_callback
  can_callback-AllStill now frame states =
      Each-update_state IsStill (node_of frame) (frame_effect now (code_of frame) frame) states
        (λ m.
          still m (frame_effect now (code_of frame) frame m)
            (frame_effect-target now (code_of frame) frame m))

  set_target_velocity-AllStill :
      (node : ℕ) (states : States W)
      → HasZero speeds
      → AllStill states
      → AllStill (set_target_velocity speeds node speeds.zero_speed states)
  unfolding set_target_velocity
  set_target_velocity-AllStill node states z =
      Each-update_state IsStill node
        (λ (m : MotorState W). record m {
          target_velocity =
              if node == 2 then speeds.negate speeds.zero_speed else speeds.zero_speed;
        })
        states (λ m h. ground (arith, z.zero, z.negative_zero))

  pub stop_targets-AllStill :
      (motors : List (ℕ × Bool)) (states : States W)
      → HasZero speeds
      → AllStill states
      → AllStill (stop_targets speeds motors states)
  unfolding stop_targets
  stop_targets-AllStill [] states z h = h
  stop_targets-AllStill ((id, reversed) ∷ motors) states z h =
      stop_targets-AllStill motors _ z (set_target_velocity-AllStill id states z h)

  check_alarms-states :
      (id : ℕ) (reversed : Bool) (motors : List (ℕ × Bool)) (states : States W)
      → (check_alarms ((id, reversed) ∷ motors) states).0
        ≡ (check_alarms motors (update_state id settle_alarm states)).0
  unfolding check_alarms get_alarm
  check_alarms-states id reversed motors states = ground arith

  pub check_alarms-AllStill :
      (motors : List (ℕ × Bool)) (states : States W)
      → AllStill states
      → AllStill (check_alarms motors states).0
  unfolding check_alarms
  check_alarms-AllStill [] states h = h
  check_alarms-AllStill ((id, reversed) ∷ motors) states h =
      let settled : States W = update_state id settle_alarm states in
      let rest = check_alarms-AllStill motors settled (
        Each-update_state IsStill id settle_alarm states
          (λ m. still m (settle_alarm m) (settle_alarm-target m)) h) in
      subst AllStill (sym (check_alarms-states id reversed motors states)) rest

  pub check_feedback-AllStill :
      (c : Config) (steady : ℕ) (motors : List (ℕ × Bool)) (states : States W)
      → AllStill states
      → AllStill (check_feedback c steady motors states).0
  unfolding check_feedback request_reinit
  check_feedback-AllStill c steady [] states h = h
  check_feedback-AllStill c steady ((id, reversed) ∷ motors) states h =
      elim (Bool-cases (older_than steady c.reinit_feedback_loss id states)) [
        | inl lost ↦ rw lost (
            check_feedback-AllStill c steady motors (request_reinit steady id states) (
              Each-update_state IsStill id (mark_reinit steady) states
                (λ m. still m (mark_reinit steady m) (mark_reinit-target steady m)) h))
        | inr near ↦ rw near (check_feedback-AllStill c steady motors states h)
      ]

  pub begin_configure-AllStill :
      (id steady : ℕ) (states : States W)
      → HasZero speeds
      → AllStill states
      → AllStill (update_state id (begin_configure speeds.zero_speed steady) states)
  unfolding begin_configure
  begin_configure-AllStill id steady states z =
      Each-update_state IsStill id (begin_configure speeds.zero_speed steady) states (λ m h. z.zero)

  pub end_configure-AllStill :
      (id steady : ℕ) (states : States W)
      → AllStill states
      → AllStill (update_state id (end_configure steady) states)
  unfolding end_configure
  end_configure-AllStill id steady states =
      Each-update_state IsStill id (end_configure steady) states (λ m h. h)

  configure_all-AllStill :
      (nodes : List (ℕ × ℕ × ℕ)) (states : States W)
      → HasZero speeds
      → AllStill states
      → AllStill (configure_all speeds.zero_speed nodes states)
  unfolding configure_all
  configure_all-AllStill [] states z h = h
  configure_all-AllStill ((id, begun, ended) ∷ rest) states z h =
      configure_all-AllStill rest _ z
        (end_configure-AllStill id ended _ (begin_configure-AllStill id begun states z h))

  start_feedback-AllStill :
      (now : ℕ) (ids : List ℕ) (states : States W)
      → AllStill states
      → AllStill (start_feedback speeds.zero_speed now ids states)
  unfolding start_feedback
  start_feedback-AllStill now [] states h = h
  start_feedback-AllStill now (id ∷ ids) states h = start_feedback-AllStill now ids _ (
      Each-update_state IsStill id (λ (m : MotorState W). record m { last_feedback_time = now })
        states (λ m k. k) h)

  emplace-AllStill :
      (id : ℕ) (states : States W)
      → HasZero speeds
      → AllStill states
      → AllStill (emplace speeds.zero_speed id states)
  unfolding emplace
  emplace-AllStill id states z h = elim (Option-cases (find_state id states)) [
    | inl missing ↦
        rw (missing, emplace)
          (All-append (λ e. IsStill e.1) states ((id, new_state speeds.zero_speed) ∷ []) h
            (z.zero, tt))
    | inr (m, found) ↦ rw (found, emplace) h
  ]

  emplace_all-AllStill :
      (ids : List ℕ) (states : States W)
      → HasZero speeds
      → AllStill states
      → AllStill (emplace_all speeds.zero_speed ids states)
  unfolding emplace_all
  emplace_all-AllStill [] states z h = h
  emplace_all-AllStill (id ∷ ids) states z h =
      emplace_all-AllStill ids (emplace speeds.zero_speed id states) z
        (emplace-AllStill id states z h)

  pub init-AllStill :
      (opened : Bool) (nodes : List (ℕ × ℕ × ℕ)) (now : ℕ)
      → HasZero speeds
      → AllStill (init speeds.zero_speed opened nodes now).0
  unfolding init
  init-AllStill false nodes now z = emplace_all-AllStill (ids_of speeds.zero_speed nodes) [] z tt
  init-AllStill true nodes now z = start_feedback-AllStill now (ids_of speeds.zero_speed nodes) _ (
      configure_all-AllStill nodes _ z
        (emplace_all-AllStill (ids_of speeds.zero_speed nodes) [] z tt))
