-- ===== src/Motor/Node/Commands.antt =====
-- What the control loop reports, and that it stops the motors without commands
-- (catkin_ws/src/motor_driver/src/motor_driver_node.cpp).
use ku_polishing_robot_drive.Base.{
  All, All-both, Bool, Bool-cases, List, Option-cases, [], arith, false, if◌then◌else◌, inl, inr,
  ltb, none, refl, some, subst, sym, true, ℕ, ◌&&◌, ◌+◌, ◌==◌, ◌||◌, ◌↔◌, ◌∙◌, ◌∷◌, ◌≡◌,
}
use mathlib.Core.Option
use ku_polishing_robot_drive.Motor.Controller.Callback.{find_state-update_state}
use ku_polishing_robot_drive.Motor.Node.{
  check_alarms, Config, check_feedback, Node, control_loop, stop_targets, watch_commands,
}
use ku_polishing_robot_drive.Motor.Controller.{
  States, update_state, mark_reinit, request_reinit, MotorState, find_state,
}
use ku_polishing_robot_drive.Motor.Node.Views.{
  NoAlarm, alarm_of-none, health, settle_alarm-health, view, IsFed, mark_reinit-health,
  older_than-false, view-update_state, check_alarms-view, check_feedback-view, mark_reinit-target,
  settle_alarm-target, stop_targets-view,
}
use ku_polishing_robot_drive.Motor.Velocity.{
  alarm_of, get_alarm, settle_alarm, older_than, Speeds, set_target_velocity,
}

abbrev pub listed : ℕ → List (ℕ × Bool) → Bool
listed id [] = false
listed id ((k, reversed) ∷ motors) = k == id || listed id motors

module _ {W : Type 0} where
  -- States in which every motor has the same error code and time of feedback.
  abbrev SameHealth : States W → States W → Type 0
  SameHealth xs ys = (id : ℕ) → view health id xs ≡ view health id ys

  check_alarms-step :
      (k : ℕ) (reversed : Bool) (motors : List (ℕ × Bool)) (states : States W)
      → (check_alarms ((k, reversed) ∷ motors) states).2 ≡ elim (alarm_of k states) [
        | none ↦ (check_alarms motors (update_state k settle_alarm states)).2
        | some a ↦ true
      ]
  unfolding check_alarms get_alarm
  check_alarms-step k reversed motors states = ground arith

  check_alarms-NoAlarm :
      (base : States W) (motors : List (ℕ × Bool)) (states : States W)
      → SameHealth states base
      → ((check_alarms motors states).2 ≡ false) ↔ All (λ m. NoAlarm (view health m.0 base)) motors
  unfolding check_alarms
  check_alarms-NoAlarm base [] states eq = (λ h. tt, λ h. refl)
  check_alarms-NoAlarm base ((k, reversed) ∷ motors) states eq =
      let settled : States W = update_state k settle_alarm states in
      let ih =
        check_alarms-NoAlarm base motors settled
          (λ id. view-update_state health id k settle_alarm states settle_alarm-health ∙ eq id) in
      let first = alarm_of-none k states in
      let step = check_alarms-step k reversed motors states in
      elim (Option-cases (alarm_of k states)) [
        | inl quiet ↦
            let e : (check_alarms ((k, reversed) ∷ motors) states).2
                ≡ (check_alarms motors settled).2 =
              ground (arith, step, quiet) in
            (λ h. (subst NoAlarm (eq k) (first.0 quiet), ih.0 (sym e ∙ h)), λ h. e ∙ ih.1 h.1)
        | inr (a, loud) ↦
            let e : (check_alarms ((k, reversed) ∷ motors) states).2 ≡ true =
              ground (arith, step, loud) in
            (λ h. cc, λ h. cc (first.1 (subst NoAlarm (sym (eq k)) h.0)))
      ]

  check_feedback-IsFed :
      (c : Config) (steady : ℕ) (base : States W) (motors : List (ℕ × Bool)) (states : States W)
      → SameHealth states base
      → ((check_feedback c steady motors states).2 ≡ false)
        ↔ All (λ m. IsFed steady c.feedback_timeout (view health m.0 base)) motors
  unfolding check_feedback request_reinit
  check_feedback-IsFed c steady base [] states eq = (λ h. tt, λ h. refl)
  check_feedback-IsFed c steady base ((k, reversed) ∷ motors) states eq =
      let lost : Bool = older_than steady c.reinit_feedback_loss k states in
      let marked : States W = if lost then update_state k (mark_reinit steady) states else states in
      let same_after : SameHealth marked base = λ id. ground (
        arith,
        view-update_state health id k (mark_reinit steady) states (mark_reinit-health steady),
        eq id,
      ) in
      let ih = check_feedback-IsFed c steady base motors marked same_after in
      let first = older_than-false steady c.feedback_timeout k states in
      elim (Bool-cases (older_than steady c.feedback_timeout k states)) [
        | inl late ↦
            rw late (
              λ h. cc,
              λ h. cc (first.1 (subst (IsFed steady c.feedback_timeout) (sym (eq k)) h.0)),
            )
        | inr good ↦ rw good (
          λ h. (subst (IsFed steady c.feedback_timeout) (eq k) (first.0 good), ih.0 h),
          λ h. ih.1 h.1,
        )
      ]

  watch_commands-health :
      (speeds : Speeds W) (c : Config) (now : ℕ) (n : Node) (states : States W)
      → SameHealth (watch_commands speeds c now n states) states
  unfolding watch_commands
  watch_commands-health speeds c now n states id =
      ground (arith, stop_targets-view health speeds id c.motors states (λ m w. refl))

  -- After a run of the control loop the error flag is off exactly when every motor of the list has a
  -- state, reports no error code, and has sent its speed within the feedback timeout.
  pub control_loop-is_error :
      (speeds : Speeds W) (c : Config) (now steady : ℕ) (n : Node) (states : States W)
      → ((control_loop speeds c now steady n states).node.is_error ≡ false)
        ↔ All
            (λ m.
              NoAlarm (view health m.0 states)
              × IsFed steady c.feedback_timeout (view health m.0 states))
            c.motors
  unfolding control_loop
  control_loop-is_error speeds c now steady n states =
      let stopped : States W = watch_commands speeds c now n states in
      let settled : States W = (check_alarms c.motors stopped).0 in
      let eq = watch_commands-health speeds c now n states in
      let quiet = check_alarms-NoAlarm states c.motors stopped eq in
      let fed =
        check_feedback-IsFed c steady states c.motors settled
          (λ id. check_alarms-view health id c.motors stopped settle_alarm-health ∙ eq id) in
      let both =
        All-both (λ (m : ℕ × Bool). NoAlarm (view health m.0 states))
          (λ m. IsFed steady c.feedback_timeout (view health m.0 states)) c.motors in
      (
        λ h. both.0 (quiet.0 (ground arith), fed.0 (ground arith)),
        λ h. let (q, f) = both.1 h in ground (arith, quiet.1 q, fed.1 f),
      )

  abbrev pub target : MotorState W → W
  target m = m.target_velocity

  -- what the speed 0 is for a motor
  abbrev pub halted : Speeds W → ℕ → W
  halted speeds id = if id == 2 then speeds.negate speeds.zero_speed else speeds.zero_speed

  stop_targets-target :
      (speeds : Speeds W) (id : ℕ) (motors : List (ℕ × Bool)) (states : States W)
      → view target id (stop_targets speeds motors states) ≡ (
          if listed id motors
          then Option.map (λ (m : MotorState W). halted speeds id) (find_state id states)
          else view target id states)
  unfolding stop_targets set_target_velocity
  stop_targets-target speeds id [] states = refl
  stop_targets-target speeds id ((k, reversed) ∷ motors) states =
      let f : MotorState W → MotorState W = λ m. record m { target_velocity = halted speeds k } in
      ground (
        arith,
        stop_targets-target speeds id motors (update_state k f states),
        find_state-update_state k id f states,
      )

  -- While the motors are enabled and the last command is older than the command timeout, a run of the
  -- control loop leaves every motor of the list that has a state with the target speed 0. In every
  -- other case, and for every other motor, it leaves the target speed as it was: a command that is
  -- too old stops nothing while the motors are off.
  pub control_loop-target :
      (speeds : Speeds W) (c : Config) (now steady id : ℕ) (n : Node) (states : States W)
      → view target id (control_loop speeds c now steady n states).states ≡ (
          if n.motors_enabled && ltb (n.last_cmd_time + c.cmd_timeout) now && listed id c.motors
          then Option.map (λ (m : MotorState W). halted speeds id) (find_state id states)
          else view target id states)
  unfolding control_loop watch_commands
  control_loop-target speeds c now steady id n states =
      check_feedback-view target c steady id c.motors _ (mark_reinit-target steady)
      ∙ check_alarms-view target id c.motors _ settle_alarm-target
      ∙ ground (arith, stop_targets-target speeds id c.motors states)
