-- ===== src/Motor/Node/Live/Stale.antt =====
-- What the callbacks do to the speeds while the motors are off (catkin_ws/src/motor_driver).
use ku_polishing_robot_drive.Base.{List, [], ap, arith, false, refl, ℕ, ◌∙◌, ◌∷◌, ◌≡◌}
use ku_polishing_robot_drive.Motor.Node.Commands.{target}
use ku_polishing_robot_drive.Motor.Node.Live.Stopped.{after_command-off, watch_commands-off}
use ku_polishing_robot_drive.Motor.Node.Live.Targets.{frame_effect-target}
use ku_polishing_robot_drive.Motor.Node.Live.{Live, after_command, after_loop}
use ku_polishing_robot_drive.Motor.Node.Views.{
  check_alarms-view, check_feedback-view, mark_reinit-target, settle_alarm-target, view,
  view-update_state,
}
use ku_polishing_robot_drive.Motor.Node.{Config, cmd_callback, control_loop}
use ku_polishing_robot_drive.Motor.Velocity.{Speeds, sync_round, target_frame}
use ku_polishing_robot_drive.Motor.Controller.{
  Frame, States, can_callback, code_of, frame_effect, node_of,
}
use mathlib.Core.Path.{ap₂}

-- A message on `/motor/cmd`, a run of `controlLoop`, a received frame.
pub data Callback (W : Type 0) : Type 0 where
  message : ℕ → List W → Callback W
  timer : ℕ → ℕ → Callback W
  arrival : ℕ → Frame → Callback W

module _ {W : Type 0} (speeds : Speeds W) (c : Config) where
  pub on_callback : Callback W → Live W → Live W
  on_callback (message now rpms) s = after_command speeds c now rpms s
  on_callback (timer now steady) s = after_loop speeds c now steady s
  on_callback (arrival steady f) s = record s { states = can_callback steady f s.states }

  pub on_callbacks : List (Callback W) → Live W → Live W
  on_callbacks [] s = s
  on_callbacks (k ∷ ks) s = on_callbacks ks (on_callback k s)

  on_callback-off :
      (k : Callback W) (s : Live W)
      → s.system.node.motors_enabled ≡ false
      → (on_callback k s).system.node.motors_enabled ≡ false
  unfolding on_callback cmd_callback control_loop
  on_callback-off (message now rpms) s off = ground arith
  on_callback-off (timer now steady) s off = off
  on_callback-off (arrival steady f) s off = off

  on_callback-target :
      (k : Callback W) (s : Live W) (id : ℕ)
      → s.system.node.motors_enabled ≡ false
      → view target id (on_callback k s).states ≡ view target id s.states
  unfolding on_callback control_loop can_callback
  on_callback-target (message now rpms) s id off =
      ap (view target id) (after_command-off speeds c now rpms s off)
  on_callback-target (timer now steady) s id off =
      check_feedback-view target c steady id c.motors _ (mark_reinit-target steady)
      ∙ check_alarms-view target id c.motors _ settle_alarm-target
      ∙ ap (view target id) (watch_commands-off speeds c now s off)
  on_callback-target (arrival steady f) s id off =
      view-update_state target id (node_of f) (frame_effect steady (code_of f) f) s.states
        (λ m. frame_effect-target speeds steady (code_of f) f m)

  target_frame-view :
      (id : ℕ) (xs ys : States W)
      → view target id xs ≡ view target id ys
      → target_frame speeds id xs ≡ target_frame speeds id ys
  unfolding target_frame
  target_frame-view id xs ys e = ground arith

  on_callback-sync_round :
      (ids : List ℕ) (k : Callback W) (s : Live W)
      → s.system.node.motors_enabled ≡ false
      → sync_round speeds ids (on_callback k s).states ≡ sync_round speeds ids s.states
  unfolding sync_round
  on_callback-sync_round [] k s off = refl
  on_callback-sync_round (id ∷ ids) k s off =
      ap₂ ◌∷◌
        (target_frame-view id (on_callback k s).states s.states (on_callback-target k s id off))
        (on_callback-sync_round ids k s off)

  -- While `motors_enabled_` is false, no command, no run of the control loop and no received frame
  -- changes what `sync_loop` sends: the speeds stay what they were when the motors went off, also if
  -- they are not 0 and the commands have ended.
  pub on_callbacks-sync_round :
      (ids : List ℕ) (ks : List (Callback W)) (s : Live W)
      → s.system.node.motors_enabled ≡ false
      → sync_round speeds ids (on_callbacks ks s).states ≡ sync_round speeds ids s.states
  unfolding on_callbacks
  on_callbacks-sync_round ids [] s off = refl
  on_callbacks-sync_round ids (k ∷ ks) s off =
      on_callbacks-sync_round ids ks (on_callback k s) (on_callback-off k s off)
      ∙ on_callback-sync_round ids k s off
