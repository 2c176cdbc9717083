-- ===== src/Motor/Node/Live/Stopped.antt =====
-- Speeds while the interlock is not satisfied, and while the motors are off
-- (catkin_ws/src/motor_driver).
use ku_polishing_robot_drive.Base.{
  Bool, Bool-cases, List, Option-cases, [], ap, arith, false, inl, inr, map, pos, refl, same, some,
  subst, sym, ℕ, ◌++◌, ◌==◌, ◌∷◌, ◌≡◌,
}
use mathlib.Core.Path.{ap₂}
use ku_polishing_robot_drive.Motor.Node.Live.Simulation.{Run-Reach}
use ku_polishing_robot_drive.Motor.Node.Live.Targets.{
  AllStill, Each, HasZero, IsStill, begin_configure-AllStill, can_callback-AllStill,
  check_alarms-AllStill, check_feedback-AllStill, end_configure-AllStill, init-AllStill,
  stop_targets-AllStill,
}
use ku_polishing_robot_drive.Motor.Node.Live.{
  Live, Run, after_command, after_loop, begun, ended, halted, heard, here, looped, moved, next,
  ordered, start_live,
}
use ku_polishing_robot_drive.Motor.Node.Threads.Exclusion.{interlock_keeps_off}
use ku_polishing_robot_drive.Motor.Node.Threads.Invariant.{interlock}
use ku_polishing_robot_drive.Motor.Node.{Config, cmd_callback, control_loop, watch_commands}
use ku_polishing_robot_drive.Motor.Velocity.{
  Speeds, sync_frame, sync_round, target_frame, velocity_frame,
}
use ku_polishing_robot_drive.Motor.Controller.Setup.{init}
use ku_polishing_robot_drive.Motor.Controller.{MotorState, States, find_state}

module _ {W : Type 0} (speeds : Speeds W) (c : Config) where
  pub after_command-off :
      (now : ℕ) (rpms : List W) (s : Live W)
      → s.system.node.motors_enabled ≡ false
      → (after_command speeds c now rpms s).states ≡ s.states
  unfolding cmd_callback
  after_command-off now rpms s off = ground arith

  pub watch_commands-off :
      (now : ℕ) (s : Live W)
      → s.system.node.motors_enabled ≡ false
      → watch_commands speeds c now s.system.node s.states ≡ s.states
  unfolding watch_commands
  watch_commands-off now s off = ground arith

  after_loop-AllStill :
      (now steady : ℕ) (s : Live W)
      → s.system.node.motors_enabled ≡ false
      → AllStill speeds s.states
      → AllStill speeds (after_loop speeds c now steady s).states
  unfolding control_loop
  after_loop-AllStill now steady s off h = check_feedback-AllStill speeds c steady c.motors _ (
      check_alarms-AllStill speeds c.motors _
        (subst (AllStill speeds) (sym (watch_commands-off now s off)) h))

  module _ (z : HasZero speeds) (locked : interlock c ≡ false) {now : ℕ} {states : States W}
      (at_first : AllStill speeds states) where
    off :
        {s : Live W}
        → Run speeds c (start_live c now states) s
        → s.system.node.motors_enabled ≡ false
    off r = (interlock_keeps_off (Run-Reach speeds c r) locked).0

    Run-AllStill :
        {s : Live W} → Run speeds c (start_live c now states) s → AllStill speeds s.states
    Run-AllStill here = at_first
    Run-AllStill (next {t} r (ordered later rpms h)) =
        subst (AllStill speeds) (sym (after_command-off later rpms t (off r))) (Run-AllStill r)
    Run-AllStill (next {t} r (looped later steady h free)) =
        after_loop-AllStill later steady t (off r) (Run-AllStill r)
    Run-AllStill (next {t} r (heard steady frame)) =
        can_callback-AllStill speeds steady frame t.states (Run-AllStill r)
    Run-AllStill (next r (moved step thread)) = Run-AllStill r
    Run-AllStill (next {t} r (halted front back e)) =
        stop_targets-AllStill speeds c.motors t.states z (Run-AllStill r)
    Run-AllStill (next {t} r (begun front back id steady m e found due)) =
        begin_configure-AllStill speeds id steady t.states z (Run-AllStill r)
    Run-AllStill (next {t} r (ended front back id steady e)) =
        end_configure-AllStill speeds id steady t.states (Run-AllStill r)

  Each-find_state :
      (P : MotorState W → Type 0) (id : ℕ) (m : MotorState W) (states : States W)
      → Each P states
      → find_state id states ≡ some m
      → P m
  unfolding find_state
  Each-find_state P id m [] h e = cc
  Each-find_state P id m ((k, t) ∷ rest) h e = elim (Bool-cases (k == id)) [
    | inl same ↦ let eq : t ≡ m = ground arith in subst P eq h.0
    | inr other ↦ Each-find_state P id m rest h.1 (ground arith)
  ]

  target_frame-still :
      (id : ℕ) (states : States W)
      → HasZero speeds
      → AllStill speeds states
      → target_frame speeds id states ≡ velocity_frame id (pos 0)
  unfolding target_frame
  target_frame-still id states z h = elim (Option-cases (find_state id states)) [
    | inl missing ↦ rw (missing, target_frame) (ap (velocity_frame id) z.zero)
    | inr (m, found) ↦
        rw (found, target_frame)
          (ap (velocity_frame id) (Each-find_state (IsStill speeds) id m states h found))
  ]

  sync_round-AllStill :
      (ids : List ℕ) (states : States W)
      → HasZero speeds
      → AllStill speeds states
      → sync_round speeds ids states ≡ map (λ id. velocity_frame id (pos 0)) ids ++ sync_frame ∷ []
  unfolding sync_round
  sync_round-AllStill [] states z h = refl
  sync_round-AllStill (id ∷ ids) states z h =
      ap₂ ◌∷◌ (target_frame-still id states z h) (sync_round-AllStill ids states z h)

  -- While the interlock of the node's parameters is not satisfied, every round of `sync_loop` sends the
  -- speed 0 to every node, from the initialisation of the controller on: whatever is commanded and
  -- received and however the threads run.
  pub sync_round-locked :
      {s : Live W} (opened : Bool) (nodes : List (ℕ × ℕ × ℕ)) (now steady : ℕ) (ids : List ℕ)
      → HasZero speeds
      → interlock c ≡ false
      → Run speeds c (start_live c now (init speeds.zero_speed opened nodes steady).0) s
      → sync_round speeds ids s.states
        ≡ map (λ id. velocity_frame id (pos 0)) ids ++ sync_frame ∷ []
  sync_round-locked {s} opened nodes now steady ids z locked r =
      sync_round-AllStill ids s.states z
        (Run-AllStill z locked (init-AllStill speeds opened nodes steady z) r)
