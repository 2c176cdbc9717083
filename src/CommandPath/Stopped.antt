-- ===== src/CommandPath/Stopped.antt =====
-- From a `/cmd_vel` that has stopped to the bus: the base controller, the motor driver node and the
-- sync thread (catkin_ws/src/motor_driver).
use ku_polishing_robot_drive.Base.{
  ==_iff, Bool, Bool-cases, Option-cases, [], ap, arith, false, if◌then◌else◌, inl, inr, none, pos,
  refl, same, subst, true, ℕ, ◌+◌, ◌<◌, ◌==◌, ◌∙◌, ◌∷◌, ◌≡◌,
}
use mathlib.Core.Path.{ap₂}
use ku_polishing_robot_drive.BaseController.{BaseState, Numbers, control_timer}
use ku_polishing_robot_drive.BaseController.{Config as BaseConfig}
use ku_polishing_robot_drive.BaseController.Limits.{IsNumbers, control_timer-stale}
use ku_polishing_robot_drive.Motor.Controller.{States, find_state}
use ku_polishing_robot_drive.Motor.Controller.Callback.{find_state-update_state}
use ku_polishing_robot_drive.Motor.Velocity.{
  Speeds, set_target_velocity, sync_frame, sync_round, target_frame, velocity_frame,
}
use ku_polishing_robot_drive.Motor.Velocity.Feedback.{
  find_state-other, find_state-set_target_velocity, target_frame-same, target_frame-found,
}
use ku_polishing_robot_drive.Motor.Node.{Config, Node, cmd_callback, directed, set_targets}

-- IEEE arithmetic: a 0, as a `float` too and with either sign, is 0 increments.
pub record Rests {R : Type 0} (num : Numbers R) (speeds : Speeds R) : Type 0 where
  pub nothing : speeds.to_pps speeds.zero_speed ≡ pos 0
  pub single_zero : speeds.to_pps (num.single num.zero_r) ≡ pos 0
  pub negated : (w : R) → speeds.to_pps w ≡ pos 0 → speeds.to_pps (speeds.negate w) ≡ pos 0

module _ {R : Type 0} (num : Numbers R) (speeds : Speeds R) (rests : Rests num speeds) where
  directed-rests :
      (reversed : Bool) (w : R)
      → speeds.to_pps w ≡ pos 0
      → speeds.to_pps (directed speeds reversed w) ≡ pos 0
  directed-rests true w e = rests.negated w e
  directed-rests false w e = e

  target_frame-missing :
      (node : ℕ) (states : States R)
      → find_state node states ≡ none
      → target_frame speeds node states ≡ velocity_frame node (pos 0)
  unfolding target_frame
  target_frame-missing node states missing =
      rw (missing, target_frame) (ap (velocity_frame node) rests.nothing)

  find_state-missing :
      (node : ℕ) (w : R) (states : States R)
      → find_state node states ≡ none
      → find_state node (set_target_velocity speeds node w states) ≡ find_state node states
  unfolding set_target_velocity
  find_state-missing node w states missing =
      find_state-update_state node node _ states ∙ rw (missing, (==_iff node node).1 refl) refl

  -- a node that was just given a speed of 0 is sent 0
  target_frame-set :
      (node : ℕ) (w : R) (states : States R)
      → speeds.to_pps w ≡ pos 0
      → target_frame speeds node (set_target_velocity speeds node w states)
        ≡ velocity_frame node (pos 0)
  target_frame-set node w states e = elim (Option-cases (find_state node states)) [
    | inl missing ↦
        target_frame-same speeds node _ states (find_state-missing node w states missing)
        ∙ target_frame-missing node states missing
    | inr (m, found) ↦
        target_frame-found speeds node _ _
          (find_state-set_target_velocity speeds node w states m found)
        ∙ ap (velocity_frame node) (by_side (node == 2))
  ]
    where
      by_side : (side : Bool) → speeds.to_pps (if side then speeds.negate w else w) ≡ pos 0
      by_side true = rests.negated w e
      by_side false = e

  -- Two nodes that were given 0, the same or not.
  frames-set :
      (a b : ℕ) (v w : R) (states : States R)
      → speeds.to_pps v ≡ pos 0
      → speeds.to_pps w ≡ pos 0
      → let t = set_target_velocity speeds b w (set_target_velocity speeds a v states) in
        (target_frame speeds a t ≡ velocity_frame a (pos 0))
        × (target_frame speeds b t ≡ velocity_frame b (pos 0))
  frames-set a b v w states ev ew =
      let first = set_target_velocity speeds a v states in
      (
        elim (Bool-cases (b == a)) [
          | inl same ↦
              let at : b ≡ a = ground arith in
              subst
                (λ k.
                  target_frame speeds k (set_target_velocity speeds b w first)
                  ≡ velocity_frame k (pos 0))
                at (target_frame-set b w first ew)
          | inr apart ↦
              target_frame-same speeds a _ first (find_state-other speeds a b w first apart)
              ∙ target_frame-set a v states ev
        ],
        target_frame-set b w first ew,
      )

  module _ (laws : IsNumbers num) where
    -- Where the last `/cmd_vel` is older than its timeout, the command that the base controller sends
    -- then makes the next round of sync_loop send speed 0 to both motors: whatever the last command,
    -- the speeds before, the parameters, the directions and the mounting of the motors are. The motors
    -- are two, and enabled.
    pub control_timer-sync_round :
        (bc : BaseConfig R) (c : Config) (now at : ℕ) (s : BaseState R) (n : Node) (a b : ℕ)
        (da db : Bool) (states : States R)
        → s.last_cmd_vel_time + bc.cmd_vel_timeout < now
        → c.motors ≡ (a, da) ∷ (b, db) ∷ []
        → n.motors_enabled ≡ true
        → sync_round speeds
            (a ∷ b ∷ [])
            (cmd_callback speeds c at (control_timer num bc now s) n states).1
          ≡ velocity_frame a (pos 0) ∷ velocity_frame b (pos 0) ∷ sync_frame ∷ []
    unfolding sync_round cmd_callback set_targets
    control_timer-sync_round bc c now at s n a b da db states late pair on =
        rw (control_timer-stale num laws bc now s late, pair, on)
          (let z = num.single num.zero_r in
            let f =
              frames-set a b (directed speeds da z) (directed speeds db z) states
                (directed-rests da z rests.single_zero) (directed-rests db z rests.single_zero) in
            ap₂ (λ x y. x ∷ y ∷ sync_frame ∷ []) f.0 f.1)
