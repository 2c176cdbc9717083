-- ===== src/CommandPath/Measured.antt =====
-- The measured speeds of two motors are the commanded ones (catkin_ws/src/motor_driver).
use ku_polishing_robot_drive.Base.{
  Bool, IsInt32, List, [], ap, arith, false, if◌then◌else◌, neg, refl, some, sym, true, ℕ, ℤ, ◌<◌,
  ◌==◌, ◌∙◌, ◌∷◌, ◌≡◌, ◌≢◌,
}
use mathlib.Core.Path.{ap₂}
use ku_polishing_robot_drive.CommandPath.{Report, echo_all, rounded}
use ku_polishing_robot_drive.Motor.Controller.Callback.{
  find_state-can_callback, find_state-update_state,
}
use ku_polishing_robot_drive.Motor.Controller.{Frame as MotorFrame}
use ku_polishing_robot_drive.Motor.Controller.{
  MotorState, States, can_callback, find_state, node_of,
}
use ku_polishing_robot_drive.Motor.Velocity.Feedback.{
  IsSymmetric, echo, feedback-echo, find_state-set_target_velocity, target_frame-found,
}
use ku_polishing_robot_drive.Motor.Velocity.{
  Speeds, get_feedback_velocity, set_target_velocity, sync_round, velocity_frame,
}
use ku_polishing_robot_drive.Motor.Node.{directed, set_targets, velocities}
use ku_polishing_robot_drive.Can.{Frame as CanFrame}

module _ {W : Type 0} (speeds : Speeds W) where
  -- What IEEE arithmetic gives besides: a quotient changes its sign with its dividend, the two zeros
  -- taken as equal.
  pub record IsOdd : Type 0 where
    pub symmetric : IsSymmetric speeds
    pub of_pps_neg : (z : ℤ) → speeds.of_pps (neg z) ≡ speeds.negate (speeds.of_pps z)

  -- Neither the speed nor its opposite is too large for a frame.
  abbrev pub Fits : W → Type 0
  Fits w = IsInt32 (speeds.to_pps w) × IsInt32 (speeds.to_pps (speeds.negate w))

  -- what `set_target_velocity` stores for a motor
  abbrev mounted : ℕ → W → W
  mounted node w = if node == 2 then speeds.negate w else w

  directed-Fits : (reversed : Bool) (w : W) → IsOdd → Fits w → Fits (directed speeds reversed w)
  directed-Fits false w laws h = h
  directed-Fits true w laws h = (h.1, rw (laws.symmetric.negate_negate w) h.0)

  measured-mounted :
      (now node : ℕ) (w : W) (position : List ℕ) (states : States W) (m : MotorState W)
      → IsOdd
      → node < 128
      → Fits w
      → find_state node states ≡ some m
      → get_feedback_velocity speeds node (
          can_callback now
            (echo speeds node (velocity_frame node (speeds.to_pps (mounted node w))) position)
            states)
        ≡ rounded speeds w
  measured-mounted now node w position states m laws small fits h =
      feedback-echo speeds now node (speeds.to_pps (mounted node w)) position states m small
        (ground arith) h
      ∙ ground (
        arith,
        laws.symmetric.to_pps_negate w,
        laws.symmetric.of_pps_reversed_neg (speeds.to_pps w),
      )

  directed-rounded :
      (reversed : Bool) (w : W)
      → IsOdd
      → directed speeds reversed (rounded speeds (directed speeds reversed w)) ≡ rounded speeds w
  directed-rounded false w laws = refl
  directed-rounded true w laws =
      ap (λ (z : ℤ). speeds.negate (speeds.of_pps z)) (laws.symmetric.to_pps_negate w)
      ∙ ap speeds.negate (laws.of_pps_neg (speeds.to_pps w))
      ∙ laws.symmetric.negate_negate (rounded speeds w)

  get_feedback_velocity-same :
      (node : ℕ) (xs ys : States W)
      → find_state node xs ≡ find_state node ys
      → get_feedback_velocity speeds node xs ≡ get_feedback_velocity speeds node ys
  unfolding get_feedback_velocity
  get_feedback_velocity-same node xs ys e = rw (e, get_feedback_velocity) refl

  find_state-set_target_velocity_ne :
      (node other : ℕ) (w : W) (states : States W)
      → node ≢ other
      → find_state other (set_target_velocity speeds node w states) ≡ find_state other states
  unfolding set_target_velocity
  find_state-set_target_velocity_ne node other w states apart = ground (
    arith,
    find_state-update_state node other
        (λ (m : MotorState W). record m { target_velocity = mounted node w }) states,
  )

  find_state-echo_ne :
      (now node other : ℕ) (command : CanFrame) (position : List ℕ) (states : States W)
      → node < 128
      → node ≢ other
      → find_state other (can_callback now (echo speeds node command position) states)
        ≡ find_state other states
  find_state-echo_ne now node other command position states small apart =
      let frame : MotorFrame = echo speeds node command position in
      let id : node_of frame ≡ node = omega arith in
      ground (arith, find_state-can_callback now frame states other, id)

  -- Two motors with any directions and mountings.
  pub velocities-echo :
      (a b : Report) (da db : Bool) (l r : W) (states : States W) (ma mb : MotorState W)
      → IsOdd
      → a.node < 128
      → b.node < 128
      → a.node ≢ b.node
      → Fits l
      → Fits r
      → find_state a.node states ≡ some ma
      → find_state b.node states ≡ some mb
      → let motors : List (ℕ × Bool) = (a.node, da) ∷ (b.node, db) ∷ [] in
        let commanded = set_targets speeds motors (l ∷ r ∷ []) states in
        velocities speeds motors (
          echo_all speeds
            (a ∷ b ∷ [])
            (sync_round speeds (a.node ∷ b.node ∷ []) commanded)
            commanded)
        ≡ rounded speeds l ∷ rounded speeds r ∷ []
  unfolding set_targets sync_round
  velocities-echo a b da db l r states ma mb laws sa sb apart fl fr ha hb =
      let wa : W = directed speeds da l in
      let wb : W = directed speeds db r in
      let first = set_target_velocity speeds a.node wa states in
      let commanded = set_target_velocity speeds b.node wb first in
      let at_a : find_state a.node commanded
          ≡ some (record ma { target_velocity = mounted a.node wa }) =
        find_state-set_target_velocity_ne b.node a.node wb first (λ e. apart (sym e))
        ∙ find_state-set_target_velocity speeds a.node wa states ma ha in
      let at_b : find_state b.node commanded
          ≡ some (record mb { target_velocity = mounted b.node wb }) =
        find_state-set_target_velocity speeds b.node wb first mb
          (find_state-set_target_velocity_ne a.node b.node wa states apart ∙ hb) in
      let frame_a : CanFrame = velocity_frame a.node (speeds.to_pps (mounted a.node wa)) in
      let frame_b : CanFrame = velocity_frame b.node (speeds.to_pps (mounted b.node wb)) in
      let heard = can_callback a.now (echo speeds a.node frame_a a.position) commanded in
      let at_b' : find_state b.node heard
          ≡ some (record mb { target_velocity = mounted b.node wb }) =
        find_state-echo_ne a.now a.node b.node frame_a a.position commanded sa apart ∙ at_b in
      let get_a =
        get_feedback_velocity-same a.node
          (can_callback b.now (echo speeds b.node frame_b b.position) heard) heard
          (find_state-echo_ne b.now b.node a.node frame_b b.position heard sb (λ e. apart (sym e)))
        ∙ measured-mounted a.now a.node wa a.position commanded _ laws sa
            (directed-Fits da l laws fl) at_a in
      let get_b =
        measured-mounted b.now b.node wb b.position heard _ laws sb (directed-Fits db r laws fr)
          at_b' in
      rw (target_frame-found speeds a.node _ _ at_a, target_frame-found speeds b.node _ _ at_b)
        (ap₂ (λ (x y : W). x ∷ y ∷ []) (ap (directed speeds da) get_a ∙ directed-rounded da l laws)
          (ap (directed speeds db) get_b ∙ directed-rounded db r laws))
