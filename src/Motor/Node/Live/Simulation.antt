-- ===== src/Motor/Node/Live/Simulation.antt =====
-- What the node's threads and flags do in the whole node is what Motor/Node/Threads allows
-- (catkin_ws/src/motor_driver/src/motor_driver_node.cpp).
use ku_polishing_robot_drive.Base.{Bool-cases, List, inl, inr, length, ltb, ℕ, ◌≤◌}
use ku_polishing_robot_drive.Motor.Node.Live.{
  Live, Run, after_command, begun, ended, halted, heard, here, looped, moved, next, ordered,
}
use ku_polishing_robot_drive.Motor.Node.Threads.{Reach, System, command, tick}
use ku_polishing_robot_drive.Motor.Node.{
  Config, check_alarms, check_feedback, cmd_callback, control_loop, watch_commands,
}
use ku_polishing_robot_drive.Motor.Velocity.{Speeds}
use ku_polishing_robot_drive.Motor.Controller.{States}

module _ {W : Type 0} (speeds : Speeds W) (c : Config) where
  after_command-Reach :
      (start : System) (s : Live W) (now : ℕ) (rpms : List W)
      → Reach W c start s.system
      → s.system.time ≤ now
      → Reach W c start (after_command speeds c now rpms s).system
  unfolding cmd_callback
  after_command-Reach start s now rpms r h =
      elim (Bool-cases (ltb (length rpms) (length c.motors))) [
        | inl short ↦ rw short r
        | inr whole ↦ rw whole (Reach.next r (command now h))
      ]

  -- For the flags and the threads a run of the whole node is a run of the step relation.
  pub Run-Reach : {s t : Live W} → Run speeds c s t → Reach W c s.system t.system
  unfolding control_loop
  Run-Reach here = Reach.here
  Run-Reach {s} (next {t} r (ordered now rpms h)) =
      after_command-Reach s.system t now rpms (Run-Reach r) h
  Run-Reach {s} (next {t} r (looped now steady h free)) =
      let stopped : States W = watch_commands speeds c now t.system.node t.states in
      let settled = check_alarms c.motors stopped in
      let checked = check_feedback c steady c.motors settled.0 in
      Reach.next (Run-Reach r) (tick now checked.0 settled.2 checked.2 h free)
  Run-Reach (next r (heard steady frame)) = Run-Reach r
  Run-Reach (next r (moved step thread)) = Reach.next (Run-Reach r) step
  Run-Reach (next r (halted front back e)) = Run-Reach r
  Run-Reach (next r (begun front back id steady m e found due)) = Run-Reach r
  Run-Reach (next r (ended front back id steady e)) = Run-Reach r
