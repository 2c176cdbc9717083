-- ===== src/Tests/Races.antt =====
-- `cmdCallback` beside a round of `sync_loop` (catkin_ws/src/motor_driver) on concrete inputs.
use ku_polishing_robot_drive.Base.{[], pos, refl, ◌∷◌, ◌≡◌}
use ku_polishing_robot_drive.Motor.Controller.{find_state, update_state}
use ku_polishing_robot_drive.Motor.Velocity.{
  set_target_velocity, sync_frame, sync_round, target_frame, velocity_frame,
}
use ku_polishing_robot_drive.Motor.Node.{cmd_callback}
use ku_polishing_robot_drive.Motor.Node.Races.{
  Mixed, command_stores, loading, raced_round, raced_round-cmd_callback, storing, stores,
}
use ku_polishing_robot_drive.Tests.Nodes.{config, driving, good, speeds}

-- a round that is torn: the first motor has its old speed, the second its new one
torn :
    raced_round speeds
      (loading ∷ storing ∷ storing ∷ [])
      (command_stores speeds config (pos 70 ∷ pos 80 ∷ []) driving)
      (1 ∷ 2 ∷ [])
      good
    ≡ velocity_frame 1 (pos 40) ∷ velocity_frame 2 (pos 80) ∷ sync_frame ∷ []
unfolding raced_round command_stores stores sync_round target_frame set_target_velocity update_state
    find_state
torn = refl

raced_round-cmd_callback_example :
    Mixed speeds good
      (cmd_callback speeds config 1000 (pos 70 ∷ pos 80 ∷ []) driving good).1
      (1 ∷ 2 ∷ [])
      (raced_round speeds
        (loading ∷ storing ∷ storing ∷ [])
        (command_stores speeds config (pos 70 ∷ pos 80 ∷ []) driving)
        (1 ∷ 2 ∷ [])
        good)
raced_round-cmd_callback_example =
    raced_round-cmd_callback speeds (loading ∷ storing ∷ storing ∷ []) config 1000
      (pos 70 ∷ pos 80 ∷ []) driving (1 ∷ 2 ∷ []) good (((λ e. cc), tt), (tt, tt))
