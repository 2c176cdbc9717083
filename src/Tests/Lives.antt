-- ===== src/Tests/Lives.antt =====
-- The whole motor driver node at concrete inputs.
use ku_polishing_robot_drive.Base.{List, [], arith, pos, refl, true, ℕ, ℤ, ◌∷◌, ◌≡◌}
use ku_polishing_robot_drive.Motor.Controller.{find_state}
use ku_polishing_robot_drive.Motor.Node.Live.{
  Live, Run, start_live, here, next, ordered, after_command,
}
use ku_polishing_robot_drive.Motor.Node.Live.Stale.{
  Callback, message, on_callbacks, on_callbacks-sync_round, timer,
}
use ku_polishing_robot_drive.Motor.Node.Live.Stopped.{sync_round-locked}
use ku_polishing_robot_drive.Motor.Node.Live.Targets.{HasZero}
use ku_polishing_robot_drive.Motor.Node.{compute_want_enabled, update_enable_state}
use ku_polishing_robot_drive.Motor.Velocity.{sync_frame, sync_round, velocity_frame, target_frame}
use ku_polishing_robot_drive.Motor.Controller.Setup.{init}
use ku_polishing_robot_drive.Tests.Drives.{tens, still}
use ku_polishing_robot_drive.Tests.Nodes.{config, locked}

tens-HasZero : HasZero tens
tens-HasZero = record { zero = refl; negative_zero = refl }

-- two motors, one configured from 10 to 20, the other from 20 to 30
abbrev nodes : List (ℕ × ℕ × ℕ)
nodes = (1, 10, 20) ∷ (2, 20, 30) ∷ []

abbrev start : Live ℤ
start = start_live locked 40 (init tens.zero_speed true nodes 35).0

-- a command of 50 and 60 arrives while the motors may not run
abbrev commanded : Live ℤ
commanded = after_command tens locked 45 (pos 50 ∷ pos 60 ∷ []) start

to_commanded : Run tens locked start commanded
unfolding update_enable_state
to_commanded = next here (ordered 45 (pos 50 ∷ pos 60 ∷ []) (omega arith))

sync_round-locked_example :
    sync_round tens (1 ∷ 2 ∷ []) commanded.states
    ≡ velocity_frame 1 (pos 0) ∷ velocity_frame 2 (pos 0) ∷ sync_frame ∷ []
unfolding compute_want_enabled
sync_round-locked_example =
    sync_round-locked tens locked true nodes 40 35 (1 ∷ 2 ∷ []) tens-HasZero refl to_commanded

-- The motors went off at a speed of 70, a stop is commanded, and time passes.
abbrev gone_off : Live ℤ
gone_off = start_live config 40 ((1, record still { target_velocity = pos 70 }) ∷ [])

abbrev callbacks : List (Callback ℤ)
callbacks = message 50 (pos 0 ∷ pos 0 ∷ []) ∷ timer 2000 2000 ∷ []

on_callbacks-sync_round_example :
    sync_round tens (1 ∷ []) (on_callbacks tens config callbacks gone_off).states
    ≡ velocity_frame 1 (pos 70) ∷ sync_frame ∷ []
unfolding sync_round target_frame find_state update_enable_state
on_callbacks-sync_round_example =
    on_callbacks-sync_round tens config (1 ∷ []) callbacks gone_off refl
