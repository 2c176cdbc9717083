-- ===== src/Tests/Lines.antt =====
-- The lift driver's commands on the line (catkin_ws/src/lift_driver) at a concrete input.
use ku_polishing_robot_drive.Base.{List, [], negsuc, pos, ℕ, ◌∷◌, ◌≡◌}
use ku_polishing_robot_drive.Lift.Protocol.{Command, Ids, alarm_reset, monitor, velocity}
use ku_polishing_robot_drive.Lift.Receive.{scan}
use ku_polishing_robot_drive.Lift.Receive.Lines.{encode_all, handle_all, scan-encode_all}
use ku_polishing_robot_drive.Lift.Receive.Resync.{reply_ids}

abbrev ids : Ids
ids = record { motor_rmid = 183; host_mid = 172; ctrl_id = 1 }

abbrev commands : List Command
commands = monitor ∷ velocity (negsuc 299) ∷ velocity (pos 0) ∷ alarm_reset ∷ []

abbrev collect : List (ℕ × List ℕ) → ℕ → List ℕ → List (ℕ × List ℕ)
collect seen pid bytes = (pid, bytes) ∷ seen

scan-encode_all_example :
    scan (reply_ids ids) collect (encode_all ids commands) [] ≡ (handle_all collect commands [], [])
scan-encode_all_example = scan-encode_all ids collect commands []
