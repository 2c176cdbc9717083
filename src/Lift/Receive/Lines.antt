-- ===== src/Lift/Receive/Lines.antt =====
-- The driver's own commands on the line, read with the frame scan of `readAndParse`
-- (catkin_ws/src/lift_driver/src/lift_driver_node.cpp).
use ku_polishing_robot_drive.Base.{List, [], arith, length, refl, ℕ, ◌++◌, ◌<◌, ◌∙◌, ◌∷◌, ◌≡◌}
use ku_polishing_robot_drive.Lift.Protocol.{
  Command, Ids, alarm_reset, command_data, command_pid, encode, inc_position, monitor, position,
  position_reset, position_vel, velocity,
}
use ku_polishing_robot_drive.Lift.Receive.{scan, scan_loop}
use ku_polishing_robot_drive.Lift.Receive.Resync.{reply_ids, scan-frame}

-- the bytes of commands that are sent one after the other
unfoldable pub encode_all : Ids → List Command → List ℕ
encode_all ids [] = []
encode_all ids (command ∷ commands) = encode ids command ++ encode_all ids commands

-- a reader that handles the pid and the data of each
unfoldable pub handle_all {ℓ} : {S : Type ℓ} → (S → ℕ → List ℕ → S) → List Command → S → S
handle_all handle [] s = s
handle_all handle (command ∷ commands) s =
    handle_all handle commands (handle s (command_pid command) (command_data command))

command_data-short : (command : Command) → length (command_data command) < 256
unfolding command_data
command_data-short (velocity rpm) = omega arith
command_data-short (position counts) = omega arith
command_data-short (inc_position counts) = omega arith
command_data-short (position_vel rpm) = omega arith
command_data-short position_reset = omega arith
command_data-short alarm_reset = omega arith
command_data-short monitor = omega arith

-- A reader at the motor's address that scans frames as the driver does takes from the bytes of any
-- commands, sent one after the other, exactly these commands, in order, each with its pid and its
-- data, and no byte is left.
pub scan-encode_all {ℓ} :
    {S : Type ℓ} (ids : Ids) (handle : S → ℕ → List ℕ → S) (commands : List Command) (s : S)
    → scan (reply_ids ids) handle (encode_all ids commands) s ≡ (handle_all handle commands s, [])
unfolding encode_all handle_all encode scan scan_loop
scan-encode_all ids handle [] s = refl
scan-encode_all ids handle (command ∷ commands) s =
    scan-frame (reply_ids ids) handle (command_pid command) (command_data command)
      (encode_all ids commands) s (command_data-short command)
    ∙ scan-encode_all ids handle commands _
