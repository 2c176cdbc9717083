-- ===== src/Crevis/Modbus/Sockets.antt =====
-- `openSock` and `sendAll` of `ModbusTcp` (catkin_ws/src/crevis_io_driver/src/crevis_io_node.cpp).
-- What the system calls answer is an argument.
use ku_polishing_robot_drive.Base.{
  Bool, List, [], drop, false, if◌then◌else◌, suc, take, true, zero, ℕ, ◌&&◌, ◌++◌, ◌∷◌,
}
use ku_polishing_robot_drive.SafetyIo.Socket.{
  Connect, Send, Sent, done, failed, interrupted, pending, refused, taken,
}
use ku_polishing_robot_drive.Crevis.Modbus.{Client, close_sock}

-- the answers in the order of the calls; those of `fcntl` and `setsockopt` are not looked at
pub record OpenAnswers : Type 0 where
  pub socket : Bool
  pub address : Bool
  pub connect : Connect
  pub selected : Bool
  pub connected : Bool

abbrev pub is_connected : OpenAnswers → Bool
is_connected a = elim a.connect [
  | done ↦ true
  | pending ↦ a.selected && a.connected
  | refused ↦ false
]

unfoldable pub open_sock : OpenAnswers → Client → Client × Bool
open_sock a c =
    if a.socket && a.address && is_connected a
    then (record c { is_open = true }, true)
    else (close_sock c, false)

-- An interrupted call fails too.
unfoldable pub send_all : List Send → List ℕ → Sent
send_all answers [] = record { sent = []; left = []; ok = true }
send_all [] (b ∷ bs) = record { sent = []; left = b ∷ bs; ok = false }
send_all (interrupted ∷ answers) (b ∷ bs) = record { sent = []; left = b ∷ bs; ok = false }
send_all (failed ∷ answers) (b ∷ bs) = record { sent = []; left = b ∷ bs; ok = false }
send_all (taken zero ∷ answers) (b ∷ bs) = record { sent = []; left = b ∷ bs; ok = false }
send_all (taken (suc n) ∷ answers) (b ∷ bs) =
    let more = send_all answers (drop n bs) in record more { sent = b ∷ (take n bs ++ more.sent) }
