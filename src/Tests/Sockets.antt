-- ===== src/Tests/Sockets.antt =====
-- The socket of the safety I/O driver (catkin_ws/src/safety_io_driver) with given answers.
use ku_polishing_robot_drive.Base.{List, [], false, refl, true, ◌∷◌, ◌≡◌}
use ku_polishing_robot_drive.SafetyIo.Socket.{
  Answers, Send, pending, send_all, taken, interrupted, failed,
}
use ku_polishing_robot_drive.SafetyIo.Socket.Descriptors.{Call, opening}

abbrev good : Answers
good = record {
  socket = true;
  nonblocking = true;
  address = true;
  connect = pending;
  selected = true;
  connected = true;
  restored = true;
}

-- a connection, a second one that runs into its timeout, a third
abbrev calls : List Call
calls = opening good ∷ opening (record good { selected = false }) ∷ opening good ∷ []

abbrev answers : List Send
answers = taken 2 ∷ interrupted ∷ taken 1 ∷ failed ∷ []

three_sent : (send_all answers (9 ∷ 8 ∷ 7 ∷ 6 ∷ [])).sent ≡ 9 ∷ 8 ∷ 7 ∷ []
unfolding send_all
three_sent = refl
