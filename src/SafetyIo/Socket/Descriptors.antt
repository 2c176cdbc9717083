-- ===== src/SafetyIo/Socket/Descriptors.antt =====
-- No descriptor is lost, and no byte is skipped
-- (catkin_ws/src/safety_io_driver/src/safety_io_node.cpp).
use ku_polishing_robot_drive.Base.{
  List, [], ap, append_assoc, arith, drop, false, if◌then◌else◌, refl, suc, take, take-append-drop,
  true, zero, ℕ, ◌++◌, ◌↔◌, ◌∙◌, ◌∷◌, ◌≡◌,
}
use ku_polishing_robot_drive.SafetyIo.Socket.{
  Answers, Send, Socket, close_socket, failed, interrupted, open_socket, send_all, taken,
}

pub data Call : Type 0 where
  opening : Answers → Call
  closing : Call

pub calls_of : List Call → Socket → Socket
calls_of [] s = s
calls_of (opening a ∷ calls) s = calls_of calls (open_socket a s).0
calls_of (closing ∷ calls) s = calls_of calls (close_socket s)

-- the one descriptor of an open client
abbrev pub HoldsOne : Socket → Type 0
HoldsOne s = s.held ≡ (if s.is_open then 1 else 0)

open_socket-HoldsOne : (a : Answers) (s : Socket) → HoldsOne s → HoldsOne (open_socket a s).0
unfolding open_socket close_socket
open_socket-HoldsOne a s h = ground arith

close_socket-HoldsOne : (s : Socket) → HoldsOne s → HoldsOne (close_socket s)
unfolding close_socket
close_socket-HoldsOne s h = ground arith

calls_of-keeps : (calls : List Call) (s : Socket) → HoldsOne s → HoldsOne (calls_of calls s)
unfolding calls_of
calls_of-keeps [] s h = h
calls_of-keeps (opening a ∷ calls) s h =
    calls_of-keeps calls (open_socket a s).0 (open_socket-HoldsOne a s h)
calls_of-keeps (closing ∷ calls) s h =
    calls_of-keeps calls (close_socket s) (close_socket-HoldsOne s h)

-- After any calls of `openSocket` and `closeSocket`, whatever the system calls answer, a new client
-- holds exactly one descriptor if it is open, and none if it is not.
pub calls_of-HoldsOne :
    (calls : List Call) → HoldsOne (calls_of calls (record { is_open = false; held = 0 }))
calls_of-HoldsOne calls = calls_of-keeps calls (record { is_open = false; held = 0 }) refl

-- Whatever `send` answers, `sendAll` has put a beginning of its bytes on the connection, in order and
-- each once; it returns true exactly when nothing is left.
pub send_all-prefix :
    (script : List Send) (bytes : List ℕ)
    → ((send_all script bytes).sent ++ (send_all script bytes).left ≡ bytes)
      × (((send_all script bytes).ok ≡ true) ↔ ((send_all script bytes).left ≡ []))
unfolding send_all
send_all-prefix script [] = (refl, (λ h. refl, λ h. refl))
send_all-prefix [] (b ∷ bs) = (refl, (λ h. cc, λ h. cc))
send_all-prefix (interrupted ∷ script) (b ∷ bs) = send_all-prefix script (b ∷ bs)
send_all-prefix (failed ∷ script) (b ∷ bs) = (refl, (λ h. cc, λ h. cc))
send_all-prefix (taken zero ∷ script) (b ∷ bs) = (refl, (λ h. cc, λ h. cc))
send_all-prefix (taken (suc n) ∷ script) (b ∷ bs) =
    let ih = send_all-prefix script (drop n bs) in
    let front : List ℕ = take n bs in
    let more = send_all script (drop n bs) in
    (
      ap (λ (l : List ℕ). b ∷ l)
          (append_assoc front more.sent more.left
            ∙ ap (λ (l : List ℕ). front ++ l) ih.0
            ∙ take-append-drop n bs),
      ih.1,
    )
