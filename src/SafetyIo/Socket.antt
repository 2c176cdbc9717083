-- ===== src/SafetyIo/Socket.antt =====
-- `openSocket`, `closeSocket` and `sendAll` of `ModbusTcpClient`
-- (catkin_ws/src/safety_io_driver/src/safety_io_node.cpp). What the system calls answer is an
-- argument.
pub mod Descriptors
use ku_polishing_robot_drive.Base.{
  Bool, List, [], drop, false, if◌then◌else◌, not, suc, take, true, zero, ℕ, ◌&&◌, ◌++◌, ◌+◌, ◌-◌,
  ◌||◌, ◌∷◌,
}

-- `fd_ >= 0`, and how many descriptors of sockets the client has opened and not closed
pub record Socket : Type 0 where
  pub is_open : Bool
  pub held : ℕ

-- `connect`: at once, in progress, or an error
pub data Connect : Type 0 where
  done pending refused : Connect

-- the answers in the order of the calls; `selected`: the socket becomes writable in time,
-- `connected`: `getsockopt` finds no error
pub record Answers : Type 0 where
  pub socket : Bool
  pub nonblocking : Bool
  pub address : Bool
  pub connect : Connect
  pub selected : Bool
  pub connected : Bool
  pub restored : Bool

unfoldable pub close_socket : Socket → Socket
close_socket s = if s.is_open then record s { is_open = false; held = s.held - 1 } else s

unfoldable pub has_connected : Answers → Bool
has_connected a = elim a.connect [
  | done ↦ true
  | pending ↦ a.selected && a.connected
  | refused ↦ false
]

-- each failure after `socket` closes the new descriptor
unfoldable pub open_socket : Answers → Socket → Socket × Bool
open_socket a s =
    let t = close_socket s in
    let made = record t { held = t.held + 1 } in
    if not a.socket
    then (t, false)
    else if not a.nonblocking || not a.address || not (has_connected a) || not a.restored
    then (record made { held = made.held - 1 }, false)
    else (record made { is_open = true }, true)

-- the answers of `send`, in order: a number of bytes, an interrupted call, an error
pub data Send : Type 0 where
  taken : ℕ → Send
  interrupted failed : Send

-- What `sendAll` has sent, what it has not, and its result.
pub record Sent : Type 0 where
  pub sent : List ℕ
  pub left : List ℕ
  pub ok : Bool

-- `send` never takes more than it is given.
unfoldable pub send_all : List Send → List ℕ → Sent
send_all script [] = record { sent = []; left = []; ok = true }
send_all [] (b ∷ bs) = record { sent = []; left = b ∷ bs; ok = false }
send_all (interrupted ∷ script) (b ∷ bs) = send_all script (b ∷ bs)
send_all (failed ∷ script) (b ∷ bs) = record { sent = []; left = b ∷ bs; ok = false }
send_all (taken zero ∷ script) (b ∷ bs) = record { sent = []; left = b ∷ bs; ok = false }
send_all (taken (suc n) ∷ script) (b ∷ bs) =
    let more = send_all script (drop n bs) in record more { sent = b ∷ (take n bs ++ more.sent) }
