-- ===== src/Lift/Serial.antt =====
-- `SerialInterface` (catkin_ws/src/lift_driver/src/serial_interface.cpp). What the system calls
-- answer is an argument.
pub mod Writes
use ku_polishing_robot_drive.Base.{
  Bool, List, Option, [], drop, false, if◌then◌else◌, ltb_ℤ, negsuc, none, not, pos, some, take,
  true, ℕ, ℤ, ◌++◌, ◌+◌, ◌-◌, ◌==◌, ◌||◌, ◌∷◌,
}

-- `to_speed`; `none` is `B0`
unfoldable pub to_speed : ℕ → Option ℕ
to_speed baud =
    if baud == 9600 || baud == 19200 || baud == 38400 || baud == 57600 || baud == 115200
    then some baud
    else none

-- the answers of `open`, `tcgetattr`, `tcsetattr`
pub record OpenAnswers : Type 0 where
  pub opened : Bool
  pub attributes : Bool
  pub attributes_set : Bool

-- `fd_ >= 0`, and how many descriptors were opened and not closed
pub record Serial : Type 0 where
  pub is_open : Bool
  pub held : ℕ

-- `open`; it does not close what is open
unfoldable pub open_port : OpenAnswers → ℕ → Serial → Serial × Bool
open_port a baud s = elim (to_speed baud) [
  | none ↦ (s, false)
  | some speed ↦
      if not a.opened
      then (record s { is_open = false }, false)
      else if not a.attributes || not a.attributes_set
      then (record s { is_open = false }, false)
      else (record { is_open = true; held = s.held + 1 }, true)
]

unfoldable pub close_port : Serial → Serial
close_port s = if s.is_open then record { is_open = false; held = s.held - 1 } else s

-- the answers of `write`: a number of bytes, or an error
pub data WriteAnswer : Type 0 where
  taken : ℕ → WriteAnswer
  failed : WriteAnswer

-- What `write` has sent, what it has not, and its result; `none` while it still waits.
pub record Written : Type 0 where
  pub sent : List ℕ
  pub left : List ℕ
  pub result : Option Bool

unfoldable pub write_all : List WriteAnswer → List ℕ → Written
write_all answers [] = record { sent = []; left = []; result = some true }
write_all [] (b ∷ bs) = record { sent = []; left = b ∷ bs; result = none }
write_all (failed ∷ answers) (b ∷ bs) = record { sent = []; left = b ∷ bs; result = some false }
write_all (taken n ∷ answers) (b ∷ bs) =
    let more = write_all answers (drop n (b ∷ bs)) in
    record more { sent = take n (b ∷ bs) ++ more.sent }

unfoldable pub write_port : Serial → List WriteAnswer → List ℕ → Written
write_port s answers bytes =
    if s.is_open
    then write_all answers bytes
    else record { sent = []; left = bytes; result = some false }

-- `read`: -1 without a port, what `select` gives if it is not positive, or what `read` gives
unfoldable pub read_port : Serial → ℤ → ℤ → ℤ
read_port s selected got =
    if not s.is_open then negsuc 0 else if ltb_ℤ (pos 0) selected then got else selected
