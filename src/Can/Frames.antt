-- ===== src/Can/Frames.antt =====
-- What the CAN interface writes to the bus, over any calls of its methods
-- (catkin_ws/src/can_interface/src/can_interface.cpp).
use ku_polishing_robot_drive.Base.{
  Bool, List, Option, [], false, if◌then◌else◌, leb, length, none, some, take, true, ℕ, ◌&&◌, ◌∷◌,
  ◌≡◌, ◌≤◌,
}
use ku_polishing_robot_drive.Can.{
  Frame, CanInterface, OpenCalls, close_device, register_callback, write_bytes, write_frame,
  write_pointer, write_vector, open_device,
}

-- A call of one of the four overloads of `write`; `raw` hands over a whole frame.
pub data Overload : Type 0 where
  raw : Frame → Overload
  pointer : List ℕ → ℕ → Option (List ℕ) → ℕ → Overload
  vector : ℕ → List ℕ → Overload
  eight : ℕ → (b1 b2 b3 b4 b5 b6 b7 b8 : ℕ) → Overload

-- A call of a method, with the answers of the system calls.
pub data Call : Type 0 where
  opening : OpenCalls → Call
  closing registering : Call
  writing : Bool → Overload → Call

unfoldable pub write : Bool → Overload → CanInterface → CanInterface
write taken (raw frame) c = write_frame taken frame c
write taken (pointer stale can_id bs dlc) c = write_pointer stale taken can_id bs dlc c
write taken (vector can_id bs) c = write_vector taken can_id bs c
write taken (eight can_id b1 b2 b3 b4 b5 b6 b7 b8) c =
    write_bytes taken can_id b1 b2 b3 b4 b5 b6 b7 b8 c

unfoldable pub call : Call → CanInterface → CanInterface
call (opening calls) c = (open_device calls c).0
call closing c = close_device c
call registering c = register_callback c
call (writing taken w) c = write taken w c

unfoldable pub calls_of : List Call → CanInterface → CanInterface
calls_of [] c = c
calls_of (k ∷ ks) c = calls_of ks (call k c)

-- what a caller means to send
pub message : Overload → Frame
message (raw frame) = frame
message (pointer stale can_id none dlc) = record {
  can_id = can_id;
  dlc = dlc;
  payload = take dlc stale;
}
message (pointer stale can_id (some bs) dlc) = record {
  can_id = can_id;
  dlc = dlc;
  payload = take dlc bs;
}
message (vector can_id bs) = record { can_id = can_id; dlc = length bs; payload = bs }
message (eight can_id b1 b2 b3 b4 b5 b6 b7 b8) = record {
  can_id = can_id;
  dlc = 8;
  payload = b1 ∷ b2 ∷ b3 ∷ b4 ∷ b5 ∷ b6 ∷ b7 ∷ b8 ∷ [];
}

-- Every overload but that of a whole frame refuses more than 8 bytes.
pub fits : Overload → Bool
fits (raw frame) = true
fits w = leb (message w).dlc 8

-- The frames on the bus, the first one first: what is meant while the interface is open, fits, and is
-- taken by the system call.
pub on_bus : Bool → List Call → List Frame
on_bus is_open [] = []
on_bus is_open (opening calls ∷ ks) = on_bus (calls.socket && calls.ioctl && calls.bind) ks
on_bus is_open (closing ∷ ks) = on_bus false ks
on_bus is_open (registering ∷ ks) = on_bus is_open ks
on_bus is_open (writing taken w ∷ ks) =
    if is_open && taken && fits w then message w ∷ on_bus is_open ks else on_bus is_open ks

-- A caller of the pointer overload has as many bytes as it says; a caller with a whole frame has
-- filled it in, with at most 8 bytes, which nothing checks.
abbrev pub IsProper : Call → Type 0
IsProper (writing taken (pointer stale can_id none dlc)) = dlc ≤ length stale
IsProper (writing taken (pointer stale can_id (some bs) dlc)) = dlc ≤ length bs
IsProper (writing taken (raw frame)) = (frame.dlc ≤ 8) × (length frame.payload ≡ frame.dlc)
IsProper _ = Unit

abbrev pub IsFrame : Frame → Type 0
IsFrame frame = (frame.dlc ≤ 8) × (length frame.payload ≡ frame.dlc)

-- onto the frames written before, newest first
pub onto : List Frame → List Frame → List Frame
onto [] before = before
onto (frame ∷ frames) before = onto frames (frame ∷ before)
