-- ===== src/Can.antt =====
-- The CAN interface of the drivers (catkin_ws/src/can_interface/src/can_interface.cpp): `open` and
-- `close`, the overloads of `write`, and the read loop. What the system calls answer is an argument.
pub mod Frames
use ku_polishing_robot_drive.Base.{
  Bool, List, Option, [], false, if◌then◌else◌, length, ltb, none, not, some, take, true, u8, ℕ,
  ◌&&◌, ◌||◌, ◌∷◌,
}

-- The first `can_dlc` bytes of `data`; what stands behind them is not sent on the bus.
pub record Frame : Type 0 where
  pub can_id : ℕ
  pub dlc : ℕ
  pub payload : List ℕ

-- the answers of `socket`, `ioctl` and `bind`
pub record OpenCalls : Type 0 where
  pub socket : Bool
  pub ioctl : Bool
  pub bind : Bool

-- `can_fd_ >= 0`, `is_running_`, `callback_` is set, and what was written, newest first
pub record CanInterface : Type 0 where
  pub is_open : Bool
  pub is_running : Bool
  pub has_callback : Bool
  pub written : List Frame

abbrev pub new_interface : CanInterface
new_interface = record { is_open = false; is_running = false; has_callback = false; written = [] }

unfoldable pub open_device : OpenCalls → CanInterface → CanInterface × Bool
open_device calls c =
    if not calls.socket || not calls.ioctl || not calls.bind
    then (record c { is_open = false }, false)
    else (record c { is_open = true; is_running = true }, true)

unfoldable pub close_device : CanInterface → CanInterface
close_device c = record c { is_open = false; is_running = false }

unfoldable pub register_callback : CanInterface → CanInterface
register_callback c = record c { has_callback = true }

-- `write` of a frame, and whether the system call takes it; an error is only logged
unfoldable pub write_frame : Bool → Frame → CanInterface → CanInterface
write_frame taken frame c =
    if c.is_open && taken then record c { written = frame ∷ c.written } else c

-- `write` of a pointer and a length; without a pointer the bytes are those that the local frame
-- happens to hold
unfoldable pub write_pointer : List ℕ → Bool → ℕ → Option (List ℕ) → ℕ → CanInterface → CanInterface
write_pointer stale taken can_id bytes dlc c =
    if ltb 8 dlc
    then c
    else write_frame taken
        (record {
          can_id = can_id;
          dlc = dlc;
          payload = take dlc (elim bytes [ none ↦ stale | some bs ↦ bs ]);
        })
        c

unfoldable pub write_vector : Bool → ℕ → List ℕ → CanInterface → CanInterface
write_vector taken can_id bytes c =
    if ltb 8 (length bytes)
    then c
    else write_frame taken (record { can_id = can_id; dlc = u8 (length bytes); payload = bytes }) c

unfoldable pub write_bytes : Bool → ℕ → (b1 b2 b3 b4 b5 b6 b7 b8 : ℕ) → CanInterface → CanInterface
write_bytes taken can_id b1 b2 b3 b4 b5 b6 b7 b8 c =
    write_frame taken
      (record { can_id = can_id; dlc = 8; payload = b1 ∷ b2 ∷ b3 ∷ b4 ∷ b5 ∷ b6 ∷ b7 ∷ b8 ∷ [] }) c

-- the answers of `read`, in order: a whole frame, fewer bytes, or an error
pub data ReadAnswer : Type 0 where
  whole : Frame → ReadAnswer
  short error : ReadAnswer

-- the frames that the read loop hands to the callback, while it runs
unfoldable pub read_loop : CanInterface → List ReadAnswer → List Frame
read_loop c [] = []
read_loop c (whole frame ∷ rest) =
    if c.is_open && c.has_callback then frame ∷ read_loop c rest else read_loop c rest
read_loop c (short ∷ rest) = read_loop c rest
read_loop c (error ∷ rest) = read_loop c rest
