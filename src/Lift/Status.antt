-- ===== src/Lift/Status.antt =====
-- The texts of `LiftDriver` (catkin_ws/src/lift_driver/src/lift_driver_node.cpp): `modeStr`, the words
-- of `decodeStatus`, the bits of `decodeDi`.
use ku_polishing_robot_drive.Base.{
  Bool, List, [], arith, has_bit, if◌then◌else◌, ℕ, ◌+◌, ◌<◌, ◌↔◌, ◌∷◌, ◌≡◌,
}
use ku_polishing_robot_drive.Lift.Driver.{Mode, homing, manual, position}
use Prim.Native.String.{String}

unfoldable pub mode_str : Mode → String
mode_str homing = "HOMING"
mode_str position = "POSITION"
mode_str manual = "MANUAL"

abbrev pub causes : List String
causes =
    "ALARM" ∷ "CTRL_FAIL" ∷ "OVER_VOLT" ∷ "OVER_TEMP" ∷ "OVER_LOAD" ∷ "HALL_FAIL" ∷ "INV_VEL"
    ∷ "STALL" ∷ []

-- the words of the bits from this one on that are set
unfoldable pub causes_from : ℕ → ℕ → List String → List String
causes_from st bit [] = []
causes_from st bit (word ∷ words) =
    let rest = causes_from st (bit + 1) words in if has_bit st bit then word ∷ rest else rest

-- `decodeStatus`, as its words
unfoldable pub decode_status : ℕ → List String
decode_status st = elim (causes_from st 0 causes) [ [] ↦ "OK" ∷ [] | word ∷ words ↦ word ∷ words ]

-- the values of DIR and START_STOP in `decodeDi`
unfoldable pub decode_di : ℕ → Bool × Bool
decode_di di = (has_bit di 2, has_bit di 4)

-- A status byte is told by its words: it has no cause exactly when it is 0.
causes_from-zero : (st : ℕ) → st < 256 → (causes_from st 0 causes ≡ []) ↔ (st ≡ 0)
unfolding causes_from
causes_from-zero st byte = ground arith
