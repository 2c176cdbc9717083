-- ===== src/Tests/Batteries.antt =====
-- The battery driver (catkin_ws/src/bms_driver) on concrete inputs.
use ku_polishing_robot_drive.Base.{
  [], ltb_ℤ, neg, negsuc, not, pos, pos_part, refl, suc, take, true, zero, ℕ, ℤ, ◌*◌, ◌/◌, ◌∷◌, ◌≡◌,
}
use ku_polishing_robot_drive.Bms.{Config, CanFrame, any_alarm, Floats}

unfoldable tens_of : ℕ → ℕ
tens_of zero = 1
tens_of (suc e) = 10 * tens_of e

abbrev scaled : (ℕ → ℕ) → ℤ → ℤ
scaled f (pos n) = pos (f n)
scaled f (negsuc n) = neg (pos (f (suc n)))

-- numbers in thousandths
abbrev thousandths : Floats ℤ
thousandths = record {
  of_int = scaled (λ n. n * 1000);
  decimal = λ m e. pos (m * 1000 / tens_of e);
  times = λ a b. scaled (λ n. n * pos_part b / 1000) a;
  over = λ a b. scaled (λ n. n * 1000 / pos_part b) a;
  less = ltb_ℤ;
  at_least = λ a b. not (ltb_ℤ a b);
}

abbrev config : Config
config = record { bms_addr = 0x01; host_addr = 0x40; timeout = 3_000_000_000 }

-- 53.2 V, -5.0 A, 99.8 %
abbrev pack_frame : CanFrame
pack_frame = record {
  can_id = 0x98904001;
  dlc = 8;
  payload = 2 ∷ 20 ∷ 0 ∷ 0 ∷ 116 ∷ 254 ∷ 3 ∷ 230 ∷ [];
}

abbrev fault_frame : CanFrame
fault_frame = record { can_id = 0x98984001; dlc = 8; payload = 0 ∷ 0 ∷ 0 ∷ 4 ∷ 0 ∷ 0 ∷ 0 ∷ 0 ∷ [] }

a_fault : any_alarm (take 7 fault_frame.payload) ≡ true
unfolding any_alarm
a_fault = refl
