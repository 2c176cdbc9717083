-- ===== src/Crevis/Node/Shutdown.antt =====
-- The outputs after the shutdown (catkin_ws/src/crevis_io_driver/src/crevis_io_node.cpp).
use ku_polishing_robot_drive.Base.{
  Bool, List, [], arith, false, get_or, if◌then◌else◌, length, refl, suc, zero, ℕ, ◌&&◌, ◌==◌, ◌||◌,
  ◌∙◌, ◌∷◌, ◌≡◌,
}
use ku_polishing_robot_drive.Crevis.Node.{Config, Led, clear_leds, set_bit, darkened}
use ku_polishing_robot_drive.Crevis.Node.Outputs.{length-set_bit}

pub get_or-set_bit-false :
    (k j : ℕ) (bits : List Bool)
    → get_or (set_bit k false bits) j false ≡ (if k == j then false else get_or bits j false)
unfolding set_bit
get_or-set_bit-false k j [] = ground arith
get_or-set_bit-false zero zero (b ∷ bs) = refl
get_or-set_bit-false zero (suc j) (b ∷ bs) = ground arith
get_or-set_bit-false (suc k) zero (b ∷ bs) = ground arith
get_or-set_bit-false (suc k) (suc j) (b ∷ bs) = ground (arith, get_or-set_bit-false k j bs)

-- an LED stands at a bit
abbrev pub is_led : ℕ → List Led → Bool
is_led j [] = false
is_led j (l ∷ ls) = l.bit == j || is_led j ls

get_or-clear_leds :
    (leds : List Led) (j : ℕ) (bits : List Bool)
    → get_or (clear_leds leds bits) j false ≡ (if is_led j leds then false else get_or bits j false)
get_or-clear_leds [] j bits = refl
get_or-clear_leds (l ∷ ls) j bits =
    ground
      (arith, get_or-clear_leds ls j (set_bit l.bit false bits), get_or-set_bit-false l.bit j bits)

-- an output that the shutdown is meant to switch off
abbrev pub goes_off : Config → ℕ → Bool
goes_off c j =
    c.charging_off_on_shutdown && c.charging_bit == j || c.leds_off_on_shutdown && is_led j c.leds

pub get_or-darkened :
    (c : Config) (j : ℕ) (bits : List Bool)
    → get_or (darkened c bits) j false ≡ (if goes_off c j then false else get_or bits j false)
unfolding darkened
get_or-darkened c j bits = ground (
  arith,
  get_or-clear_leds c.leds j bits,
  get_or-set_bit-false c.charging_bit j bits,
  get_or-set_bit-false c.charging_bit j (clear_leds c.leds bits),
)

length-clear_leds :
    (leds : List Led) (bits : List Bool) → length (clear_leds leds bits) ≡ length bits
length-clear_leds [] bits = refl
length-clear_leds (l ∷ ls) bits =
    length-clear_leds ls (set_bit l.bit false bits) ∙ length-set_bit l.bit false bits

pub length-darkened : (c : Config) (bits : List Bool) → length (darkened c bits) ≡ length bits
unfolding darkened
length-darkened c bits = ground (
  arith,
  length-clear_leds c.leds bits,
  length-set_bit c.charging_bit false bits,
  length-set_bit c.charging_bit false (clear_leds c.leds bits),
)
