-- ===== src/Crevis/Node.antt =====
-- `CrevisIONode` (catkin_ws/src/crevis_io_driver/src/crevis_io_node.cpp): the outputs with their
-- shadow, `poll` and the shutdown. The client's calls are arguments here, as what they give: the
-- coils that a read finds, and whether a write is confirmed. Bits of signals are not negative; the
-- shadow is the list of its 16 bits, lowest first.
pub mod Outputs
pub mod Refinement
pub mod Shutdown
use ku_polishing_robot_drive.Base.{
  Bool, List, Option, [], false, get_or, if◌then◌else◌, leb, none, replicate, some, suc, take, true,
  u16, zero, ℕ, ◌++◌, ◌+◌, ◌==◌, ◌∷◌,
}
use Prim.Native.Nat.{max}
use Prim.Native.String.{String}

pub record Led : Type 0 where
  pub name : String
  pub bit : ℕ

pub record Config : Type 0 where
  pub register_mode : Bool
  pub coil_base : ℕ
  pub reg_base : ℕ
  pub in_reg_base : ℕ
  pub in_reg_count : ℕ
  pub leds : List Led
  pub charging_bit : ℕ
  pub leds_off_on_shutdown : Bool
  pub charging_off_on_shutdown : Bool

pub record Shadow : Type 0 where
  pub bits : List Bool
  pub valid : Bool

abbrev pub default_leds : List Led
default_leds =
    record { name = "vision"; bit = 0 }
    ∷ record { name = "front"; bit = 1 }
    ∷ record { name = "side"; bit = 2 }
    ∷ record { name = "status_red"; bit = 3 }
    ∷ record { name = "status_green"; bit = 4 }
    ∷ record { name = "status_blue"; bit = 5 }
    ∷ []

-- the entries that have a name and a bit
unfoldable pub load_leds : List Led → List Led
load_leds [] = default_leds
load_leds (l ∷ ls) = l ∷ ls

unfoldable pub max_bit : List Led → ℕ → ℕ
max_bit [] n = n
max_bit (l ∷ ls) n = max_bit ls (max n (l.bit + 1))

-- `readback_nb_`
unfoldable pub readback_count : Config → ℕ
readback_count c =
    let n = max (max_bit c.leds 1) (c.charging_bit + 1) in if c.register_mode then max n 16 else n

abbrev pub initial_shadow : Shadow
initial_shadow = record { bits = replicate 16 false; valid = false }

-- `out_shadow_ |= 1 << bit` and `out_shadow_ &= ~(1 << bit)`
unfoldable pub set_bit : ℕ → Bool → List Bool → List Bool
set_bit bit on [] = []
set_bit zero on (b ∷ bs) = on ∷ bs
set_bit (suc bit) on (b ∷ bs) = b ∷ set_bit bit on bs

-- the shadow that a read of coils gives
unfoldable pub shadow_of : List Bool → List Bool
shadow_of coils = take 16 (coils ++ replicate 16 false)

-- `syncOutputShadowLocked`
unfoldable pub sync_output_shadow : Option (List Bool) → Shadow → Shadow × Bool
sync_output_shadow none s = (s, false)
sync_output_shadow (some coils) s = (record { bits = shadow_of coils; valid = true }, true)

pub data Write : Type 0 where
  register : ℕ → List Bool → Write
  coil : ℕ → Bool → Write

abbrev pub ensure_valid : Option (List Bool) → Shadow → Shadow × Bool
ensure_valid found s = if s.valid then (s, true) else sync_output_shadow found s

-- `writeOutputLocked`: the shadow, the write that is sent, the result
unfoldable pub write_output :
    Config → Option (List Bool) → Bool → ℕ → Bool → Shadow → Shadow × Option Write × Bool
write_output c found confirmed bit on s =
    if leb 16 bit
    then (s, none, false)
    else if c.register_mode
    then (let (t, good) = ensure_valid found s in
        if good
        then (
          record { bits = set_bit bit on t.bits; valid = confirmed },
          some (register (u16 c.reg_base) (set_bit bit on t.bits)),
          confirmed,
        )
        else (t, none, false))
    else (s, some (coil (u16 (c.coil_base + bit)) on), confirmed)

-- `ledCb` and `chargingCb` by the output's bit
abbrev pub led_callback :
    Config → Option (List Bool) → Bool → Led → Bool → Shadow → Shadow × Option Write × Bool
led_callback c found confirmed led on s = write_output c found confirmed led.bit on s

abbrev pub charging_callback :
    Config → Option (List Bool) → Bool → Bool → Shadow → Shadow × Option Write × Bool
charging_callback c found confirmed on s = write_output c found confirmed c.charging_bit on s

pub data Message : Type 0 where
  connected : Bool → Message
  led_state : String → Bool → Message
  led_state_all : List (String × Bool) → Message
  charge_port_on : Bool → Message
  inputs : List ℕ → Message

abbrev pub led_values : List Bool → List Led → List (String × Bool)
led_values coils [] = []
led_values coils (l ∷ ls) = (l.name, get_or coils l.bit false) ∷ led_values coils ls

abbrev pub led_messages : List (String × Bool) → List Message
led_messages [] = []
led_messages ((name, on) ∷ rest) = led_state name on ∷ led_messages rest

abbrev pub coil_messages : Config → Option (List Bool) → List Message
coil_messages c none = []
coil_messages c (some coils) =
    led_messages (led_values coils c.leds)
    ++ (led_state_all (led_values coils c.leds)
        ∷ charge_port_on (get_or coils c.charging_bit false)
        ∷ [])

abbrev pub register_messages : Option (List ℕ) → List Message
register_messages none = []
register_messages (some regs) = inputs regs ∷ []

-- `poll`; the registers are read if there are any
unfoldable pub poll :
    Config → Option (List Bool) → Option (List ℕ) → Bool → Shadow → Shadow × List Message
poll c coils regs is_open s = (
  if c.register_mode then (sync_output_shadow coils s).0 else s,
  connected is_open
      ∷ (coil_messages c coils ++ register_messages (if c.in_reg_count == 0 then none else regs)),
)

abbrev pub clear_leds : List Led → List Bool → List Bool
clear_leds [] bits = bits
clear_leds (l ∷ ls) bits = clear_leds ls (set_bit l.bit false bits)

-- what `onShutdown` makes of the shadow in register mode
unfoldable pub darkened : Config → List Bool → List Bool
darkened c bits =
    let dark = if c.leds_off_on_shutdown then clear_leds c.leds bits else bits in
    if c.charging_off_on_shutdown then set_bit c.charging_bit false dark else dark
