-- ===== src/SafetyIo/Setup.antt =====
-- The constructor of `SafetyIONode` (catkin_ws/src/safety_io_driver/src/safety_io_node.cpp): its
-- checks, the emergency-stop sources and the power output. An exception gives `none`.
pub mod Sources
use ku_polishing_robot_drive.Base.{
  Bool, List, Option, [], false, if◌then◌else◌, ltb_ℤ, none, not, pos, pos_part, some, true, ℤ,
  ◌&&◌, ◌+ℤ◌, ◌||◌, ◌∷◌,
}
use ku_polishing_robot_drive.SafetyIo.Node.{
  Config, Entry, Signal, add_estop_source, load_signals, named,
}
use Prim.Native.String.{String}
use text.Mathlib.Text.{◌==◌ as str_eq}

-- an entry of `hardware_estop_sources` that has a name
pub record SourceEntry : Type 0 where
  pub name : String
  pub active_low : Option Bool

abbrev pub level_of : SourceEntry → Bool
level_of e = elim e.active_low [ none ↦ true | some low ↦ low ]

unfoldable pub add_sources :
    List Signal → List SourceEntry → List (String × Bool) → List (String × Bool)
add_sources inputs [] sources = sources
add_sources inputs (e ∷ es) sources =
    add_sources inputs es (add_estop_source inputs (e.name, level_of e) sources)

abbrev pub default_sources : List SourceEntry
default_sources =
    record { name = "safety_emergency_1b"; active_low = some true }
    ∷ record { name = "safety_emergency_2b"; active_low = some true }
    ∷ record { name = "safety_bumper_front"; active_low = some true }
    ∷ record { name = "safety_bumper_rear"; active_low = some true }
    ∷ []

-- the parameter, where it is set to a list
unfoldable pub load_estop_sources : List Signal → Option (List SourceEntry) → List (String × Bool)
load_estop_sources inputs none = add_sources inputs default_sources []
load_estop_sources inputs (some es) = add_sources inputs es []

-- `validateAddressRange`
unfoldable pub validate_address_range : ℤ → ℤ → Bool
validate_address_range base count =
    not (ltb_ℤ base (pos 0))
    && not (ltb_ℤ (pos 65535) base)
    && ltb_ℤ (pos 0) count
    && not (ltb_ℤ (pos 2000) count)
    && not (ltb_ℤ (pos 65536) (base +ℤ count))

-- a name that stands in both tables
unfoldable pub any_shared : List Signal → List Signal → Bool
any_shared outputs [] = false
any_shared outputs (s ∷ rest) = named s.name outputs || any_shared outputs rest

-- A power output that is no output is cleared.
unfoldable pub known_power : List Signal → String → String
known_power outputs power = if named power outputs then power else ""

-- of `timeout` and `publish_rate`, which are floating point in the source, only the sign is read
pub record Params : Type 0 where
  pub unit_id : ℤ
  pub port : ℤ
  pub timeout : ℤ
  pub publish_rate : ℤ
  pub input_base : ℤ
  pub output_base : ℤ
  pub input_count : ℤ
  pub output_count : ℤ
  pub input_entries : List Entry
  pub output_entries : List Entry
  pub config_io_entries : List Entry
  pub source_entries : Option (List SourceEntry)
  pub power_output : String

abbrev pub in_range : Params → Bool
in_range p =
    not (ltb_ℤ p.unit_id (pos 0))
    && not (ltb_ℤ (pos 255) p.unit_id)
    && validate_address_range p.input_base p.input_count
    && validate_address_range p.output_base p.output_count
    && ltb_ℤ (pos 0) p.port
    && not (ltb_ℤ (pos 65535) p.port)
    && ltb_ℤ (pos 0) p.timeout
    && ltb_ℤ (pos 0) p.publish_rate

abbrev pub default_inputs : List Signal
default_inputs =
    record { name = "safety_emergency_1b"; bit = 1 }
    ∷ record { name = "safety_emergency_2b"; bit = 2 }
    ∷ record { name = "safety_auto_mode"; bit = 4 }
    ∷ record { name = "safety_manual_mode"; bit = 5 }
    ∷ record { name = "safety_reset_switch"; bit = 6 }
    ∷ record { name = "safety_brake_release_sw"; bit = 7 }
    ∷ record { name = "safety_bumper_front"; bit = 9 }
    ∷ record { name = "safety_bumper_rear"; bit = 10 }
    ∷ []

abbrev pub default_outputs : List Signal
default_outputs =
    record { name = "motor_sto_01sr"; bit = 0 }
    ∷ record { name = "motor_sto_02sr"; bit = 1 }
    ∷ record { name = "traction_motor_power_on"; bit = 3 }
    ∷ []

abbrev pub default_config_io_outputs : List Signal
default_config_io_outputs = record { name = "brake_release"; bit = 16 } ∷ []

-- the node's tables, once the parameters are in range
unfoldable pub tables : Params → Config
tables p =
    let inputs = load_signals default_inputs (pos_part p.input_count) p.input_entries in
    let outputs = load_signals default_outputs (pos_part p.output_count) p.output_entries in
    record {
      input_count = pos_part p.input_count;
      output_count = pos_part p.output_count;
      inputs = inputs;
      outputs = outputs;
      config_io_outputs =
          load_signals default_config_io_outputs (pos_part p.input_count) p.config_io_entries;
      estop_sources = load_estop_sources inputs p.source_entries;
      power_output = known_power outputs p.power_output;
    }

unfoldable pub setup : Params → Option Config
setup p =
    if in_range p && not (any_shared (tables p).outputs (tables p).config_io_outputs)
    then some (tables p)
    else none
