-- ===== src/SafetyIo/Node.antt =====
-- `SafetyIONode` of catkin_ws/src/safety_io_driver/src/safety_io_node.cpp: the signal tables, the
-- emergency-stop sources and `poll`. Names are texts; a `std::map` is a list of pairs by name.
pub mod Estop
pub mod Tables
use ku_polishing_robot_drive.Base.{
  Bool, List, Option, [], false, get_or, if◌then◌else◌, leb, ltb, neg_part, none, not, pos_part,
  some, true, ℕ, ℤ, ◌&&◌, ◌++◌, ◌||◌, ◌∷◌,
}
use ku_polishing_robot_drive.SafetyIo.Modbus.{
  Client, Network, Result, closed, err, ok, read_discrete_inputs,
}
use Prim.Native.String.{String, find, len}
use text.Mathlib.Text.{◌==◌ as str_eq}

pub record Signal : Type 0 where
  pub name : String
  pub bit : ℕ

-- an entry of a signal list that has a name and a bit; others are passed over
pub record Entry : Type 0 where
  pub name : String
  pub bit : ℤ

pub record Config : Type 0 where
  pub input_count : ℕ
  pub output_count : ℕ
  pub inputs : List Signal
  pub outputs : List Signal
  pub config_io_outputs : List Signal
  pub estop_sources : List (String × Bool)
  -- empty: the condition is off
  pub power_output : String

abbrev pub named : String → List Signal → Bool
named name [] = false
named name (s ∷ rest) = str_eq s.name name || named name rest

-- the checks of `loadSignals`; `find` gives the length of the text where nothing is found
unfoldable pub entry_valid : ℕ → List Signal → Entry → Bool
entry_valid available_bits loaded e =
    not (str_eq e.name "")
    && leb (len e.name) (find e.name "/")
    && leb (neg_part e.bit) 0
    && ltb (pos_part e.bit) available_bits
    && not (named e.name loaded)

unfoldable pub load_entries : ℕ → List Signal → List Entry → List Signal
load_entries available_bits loaded [] = loaded
load_entries available_bits loaded (e ∷ es) =
    load_entries available_bits
      (if entry_valid available_bits loaded e
        then loaded ++ record { name = e.name; bit = pos_part e.bit } ∷ []
        else loaded)
      es

unfoldable pub load_signals : List Signal → ℕ → List Entry → List Signal
load_signals defaults available_bits es = elim (load_entries available_bits [] es) [
  | [] ↦ defaults
  | s ∷ rest ↦ s ∷ rest
]

-- `estop_sources_[name] = active_low`
unfoldable pub set_source : String → Bool → List (String × Bool) → List (String × Bool)
set_source name active_low [] = (name, active_low) ∷ []
set_source name active_low ((k, v) ∷ rest) =
    if str_eq k name then (k, active_low) ∷ rest else (k, v) ∷ set_source name active_low rest

-- only configured inputs are taken
unfoldable pub add_estop_source :
    List Signal → String × Bool → List (String × Bool) → List (String × Bool)
add_estop_source inputs (name, active_low) sources =
    if named name inputs then set_source name active_low sources else sources

unfoldable pub find_source : String → List (String × Bool) → Option Bool
find_source name [] = none
find_source name ((k, v) ∷ rest) = if str_eq k name then some v else find_source name rest

-- What is published, by topic: a named input or output, the connection, the emergency stop.
pub data Message : Type 0 where
  input output : String → Bool → Message
  connected estop : Bool → Message

abbrev pub triggered : Option Bool → Bool → Bool
triggered none value = false
triggered (some active_low) value = if active_low then not value else value

-- the loop over the inputs: the messages in order, and whether a source is triggered
unfoldable pub poll_inputs : List (String × Bool) → List Bool → List Signal → List Message × Bool
poll_inputs sources values [] = ([], false)
poll_inputs sources values (s ∷ rest) =
    let value = get_or values s.bit false in
    let (messages, active) = poll_inputs sources values rest in
    (input s.name value ∷ messages, triggered (find_source s.name sources) value || active)

-- the loop over the outputs: the messages, and the power output's value where it is found
unfoldable pub poll_outputs :
    String → List Bool → List Signal → Option Bool → List Message × Option Bool
poll_outputs power values [] found = ([], found)
poll_outputs power values (s ∷ rest) found =
    let value = get_or values s.bit false in
    let found' = if not (str_eq power "") && str_eq s.name power then some value else found in
    let (messages, last) = poll_outputs power values rest found' in
    (output s.name value ∷ messages, last)

abbrev pub power_off : Option Bool → Bool
power_off none = false
power_off (some on) = not on

abbrev pub is_enabled : Config → Bool
is_enabled c = elim c.estop_sources [ [] ↦ false | _ ↦ true ]

-- `publishHardwareEstop`
abbrev pub publish_estop : Config → Bool → List Message
publish_estop c active = if is_enabled c then estop active ∷ [] else []

-- `hardware_estop_active` at its last use
unfoldable pub estop_active : Config → List Bool → List Bool → Bool
estop_active c input_values output_values =
    (poll_inputs c.estop_sources input_values c.inputs).1
    || power_off (poll_outputs c.power_output output_values c.outputs none).1

abbrev pub config_io_messages : List Bool → List Signal → List Message
config_io_messages values [] = []
config_io_messages values (s ∷ rest) =
    output s.name (get_or values s.bit false) ∷ config_io_messages values rest

-- both reads went well
unfoldable pub publish_values : Config → List Bool → List Bool → List Message
publish_values c input_values output_values =
    connected true
    ∷ ((poll_inputs c.estop_sources input_values c.inputs).0
        ++ ((poll_outputs c.power_output output_values c.outputs none).0
            ++ (config_io_messages input_values c.config_io_outputs
                ++ publish_estop c (estop_active c input_values output_values))))

-- a read failed: the connection is closed, and the emergency stop is on
unfoldable pub publish_failure : Config → List Message
publish_failure c = connected false ∷ publish_estop c true

abbrev pub after_outputs : Config → List Bool → Client × Result (List Bool) → Client × List Message
after_outputs c input_values (client, ok output_values) =
    (client, publish_values c input_values output_values)
after_outputs c input_values (client, err e) = (closed client, publish_failure c)

abbrev pub after_inputs : Config → Network → Client × Result (List Bool) → Client × List Message
after_inputs c net (client, ok input_values) =
    after_outputs c input_values (read_discrete_inputs client net c.output_count)
after_inputs c net (client, err e) = (closed client, publish_failure c)

-- `poll`, with the network's answers to the two reads
unfoldable pub poll : Config → Network → Network → Client → Client × List Message
poll c net_in net_out client =
    after_inputs c net_out (read_discrete_inputs client net_in c.input_count)
