-- ===== src/SafetyIo/Node/Estop.antt =====
-- The unified emergency stop of catkin_ws/src/safety_io_driver/src/safety_io_node.cpp.
use ku_polishing_robot_drive.Base.{
  All, Bool, List, Option, [], arith, false, get_or, if◌then◌else◌, none, not, refl, some, true,
  ◌&&◌, ◌++◌, ◌↔◌, ◌∷◌, ◌≡◌, ◌≢◌,
}
use ku_polishing_robot_drive.SafetyIo.Node.{
  Config, Signal, estop_active, find_source, named, poll_inputs, poll_outputs, power_off, triggered,
}
use Prim.Native.String.{String}
use text.Mathlib.Text.{◌==◌ as str_eq}
use text.Mathlib.TextEquality.{eq_iff}

-- A source is released while its input stands at 1 if it is active low, and at 0 if not; an input
-- that is no source is always released.
abbrev pub Released : Option Bool → Bool → Type 0
Released none value = Unit
Released (some active_low) value = value ≡ active_low

triggered_iff : (o : Option Bool) (value : Bool) → (triggered o value ≡ false) ↔ Released o value
triggered_iff none value = (λ h. tt, λ h. refl)
triggered_iff (some active_low) value = ground arith

-- No input that is a source of the emergency stop is triggered.
abbrev pub Untriggered : List (String × Bool) → List Bool → List Signal → Type 0
Untriggered sources values =
    All (λ s. Released (find_source s.name sources) (get_or values s.bit false))

-- the last entry of a table with a name
pub last_named : String → List Signal → Option Signal
last_named name [] = none
last_named name (s ∷ rest) = elim (last_named name rest) [
  | some t ↦ some t
  | none ↦ if str_eq s.name name then some s else none
]

-- The power output is named, stands in the table, and does not read on.
abbrev pub reads_off : String → List Bool → List Signal → Bool
reads_off power values signals =
    not (str_eq power "")
    && elim (last_named power signals) [ none ↦ false | some s ↦ not (get_or values s.bit false) ]

abbrev value_of : List Bool → Option Bool → Option Signal → Option Bool
value_of values found none = found
value_of values found (some s) = some (get_or values s.bit false)

poll_outputs_last :
    (power : String) (values : List Bool) (signals : List Signal) (found : Option Bool)
    → (poll_outputs power values signals found).1
      ≡ (if str_eq power "" then found else value_of values found (last_named power signals))
unfolding poll_outputs last_named
poll_outputs_last power values [] found = ground arith
poll_outputs_last power values (s ∷ rest) found = ground (
  arith,
  poll_outputs_last power values rest found,
  poll_outputs_last power values rest (some (get_or values s.bit false)),
)

power_off_iff :
    (power : String) (values : List Bool) (signals : List Signal)
    → power_off (poll_outputs power values signals none).1 ≡ reads_off power values signals
power_off_iff power values signals = ground (arith, poll_outputs_last power values signals none)

poll_inputs_quiet :
    (sources : List (String × Bool)) (values : List Bool) (signals : List Signal)
    → (poll_inputs sources values signals).1 ≡ false
    → Untriggered sources values signals
unfolding poll_inputs
poll_inputs_quiet sources values [] h = tt
poll_inputs_quiet sources values (s ∷ rest) h = (
  (triggered_iff (find_source s.name sources) (get_or values s.bit false)).0 (ground arith),
  poll_inputs_quiet sources values rest (ground arith),
)

quiet_poll_inputs :
    (sources : List (String × Bool)) (values : List Bool) (signals : List Signal)
    → Untriggered sources values signals
    → (poll_inputs sources values signals).1 ≡ false
unfolding poll_inputs
quiet_poll_inputs sources values [] h = refl
quiet_poll_inputs sources values (s ∷ rest) h = ground (
  arith,
  quiet_poll_inputs sources values rest h.1,
  (triggered_iff (find_source s.name sources) (get_or values s.bit false)).1 h.0,
)

-- An output that is not named like the power output does not change what was found.
poll_outputs_unnamed :
    (power : String) (values : List Bool) (signals : List Signal) (found : Option Bool)
    → named power signals ≡ false
    → (poll_outputs power values signals found).1 ≡ found
unfolding poll_outputs
poll_outputs_unnamed power values [] found h = refl
poll_outputs_unnamed power values (s ∷ rest) found h =
    ground (arith, poll_outputs_unnamed power values rest found)

poll_outputs_found :
    (power : String) (values : List Bool) (front : List Signal) (s : Signal) (back : List Signal)
    (found : Option Bool)
    → str_eq power "" ≡ false
    → str_eq s.name power ≡ true
    → named power back ≡ false
    → (poll_outputs power values (front ++ s ∷ back) found).1 ≡ some (get_or values s.bit false)
unfolding poll_outputs
poll_outputs_found power values [] s back found named_power hit h =
    ground (arith, poll_outputs_unnamed power values back (some (get_or values s.bit false)))
poll_outputs_found power values (x ∷ front) s back found named_power hit h =
    poll_outputs_found power values front s back _ named_power hit h

-- After two good reads the emergency stop is off exactly when every input that is a source reads 1
-- if it is active low and 0 if it is not, and the traction power output, taken at its last entry in
-- the table, is not configured, not in the table, or reads on.
pub estop_active-false :
    (c : Config) (input_values output_values : List Bool)
    → (estop_active c input_values output_values ≡ false) ↔ (
        Untriggered c.estop_sources input_values c.inputs
        × (reads_off c.power_output output_values c.outputs ≡ false))
unfolding estop_active
estop_active-false c iv ov =
    let off = power_off_iff c.power_output ov c.outputs in
    (
      λ h. (poll_inputs_quiet c.estop_sources iv c.inputs (ground arith), ground (arith, off)),
      λ h. ground (arith, off, quiet_poll_inputs c.estop_sources iv c.inputs h.0, h.1),
    )

-- If the traction power output, taken at its last entry in the table, reads off, the emergency stop
-- is on, whatever the inputs read.
pub power_off_stops :
    (c : Config) (input_values output_values : List Bool) (front back : List Signal) (s : Signal)
    → c.outputs ≡ front ++ s ∷ back
    → c.power_output ≢ ""
    → s.name ≡ c.power_output
    → named c.power_output back ≡ false
    → get_or output_values s.bit false ≡ false
    → estop_active c input_values output_values ≡ true
unfolding estop_active
power_off_stops c iv ov front back s table on hit last off = ground (
  arith,
  poll_outputs_found c.power_output ov front s back none,
  eq_iff c.power_output "",
  eq_iff s.name c.power_output,
)
