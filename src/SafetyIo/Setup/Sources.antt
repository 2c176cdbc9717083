-- ===== src/SafetyIo/Setup/Sources.antt =====
-- What holds of the configuration that the constructor of `SafetyIONode` accepts
-- (catkin_ws/src/safety_io_driver/src/safety_io_node.cpp).
use ku_polishing_robot_drive.Base.{
  Bool, Bool-cases, List, Option, [], arith, false, if◌then◌else◌, inl, inr, none, pos_part, some,
  subst, sym, true, ℕ, ◌∷◌, ◌≡◌, ◌≤◌, ◌⊎◌,
}
use ku_polishing_robot_drive.SafetyIo.Node.{
  Config, Signal, add_estop_source, find_source, named, set_source,
}
use ku_polishing_robot_drive.SafetyIo.Node.Tables.{IsTable, load_signals-IsTable}
use ku_polishing_robot_drive.SafetyIo.Setup.{
  Params, SourceEntry, add_sources, any_shared, in_range, level_of, load_estop_sources, setup,
  tables, validate_address_range, default_config_io_outputs, default_inputs, default_outputs,
  known_power,
}
use Prim.Native.String.{String}
use text.Mathlib.Text.{◌==◌ as str_eq}
use text.Mathlib.TextEquality.{eq_iff}

find_source-set_source :
    (other name : String) (low : Bool) (sources : List (String × Bool))
    → find_source other (set_source name low sources)
      ≡ (if str_eq name other then some low else find_source other sources)
unfolding find_source set_source
find_source-set_source other name low [] = ground arith
find_source-set_source other name low ((k, v) ∷ rest) =
    ground (arith, find_source-set_source other name low rest, eq_iff k name, eq_iff name other)

-- the level of the last entry with a name, or what was known before
unfoldable pub last_level : String → Option Bool → List SourceEntry → Option Bool
last_level name before [] = before
last_level name before (e ∷ es) =
    last_level name (if str_eq e.name name then some (level_of e) else before) es

add_sources-last :
    (inputs : List Signal) (name : String) (es : List SourceEntry) (sources : List (String × Bool))
    → find_source name (add_sources inputs es sources) ≡ (
        if named name inputs
        then last_level name (find_source name sources) es
        else find_source name sources)
unfolding add_sources last_level add_estop_source
add_sources-last inputs name [] sources = ground arith
add_sources-last inputs name (e ∷ es) sources = ground (
  arith,
  add_sources-last inputs name es (add_estop_source inputs (e.name, level_of e) sources),
  find_source-set_source name e.name (level_of e) sources,
  eq_iff e.name name,
)

-- From an explicit list of sources, an input is a source of the emergency stop with the level of
-- its last entry in the list; what is no input is never a source.
pub find_source-load_estop_sources :
    (inputs : List Signal) (es : List SourceEntry) (name : String)
    → find_source name (load_estop_sources inputs (some es))
      ≡ (if named name inputs then last_level name none es else none)
unfolding load_estop_sources find_source
find_source-load_estop_sources inputs es name = ground (arith, add_sources-last inputs name es [])

default_inputs-IsTable : (bits : ℕ) → 17 ≤ bits → IsTable bits default_inputs
default_inputs-IsTable bits h = ground arith

default_outputs-IsTable : (bits : ℕ) → 4 ≤ bits → IsTable bits default_outputs
default_outputs-IsTable bits h = ground arith

default_config_io_outputs-IsTable : (bits : ℕ) → 17 ≤ bits → IsTable bits default_config_io_outputs
default_config_io_outputs-IsTable bits h = ground arith

-- what poll relies on: bits inside the range that is read, no name twice
abbrev pub IsConfigured : Config → Type 0
IsConfigured c =
    IsTable c.input_count c.inputs
    × IsTable c.output_count c.outputs
    × IsTable c.input_count c.config_io_outputs

tables-IsConfigured :
    (p : Params)
    → 17 ≤ pos_part p.input_count
    → 4 ≤ pos_part p.output_count
    → IsConfigured (tables p)
unfolding tables
tables-IsConfigured p hi ho = (
  load_signals-IsTable default_inputs (pos_part p.input_count) p.input_entries
      (default_inputs-IsTable _ hi),
  load_signals-IsTable default_outputs (pos_part p.output_count) p.output_entries
      (default_outputs-IsTable _ ho),
  load_signals-IsTable default_config_io_outputs (pos_part p.input_count) p.config_io_entries
      (default_config_io_outputs-IsTable _ hi),
)

setup-accepts :
    (p : Params) (c : Config)
    → setup p ≡ some c
    → (c ≡ tables p) × (in_range p ≡ true) × (any_shared c.outputs c.config_io_outputs ≡ false)
unfolding setup
setup-accepts p c h = ground arith

tables_counts :
    (p : Params)
    → in_range p ≡ true
    → (1 ≤ (tables p).input_count)
      × ((tables p).input_count ≤ 2000)
      × (1 ≤ (tables p).output_count)
      × ((tables p).output_count ≤ 2000)
unfolding tables validate_address_range
tables_counts p h = ground arith

known_power-named :
    (outputs : List Signal) (power : String)
    → (known_power outputs power ≡ "") ⊎ (named (known_power outputs power) outputs ≡ true)
unfolding known_power
known_power-named outputs power = elim (Bool-cases (named power outputs)) [
  | inl there ↦ inr (ground (arith, there))
  | inr missing ↦ inl (ground (arith, missing))
]

tables_power :
    (p : Params)
    → let c = tables p in (c.power_output ≡ "") ⊎ (named c.power_output c.outputs ≡ true)
unfolding tables
tables_power p = known_power-named _ p.power_output

-- Where the constructor accepts its parameters, with at least 17 inputs and 4 outputs (the bits of
-- the default tables), every signal has its bit inside the range that is read, no table has a name
-- twice, no name is shared by the two tables of outputs, at most 2000 bits are read at once, and the
-- power output is off or one of the outputs.
pub setup-IsConfigured :
    (p : Params) (c : Config)
    → setup p ≡ some c
    → 17 ≤ c.input_count
    → 4 ≤ c.output_count
    → IsConfigured c
      × (any_shared c.outputs c.config_io_outputs ≡ false)
      × (c.input_count ≤ 2000)
      × (c.output_count ≤ 2000)
      × ((c.power_output ≡ "") ⊎ (named c.power_output c.outputs ≡ true))
unfolding tables
setup-IsConfigured p c h hi ho =
    let (e, good, shared) = setup-accepts p c h in
    let n = tables_counts p good in
    subst
      (λ k.
        IsConfigured k
        × (any_shared k.outputs k.config_io_outputs ≡ false)
        × (k.input_count ≤ 2000)
        × (k.output_count ≤ 2000)
        × ((k.power_output ≡ "") ⊎ (named k.power_output k.outputs ≡ true)))
      (sym e)
      (
        tables-IsConfigured p (subst (λ k. 17 ≤ k.input_count) e hi)
            (subst (λ k. 4 ≤ k.output_count) e ho),
        subst (λ k. any_shared k.outputs k.config_io_outputs ≡ false) e shared,
        n.1,
        n.3,
        tables_power p,
      )
