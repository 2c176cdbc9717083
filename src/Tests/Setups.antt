-- ===== src/Tests/Setups.antt =====
-- The constructor of the safety node (catkin_ws/src/safety_io_driver) on concrete inputs.
use ku_polishing_robot_drive.Base.{List, [], arith, false, none, pos, refl, some, true, ◌+ℤ◌, ◌∷◌}
use ku_polishing_robot_drive.SafetyIo.Setup.{
  Params, SourceEntry, any_shared, setup, tables, validate_address_range,
}
use ku_polishing_robot_drive.SafetyIo.Node.{load_entries, load_signals}
use ku_polishing_robot_drive.SafetyIo.Setup.Sources.{IsConfigured, setup-IsConfigured}

-- the defaults of the parameter server calls
abbrev default_params : Params
default_params = record {
  unit_id = pos 1;
  port = pos 502;
  timeout = pos 1_000_000_000;
  publish_rate = pos 10;
  input_base = pos 16384;
  output_base = pos 16416;
  input_count = pos 17;
  output_count = pos 4;
  input_entries = [];
  output_entries = [];
  config_io_entries = [];
  source_entries = none;
  power_output = "traction_motor_power_on";
}

setup-IsConfigured_example : IsConfigured (tables default_params)
unfolding setup validate_address_range ◌+ℤ◌ tables any_shared load_signals load_entries
setup-IsConfigured_example =
    (setup-IsConfigured default_params (tables default_params) refl (omega arith) (omega arith)).0

-- the second entry for a bumper counts, and a name that is no input does not
abbrev source_list : List SourceEntry
source_list =
    record { name = "safety_bumper_front"; active_low = none }
    ∷ record { name = "no_input"; active_low = some true }
    ∷ record { name = "safety_bumper_front"; active_low = some false }
    ∷ []
