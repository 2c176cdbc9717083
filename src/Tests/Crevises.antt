-- ===== src/Tests/Crevises.antt =====
-- The Crevis I/O driver (catkin_ws/src/crevis_io_driver) on concrete inputs.
use ku_polishing_robot_drive.Base.{
  Bool, List, [], arith, false, none, refl, some, true, ℕ, ◌∷◌, ◌≡◌,
}
use ku_polishing_robot_drive.Crevis.Modbus.{coils_of, has_function, out_of_bounds}
use ku_polishing_robot_drive.Crevis.Modbus.Coils.{coils_of-out_of_bounds}
use ku_polishing_robot_drive.Crevis.Node.{Config, default_leds, initial_shadow}
use ku_polishing_robot_drive.Crevis.Node.Outputs.{IsConsistent, answered, lost, unanswered}
use ku_polishing_robot_drive.Crevis.Node.Refinement.{Request, polling, setting}

-- a reply with one byte of coils for a request of 16
abbrev short_reply : List ℕ
short_reply = 0x01 ∷ 0x01 ∷ 0x0F ∷ []

coils_of-out_of_bounds_example : coils_of 16 (some short_reply) ≡ out_of_bounds
unfolding has_function
coils_of-out_of_bounds_example = (coils_of-out_of_bounds short_reply 16 refl).1 (omega arith)

abbrev pub config : Config
config = record {
  register_mode = true;
  coil_base = 0x1000;
  reg_base = 0x0800;
  in_reg_base = 0;
  in_reg_count = 0;
  leds = default_leds;
  charging_bit = 8;
  leds_off_on_shutdown = true;
  charging_off_on_shutdown = false;
}

-- the relay of bit 8 and the LED of bit 1 are on
abbrev pub outputs : List Bool
outputs =
    false ∷ true ∷ false ∷ false ∷ false ∷ false ∷ false ∷ false ∷ true ∷ false ∷ false ∷ false
    ∷ false ∷ false ∷ false ∷ false ∷ []

pub start-IsConsistent : IsConsistent config initial_shadow outputs
start-IsConsistent = record { size = refl; current = λ e. cc; unused = λ e. cc }

-- a write that is confirmed, one whose reply is lost, a tick, and one that is lost itself
abbrev requests : List Request
requests =
    setting 3 true true answered
    ∷ setting 8 false true unanswered
    ∷ polling true none true
    ∷ setting 1 false true lost
    ∷ []
