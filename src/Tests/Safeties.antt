-- ===== src/Tests/Safeties.antt =====
-- The safety I/O driver (catkin_ws/src/safety_io_driver) on concrete inputs.
use ku_polishing_robot_drive.Base.{List, [], arith, false, refl, some, true, ◌↔◌, ◌∷◌, ◌≡◌, ◌⊎◌}
use ku_polishing_robot_drive.SafetyIo.Modbus.{
  Recv, chunk, interrupted, Client, Network, ok, err, invalid_header, receive_all, request,
  transact, exchange, read_discrete_inputs, receive_reply, receive_body, header_valid, check_reply,
  reply_valid, unpack, unpack_bit,
}
use ku_polishing_robot_drive.SafetyIo.Modbus.Stream.{stream, receive_all-take}
use ku_polishing_robot_drive.SafetyIo.Modbus.Replies.{transact_reply, transact_stale}
use ku_polishing_robot_drive.SafetyIo.Node.{Signal, Config, estop_active}
use ku_polishing_robot_drive.SafetyIo.Node.Estop.{Untriggered, reads_off, estop_active-false}
use ku_polishing_robot_drive.SafetyIo.Life.{start_node, ticks}
use ku_polishing_robot_drive.SafetyIo.Life.Latched.{Released, shown_estop, ticks-Released}

abbrev client : Client
client = record { unit_id = 1; is_open = true; transaction_id = 65535 }

abbrev dead_network : Network
dead_network = record { opens = true; sends = false; incoming = [] }

-- one reply with one data byte, in three pieces
abbrev pieces : List Recv
pieces =
    chunk (0 ∷ 0 ∷ 0 ∷ []) ∷ interrupted ∷ chunk (0 ∷ 0 ∷ 4 ∷ 1 ∷ 2 ∷ []) ∷ chunk (1 ∷ 5 ∷ []) ∷ []

abbrev network : Network
network = record { opens = true; sends = true; incoming = pieces }

receive_all-take_example : (receive_all pieces 7).0 ≡ some (0 ∷ 0 ∷ 0 ∷ 0 ∷ 0 ∷ 4 ∷ 1 ∷ [])
unfolding stream
receive_all-take_example = (receive_all-take pieces 7 (omega arith)).0

transact_reply_example :
    transact client network ≡ (record client { transaction_id = 0 }, ok (2 ∷ 1 ∷ 5 ∷ []))
unfolding stream request
transact_reply_example =
    transact_reply client network 2 (1 ∷ 5 ∷ []) [] refl refl (omega arith) (omega arith) refl

transact_stale_example :
    (transact (record client { transaction_id = 7 }) network).1 ≡ err invalid_header
unfolding stream request
transact_stale_example =
    (transact_stale (record client { transaction_id = 7 }) network 0 (2 ∷ 1 ∷ 5 ∷ []) [] refl refl
      (omega arith) refl).0

three_bits : (read_discrete_inputs client network 3).1 ≡ ok (true ∷ false ∷ true ∷ [])
unfolding read_discrete_inputs check_reply transact exchange receive_reply receive_body receive_all
    header_valid reply_valid unpack unpack_bit
three_bits = refl

abbrev bumper : Signal
bumper = record { name = "safety_bumper_front"; bit = 2 }

abbrev power : Signal
power = record { name = "traction_motor_power_on"; bit = 1 }

abbrev config : Config
config = record {
  input_count = 3;
  output_count = 2;
  inputs = bumper ∷ [];
  outputs = power ∷ [];
  config_io_outputs = [];
  estop_sources = ("safety_bumper_front", true) ∷ [];
  power_output = "traction_motor_power_on";
}

estop_active-false_example :
    (estop_active config (false ∷ false ∷ true ∷ []) (false ∷ true ∷ []) ≡ false) ↔ (
      Untriggered config.estop_sources (false ∷ false ∷ true ∷ []) config.inputs
      × (reads_off config.power_output (false ∷ true ∷ []) config.outputs ≡ false))
estop_active-false_example =
    estop_active-false config (false ∷ false ∷ true ∷ []) (false ∷ true ∷ [])

-- what the reads of the second tick get: the bumper is free, and the power is on
abbrev first_reply : Network
first_reply = record {
  opens = true;
  sends = true;
  incoming = chunk (0 ∷ 2 ∷ 0 ∷ 0 ∷ 0 ∷ 4 ∷ 1 ∷ 2 ∷ 1 ∷ 4 ∷ []) ∷ [];
}

abbrev second_reply : Network
second_reply = record {
  opens = true;
  sends = true;
  incoming = chunk (0 ∷ 3 ∷ 0 ∷ 0 ∷ 0 ∷ 4 ∷ 1 ∷ 2 ∷ 1 ∷ 2 ∷ []) ∷ [];
}

abbrev history : List (Network × Network)
history = (dead_network, network) ∷ (first_reply, second_reply) ∷ []

ticks-Released_example :
    (shown_estop (ticks config history (start_node 1 config)).published ≡ some true)
    ⊎ Released config history (start_node 1 config)
ticks-Released_example = ticks-Released config 1 history refl
