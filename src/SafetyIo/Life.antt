-- ===== src/SafetyIo/Life.antt =====
-- The life of a `SafetyIONode` (catkin_ws/src/safety_io_driver/src/safety_io_node.cpp): the constructor
-- up to its first messages, one poll for each tick, the connection's report, the destructor.
pub mod Latched
use ku_polishing_robot_drive.Base.{
  Bool, List, Option, [], false, if◌then◌else◌, map, none, same, some, true, ℕ, ◌++◌, ◌∷◌,
}
use mathlib.Core.Option
use ku_polishing_robot_drive.SafetyIo.Modbus.{Client, Network, closed}
use ku_polishing_robot_drive.SafetyIo.Node.{Config, Message, connected, estop, poll, publish_estop}
use ku_polishing_robot_drive.SafetyIo.Setup.{Params, setup}

-- what the log says of the connection
pub data Line : Type 0 where
  connected_to disconnected_from read_failed : Line

-- `last_connected_` where `connection_state_known_`
abbrev pub Known : Type 0
Known = Option Bool

-- `reportConnectionState`; a throttled line may be left out
unfoldable pub report_connection_state : Bool → Known → Known × List Line
report_connection_state now (some last) =
    if same now last
    then (some last, if now then [] else read_failed ∷ [])
    else (some now, (if now then connected_to else disconnected_from) ∷ [])
report_connection_state now none =
    (some now, (if now then connected_to else disconnected_from) ∷ [])

-- the node, with what it has published and logged, the newest first
pub record Node : Type 0 where
  pub client : Client
  pub known : Known
  pub published : List Message
  pub log : List Line

abbrev pub publish : List Message → List Message → List Message
publish [] older = older
publish (m ∷ newer) older = publish newer (m ∷ older)

-- the node at the end of its constructor
abbrev pub start_node : ℕ → Config → Node
start_node unit_id c = record {
  client = record { unit_id = unit_id; is_open = false; transaction_id = 0 };
  known = none;
  published = publish (connected false ∷ publish_estop c true) [];
  log = [];
}

-- the constructor, with the device lock taken or not; an exception gives `none`
unfoldable pub construct : Params → ℕ → Bool → Option (Config × Node)
construct p unit_id locked =
    if locked then Option.map (λ c. (c, start_node unit_id c)) (setup p) else none

abbrev pub is_connected : List Message → Bool
is_connected [] = false
is_connected (connected now ∷ messages) = now
is_connected (_ ∷ messages) = is_connected messages

-- a tick of the timer, with the network's answers to the two reads
unfoldable pub tick : Config → Network × Network → Node → Node
tick c (net_in, net_out) n =
    let (client, messages) = poll c net_in net_out n.client in
    let (known, lines) = report_connection_state (is_connected messages) n.known in
    record {
      client = client;
      known = known;
      published = publish messages n.published;
      log = lines ++ n.log;
    }

unfoldable pub ticks : Config → List (Network × Network) → Node → Node
ticks c [] n = n
ticks c (nets ∷ rest) n = ticks c rest (tick c nets n)

-- the destructor
abbrev pub destroy : Node → Node
destroy n = record n { client = closed n.client }
