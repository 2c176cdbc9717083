-- ===== src/Bms.antt =====
-- The battery driver: requests to the Daly BMS, decoding of its replies, the published state
-- (catkin_ws/src/bms_driver/src/bms_driver_node.cpp). Times are nanoseconds. The type
-- `float` and its operations are an argument. A received frame carries 8 bytes of data.
pub mod Replies
pub mod Params
use ku_polishing_robot_drive.Base.{
  Bool, List, [], false, get_or, if◌then◌else◌, leb, ltb, map, not, pos, replicate, sub_ℕ, take,
  true, ℕ, ℤ, ◌%◌, ◌&&◌, ◌*◌, ◌+◌, ◌/◌, ◌==◌, ◌||◌, ◌∷◌,
}

pub record Config : Type 0 where
  pub bms_addr : ℕ
  pub host_addr : ℕ
  pub timeout : ℕ

-- `float`: an integer, the literal m / 10^e, `*`, `/`, `<` and `>=`
pub record Floats (F : Type 0) : Type 0 where
  pub of_int : ℤ → F
  pub decimal : ℕ → ℕ → F
  pub times : F → F → F
  pub over : F → F → F
  pub less : F → F → Bool
  pub at_least : F → F → Bool

pub record Bms (F : Type 0) : Type 0 where
  pub got_data : Bool
  pub voltage : F
  pub current : F
  pub soc : F
  pub remain_capacity : F
  pub cd_state : ℕ
  pub charger_status : ℕ
  pub load_status : ℕ
  pub num_cells : ℕ
  pub num_temps : ℕ
  pub max_temp : F
  pub min_temp : F
  pub has_fault : Bool
  pub last_rx : ℕ

pub record CanFrame : Type 0 where
  pub can_id : ℕ
  pub dlc : ℕ
  pub payload : List ℕ

abbrev pub be16 : List ℕ → ℕ → ℕ
be16 b i = get_or b i 0 * 256 + get_or b (i + 1) 0

abbrev pub be32 : List ℕ → ℕ → ℕ
be32 b i = be16 b i * 65536 + be16 b (i + 2)

-- the identifier with its flag for 29 bits (bit 31); the fields of the sum do not overlap
unfoldable pub request_id : Config → ℕ → ℕ
request_id c data_id =
    2147483648 + 0x18 * 16777216 + data_id * 65536 + c.bms_addr * 256 + c.host_addr

unfoldable pub send_request : Config → ℕ → CanFrame
send_request c data_id = record { can_id = request_id c data_id; dlc = 8; payload = replicate 8 0 }

-- the frames that one tick of the poll timer writes, in order
unfoldable pub poll_timer : Config → List CanFrame
poll_timer c = map (send_request c) (0x90 ∷ 0x92 ∷ 0x93 ∷ 0x94 ∷ 0x98 ∷ [])

-- `frame.can_id & CAN_EFF_MASK`
abbrev pub masked_id : CanFrame → ℕ
masked_id frame = frame.can_id % 536870912

-- the test for a reply of the BMS to this host, of full length
unfoldable pub is_reply : Config → CanFrame → Bool
is_reply c frame = masked_id frame % 65536 == c.host_addr * 256 + c.bms_addr && leb 8 frame.dlc

abbrev pub data_id_of : CanFrame → ℕ
data_id_of frame = masked_id frame / 65536 % 256

unfoldable pub any_alarm : List ℕ → Bool
any_alarm [] = false
any_alarm (b ∷ bs) = not (b == 0) || any_alarm bs

pub data SupplyStatus : Type 0 where
  status_unknown charging discharging full not_charging : SupplyStatus

pub data SupplyHealth : Type 0 where
  health_unknown good unspec_failure : SupplyHealth

-- `sensor_msgs::BatteryState` and the separate SOC message
pub record BatteryState (F : Type 0) : Type 0 where
  pub voltage : F
  pub current : F
  pub temperature : F
  pub charge : F
  pub capacity : F
  pub percentage : F
  pub present : Bool
  pub supply_status : SupplyStatus
  pub supply_health : SupplyHealth
  pub soc : F

abbrev pub is_fresh : {F : Type 0} → Config → ℕ → Bms F → Bool
is_fresh c now s = s.got_data && ltb now (s.last_rx + c.timeout)

module _ {F : Type 0} (floats : Floats F) where
  -- a word in tenths
  abbrev pub tenths : ℤ → F
  tenths z = floats.times (floats.of_int z) (floats.decimal 1 1)

  unfoldable pub take_reply : ℕ → ℕ → List ℕ → Bms F → Bms F
  take_reply now data_id b s =
      if data_id == 0x90
      then record s {
        voltage = tenths (pos (be16 b 0));
        current = tenths (sub_ℕ (be16 b 4) 30000);
        soc = tenths (pos (be16 b 6));
        got_data = true;
        last_rx = now;
      }
      else if data_id == 0x92
      then record s {
        max_temp = floats.of_int (sub_ℕ (get_or b 0 0) 40);
        min_temp = floats.of_int (sub_ℕ (get_or b 2 0) 40);
      }
      else if data_id == 0x93
      then record s {
        cd_state = get_or b 0 0;
        remain_capacity = floats.over (floats.of_int (pos (be32 b 4))) (floats.decimal 1000 0);
      }
      else if data_id == 0x94
      then record s {
        num_cells = get_or b 0 0;
        num_temps = get_or b 1 0;
        charger_status = get_or b 2 0;
        load_status = get_or b 3 0;
      }
      else if data_id == 0x98
      then record s { has_fault = any_alarm (take 7 b) }
      else s

  unfoldable pub can_callback : Config → ℕ → CanFrame → Bms F → Bms F
  can_callback c now frame s =
      if is_reply c frame then take_reply now (data_id_of frame) frame.payload s else s

  unfoldable pub supply_status_of : Bms F → SupplyStatus
  supply_status_of s =
      if s.charger_status == 1 || s.cd_state == 1
      then charging
      else if s.cd_state == 2
      then discharging
      else if floats.at_least s.soc (floats.decimal 995 1)
      then full
      else not_charging

  -- `std::min` and `std::max`
  abbrev pub least : F → F → F
  least a b = if floats.less b a then b else a

  abbrev pub greatest : F → F → F
  greatest a b = if floats.less a b then b else a

  -- percent as a part of 1, between 0 and 1
  abbrev pub percentage_of : F → F
  percentage_of soc =
      greatest (floats.decimal 0 0)
        (least (floats.over soc (floats.decimal 100 0)) (floats.decimal 1 0))

  unfoldable pub publish_timer : Config → ℕ → Bms F → BatteryState F
  publish_timer c now s = record {
    voltage = s.voltage;
    current = s.current;
    temperature = s.max_temp;
    charge = s.remain_capacity;
    capacity = s.remain_capacity;
    percentage = percentage_of s.soc;
    present = is_fresh c now s;
    supply_status = if is_fresh c now s then supply_status_of s else status_unknown;
    supply_health =
        if is_fresh c now s then (if s.has_fault then unspec_failure else good) else health_unknown;
    soc = s.soc;
  }

  -- the members as they are constructed
  abbrev pub initial : Bms F
  initial = record {
    got_data = false;
    voltage = floats.decimal 0 0;
    current = floats.decimal 0 0;
    soc = floats.decimal 0 0;
    remain_capacity = floats.decimal 0 0;
    cd_state = 0;
    charger_status = 0;
    load_status = 0;
    num_cells = 0;
    num_temps = 0;
    max_temp = floats.decimal 0 0;
    min_temp = floats.decimal 0 0;
    has_fault = false;
    last_rx = 0;
  }
