-- ===== src/SafetyIo/Modbus.antt =====
-- `ModbusTcpClient` of catkin_ws/src/safety_io_driver/src/safety_io_node.cpp: the receive loop,
-- one transaction and the read of discrete inputs. What the kernel's socket calls answer is an
-- argument: whether a connection opens, whether a request goes out, and what `recv` gives.
pub mod Stream
pub mod Replies
use ku_polishing_robot_drive.Base.{
  Bool, List, Option, [], drop, false, get_or, has_bit, if◌then◌else◌, leb, length, ltb, map, none,
  not, some, suc, take, true, u16, zero, ℕ, ◌%◌, ◌&&◌, ◌*◌, ◌++◌, ◌+◌, ◌-◌, ◌/◌, ◌==◌, ◌||◌, ◌∷◌,
}
use mathlib.Core.Option

-- The answers of `recv`, in order: bytes, an interrupted call, an error or a timeout. No bytes at all
-- is the peer's end of the connection.
pub data Recv : Type 0 where
  chunk : List ℕ → Recv
  interrupted failed : Recv

-- `receiveAll` of n bytes; `none` is its `false`. A call never takes more than is still wanted, so a
-- longer chunk is cut, and the rest of it stands for the next call.
unfoldable pub receive_all : List Recv → ℕ → Option (List ℕ) × List Recv
receive_all script zero = (some [], script)
receive_all [] (suc n) = (none, [])
receive_all (interrupted ∷ script) (suc n) = receive_all script (suc n)
receive_all (failed ∷ script) (suc n) = (none, script)
receive_all (chunk [] ∷ script) (suc n) = (none, script)
receive_all (chunk (b ∷ bs) ∷ script) (suc n) =
    let more = receive_all script (n - length bs) in
    if leb (length bs) n
    then (Option.map (λ got. b ∷ bs ++ got) more.0, more.1)
    else (some (b ∷ take n bs), chunk (drop n bs) ∷ script)

pub data Error : Type 0 where
  invalid_quantity open_failed send_failed receive_failed invalid_header malformed : Error
  exception : ℕ → Error

pub data Result {ℓ} (A : Type ℓ) : Type ℓ where
  ok : A → Result A
  err : Error → Result A

-- `unit_id_`, `fd_ >= 0`, `transaction_id_`
pub record Client : Type 0 where
  pub unit_id : ℕ
  pub is_open : Bool
  pub transaction_id : ℕ

-- What the kernel answers to the calls of one transaction.
pub record Network : Type 0 where
  pub opens : Bool
  pub sends : Bool
  pub incoming : List Recv

abbrev pub closed : Client → Client
closed c = record c { is_open = false }

-- the request: transaction id, protocol 0, length of unit and pdu, unit, pdu
unfoldable pub request : ℕ → ℕ → List ℕ → List ℕ
request transaction_id unit_id pdu =
    transaction_id / 256
    ∷ transaction_id % 256
    ∷ 0
    ∷ 0
    ∷ u16 (length pdu + 1) / 256
    ∷ u16 (length pdu + 1) % 256
    ∷ unit_id
    ∷ pdu

abbrev pub word : List ℕ → ℕ → ℕ
word bytes i = get_or bytes i 0 * 256 + get_or bytes (i + 1) 0

-- the test of the seven header bytes of a reply
unfoldable pub header_valid : ℕ → ℕ → List ℕ → Bool
header_valid transaction_id unit_id header =
    word header 0 == transaction_id
    && word header 2 == 0
    && get_or header 6 0 == unit_id
    && leb 2 (word header 4)
    && leb (word header 4) 253

-- An exception reply keeps the connection.
unfoldable pub receive_body : Client → Option (List ℕ) → Client × Result (List ℕ)
receive_body c none = (closed c, err receive_failed)
receive_body c (some []) = (c, ok [])
receive_body c (some (code ∷ body)) =
    if has_bit code 7 then (c, err (exception (get_or body 0 0))) else (c, ok (code ∷ body))

unfoldable pub receive_reply : Client → Option (List ℕ) × List Recv → Client × Result (List ℕ)
receive_reply c (none, script) = (closed c, err receive_failed)
receive_reply c (some header, script) =
    if header_valid c.transaction_id c.unit_id header
    then receive_body c (receive_all script (word header 4 - 1)).0
    else (closed c, err invalid_header)

-- `transact`, once the connection is open
unfoldable pub exchange : Client → Network → Client × Result (List ℕ)
exchange c net =
    let t = record c { transaction_id = u16 (c.transaction_id + 1) } in
    if not net.sends
    then (closed t, err send_failed)
    else receive_reply t (receive_all net.incoming 7)

-- `transact`; `openSocket` closes what was open first
unfoldable pub transact : Client → Network → Client × Result (List ℕ)
transact c net =
    if c.is_open
    then exchange c net
    else if net.opens
    then exchange (record c { is_open = true }) net
    else (c, err open_failed)

-- `(response[2 + bit / 8] >> (bit % 8)) & 0x01`
unfoldable pub unpack_bit : List ℕ → ℕ → Bool
unpack_bit response bit = has_bit (get_or response (2 + bit / 8) 0) (bit % 8)

-- `for (bit = 0; bit < quantity; ++bit)`, from a first bit on
unfoldable pub unpack : List ℕ → ℕ → ℕ → List Bool
unpack response bit zero = []
unpack response bit (suc n) = unpack_bit response bit ∷ unpack response (bit + 1) n

unfoldable pub reply_valid : ℕ → List ℕ → Bool
reply_valid quantity response =
    let expected_bytes = (quantity + 7) / 8 in
    leb 2 (length response)
    && get_or response 0 0 == 2
    && get_or response 1 0 == expected_bytes
    && length response == expected_bytes + 2

unfoldable pub check_reply : ℕ → Client × Result (List ℕ) → Client × Result (List Bool)
check_reply quantity (c, err e) = (c, err e)
check_reply quantity (c, ok response) =
    if reply_valid quantity response
    then (c, ok (unpack response 0 quantity))
    else (closed c, err malformed)

-- `readDiscreteInputs`; the address is in the request only
unfoldable pub read_discrete_inputs : Client → Network → ℕ → Client × Result (List Bool)
read_discrete_inputs c net quantity =
    if quantity == 0 || ltb 2000 quantity
    then (c, err invalid_quantity)
    else check_reply quantity (transact c net)
