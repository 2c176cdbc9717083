-- ===== src/Crevis/Wire.antt =====
-- `CrevisIONode` over its Modbus client (catkin_ws/src/crevis_io_driver/src/crevis_io_node.cpp):
-- every read and write is a transaction of bytes with a module, over a connection that may lose them.
pub mod Transactions
pub mod Simulation
pub mod Registers
pub mod Writes
pub mod Refinement
pub mod Done
pub mod Closing
use ku_polishing_robot_drive.Base.{
  Bool, List, Option, [], drop, false, if◌then◌else◌, leb, length, ltb, none, some, suc, take, true,
  u16, ℕ, ◌&&◌, ◌+◌, ◌-◌, ◌==◌, ◌||◌, ◌∷◌,
}
use ku_polishing_robot_drive.SafetyIo.Modbus.{Recv, chunk, failed}
use ku_polishing_robot_drive.Crevis.Modbus.{
  Client, Network, Read, close_sock, coils_of, out_of_bounds, registers_of, request, transact,
  unread, values, words_pdu, write_accepted,
}
use ku_polishing_robot_drive.Crevis.Modbus.Packing.{word_of}
use ku_polishing_robot_drive.Crevis.Node.{
  Config, Message, Shadow, poll, readback_count, set_bit, sync_output_shadow,
}

-- The module: what a request makes of its outputs, and its reply.
abbrev pub Module : Type 0
Module = List ℕ → List Bool → List Bool × List ℕ

-- The reply arrives in pieces of these sizes (less one), with the rest as the last piece; or only so
-- many of its bytes arrive, and not the last one; or nothing of it does; or the request is lost; or it
-- is not even sent.
pub data Delivery : Type 0 where
  replied : List ℕ → Delivery
  broken : ℕ → List ℕ → Delivery
  unreplied dropped unsent : Delivery

-- what happens to one transaction; `opens` counts where the connection is not open yet
pub record Link : Type 0 where
  pub opens : Bool
  pub delivery : Delivery

abbrev pub cut : List ℕ → List ℕ → List Recv
cut [] bytes = chunk bytes ∷ []
cut (n ∷ sizes) bytes = chunk (take (suc n) bytes) ∷ cut sizes (drop (suc n) bytes)

abbrev pub is_sent : Delivery → Bool
is_sent unsent = false
is_sent _ = true

-- the first bytes of a reply, without its last one
abbrev pub part : ℕ → List ℕ → List ℕ
part n reply = take (if ltb n (length reply - 1) then n else length reply - 1) reply

abbrev pub reply_script : Delivery → List ℕ → List Recv
reply_script (replied sizes) reply = cut sizes reply
reply_script (broken n sizes) reply = cut sizes (part n reply)
reply_script _ reply = failed ∷ []

abbrev pub network : Module → Link → List Bool → Network
network m l outputs = record {
  opens = l.opens;
  sends = is_sent l.delivery;
  incoming = λ req. reply_script l.delivery (m req outputs).1;
}

-- Whether the module gets the request.
abbrev pub is_received : Delivery → Bool
is_received (replied sizes) = true
is_received (broken n sizes) = true
is_received unreplied = true
is_received _ = false

-- the node, the links of its next transactions in order, and the module's outputs
pub record Plant : Type 0 where
  pub client : Client
  pub shadow : Shadow
  pub links : ℕ → Link
  pub outputs : List Bool

abbrev pub reaches : Client → Link → Bool
reaches k l = (k.is_open || l.opens) && is_received l.delivery

-- one `transact`
unfoldable pub talk : Module → List ℕ → Plant → Plant × Option (List ℕ)
talk m pdu p =
    let l = p.links 0 in
    let r = transact p.client (network m l p.outputs) pdu in
    (
      record p {
        client = r.0;
        links = λ i. p.links (suc i);
        outputs =
            if reaches p.client l
            then (m (request (u16 (p.client.tid + 1)) p.client.unit pdu) p.outputs).0
            else p.outputs;
      },
      r.1,
    )

-- `readCoils`, as what it finds; `none` is an access behind the end of the reply
unfoldable pub found_of : Read (List Bool) → Option (Option (List Bool))
found_of unread = some none
found_of (values coils) = some (some coils)
found_of out_of_bounds = none

abbrev pub find_coils : Module → Config → ℕ → Plant → Plant × Option (Option (List Bool))
find_coils m c qty p =
    let (q, r) = talk m (words_pdu 0x01 (u16 c.coil_base) (u16 qty)) p in
    (q, found_of (coils_of (u16 qty) r))

abbrev pub synced : Plant → Option (Option (List Bool)) → Option (Plant × Bool)
synced p none = none
synced p (some found) =
    let (s, good) = sync_output_shadow found p.shadow in some (record p { shadow = s }, good)

-- `syncOutputShadowLocked`
unfoldable pub sync_on : Module → Config → Plant → Option (Plant × Bool)
sync_on m c p = let (q, r) = find_coils m c 16 p in synced q r

abbrev pub ensure_on : Module → Config → Plant → Option (Plant × Bool)
ensure_on m c p = if p.shadow.valid then some (p, true) else sync_on m c p

-- the write of the register
unfoldable pub store_on : Module → Config → ℕ → Bool → Plant → Plant × Bool
store_on m c bit on p =
    let bits = set_bit bit on p.shadow.bits in
    let (q, r) = talk m (words_pdu 0x06 (u16 c.reg_base) (word_of bits)) p in
    let ok = write_accepted 0x06 r in
    (record q { shadow = record { bits = bits; valid = if ok then p.shadow.valid else false } }, ok)

abbrev pub coil_value : Bool → ℕ
coil_value on = if on then 0xFF00 else 0

-- `writeOutputLocked`
unfoldable pub write_on : Module → Config → ℕ → Bool → Plant → Option (Plant × Bool)
write_on m c bit on p =
    if leb 16 bit
    then some (p, false)
    else if c.register_mode
    then elim (ensure_on m c p) [
      | none ↦ none
      | some (q, good) ↦ some (if good then store_on m c bit on q else (q, false))
    ]
    else (let (q, r) = talk m (words_pdu 0x05 (u16 (c.coil_base + bit)) (coil_value on)) p in
        some (q, write_accepted 0x05 r))

abbrev pub open_if_closed : Bool → Plant → Plant
open_if_closed opens p =
    if p.client.is_open
    then p
    else record p { client = record (close_sock p.client) { is_open = opens } }

abbrev pub registers_found : Read (List ℕ) → Option (List ℕ)
registers_found (values regs) = some regs
registers_found _ = none

-- the input registers, if there are any
unfoldable pub find_registers : Module → Config → Plant → Plant × Option (List ℕ)
find_registers m c p =
    if c.in_reg_count == 0
    then (p, none)
    else (let (q, r) = talk m (words_pdu 0x04 (u16 c.in_reg_base) (u16 c.in_reg_count)) p in
        (q, registers_found (registers_of r)))

-- `poll` after its read of the coils
unfoldable pub polled :
    Module → Config → Plant → Option (Option (List Bool)) → Option (Plant × List Message)
polled m c p none = none
polled m c p (some coils) =
    let (q, regs) = find_registers m c p in
    let (s, messages) = poll c coils regs q.client.is_open q.shadow in
    some (record q { shadow = s }, messages)

-- `poll`; `opens` is the answer of its own `openSock`
unfoldable pub poll_on : Module → Config → Bool → Plant → Option (Plant × List Message)
poll_on m c opens p =
    let (q, r) = find_coils m c (readback_count c) (open_if_closed opens p) in polled m c q r
