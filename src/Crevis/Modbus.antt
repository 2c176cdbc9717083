-- ===== src/Crevis/Modbus.antt =====
-- `ModbusTcp` of catkin_ws/src/crevis_io_driver/src/crevis_io_node.cpp: one transaction, the reads of
-- coils and registers, the writes. What the kernel's socket calls answer is an argument.
pub mod Arrivals
pub mod Coils
pub mod Packing
pub mod Sockets
use ku_polishing_robot_drive.Base.{
  Bool, List, Option, [], drop, false, get_or, has_bit, if◌then◌else◌, leb, length, ltb, map, none,
  not, some, suc, take, true, u16, zero, ℕ, ◌%◌, ◌&&◌, ◌*◌, ◌++◌, ◌+◌, ◌-◌, ◌/◌, ◌==◌, ◌||◌, ◌∷◌,
}
use ku_polishing_robot_drive.SafetyIo.Modbus.{Recv, chunk, interrupted, failed}
use mathlib.Core.Option

-- `fd_ >= 0`, `unit_`, `tid_`
pub record Client : Type 0 where
  pub is_open : Bool
  pub unit : ℕ
  pub tid : ℕ

abbrev pub close_sock : Client → Client
close_sock c = record c { is_open = false }

-- `recvAll`: an interrupted call fails too
unfoldable pub recv_all : List Recv → ℕ → Option (List ℕ) × List Recv
recv_all script zero = (some [], script)
recv_all [] (suc n) = (none, [])
recv_all (interrupted ∷ script) (suc n) = (none, script)
recv_all (failed ∷ script) (suc n) = (none, script)
recv_all (chunk [] ∷ script) (suc n) = (none, script)
recv_all (chunk (b ∷ bs) ∷ script) (suc n) =
    let more = recv_all script (n - length bs) in
    if leb (length bs) n
    then (Option.map (λ got. b ∷ bs ++ got) more.0, more.1)
    else (some (b ∷ take n bs), chunk (drop n bs) ∷ script)

-- the request that `transact` sends
unfoldable pub request : ℕ → ℕ → List ℕ → List ℕ
request tid unit pdu =
    tid / 256
    ∷ tid % 256
    ∷ 0
    ∷ 0
    ∷ u16 (length pdu + 1) / 256
    ∷ u16 (length pdu + 1) % 256
    ∷ unit
    ∷ pdu

-- `none` is `false`. An exception keeps the connection.
unfoldable pub take_body : Client → Option (List ℕ) → Client × Option (List ℕ)
take_body c none = (close_sock c, none)
take_body c (some []) = (c, some [])
take_body c (some (code ∷ rest)) = (c, if has_bit code 7 then none else some (code ∷ rest))

-- Of the header only the length is looked at.
unfoldable pub take_header : Client → Option (List ℕ) × List Recv → Client × Option (List ℕ)
take_header c (none, script) = (close_sock c, none)
take_header c (some hdr, script) =
    let rlen = get_or hdr 4 0 * 256 + get_or hdr 5 0 in
    if ltb rlen 2 || ltb 253 rlen
    then (close_sock c, none)
    else take_body c (recv_all script (rlen - 1)).0

-- What the kernel and the module answer in one transaction: whether a connection opens, whether the
-- request goes out, and what `recv` gives after that request.
pub record Network : Type 0 where
  pub opens : Bool
  pub sends : Bool
  pub incoming : List ℕ → List Recv

unfoldable pub exchange : Client → Network → List ℕ → Client × Option (List ℕ)
exchange c net pdu =
    let t = record c { tid = u16 (c.tid + 1) } in
    if not net.sends
    then (close_sock t, none)
    else take_header t (recv_all (net.incoming (request t.tid t.unit pdu)) 7)

unfoldable pub transact : Client → Network → List ℕ → Client × Option (List ℕ)
transact c net pdu =
    if c.is_open
    then exchange c net pdu
    else if net.opens
    then exchange (record c { is_open = true }) net pdu
    else (c, none)

-- the requests for registers or coils: a function code and two words
abbrev pub words_pdu : ℕ → ℕ → ℕ → List ℕ
words_pdu code a b = code ∷ a / 256 ∷ a % 256 ∷ b / 256 ∷ b % 256 ∷ []

-- What a read makes of a reply: `false`, values, or an access behind the end of the reply.
pub data Read (A : Type 0) : Type 0 where
  unread : Read A
  values : A → Read A
  out_of_bounds : Read A

-- `(r[2 + i / 8] >> (i % 8)) & 0x01` for n coils, from a first one on
unfoldable pub unpack_coils : List ℕ → ℕ → ℕ → Read (List Bool)
unpack_coils r i zero = values []
unpack_coils r i (suc n) =
    let rest = unpack_coils r (i + 1) n in
    if ltb (2 + i / 8) (length r)
    then elim rest [
      | unread ↦ unread
      | values bs ↦ values (has_bit (get_or r (2 + i / 8) 0) (i % 8) ∷ bs)
      | out_of_bounds ↦ out_of_bounds
    ]
    else out_of_bounds

-- the checks of both reads: function code and byte count
unfoldable pub has_function : ℕ → List ℕ → Bool
has_function code r = leb 2 (length r) && get_or r 0 0 == code && leb (2 + get_or r 1 0) (length r)

unfoldable pub coils_of : ℕ → Option (List ℕ) → Read (List Bool)
coils_of qty none = unread
coils_of qty (some r) = if has_function 1 r then unpack_coils r 0 qty else unread

unfoldable pub read_coils : Client → Network → ℕ → ℕ → Client × Read (List Bool)
read_coils c net addr qty =
    let (t, r) = transact c net (words_pdu 0x01 addr qty) in (t, coils_of qty r)

-- n registers from a first byte on, high byte first
unfoldable pub registers_from : List ℕ → ℕ → ℕ → List ℕ
registers_from r i zero = []
registers_from r i (suc n) = (get_or r i 0 * 256 + get_or r (i + 1) 0) ∷ registers_from r (i + 2) n

unfoldable pub registers_of : Option (List ℕ) → Read (List ℕ)
registers_of none = unread
registers_of (some r) =
    if has_function 4 r then values (registers_from r 2 (get_or r 1 0 / 2)) else unread

unfoldable pub read_input_registers : Client → Network → ℕ → ℕ → Client × Read (List ℕ)
read_input_registers c net addr qty =
    let (t, r) = transact c net (words_pdu 0x04 addr qty) in (t, registers_of r)

-- `writeSingleCoil` and `writeSingleRegister`: the reply repeats the function code
unfoldable pub write_accepted : ℕ → Option (List ℕ) → Bool
write_accepted code none = false
write_accepted code (some []) = false
write_accepted code (some (b ∷ bs)) = b == code

unfoldable pub write_single_coil : Client → Network → ℕ → Bool → Client × Bool
write_single_coil c net addr on =
    let (t, r) = transact c net (words_pdu 0x05 addr (if on then 0xFF00 else 0)) in
    (t, write_accepted 0x05 r)

unfoldable pub write_single_register : Client → Network → ℕ → ℕ → Client × Bool
write_single_register c net addr val =
    let (t, r) = transact c net (words_pdu 0x06 addr val) in (t, write_accepted 0x06 r)
