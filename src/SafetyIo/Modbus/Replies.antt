-- ===== src/SafetyIo/Modbus/Replies.antt =====
-- What `transact` and `readDiscreteInputs` make of a reply
-- (catkin_ws/src/safety_io_driver/src/safety_io_node.cpp).
use ku_polishing_robot_drive.Base.{
  Bool, List, ap, arith, drop, false, length, length-append, refl, some, suc, take,
  take-append_exact, true, u16, zero, ℕ, ◌++◌, ◌+◌, ◌-◌, ◌<◌, ◌∙◌, ◌∷◌, ◌≡◌, ◌≢◌, ◌≤◌,
}
use ku_polishing_robot_drive.SafetyIo.Modbus.{
  Client, Network, err, exchange, invalid_header, ok, read_discrete_inputs, receive_body,
  receive_reply, request, transact, unpack, Recv, Result, check_reply, closed, header_valid,
  receive_all, word,
}
use ku_polishing_robot_drive.SafetyIo.Modbus.Stream.{stream, receive_all-take}

receive_body_pdu :
    (c : Client) (code : ℕ) (body : List ℕ)
    → code < 128
    → receive_body c (some (code ∷ body)) ≡ (c, ok (code ∷ body))
unfolding receive_body
receive_body_pdu c code body h = ground arith

transact_open :
    (c : Client) (net : Network)
    → c.is_open ≡ true
    → net.sends ≡ true
    → transact c net
      ≡ receive_reply
          (record c { transaction_id = u16 (c.transaction_id + 1) })
          (receive_all net.incoming 7)
unfolding transact exchange
transact_open c net port sends = rw (port, sends)

-- The header and the pdu of a reply that arrives.
header_of : ℕ → ℕ → List ℕ → List ℕ
header_of id unit_id pdu = take 7 (request id unit_id pdu)

take-request :
    (id unit_id : ℕ) (pdu rest : List ℕ)
    → take 7 (request id unit_id pdu ++ rest) ≡ header_of id unit_id pdu
unfolding request header_of
take-request id unit_id pdu rest = refl

drop-request :
    (id unit_id : ℕ) (pdu rest : List ℕ) → drop 7 (request id unit_id pdu ++ rest) ≡ pdu ++ rest
unfolding request
drop-request id unit_id pdu rest = refl

length-request : (id unit_id : ℕ) (pdu : List ℕ) → length (request id unit_id pdu) ≡ length pdu + 7
unfolding request
length-request id unit_id pdu = omega arith

header_of_valid :
    (id unit_id : ℕ) (pdu : List ℕ)
    → 0 < length pdu
    → length pdu < 253
    → (header_valid id unit_id (header_of id unit_id pdu) ≡ true)
      × (word (header_of id unit_id pdu) 4 ≡ length pdu + 1)
unfolding header_valid header_of request
header_of_valid id unit_id pdu some_pdu short = ground arith

header_of_stale :
    (id other unit_id : ℕ) (pdu : List ℕ)
    → other ≢ id
    → header_valid id unit_id (header_of other unit_id pdu) ≡ false
unfolding header_valid header_of request
header_of_stale id other unit_id pdu late = ground arith

-- The seven header bytes are received, and the rest of the stream is left.
header_arrives :
    (script : List Recv) (id unit_id : ℕ) (pdu rest : List ℕ)
    → stream script ≡ request id unit_id pdu ++ rest
    → (receive_all script 7 ≡ (some (header_of id unit_id pdu), (receive_all script 7).1))
      × (stream (receive_all script 7).1 ≡ pdu ++ rest)
header_arrives script id unit_id pdu rest e =
    let r = receive_all-take script 7 (
      rw e (
        omega
          (arith, length-append (request id unit_id pdu) rest, length-request id unit_id pdu))) in
    (
      ap (λ o. (o, (receive_all script 7).1))
          (r.0 ∙ ap some (ap (take 7) e ∙ take-request id unit_id pdu rest)),
      r.1 ∙ ap (drop 7) e ∙ drop-request id unit_id pdu rest,
    )

receive_body_arrives :
    (c : Client) (script : List Recv) (code : ℕ) (body rest : List ℕ)
    → code < 128
    → stream script ≡ (code ∷ body) ++ rest
    → receive_body c (receive_all script (length (code ∷ body))).0 ≡ (c, ok (code ∷ body))
receive_body_arrives c script code body rest plain e =
    let r =
      receive_all-take script (length (code ∷ body))
        (rw e (omega (arith, length-append (code ∷ body) rest))) in
    rw (r.0, e, take-append_exact (length (code ∷ body)) (code ∷ body) rest refl)
      (receive_body_pdu c code body plain)

receive_reply_valid :
    (c : Client) (header : List ℕ) (script : List Recv) (n : ℕ)
    → header_valid c.transaction_id c.unit_id header ≡ true
    → word header 4 ≡ n + 1
    → receive_reply c (some header, script) ≡ receive_body c (receive_all script n).0
unfolding receive_reply
receive_reply_valid c header script n valid size =
    let e : word header 4 - 1 ≡ n = omega arith in rw (valid, e)

receive_reply_invalid :
    (c : Client) (header : List ℕ) (script : List Recv)
    → header_valid c.transaction_id c.unit_id header ≡ false
    → receive_reply c (some header, script) ≡ (closed c, err invalid_header)
unfolding receive_reply
receive_reply_invalid c header script invalid = rw invalid

-- A reply whose bytes arrive before the first error, however they are cut into chunks, and that
-- carries the id of this request, the unit's own id and a pdu of at most 252 bytes with no exception
-- bit, is the result of the transaction; the connection stays open.
pub transact_reply :
    (c : Client) (net : Network) (code : ℕ) (body rest : List ℕ)
    → c.is_open ≡ true
    → net.sends ≡ true
    → code < 128
    → length body < 252
    → stream net.incoming ≡ request (u16 (c.transaction_id + 1)) c.unit_id (code ∷ body) ++ rest
    → transact c net ≡ (record c { transaction_id = u16 (c.transaction_id + 1) }, ok (code ∷ body))
transact_reply c net code body rest port sends plain short e =
    let id = u16 (c.transaction_id + 1) in
    let t = record c { transaction_id = id } in
    let r = header_arrives net.incoming id c.unit_id (code ∷ body) rest e in
    let v = header_of_valid id c.unit_id (code ∷ body) (omega arith) (omega arith) in
    transact_open c net port sends
    ∙ ap (receive_reply t) r.0
    ∙ receive_reply_valid t (header_of id c.unit_id (code ∷ body)) (receive_all net.incoming 7).1
        (length (code ∷ body)) v.0 v.1
    ∙ receive_body_arrives t (receive_all net.incoming 7).1 code body rest plain r.1

-- A reply that carries another transaction id, such as a late reply to an earlier request, is
-- refused, and the connection is closed.
pub transact_stale :
    (c : Client) (net : Network) (other : ℕ) (pdu rest : List ℕ)
    → c.is_open ≡ true
    → net.sends ≡ true
    → other ≢ u16 (c.transaction_id + 1)
    → stream net.incoming ≡ request other c.unit_id pdu ++ rest
    → ((transact c net).1 ≡ err invalid_header) × ((transact c net).0.is_open ≡ false)
transact_stale c net other pdu rest port sends late e =
    let id = u16 (c.transaction_id + 1) in
    let t = record c { transaction_id = id } in
    let r = header_arrives net.incoming other c.unit_id pdu rest e in
    let v = header_of_stale id other c.unit_id pdu late in
    let refused =
      transact_open c net port sends
      ∙ ap (receive_reply t) r.0
      ∙ receive_reply_invalid t (header_of other c.unit_id pdu) (receive_all net.incoming 7).1 v in
    (ap (λ p. p.1) refused, ap (λ p. p.0.is_open) refused)

length-unpack : (response : List ℕ) (bit n : ℕ) → length (unpack response bit n) ≡ n
unfolding unpack
length-unpack response bit zero = refl
length-unpack response bit (suc n) = ap suc (length-unpack response (bit + 1) n)

length-check_reply :
    (quantity : ℕ) (r : Client × Result (List ℕ)) (values : List Bool)
    → (check_reply quantity r).1 ≡ ok values
    → length values ≡ quantity
unfolding check_reply
length-check_reply quantity (c, err x) values h = absurd (cc)
length-check_reply quantity (c, ok response) values h =
    ground (arith, length-unpack response 0 quantity)

-- Values are read only for a quantity of 1 to 2000, and then there is one for each input asked for.
pub read_discrete_inputs-length :
    (c : Client) (net : Network) (quantity : ℕ) (values : List Bool)
    → (read_discrete_inputs c net quantity).1 ≡ ok values
    → (0 < quantity) × (quantity ≤ 2000) × (length values ≡ quantity)
unfolding read_discrete_inputs
read_discrete_inputs-length c net quantity values h =
    ground (arith, length-check_reply quantity (transact c net) values)
