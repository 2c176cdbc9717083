-- ===== src/Crevis/Modbus/Arrivals.antt =====
-- `recvAll` and `transact` over any segmentation of a reply
-- (catkin_ws/src/crevis_io_driver/src/crevis_io_node.cpp).
use ku_polishing_robot_drive.Base.{
  Bool-cases, List, Option, [], ap, append-nil, arith, drop, false, inl, inr, leb, length,
  length-append, length-drop, ltb, none, refl, some, suc, sym, take, take-append_exact,
  take-append_le, true, u16, zero, ℕ, ◌%◌, ◌*◌, ◌++◌, ◌+◌, ◌-◌, ◌/◌, ◌<◌, ◌∙◌, ◌∷◌, ◌≡◌, ◌≤◌,
}
use ku_polishing_robot_drive.SafetyIo.Modbus.{Recv, chunk, failed, interrupted, receive_all}
use ku_polishing_robot_drive.SafetyIo.Modbus.Stream.{receive_all-take, stream}
use ku_polishing_robot_drive.Crevis.Modbus.{
  Client, Network, exchange, recv_all, request, take_body, take_header,
}

-- An interrupted call ends the reception as an error does.
unfoldable pub settle : List Recv → List Recv
settle [] = []
settle (interrupted ∷ script) = failed ∷ settle script
settle (failed ∷ script) = failed ∷ settle script
settle (chunk bs ∷ script) = chunk bs ∷ settle script

-- `recvAll` is the safety driver's receive loop, but for the interrupted calls.
recv_all-receive_all :
    (script : List Recv) (n : ℕ)
    → ((recv_all script n).0 ≡ (receive_all (settle script) n).0)
      × (settle (recv_all script n).1 ≡ (receive_all (settle script) n).1)
unfolding recv_all receive_all settle
recv_all-receive_all script zero = (refl, refl)
recv_all-receive_all [] (suc n) = (refl, refl)
recv_all-receive_all (interrupted ∷ script) (suc n) = (refl, refl)
recv_all-receive_all (failed ∷ script) (suc n) = (refl, refl)
recv_all-receive_all (chunk [] ∷ script) (suc n) = (refl, refl)
recv_all-receive_all (chunk (b ∷ bs) ∷ script) (suc n) =
    let ih = recv_all-receive_all script (n - length bs) in
    elim (Bool-cases (leb (length bs) n)) [
      | inl inside ↦ rw (inside, ih.0, ih.1) (refl, refl)
      | inr beyond ↦ rw beyond (refl, refl)
    ]

-- The bytes that `recvAll` can get.
abbrev pub arriving : List Recv → List ℕ
arriving script = stream (settle script)

recv_all-take :
    (script : List Recv) (n : ℕ)
    → n ≤ length (arriving script)
    → ((recv_all script n).0 ≡ some (take n (arriving script)))
      × (arriving (recv_all script n).1 ≡ drop n (arriving script))
recv_all-take script n h =
    let r = recv_all-receive_all script n in
    let t = receive_all-take (settle script) n h in (r.0 ∙ t.0, ap stream r.1 ∙ t.1)

-- Of too few bytes `recvAll` makes nothing.
recv_all-short :
    (script : List Recv) (n : ℕ) → length (arriving script) < n → (recv_all script n).0 ≡ none
unfolding recv_all settle stream
recv_all-short script zero h = absurd (omega arith)
recv_all-short [] (suc n) h = refl
recv_all-short (interrupted ∷ script) (suc n) h = refl
recv_all-short (failed ∷ script) (suc n) h = refl
recv_all-short (chunk [] ∷ script) (suc n) h = refl
recv_all-short (chunk (b ∷ bs) ∷ script) (suc n) h =
    let size = length-append bs (arriving script) in
    let inside : leb (length bs) n ≡ true = ground (arith, size) in
    rw (inside, recv_all-short script (n - length bs) (omega (arith, size))) refl

pub length-request : (tid unit : ℕ) (pdu : List ℕ) → length (request tid unit pdu) ≡ length pdu + 7
unfolding request
length-request tid unit pdu = omega arith

drop-request :
    (tid unit : ℕ) (pdu rest : List ℕ) → drop 7 (request tid unit pdu ++ rest) ≡ pdu ++ rest
unfolding request
drop-request tid unit pdu rest = refl

take_header-request :
    (c : Client) (tid unit : ℕ) (pdu rest : List ℕ) (script : List Recv)
    → 0 < length pdu
    → length pdu < 253
    → take_header c (some (take 7 (request tid unit pdu ++ rest)), script)
      ≡ take_body c (recv_all script (length pdu)).0
unfolding take_header request
take_header-request c tid unit pdu rest script some_pdu short =
    let e : u16 (length pdu + 1) / 256 * 256 + u16 (length pdu + 1) % 256 - 1 ≡ length pdu =
      omega arith in
    let low : ltb (u16 (length pdu + 1) / 256 * 256 + u16 (length pdu + 1) % 256) 2 ≡ false =
      ground arith in
    let high : ltb 253 (u16 (length pdu + 1) / 256 * 256 + u16 (length pdu + 1) % 256) ≡ false =
      ground arith in
    rw (low, high, e) refl

pub take_body_plain :
    (c : Client) (code : ℕ) (body : List ℕ)
    → code < 128
    → take_body c (some (code ∷ body)) ≡ (c, some (code ∷ body))
unfolding take_body
take_body_plain c code body plain = ground arith

-- An exception says what function it refuses, with the highest bit set.
pub take_body_refused :
    (c : Client) (code : ℕ) (body : List ℕ)
    → 128 ≤ code
    → code < 256
    → take_body c (some (code ∷ body)) ≡ (c, none)
unfolding take_body
take_body_refused c code body from to = ground arith

-- A reply that arrives as a whole, however it is cut into pieces, is what `transact` looks at. Its
-- transaction id and its unit are not looked at.
pub exchange_reply :
    (c : Client) (net : Network) (pdu : List ℕ) (tid unit code : ℕ) (body rest : List ℕ)
    → net.sends ≡ true
    → length body < 252
    → arriving (net.incoming (request (u16 (c.tid + 1)) c.unit pdu))
      ≡ request tid unit (code ∷ body) ++ rest
    → exchange c net pdu ≡ take_body (record c { tid = u16 (c.tid + 1) }) (some (code ∷ body))
unfolding exchange
exchange_reply c net pdu tid unit code body rest sends short e =
    let t = record c { tid = u16 (c.tid + 1) } in
    let reply = code ∷ body in
    let script = net.incoming (request t.tid t.unit pdu) in
    let header = recv_all-take script 7 (
      rw e (
        omega
          (arith, length-append (request tid unit reply) rest, length-request tid unit reply))) in
    let left : arriving (recv_all script 7).1 ≡ reply ++ rest =
      header.1 ∙ ap (drop 7) e ∙ drop-request tid unit reply rest in
    let got =
      recv_all-take (recv_all script 7).1 (length reply)
        (rw left (omega (arith, length-append reply rest))) in
    rw sends (
      ap (λ o. take_header t (o, (recv_all script 7).1)) (header.0 ∙ ap (λ l. some (take 7 l)) e)
      ∙ take_header-request t tid unit reply rest (recv_all script 7).1 (omega arith) (omega arith)
      ∙ ap (take_body t) (
          got.0
          ∙ ap (λ l. some (take (length reply) l)) left
          ∙ ap some (take-append_exact (length reply) reply rest refl)))

take_header-none :
    (c : Client) (r : Option (List ℕ) × List Recv) → r.0 ≡ none → (take_header c r).1 ≡ none
unfolding take_header
take_header-none c (none, script) e = refl
take_header-none c (some hdr, script) e = absurd (cc)

take_body-none : (c : Client) (o : Option (List ℕ)) → o ≡ none → (take_body c o).1 ≡ none
unfolding take_body
take_body-none c none e = refl
take_body-none c (some bs) e = absurd (cc)

-- A reply that ends too early, however it is cut into pieces, gives nothing.
pub exchange_broken :
    (c : Client) (net : Network) (pdu : List ℕ) (tid unit code : ℕ) (body rest : List ℕ)
    → net.sends ≡ true
    → length body < 252
    → arriving (net.incoming (request (u16 (c.tid + 1)) c.unit pdu)) ++ rest
      ≡ request tid unit (code ∷ body)
    → 0 < length rest
    → (exchange c net pdu).1 ≡ none
unfolding exchange
exchange_broken c net pdu tid unit code body rest sends short e some_lost =
    let t = record c { tid = u16 (c.tid + 1) } in
    let reply = code ∷ body in
    let script = net.incoming (request t.tid t.unit pdu) in
    let size : length (arriving script) + length rest ≡ length reply + 7 =
      sym (length-append (arriving script) rest) ∙ ap length e ∙ length-request tid unit reply in
    rw sends (elim (Bool-cases (ltb (length (arriving script)) 7)) [
      | inl no_header ↦
          take_header-none t (recv_all script 7) (recv_all-short script 7 (ground arith))
      | inr header ↦
          let long : 7 ≤ length (arriving script) = ground arith in
          let got = recv_all-take script 7 long in
          let left = (recv_all script 7).1 in
          let first : (recv_all script 7).0 ≡ some (take 7 (request tid unit reply ++ [])) =
            got.0
            ∙ ap some (
                sym (take-append_le 7 (arriving script) rest long)
                ∙ ap (take 7) (e ∙ sym (append-nil (request tid unit reply)))) in
          let few : length (arriving left) < length reply =
            omega (arith, ap length got.1, length-drop 7 (arriving script), size) in
          ap (λ o. (take_header t (o, left)).1) first
          ∙ ap (λ r. r.1) (take_header-request t tid unit reply [] left (omega arith) (omega arith))
          ∙ take_body-none t (recv_all left (length reply)).0
              (recv_all-short left (length reply) few)
    ])
