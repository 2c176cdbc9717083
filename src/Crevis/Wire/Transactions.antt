-- ===== src/Crevis/Wire/Transactions.antt =====
-- One transaction with a module that gives a reply
-- (catkin_ws/src/crevis_io_driver/src/crevis_io_node.cpp).
use ku_polishing_robot_drive.Base.{
  Bool, Bool-cases, List, Option, [], ap, append-nil, arith, drop, false, if◌then◌else◌, inl, inr,
  length, length-drop, ltb, none, refl, some, sym, take, take-append-drop, true, u16, ℕ, ◌&&◌, ◌++◌,
  ◌+◌, ◌-◌, ◌<◌, ◌||◌, ◌∙◌, ◌∷◌, ◌≡◌, ◌≤◌,
}
use ku_polishing_robot_drive.SafetyIo.Modbus.{failed}
use ku_polishing_robot_drive.SafetyIo.Modbus.Stream.{stream}
use ku_polishing_robot_drive.Crevis.Modbus.{
  Client, Network, exchange, recv_all, request, take_header, transact, take_body,
}
use ku_polishing_robot_drive.Crevis.Modbus.Arrivals.{
  arriving, exchange_reply, settle, take_body_plain, take_body_refused, length-request,
  exchange_broken,
}
use ku_polishing_robot_drive.Crevis.Node.Outputs.{
  Fate, answered, arrives, confirms, lost, unanswered,
}
use ku_polishing_robot_drive.Crevis.Wire.{
  Delivery, Module, Plant, cut, dropped, network, replied, talk, unreplied, unsent, is_received,
  Link, broken,
}

-- What the link makes of a request.
unfoldable pub fate_of : Bool → Delivery → Fate
fate_of false d = lost
fate_of true (replied sizes) = answered
fate_of true (broken n sizes) = unanswered
fate_of true unreplied = unanswered
fate_of true dropped = lost
fate_of true unsent = lost

abbrev pub fate_next : Plant → Fate
fate_next p = fate_of (p.client.is_open || (p.links 0).opens) (p.links 0).delivery

arriving-cut : (sizes bytes : List ℕ) → arriving (cut sizes bytes) ≡ bytes
unfolding settle stream
arriving-cut [] [] = refl
arriving-cut [] (b ∷ bytes) = ap (λ l. b ∷ l) (append-nil bytes)
arriving-cut (n ∷ sizes) [] = refl
arriving-cut (n ∷ sizes) (b ∷ bytes) =
    ap (λ l. b ∷ (take n bytes ++ l)) (arriving-cut sizes (drop n bytes))
    ∙ ap (λ l. b ∷ l) (take-append-drop n bytes)

-- Without a byte of the reply there is no reply.
exchange_silent :
    (k : Client) (net : Network) (pdu : List ℕ)
    → net.incoming (request (u16 (k.tid + 1)) k.unit pdu) ≡ failed ∷ []
    → (exchange k net pdu).1 ≡ none
unfolding exchange take_header recv_all
exchange_silent k net pdu e = elim (Bool-cases net.sends) [
  | inl sent ↦ rw (sent, e) refl
  | inr fails ↦ rw fails refl
]

exchange_unsent :
    (k : Client) (net : Network) (pdu : List ℕ) → net.sends ≡ false → (exchange k net pdu).1 ≡ none
unfolding exchange
exchange_unsent k net pdu e = rw e refl

-- The module answers this request with this reply, and its outputs become these.
pub record Serves (m : Module) (pdu : List ℕ) (before after : List Bool) (code : ℕ) (body : List ℕ)
    : Type 0 where
  pub served :
      (tid unit : ℕ) → m (request tid unit pdu) before ≡ (after, request tid unit (code ∷ body))
  pub plain : code < 128
  pub short : length body < 252

-- The module answers this request so, its outputs become these, and this is what the node gets.
record Gets (m : Module) (pdu : List ℕ) (before after : List Bool) (got : Option (List ℕ))
    : Type 0 where
  pub code : ℕ
  pub body : List ℕ
  pub served :
      (tid unit : ℕ) → m (request tid unit pdu) before ≡ (after, request tid unit (code ∷ body))
  pub understood : (k : Client) → take_body k (some (code ∷ body)) ≡ (k, got)
  pub short : length body < 252

exchange_fate :
    (m : Module) (opens : Bool) (d : Delivery) (k : Client) (pdu : List ℕ)
    (before after : List Bool) (got : Option (List ℕ))
    → Gets m pdu before after got
    → (exchange k (network m (record { opens = opens; delivery = d }) before) pdu).1
      ≡ (if confirms (fate_of true d) then got else none)
unfolding fate_of
exchange_fate m opens (replied sizes) k pdu before after got h =
    let tid = u16 (k.tid + 1) in
    ap (λ r. r.1)
      (exchange_reply k _ pdu tid k.unit h.code h.body [] refl h.short (
          arriving-cut sizes (m (request tid k.unit pdu) before).1
          ∙ ap (λ r. r.1) (h.served tid k.unit)
          ∙ sym (append-nil (request tid k.unit (h.code ∷ h.body))))
        ∙ h.understood (record k { tid = tid }))
exchange_fate m opens (broken n sizes) k pdu before after got h =
    let tid = u16 (k.tid + 1) in
    let reply = (m (request tid k.unit pdu) before).1 in
    let upto = if ltb n (length reply - 1) then n else length reply - 1 in
    let e = ap (λ r. r.1) (h.served tid k.unit) in
    let size : length reply ≡ length (h.code ∷ h.body) + 7 =
      ap length e ∙ length-request tid k.unit (h.code ∷ h.body) in
    let inside : upto < length reply = ground (arith, size) in
    exchange_broken k _ pdu tid k.unit h.code h.body (drop upto reply) refl h.short
      (ap (λ l. l ++ drop upto reply) (arriving-cut sizes (take upto reply))
        ∙ take-append-drop upto reply
        ∙ e)
      (omega (arith, length-drop upto reply, inside))
exchange_fate m opens unreplied k pdu before after got h = exchange_silent k _ pdu refl
exchange_fate m opens dropped k pdu before after got h = exchange_silent k _ pdu refl
exchange_fate m opens unsent k pdu before after got h = exchange_unsent k _ pdu refl

talk-got :
    (m : Module) (pdu : List ℕ) (p : Plant) (after : List Bool) (got : Option (List ℕ))
    → Gets m pdu p.outputs after got
    → (talk m pdu p).1 ≡ (if confirms (fate_next p) then got else none)
unfolding talk transact fate_of
talk-got m pdu p after got h =
    let l = p.links 0 in
    let opened : Client = record p.client { is_open = true } in
    elim (Bool-cases p.client.is_open) [
      | inl is_open ↦
          rw is_open (exchange_fate m l.opens l.delivery opened pdu p.outputs after got h)
      | inr closed ↦ elim (Bool-cases l.opens) [
        | inl opens ↦
            rw (closed, opens) (exchange_fate m true l.delivery opened pdu p.outputs after got h)
        | inr fails ↦ rw (closed, fails) refl
      ]
    ]

-- What a transaction gives, by its fate.
pub talk-result :
    (m : Module) (pdu : List ℕ) (p : Plant) (after : List Bool) (code : ℕ) (body : List ℕ)
    → Serves m pdu p.outputs after code body
    → (talk m pdu p).1 ≡ (if confirms (fate_next p) then some (code ∷ body) else none)
talk-result m pdu p after code body h = talk-got m pdu p after (some (code ∷ body)) (record {
  code = code;
  body = body;
  served = h.served;
  understood = λ k. take_body_plain k code body h.plain;
  short = h.short;
})

pub if_same {ℓ} : {A : Type ℓ} (b : Bool) (x : A) → (if b then x else x) ≡ x
if_same true x = refl
if_same false x = refl

-- An exception gives nothing, as a lost reply does.
pub talk-refused :
    (m : Module) (pdu : List ℕ) (p : Plant) (code : ℕ) (body : List ℕ)
    → ((tid unit : ℕ)
        → m (request tid unit pdu) p.outputs ≡ (p.outputs, request tid unit (code ∷ body)))
    → 128 ≤ code
    → code < 256
    → length body < 252
    → (talk m pdu p).1 ≡ none
talk-refused m pdu p code body served from to short =
    talk-got m pdu p p.outputs none (record {
      code = code;
      body = body;
      served = served;
      understood = λ k. take_body_refused k code body from to;
      short = short;
    })
    ∙ if_same (confirms (fate_next p)) none

received-arrives : (b : Bool) (d : Delivery) → (b && is_received d) ≡ arrives (fate_of b d)
unfolding fate_of
received-arrives false d = refl
received-arrives true (replied sizes) = refl
received-arrives true (broken n sizes) = refl
received-arrives true unreplied = refl
received-arrives true dropped = refl
received-arrives true unsent = refl

-- What a transaction makes of the outputs, by its fate.
pub talk-outputs :
    (m : Module) (pdu : List ℕ) (p : Plant) (after : List Bool)
    → ((tid unit : ℕ) → (m (request tid unit pdu) p.outputs).0 ≡ after)
    → (talk m pdu p).0.outputs ≡ (if arrives (fate_next p) then after else p.outputs)
unfolding talk
talk-outputs m pdu p after h =
    let l = p.links 0 in
    rw
      (
        received-arrives (p.client.is_open || l.opens) l.delivery,
        h (u16 (p.client.tid + 1)) p.client.unit,
      )
      refl

abbrev is_replied : Delivery → Bool
is_replied (replied sizes) = true
is_replied _ = false

-- A transaction that finds a connection and its reply.
abbrev pub is_good : Link → Bool
is_good l = l.opens && is_replied l.delivery

fate_of-answered :
    (is_open opens : Bool) (d : Delivery)
    → (opens && is_replied d) ≡ true
    → fate_of (is_open || opens) d ≡ answered
unfolding fate_of
fate_of-answered is_open false d good = cc
fate_of-answered is_open true (broken n sizes) good = cc
fate_of-answered is_open true unreplied good = cc
fate_of-answered is_open true dropped good = cc
fate_of-answered is_open true unsent good = cc
fate_of-answered true true (replied sizes) good = refl
fate_of-answered false true (replied sizes) good = refl

pub fate_next-answered : (p : Plant) → is_good (p.links 0) ≡ true → fate_next p ≡ answered
fate_next-answered p good =
    fate_of-answered p.client.is_open (p.links 0).opens (p.links 0).delivery good

abbrev pub IsGood : Plant → Type 0
IsGood p = (i : ℕ) → is_good (p.links i) ≡ true
