-- ===== src/Crevis/Wire/Registers.antt =====
-- The write of the register, with a module that takes it or refuses it
-- (catkin_ws/src/crevis_io_driver/src/crevis_io_node.cpp).
use ku_polishing_robot_drive.Base.{
  Bool, Bool-cases, List, [], ap, arith, false, if◌then◌else◌, inl, inr, length, none, refl, true,
  u16, ℕ, ◌∙◌, ◌∷◌, ◌≡◌,
}
use ku_polishing_robot_drive.Crevis.Modbus.{request, words_pdu, write_accepted}
use ku_polishing_robot_drive.Crevis.Modbus.Packing.{word_of}
use ku_polishing_robot_drive.Crevis.Node.{Config, Shadow, set_bit}
use ku_polishing_robot_drive.Crevis.Node.Outputs.{
  arrives, confirms, length-set_bit, Fate, answered, lost,
}
use ku_polishing_robot_drive.Crevis.Wire.{Module, Plant, store_on, talk}
use ku_polishing_robot_drive.Crevis.Wire.Transactions.{
  IsGood, Serves, fate_next, talk-outputs, talk-result, is_good, talk-refused, fate_next-answered,
  if_same,
}
use ku_polishing_robot_drive.Crevis.Wire.Simulation.{
  IsModule, illegal_function, talk-IsGood, two_words, write_accepted-confirms,
}

write_accepted-none : write_accepted 0x06 none ≡ false
unfolding write_accepted
write_accepted-none = refl

if_valid : (b valid : Bool) → valid ≡ true → (if b then valid else false) ≡ b
if_valid true valid e = e
if_valid false valid e = refl

module _ (c : Config) (m : Module) (h : IsModule c m) where
  -- What becomes of a write of the register: a module that refuses it is as one that never gets it.
  abbrev pub store_fate : Plant → Fate
  store_fate p = if h.takes_single then fate_next p else lost

  pub store_fate-answered :
      (p : Plant) → h.takes_single ≡ true → is_good (p.links 0) ≡ true → store_fate p ≡ answered
  store_fate-answered p takes good = rw takes (fate_next-answered p good)

  abbrev register_pdu : List Bool → List ℕ
  register_pdu bits = words_pdu 0x06 (u16 c.reg_base) (word_of bits)

  register_taken :
      (bits outputs : List Bool) (tid unit : ℕ)
      → c.register_mode ≡ true
      → length bits ≡ 16
      → h.takes_single ≡ true
      → m (request tid unit (register_pdu bits)) outputs
        ≡ (bits, request tid unit (register_pdu bits))
  register_taken bits outputs tid unit mode size takes =
      h.register_write tid unit bits outputs mode size ∙ rw takes refl

  register_refused :
      (bits outputs : List Bool) (tid unit : ℕ)
      → c.register_mode ≡ true
      → length bits ≡ 16
      → h.takes_single ≡ false
      → m (request tid unit (register_pdu bits)) outputs
        ≡ (outputs, request tid unit illegal_function)
  register_refused bits outputs tid unit mode size refuses =
      h.register_write tid unit bits outputs mode size ∙ rw refuses refl

  register-accepted :
      (bits : List Bool) (p : Plant)
      → c.register_mode ≡ true
      → length bits ≡ 16
      → write_accepted 0x06 (talk m (register_pdu bits) p).1 ≡ confirms (store_fate p)
  register-accepted bits p mode size = elim (Bool-cases h.takes_single) [
    | inl takes ↦
        let serves : Serves m (register_pdu bits) p.outputs bits 6 _ = record {
          served = λ tid unit. register_taken bits p.outputs tid unit mode size takes;
          plain = omega arith;
          short = omega arith;
        } in
        rw takes (
          ap (write_accepted 0x06)
            (talk-result m _ p bits 6 (two_words (u16 c.reg_base) (word_of bits)) serves)
          ∙ write_accepted-confirms (confirms (fate_next p)) 6
              (two_words (u16 c.reg_base) (word_of bits)))
    | inr refuses ↦ rw refuses (
        ap (write_accepted 0x06) (
          talk-refused m _ p 0x86 (1 ∷ [])
            (λ tid unit. register_refused bits p.outputs tid unit mode size refuses) (omega arith)
            (omega arith) (omega arith))
        ∙ write_accepted-none)
  ]

  pub register-outputs :
      (bits : List Bool) (p : Plant)
      → c.register_mode ≡ true
      → length bits ≡ 16
      → (talk m (register_pdu bits) p).0.outputs
        ≡ (if arrives (store_fate p) then bits else p.outputs)
  register-outputs bits p mode size = elim (Bool-cases h.takes_single) [
    | inl takes ↦ rw takes (
        talk-outputs m _ p bits
          (λ tid unit. ap (λ r. r.0) (register_taken bits p.outputs tid unit mode size takes)))
    | inr refuses ↦ rw refuses (
        talk-outputs m _ p p.outputs
          (λ tid unit. ap (λ r. r.0) (register_refused bits p.outputs tid unit mode size refuses))
        ∙ if_same (arrives (fate_next p)) p.outputs)
  ]

  pub store_on-confirms :
      (bit : ℕ) (on : Bool) (p : Plant)
      → c.register_mode ≡ true
      → length p.shadow.bits ≡ 16
      → (store_on m c bit on p).1 ≡ confirms (store_fate p)
  unfolding store_on
  store_on-confirms bit on p mode size =
      register-accepted (set_bit bit on p.shadow.bits) p mode
        (length-set_bit bit on p.shadow.bits ∙ size)

  pub store_on-outputs :
      (bit : ℕ) (on : Bool) (p : Plant)
      → c.register_mode ≡ true
      → length p.shadow.bits ≡ 16
      → (store_on m c bit on p).0.outputs
        ≡ (if arrives (store_fate p) then set_bit bit on p.shadow.bits else p.outputs)
  unfolding store_on
  store_on-outputs bit on p mode size =
      register-outputs (set_bit bit on p.shadow.bits) p mode
        (length-set_bit bit on p.shadow.bits ∙ size)

  pub store_on-shadow :
      (bit : ℕ) (on : Bool) (p : Plant)
      → c.register_mode ≡ true
      → length p.shadow.bits ≡ 16
      → p.shadow.valid ≡ true
      → (store_on m c bit on p).0.shadow
        ≡ record { bits = set_bit bit on p.shadow.bits; valid = confirms (store_fate p) }
  unfolding store_on
  store_on-shadow bit on p mode size valid =
      let of : Bool → Shadow = λ b. record { bits = set_bit bit on p.shadow.bits; valid = b } in
      ap of (
        if_valid (store_on m c bit on p).1 p.shadow.valid valid
        ∙ store_on-confirms bit on p mode size)

  pub store_on-IsGood :
      (bit : ℕ) (on : Bool) (p : Plant) → IsGood p → IsGood (store_on m c bit on p).0
  unfolding store_on
  store_on-IsGood bit on p g = talk-IsGood c m h _ p g
