-- ===== src/Crevis/Wire/Simulation.antt =====
-- The node's transactions with a module that answers as `IsModule` says: `syncOutputShadowLocked`
-- (catkin_ws/src/crevis_io_driver/src/crevis_io_node.cpp).
use ku_polishing_robot_drive.Base.{
  Bool, List, [], ap, arith, false, if◌then◌else◌, length, length-take, none, refl, some, suc, take,
  take_all, true, u16, ℕ, ◌%◌, ◌+◌, ◌/◌, ◌<◌, ◌∙◌, ◌∷◌, ◌≡◌, ◌≤◌,
}
use ku_polishing_robot_drive.Crevis.Modbus.{coils_of, request, words_pdu, write_accepted}
use ku_polishing_robot_drive.Crevis.Modbus.Packing.{
  coils_of-coils_reply, coils_reply, length-packed, word_of,
}
use ku_polishing_robot_drive.Crevis.Node.{sync_output_shadow, Config, Shadow, set_bit}
use ku_polishing_robot_drive.Crevis.Node.Outputs.{arrives, confirms, found_in}
use ku_polishing_robot_drive.Crevis.Wire.{
  sync_on, synced, Module, Plant, coil_value, find_coils, found_of, talk,
}
use ku_polishing_robot_drive.Crevis.Wire.Transactions.{
  IsGood, Serves, fate_next, talk-outputs, talk-result, if_same,
}

-- the exception for function 6
abbrev pub illegal_function : List ℕ
illegal_function = 0x86 ∷ 1 ∷ []

-- A module with 16 outputs: one register over all of them, one coil for each; a write is confirmed by
-- its own bytes, a read packs the coils. Reads change nothing. The manual gives the functions 3 and 16
-- for the register and `writeSingleRegister` sends function 6: a module takes it as well, or refuses it
-- as Modbus says, with the exception for a function that it does not have, and changes nothing. In coil
-- mode the register is not asked for.
pub record IsModule (c : Config) (m : Module) : Type 0 where
  pub takes_single : Bool
  pub register_write :
      (tid unit : ℕ) (bits outputs : List Bool)
      → c.register_mode ≡ true
      → length bits ≡ 16
      → m (request tid unit (words_pdu 0x06 (u16 c.reg_base) (word_of bits))) outputs ≡ (
          if takes_single
          then (bits, request tid unit (words_pdu 0x06 (u16 c.reg_base) (word_of bits)))
          else (outputs, request tid unit illegal_function))
  pub coil_write :
      (tid unit bit : ℕ) (on : Bool) (outputs : List Bool)
      → bit < 16
      → m (request tid unit (words_pdu 0x05 (u16 (c.coil_base + bit)) (coil_value on))) outputs ≡ (
        set_bit bit on outputs,
        request tid unit (words_pdu 0x05 (u16 (c.coil_base + bit)) (coil_value on)),
      )
  pub coils_read :
      (tid unit qty : ℕ) (outputs : List Bool)
      → length outputs ≡ 16
      → qty ≤ 16
      → m (request tid unit (words_pdu 0x01 (u16 c.coil_base) qty)) outputs
        ≡ (outputs, request tid unit (coils_reply (take qty outputs)))
  pub registers_read :
      (tid unit addr qty : ℕ) (outputs : List Bool)
      → (m (request tid unit (words_pdu 0x04 addr qty)) outputs).0 ≡ outputs

-- In register mode, whether function 6 writes the register.
abbrev pub TakesWrites : (c : Config) → {m : Module} → IsModule c m → Type 0
TakesWrites c h = c.register_mode ≡ true → h.takes_single ≡ true

found_of-coils_reply :
    (b : Bool) (bits : List Bool)
    → length bits ≤ 16
    → found_of (coils_of (length bits) (if b then some (coils_reply bits) else none))
      ≡ some (found_in b bits)
unfolding found_of coils_of
found_of-coils_reply true bits size = ap found_of (coils_of-coils_reply bits size)
found_of-coils_reply false bits size = refl

pub write_accepted-confirms :
    (b : Bool) (code : ℕ) (body : List ℕ)
    → write_accepted code (if b then some (code ∷ body) else none) ≡ b
unfolding write_accepted
write_accepted-confirms true code body = ground arith
write_accepted-confirms false code body = refl

-- the four bytes of a write
abbrev pub two_words : ℕ → ℕ → List ℕ
two_words a b = a / 256 ∷ a % 256 ∷ b / 256 ∷ b % 256 ∷ []

module _ (c : Config) (m : Module) (h : IsModule c m) where
  pub find_coils-found :
      (qty : ℕ) (p : Plant)
      → length p.outputs ≡ 16
      → qty ≤ 16
      → (find_coils m c qty p).1 ≡ some (found_in (confirms (fate_next p)) (take qty p.outputs))
  find_coils-found qty p size few =
      let small : u16 qty ≡ qty = omega arith in
      let count : qty ≡ length (take qty p.outputs) = omega (arith, length-take qty p.outputs) in
      let bits = take qty p.outputs in
      let serves : Serves m (words_pdu 0x01 (u16 c.coil_base) qty) p.outputs p.outputs 1 _ =
        record {
          served = λ tid unit. h.coils_read tid unit qty p.outputs size few;
          plain = omega arith;
          short = omega (arith, length-packed bits);
        } in
      rw small (
        ap (λ r. found_of (coils_of qty r)) (talk-result m _ p p.outputs 1 _ serves)
        ∙ ap
            (λ n.
              found_of
                (coils_of n (if confirms (fate_next p) then some (coils_reply bits) else none)))
            count
        ∙ found_of-coils_reply (confirms (fate_next p)) bits (omega arith))

  pub find_coils-outputs :
      (qty : ℕ) (p : Plant)
      → length p.outputs ≡ 16
      → qty ≤ 16
      → (find_coils m c qty p).0.outputs ≡ p.outputs
  find_coils-outputs qty p size few =
      let small : u16 qty ≡ qty = omega arith in
      rw small (
        talk-outputs m _ p p.outputs
          (λ tid unit. ap (λ r. r.0) (h.coils_read tid unit qty p.outputs size few))
        ∙ if_same (arrives (fate_next p)) p.outputs)

  pub find_coils-shadow : (qty : ℕ) (p : Plant) → (find_coils m c qty p).0.shadow ≡ p.shadow
  unfolding talk
  find_coils-shadow qty p = refl

  pub talk-IsGood : (pdu : List ℕ) (p : Plant) → IsGood p → IsGood (talk m pdu p).0
  unfolding talk
  talk-IsGood pdu p g i = g (suc i)

  -- A read that finds nothing ends the operation.
  pub sync_on-found :
      (p : Plant)
      → length p.outputs ≡ 16
      → sync_on m c p ≡ (
          let q = (find_coils m c 16 p).0 in
          let s = sync_output_shadow (found_in (confirms (fate_next p)) p.outputs) p.shadow in
          some (record q { shadow = s.0 }, s.1))
  unfolding sync_on
  sync_on-found p size =
      let q = (find_coils m c 16 p).0 in
      let whole : take 16 p.outputs ≡ p.outputs = take_all 16 p.outputs (omega arith) in
      ap (synced q) (
        find_coils-found 16 p size (omega arith)
        ∙ ap (λ l. some (found_in (confirms (fate_next p)) l)) whole)
      ∙ ap
          (λ (s : Shadow).
            let t = sync_output_shadow (found_in (confirms (fate_next p)) p.outputs) s in
            some (record q { shadow = t.0 }, t.1))
          (find_coils-shadow 16 p)
