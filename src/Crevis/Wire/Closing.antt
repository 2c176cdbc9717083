-- ===== src/Crevis/Wire/Closing.antt =====
-- `onShutdown` in bytes: the writes that switch outputs off, and the end of the connection
-- (catkin_ws/src/crevis_io_driver/src/crevis_io_node.cpp).
pub mod Modes
use ku_polishing_robot_drive.Base.{
  Bool, Bool-cases, List, Option, [], ap, arith, false, get_or, if◌then◌else◌, inl, inr, map, not,
  refl, same, some, subst, sym, true, u16, ℕ, ◌+◌, ◌<◌, ◌==◌, ◌||◌, ◌∙◌, ◌∷◌, ◌≡◌, ◌≤◌, ◌⊎◌,
}
use mathlib.Core.Option
use ku_polishing_robot_drive.Crevis.Modbus.{close_sock, words_pdu}
use ku_polishing_robot_drive.Crevis.Modbus.Packing.{word_of}
use ku_polishing_robot_drive.Crevis.Node.{Config, Led, darkened, set_bit}
use ku_polishing_robot_drive.Crevis.Node.Outputs.{arrives}
use ku_polishing_robot_drive.Crevis.Node.Shutdown.{get_or-set_bit-false, goes_off}
use ku_polishing_robot_drive.Crevis.Wire.{Module, Plant, coil_value, ensure_on, talk}
use ku_polishing_robot_drive.Crevis.Wire.Transactions.{
  IsGood, fate_next, fate_next-answered, talk-outputs,
}
use ku_polishing_robot_drive.Crevis.Wire.Simulation.{IsModule, talk-IsGood, TakesWrites}

-- `writeSingleCoil` with the value off
abbrev pub coil_off : Module → Config → ℕ → Plant → Plant
coil_off m c bit p = (talk m (words_pdu 0x05 (u16 (c.coil_base + bit)) (coil_value false)) p).0

unfoldable pub leds_off : Module → Config → List Led → Plant → Plant
leds_off m c [] p = p
leds_off m c (l ∷ ls) p = leds_off m c ls (coil_off m c l.bit p)

unfoldable pub coils_off : Module → Config → Plant → Plant
coils_off m c p =
    let q = if c.leds_off_on_shutdown then leds_off m c c.leds p else p in
    if c.charging_off_on_shutdown then coil_off m c c.charging_bit q else q

-- the write of the register, if the shadow is valid
unfoldable pub register_off : Module → Config → Plant × Bool → Plant
register_off m c (p, false) = p
register_off m c (p, true) =
    let bits = darkened c p.shadow.bits in
    let q = record p { shadow = record p.shadow { bits = bits } } in
    (talk m (words_pdu 0x06 (u16 c.reg_base) (word_of bits)) q).0

abbrev pub sock_closed : Plant → Plant
sock_closed p = record p { client = close_sock p.client }

-- `onShutdown`
unfoldable pub shut_down : Module → Config → Plant → Option Plant
shut_down m c p =
    if not c.register_mode
    then some (sock_closed (coils_off m c p))
    else if c.leds_off_on_shutdown || c.charging_off_on_shutdown
    then Option.map (λ r. sock_closed (register_off m c r)) (ensure_on m c p)
    else some (sock_closed p)

-- Every output is as before, or is one of these and off.
abbrev pub Off : (ℕ → Bool) → List Bool → List Bool → Type 0
Off these before after =
    (j : ℕ)
    → (get_or after j false ≡ get_or before j false)
      ⊎ ((these j ≡ true) × (get_or after j false ≡ false))

pub Off-trans :
    (these : ℕ → Bool) (a b d : List Bool) → Off these a b → Off these b d → Off these a d
Off-trans these a b d f g j = elim (g j) [
  | inr off ↦ inr off
  | inl same ↦ elim (f j) [ inl e ↦ inl (same ∙ e) | inr off ↦ inr (off.0, same ∙ off.1) ]
]

-- One output goes off or stays.
Off-coil :
    (these : ℕ → Bool) (bit : ℕ) (came : Bool) (outputs : List Bool)
    → these bit ≡ true
    → Off these outputs (if came then set_bit bit false outputs else outputs)
Off-coil these bit false outputs e j = inl refl
Off-coil these bit true outputs e j = elim (Bool-cases (bit == j)) [
  | inl here ↦
      let at : bit ≡ j = ground arith in
      inr (subst (λ k. these k ≡ true) at e, get_or-set_bit-false bit j outputs ∙ simp here refl)
  | inr elsewhere ↦ inl (get_or-set_bit-false bit j outputs ∙ simp elsewhere refl)
]

-- A stage of the shutdown: as far as it gets, and, where the module takes the writes and nothing is
-- lost, all of it.
pub record Stage (Takes : Type 0) (these : ℕ → Bool) (f : List Bool → List Bool) (p q : Plant)
    : Type 0 where
  pub off : Off these p.outputs q.outputs
  pub dark : Takes → IsGood p → (q.outputs ≡ f p.outputs) × IsGood q

pub then_Stage :
    {Takes : Type 0} (these : ℕ → Bool) (f g : List Bool → List Bool) (p q r : Plant)
    → Stage Takes these f p q
    → Stage Takes these g q r
    → Stage Takes these (λ l. g (f l)) p r
then_Stage these f g p q r a b = record {
  off = Off-trans these p.outputs q.outputs r.outputs a.off b.off;
  dark = λ takes good.
      let first = a.dark takes good in
      let second = b.dark takes first.1 in (second.0 ∙ ap g first.0, second.1);
}

pub if_Stage :
    {Takes : Type 0} (these : ℕ → Bool) (f : List Bool → List Bool) (p q : Plant) (b : Bool)
    → (b ≡ true → Stage Takes these f p q)
    → Stage Takes these (λ l. if b then f l else l) p (if b then q else p)
if_Stage these f p q true h = h refl
if_Stage these f p q false h = record { off = λ j. inl refl; dark = λ takes good. (refl, good) }

module _ (c : Config) (m : Module) (h : IsModule c m) where
  coil_off-outputs :
      (bit : ℕ) (p : Plant)
      → c.coil_base + 16 ≤ 65536
      → bit < 16
      → (coil_off m c bit p).outputs
        ≡ (if arrives (fate_next p) then set_bit bit false p.outputs else p.outputs)
  coil_off-outputs bit p base near =
      talk-outputs m _ p (set_bit bit false p.outputs)
        (λ tid unit. ap (λ r. r.0) (h.coil_write tid unit bit false p.outputs near))

  pub coil_off-Stage :
      (these : ℕ → Bool) (bit : ℕ) (p : Plant)
      → c.coil_base + 16 ≤ 65536
      → bit < 16
      → these bit ≡ true
      → Stage (TakesWrites c h) these (set_bit bit false) p (coil_off m c bit p)
  coil_off-Stage these bit p base near e =
      let outputs = coil_off-outputs bit p base near in
      record {
        off =
            subst (Off these p.outputs) (sym outputs)
              (Off-coil these bit (arrives (fate_next p)) p.outputs e);
        dark = λ takes good. (
          outputs
              ∙ ap (λ f. if arrives f then set_bit bit false p.outputs else p.outputs)
                  (fate_next-answered p (good 0)),
          talk-IsGood c m h _ p good,
        );
      }
