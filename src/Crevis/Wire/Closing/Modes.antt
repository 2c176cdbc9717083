-- ===== src/Crevis/Wire/Closing/Modes.antt =====
-- The shutdown in coil mode and in register mode
-- (catkin_ws/src/crevis_io_driver/src/crevis_io_node.cpp).
use ku_polishing_robot_drive.Base.{
  All, Bool, Bool-cases, List, Option, [], ap, arith, false, get_or, if◌then◌else◌, inl, inr,
  length, refl, same, some, subst, sym, true, ℕ, ◌+◌, ◌<◌, ◌||◌, ◌∙◌, ◌∷◌, ◌≡◌, ◌≤◌,
}
use mathlib.Core.Option
use ku_polishing_robot_drive.Crevis.Node.{
  Config, Led, clear_leds, darkened, set_bit, sync_output_shadow, shadow_of,
}
use ku_polishing_robot_drive.Crevis.Node.Shutdown.{
  get_or-darkened, goes_off, is_led, length-darkened,
}
use ku_polishing_robot_drive.Crevis.Wire.{Module, Plant, ensure_on}
use ku_polishing_robot_drive.Crevis.Wire.Transactions.{IsGood}
use ku_polishing_robot_drive.Crevis.Wire.Simulation.{IsModule, talk-IsGood}
use ku_polishing_robot_drive.Crevis.Wire.Registers.{
  store_fate, register-outputs, store_fate-answered,
}
use ku_polishing_robot_drive.Crevis.Wire.Transactions.{fate_next, fate_next-answered, IsGood}
use ku_polishing_robot_drive.Crevis.Node.Outputs.{
  IsConsistent, shadow_of-outputs, found_in, confirms,
}
use ku_polishing_robot_drive.Crevis.Wire.Simulation.{find_coils-outputs, sync_on-found}
use ku_polishing_robot_drive.Crevis.Wire.{find_coils, sync_on}
use ku_polishing_robot_drive.Crevis.Wire.Closing.{
  Off, sock_closed, coil_off, coils_off, leds_off, Stage, register_off, then_Stage, arrives,
  coil_off-Stage, if_Stage, shut_down, TakesWrites,
}

-- The shutdown ends with the connection closed, and leaves the outputs so; all of it is done where the
-- module takes the writes and nothing is lost.
pub record Closes (Takes : Type 0) (c : Config) (p : Plant) (r : Option Plant) : Type 0 where
  pub plant : Plant
  pub ends : r ≡ some plant
  pub closed : plant.client.is_open ≡ false
  pub off : Off (goes_off c) p.outputs plant.outputs
  pub done :
      Takes
      → IsGood p
      → (j : ℕ)
      → get_or plant.outputs j false ≡ (if goes_off c j then false else get_or p.outputs j false)

Off-darkened : (c : Config) (bits : List Bool) → Off (goes_off c) bits (darkened c bits)
Off-darkened c bits j = elim (Bool-cases (goes_off c j)) [
  | inl off ↦ inr (off, get_or-darkened c j bits ∙ simp off refl)
  | inr stays ↦ inl (get_or-darkened c j bits ∙ simp stays refl)
]

Off-register :
    (c : Config) (came : Bool) (outputs bits : List Bool)
    → bits ≡ darkened c outputs
    → Off (goes_off c) outputs (if came then bits else outputs)
Off-register c true outputs bits e j =
    subst (Off (goes_off c) outputs) (sym e) (Off-darkened c outputs) j
Off-register c false outputs bits e j = inl refl

Stage-Closes :
    {Takes : Type 0} (c : Config) (p q : Plant)
    → Stage Takes (goes_off c) (darkened c) p q
    → Closes Takes c p (some (sock_closed q))
Stage-Closes c p q d = record {
  plant = sock_closed q;
  ends = refl;
  closed = refl;
  off = d.off;
  done = λ takes g j.
      ap (λ (l : List Bool). get_or l j false) (d.dark takes g).0 ∙ get_or-darkened c j p.outputs;
}

module _ (c : Config) (m : Module) (h : IsModule c m) where
  -- The LEDs, where all of them are outputs that are meant to go off.
  leds_off-Stage :
      (these : ℕ → Bool) (leds : List Led) (p : Plant)
      → c.coil_base + 16 ≤ 65536
      → All (λ l. l.bit < 16) leds
      → ((j : ℕ) → is_led j leds ≡ true → these j ≡ true)
      → Stage (TakesWrites c h) these (clear_leds leds) p (leds_off m c leds p)
  unfolding leds_off
  leds_off-Stage these [] p base small meant = record {
    off = λ j. inl refl;
    dark = λ takes good. (refl, good);
  }
  leds_off-Stage these (l ∷ ls) p base small meant =
      then_Stage these (set_bit l.bit false) (clear_leds ls) p (coil_off m c l.bit p) _
        (coil_off-Stage c m h these l.bit p base small.0 (meant l.bit (ground arith)))
        (leds_off-Stage these ls (coil_off m c l.bit p) base small.1
          (λ j e. meant j (ground arith)))

  coils_off-Stage :
      (p : Plant)
      → c.coil_base + 16 ≤ 65536
      → c.charging_bit < 16
      → All (λ l. l.bit < 16) c.leds
      → Stage (TakesWrites c h) (goes_off c) (darkened c) p (coils_off m c p)
  unfolding coils_off darkened
  coils_off-Stage p base charging small =
      let all = goes_off c in
      let q = if c.leds_off_on_shutdown then leds_off m c c.leds p else p in
      then_Stage all _ _ p q _
        (if_Stage all (clear_leds c.leds) p (leds_off m c c.leds p) c.leds_off_on_shutdown
          (λ on. leds_off-Stage all c.leds p base small (λ j e. ground arith)))
        (if_Stage all (set_bit c.charging_bit false) q (coil_off m c c.charging_bit q)
          c.charging_off_on_shutdown
          (λ on. coil_off-Stage c m h all c.charging_bit q base charging (ground arith)))

  -- The register, from a shadow that is right.
  register_off-Stage :
      (p : Plant)
      → c.register_mode ≡ true
      → length p.outputs ≡ 16
      → p.shadow.bits ≡ p.outputs
      → Stage (TakesWrites c h) (goes_off c) (darkened c) p (register_off m c (p, true))
  unfolding register_off
  register_off-Stage p mode size current =
      let bits = darkened c p.shadow.bits in
      let q : Plant = record p { shadow = record p.shadow { bits = bits } } in
      let whole : length bits ≡ 16 = length-darkened c p.shadow.bits ∙ ap length current ∙ size in
      let outputs : (register_off m c (p, true)).outputs
          ≡ (if arrives (store_fate c m h p) then bits else p.outputs) =
        register-outputs c m h bits q mode whole in
      record {
        off = subst (Off (goes_off c) p.outputs) (sym outputs) (
            Off-register c (arrives (store_fate c m h p)) p.outputs bits (ap (darkened c) current));
        dark = λ takes good. (
          outputs
              ∙ ap (λ f. if arrives f then bits else p.outputs)
                  (store_fate-answered c m h p (takes mode) (good 0))
              ∙ ap (darkened c) current,
          talk-IsGood c m h _ q good,
        );
      }

  -- Without a valid shadow nothing is written.
  unread-Closes :
      (p q : Plant)
      → q.outputs ≡ p.outputs
      → (IsGood p → ⊥)
      → Closes (TakesWrites c h) c p (some (sock_closed (register_off m c (q, false))))
  unfolding register_off
  unread-Closes p q same bad = record {
    plant = sock_closed q;
    ends = refl;
    closed = refl;
    off = λ j. inl (ap (λ (l : List Bool). get_or l j false) same);
    done = λ takes g. absurd (bad g);
  }

  -- In register mode, where something is to go off.
  register-Closes :
      (p : Plant)
      → c.register_mode ≡ true
      → IsConsistent c p.shadow p.outputs
      → Closes
          (TakesWrites c h)
          c
          p
          (Option.map (λ r. sock_closed (register_off m c r)) (ensure_on m c p))
  unfolding sync_output_shadow
  register-Closes p mode hs = elim (Bool-cases p.shadow.valid) [
    | inl valid ↦
        simp valid (Stage-Closes c p _ (register_off-Stage p mode hs.size (hs.current valid)))
    | inr stale ↦
        let q = (find_coils m c 16 p).0 in
        let same = find_coils-outputs c m h 16 p hs.size (omega arith) in
        let after : Bool → Option (Plant × Bool) = λ b.
          let s = sync_output_shadow (found_in b p.outputs) p.shadow in
          some (record q { shadow = s.0 }, s.1) in
        elim (Bool-cases (confirms (fate_next p))) [
          | inl reply ↦
              let t : Plant = record q {
                shadow = record { bits = shadow_of p.outputs; valid = true };
              } in
              let synced_to : sync_on m c p ≡ some (t, true) =
                sync_on-found c m h p hs.size ∙ ap after reply in
              let read : Stage (TakesWrites c h) (goes_off c) (λ l. l) p t = record {
                off = λ j. inl (ap (λ (l : List Bool). get_or l j false) same);
                dark = λ takes good. (same, talk-IsGood c m h _ p good);
              } in
              simp (stale, synced_to)
                (Stage-Closes c p _ (
                  then_Stage (goes_off c) (λ l. l) (darkened c) p t _ read
                    (register_off-Stage t mode (ap length same ∙ hs.size)
                      (shadow_of-outputs p.outputs hs.size ∙ sym same))))
          | inr silent ↦
              let u : Plant = record q { shadow = p.shadow } in
              let synced_to : sync_on m c p ≡ some (u, false) =
                sync_on-found c m h p hs.size ∙ ap after silent in
              simp (stale, synced_to)
                (unread-Closes p u same (λ g. cc (silent, fate_next-answered p (g 0))))
        ]
  ]

  -- With a module that only this node writes and that answers as `IsModule` says, where it may refuse
  -- function 6 for its register, LEDs and relay below 16, from a state whose shadow is not wrong: the
  -- shutdown ends, reads behind no reply, and leaves the connection closed. Whichever requests and
  -- replies the connection loses, and wherever a reply breaks off, each output is as before, or is the relay or an LED that the
  -- parameters want off, and off. If every transaction finds a connection and its reply, and, in
  -- register mode, the module's register takes function 6, all of those are off and no other output has
  -- changed.
  pub shut_down-Closes :
      (p : Plant)
      → c.coil_base + 16 ≤ 65536
      → c.charging_bit < 16
      → All (λ l. l.bit < 16) c.leds
      → IsConsistent c p.shadow p.outputs
      → Closes (TakesWrites c h) c p (shut_down m c p)
  unfolding shut_down
  shut_down-Closes p base charging small hs = elim (Bool-cases c.register_mode) [
    | inr coils ↦
        subst (Closes (TakesWrites c h) c p) (simp coils)
          (Stage-Closes c p _ (coils_off-Stage p base charging small))
    | inl registers ↦ elim (Bool-cases (c.leds_off_on_shutdown || c.charging_off_on_shutdown)) [
      | inl some_off ↦
          subst (Closes (TakesWrites c h) c p) (simp (registers, some_off))
            (register-Closes p registers hs)
      | inr none_off ↦ subst (Closes (TakesWrites c h) c p) (simp (registers, none_off)) (record {
        plant = sock_closed p;
        ends = refl;
        closed = refl;
        off = λ j. inl refl;
        done = λ takes g j. ground arith;
      })
    ]
  ]
