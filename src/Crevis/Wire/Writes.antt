-- ===== src/Crevis/Wire/Writes.antt =====
-- `writeOutputLocked` in bytes against the same operation on what a read finds and a write confirms
-- (catkin_ws/src/crevis_io_driver/src/crevis_io_node.cpp).
use ku_polishing_robot_drive.Base.{
  Bool, Bool-cases, List, Option, ap, arith, false, if◌then◌else◌, inl, inr, leb, length, refl,
  some, subst, suc, sym, true, u16, ℕ, ◌+◌, ◌-◌, ◌<◌, ◌∙◌, ◌≡◌, ◌≤◌,
}
use ku_polishing_robot_drive.Crevis.Modbus.{words_pdu, write_accepted}
use ku_polishing_robot_drive.Crevis.Node.{
  Config, set_bit, sync_output_shadow, write_output, shadow_of,
}
use ku_polishing_robot_drive.Crevis.Node.Outputs.{
  Fate, confirms, deliver, found_in, lost, shadow_of-outputs, write_output-Sets, IsConsistent,
  arrives, answered,
}
use ku_polishing_robot_drive.Crevis.Wire.{
  Module, Plant, coil_value, find_coils, store_on, sync_on, talk, write_on,
}
use ku_polishing_robot_drive.Crevis.Wire.Transactions.{
  Serves, fate_next, talk-outputs, talk-result, fate_next-answered, IsGood,
}
use ku_polishing_robot_drive.Crevis.Wire.Simulation.{
  talk-IsGood, sync_on-found, IsModule, write_accepted-confirms, two_words, find_coils-outputs,
  TakesWrites,
}
use ku_polishing_robot_drive.Crevis.Wire.Registers.{
  store_on-IsGood, store_on-confirms, store_on-outputs, store_on-shadow, store_fate,
  store_fate-answered,
}

-- The operation in bytes ends, and gives what the operation gives for some answers; for good answers,
-- where the module takes the writes.
pub record Simulates (Takes : Type 0) (c : Config) (p : Plant) (bit : ℕ) (on : Bool)
    (r : Option (Plant × Bool)) : Type 0 where
  pub replies : Bool
  pub fate : Fate
  pub plant : Plant
  pub ends :
      r
      ≡ some
          (plant, (write_output c (found_in replies p.outputs) (confirms fate) bit on p.shadow).2)
  pub good : Takes → IsGood p → (replies ≡ true) × (fate ≡ answered) × IsGood plant
  pub shadow :
      plant.shadow ≡ (write_output c (found_in replies p.outputs) (confirms fate) bit on p.shadow).0
  pub outputs :
      plant.outputs
      ≡ deliver c fate
          (write_output c (found_in replies p.outputs) (confirms fate) bit on p.shadow).1
          p.outputs

-- What the operation leaves is consistent again.
pub Simulates-IsConsistent :
    {Takes : Type 0} (c : Config) (bit : ℕ) (on : Bool) (p : Plant) (r : Option (Plant × Bool))
    → c.coil_base + 16 ≤ 65536
    → IsConsistent c p.shadow p.outputs
    → (s : Simulates Takes c p bit on r) → IsConsistent c s.plant.shadow s.plant.outputs
Simulates-IsConsistent c bit on p r base hs s =
    let w = write_output c (found_in s.replies p.outputs) (confirms s.fate) bit on p.shadow in
    let sets = write_output-Sets c bit on s.fate p.outputs s.replies p.shadow base hs in
    subst (λ t. IsConsistent c t s.plant.outputs) (sym s.shadow)
      (subst (IsConsistent c w.0) (sym s.outputs) sets.consistent)

module _ (c : Config) (m : Module) (h : IsModule c m) where
  -- In coil mode one coil is written.
  write_on-coil :
      (bit : ℕ) (on : Bool) (p : Plant)
      → c.coil_base + 16 ≤ 65536
      → leb 16 bit ≡ false
      → c.register_mode ≡ false
      → Simulates (TakesWrites c h) c p bit on (write_on m c bit on p)
  unfolding write_on write_output talk
  write_on-coil bit on p base inside coils =
      let pdu = words_pdu 0x05 (u16 (c.coil_base + bit)) (coil_value on) in
      let body = two_words (u16 (c.coil_base + bit)) (coil_value on) in
      let after = set_bit bit on p.outputs in
      let near : bit < 16 = ground arith in
      let serves : Serves m pdu p.outputs after 5 body = record {
        served = λ tid unit. h.coil_write tid unit bit on p.outputs near;
        plain = omega arith;
        short = omega arith;
      } in
      let address : u16 (c.coil_base + bit) - c.coil_base ≡ bit = omega arith in
      let result =
        ap (write_accepted 5) (talk-result m pdu p after 5 body serves)
        ∙ write_accepted-confirms (confirms (fate_next p)) 5 body in
      let out =
        talk-outputs m pdu p after
          (λ tid unit. ap (λ r. r.0) (h.coil_write tid unit bit on p.outputs near)) in
      record {
        replies = true;
        fate = fate_next p;
        plant = (talk m pdu p).0;
        ends = rw (inside, coils) (ap (λ ok. some ((talk m pdu p).0, ok)) result);
        good = λ takes g. (refl, fate_next-answered p (g 0), λ i. g (suc i));
        shadow = rw (inside, coils) refl;
        outputs = rw (inside, coils, address) out;
      }

  -- Behind the last output nothing is done.
  write_on-beyond :
      (bit : ℕ) (on : Bool) (p : Plant)
      → leb 16 bit ≡ true
      → Simulates (TakesWrites c h) c p bit on (write_on m c bit on p)
  unfolding write_on write_output
  write_on-beyond bit on p beyond = record {
    replies = true;
    fate = answered;
    plant = p;
    good = λ takes g. (refl, refl, g);
    ends = rw beyond refl;
    shadow = rw beyond refl;
    outputs = rw beyond refl;
  }

  -- With a valid shadow the register is written.
  write_on-valid :
      (bit : ℕ) (on : Bool) (p : Plant)
      → leb 16 bit ≡ false
      → c.register_mode ≡ true
      → p.shadow.valid ≡ true
      → length p.shadow.bits ≡ 16
      → Simulates (TakesWrites c h) c p bit on (write_on m c bit on p)
  unfolding write_on write_output
  write_on-valid bit on p inside registers valid size = record {
    replies = true;
    fate = store_fate c m h p;
    plant = (store_on m c bit on p).0;
    ends =
        simp (inside, registers, valid)
          (ap (λ ok. some ((store_on m c bit on p).0, ok))
            (store_on-confirms c m h bit on p registers size));
    good = λ takes g. (
      refl,
      store_fate-answered c m h p (takes registers) (g 0),
      store_on-IsGood c m h bit on p g,
    );
    shadow = simp (inside, registers, valid) (store_on-shadow c m h bit on p registers size valid);
    outputs = simp (inside, registers, valid) (store_on-outputs c m h bit on p registers size);
  }

  -- Without a valid shadow the outputs are read first.
  write_on-invalid :
      (bit : ℕ) (on : Bool) (p : Plant)
      → leb 16 bit ≡ false
      → c.register_mode ≡ true
      → p.shadow.valid ≡ false
      → length p.outputs ≡ 16
      → Simulates (TakesWrites c h) c p bit on (write_on m c bit on p)
  unfolding write_on write_output sync_output_shadow
  write_on-invalid bit on p inside registers stale size =
      let q = (find_coils m c 16 p).0 in
      let same_outputs = find_coils-outputs c m h 16 p size (omega arith) in
      let found = sync_on-found c m h p size in
      let after : Bool → Option (Plant × Bool) = λ b.
        let s = sync_output_shadow (found_in b p.outputs) p.shadow in
        some (record q { shadow = s.0 }, s.1) in
      elim (Bool-cases (confirms (fate_next p))) [
        | inl reply ↦
            let t : Plant = record q {
              shadow = record { bits = shadow_of p.outputs; valid = true };
            } in
            let synced_to : sync_on m c p ≡ some (t, true) = found ∙ ap after reply in
            let whole : length (shadow_of p.outputs) ≡ 16 =
              ap length (shadow_of-outputs p.outputs size) ∙ size in
            record {
              replies = true;
              fate = store_fate c m h t;
              plant = (store_on m c bit on t).0;
              ends =
                  simp (inside, registers, stale, synced_to)
                    (ap (λ ok. some ((store_on m c bit on t).0, ok))
                      (store_on-confirms c m h bit on t registers whole));
              good = λ takes g. (
                refl,
                store_fate-answered c m h t (takes registers) (talk-IsGood c m h _ p g 0),
                store_on-IsGood c m h bit on t (talk-IsGood c m h _ p g),
              );
              shadow =
                  simp (inside, registers, stale)
                    (store_on-shadow c m h bit on t registers whole refl);
              outputs =
                  simp (inside, registers, stale)
                    (store_on-outputs c m h bit on t registers whole
                      ∙ ap
                          (λ (l : List Bool).
                            if arrives (store_fate c m h t)
                            then set_bit bit on (shadow_of p.outputs)
                            else l)
                          same_outputs);
            }
        | inr silent ↦
            let refused : IsGood p → ⊥ = λ g. cc (silent, fate_next-answered p (g 0)) in
            let synced_to : sync_on m c p ≡ some (record q { shadow = p.shadow }, false) =
              found ∙ ap after silent in
            record {
              replies = false;
              fate = lost;
              plant = record q { shadow = p.shadow };
              ends = simp (inside, registers, stale, synced_to) refl;
              good = λ takes g. absurd (refused g);
              shadow = simp (inside, registers, stale) refl;
              outputs = simp (inside, registers, stale) same_outputs;
            }
      ]

  -- In every state whose shadow is not wrong, the operation in bytes ends, and its result, its shadow
  -- and the module's outputs are those of the operation on some answers.
  pub write_on-Simulates :
      (bit : ℕ) (on : Bool) (p : Plant)
      → c.coil_base + 16 ≤ 65536
      → IsConsistent c p.shadow p.outputs
      → Simulates (TakesWrites c h) c p bit on (write_on m c bit on p)
  write_on-Simulates bit on p base consistent = elim (Bool-cases (leb 16 bit)) [
    | inl beyond ↦ write_on-beyond bit on p beyond
    | inr inside ↦ elim (Bool-cases c.register_mode) [
      | inr coils ↦ write_on-coil bit on p base inside coils
      | inl registers ↦ elim (Bool-cases p.shadow.valid) [
        | inl valid ↦
            write_on-valid bit on p inside registers valid
              (ap length (consistent.current valid) ∙ consistent.size)
        | inr stale ↦ write_on-invalid bit on p inside registers stale consistent.size
      ]
    ]
  ]
