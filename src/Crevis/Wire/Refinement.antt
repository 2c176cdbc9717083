-- ===== src/Crevis/Wire/Refinement.antt =====
-- Any sequence of commands and ticks in bytes, against what an output is meant to do
-- (catkin_ws/src/crevis_io_driver/src/crevis_io_node.cpp).
use ku_polishing_robot_drive.Base.{
  Bool, Bool-cases, List, Option, [], ap, arith, inl, inr, length, none, refl, some, subst, sym,
  take, take_all, true, u16, ℕ, ◌+◌, ◌==◌, ◌∙◌, ◌∷◌, ◌≡◌, ◌≤◌, ◌⊎◌,
}
use mathlib.Core.Option
use ku_polishing_robot_drive.Crevis.Node.{
  Config, Message, Shadow, poll, readback_count, write_output, set_bit,
}
use ku_polishing_robot_drive.Crevis.Node.Outputs.{
  IsConsistent, arrives, confirms, found_in, write_output-Sets,
}
use ku_polishing_robot_drive.Crevis.Node.Refinement.{
  Meets, Meets-report, Report, end, poll-IsConsistent,
}
use ku_polishing_robot_drive.Crevis.Wire.{
  Module, Plant, find_coils, find_registers, open_if_closed, poll_on, polled, talk, write_on,
}
use ku_polishing_robot_drive.Crevis.Wire.Transactions.{IsGood, fate_next, talk-outputs, if_same}
use ku_polishing_robot_drive.Crevis.Wire.Simulation.{
  talk-IsGood, IsModule, find_coils-found, find_coils-outputs, find_coils-shadow,
}
use ku_polishing_robot_drive.Crevis.Wire.Writes.{write_on-Simulates, Simulates-IsConsistent}

-- A message on an output's topic; a tick of the timer, with the answer of its `openSock`.
pub data Command : Type 0 where
  set_output : ℕ → Bool → Command
  tick : Bool → Command

abbrev pub reported : Report → Plant × List Report → Plant × List Report
reported report (p, reports) = (p, report ∷ reports)

-- the node's handlers in order, with what the commands report; `none` is an access behind a reply's end
unfoldable pub run_on : Module → Config → List Command → Plant → Option (Plant × List Report)
run_on m c [] p = some (p, [])
run_on m c (set_output bit on ∷ rest) p =
    Option.bind (write_on m c bit on p)
      (λ r. Option.map (reported (bit, on, r.1)) (run_on m c rest r.0))
run_on m c (tick opens ∷ rest) p = Option.bind (poll_on m c opens p) (λ r. run_on m c rest r.0)

-- The run ends, and the outputs have changed from these as the reports say.
pub data Ends (before : List Bool) : Option (Plant × List Report) → Type 0 where
  ends :
      {p : Plant} {reports : List Report}
      → Meets reports before p.outputs
      → Ends before (some (p, reports))

-- A tick ends, and leaves the outputs as they were.
pub record Ticks (c : Config) (p : Plant) (r : Option (Plant × List Message)) : Type 0 where
  pub plant : Plant
  pub messages : List Message
  pub ends : r ≡ some (plant, messages)
  pub outputs : plant.outputs ≡ p.outputs
  pub consistent : IsConsistent c plant.shadow p.outputs
  pub good : IsGood p → IsGood plant

module _ (c : Config) (m : Module) (h : IsModule c m) (few : readback_count c ≤ 16) where
  find_registers-outputs : (p : Plant) → (find_registers m c p).0.outputs ≡ p.outputs
  unfolding find_registers
  find_registers-outputs p =
      let same =
        talk-outputs m _ p p.outputs
          (λ tid unit. h.registers_read tid unit (u16 c.in_reg_base) (u16 c.in_reg_count) p.outputs)
        ∙ if_same (arrives (fate_next p)) p.outputs in
      elim (Bool-cases (c.in_reg_count == 0)) [
        | inl nothing ↦ rw nothing refl
        | inr count ↦ rw count same
      ]

  find_registers-shadow : (p : Plant) → (find_registers m c p).0.shadow ≡ p.shadow
  unfolding find_registers talk
  find_registers-shadow p = ground arith

  readback_whole : c.register_mode ≡ true → 16 ≤ readback_count c
  unfolding readback_count
  readback_whole registers = ground arith

  poll-IsConsistent_found :
      (replies : Bool) (regs : Option (List ℕ)) (is_open : Bool) (s : Shadow) (outputs : List Bool)
      → IsConsistent c s outputs
      → IsConsistent c
          (poll c (found_in replies (take (readback_count c) outputs)) regs is_open s).0
          outputs
  unfolding poll
  poll-IsConsistent_found replies regs is_open s outputs hs = elim (Bool-cases c.register_mode) [
    | inl registers ↦
        let whole : take (readback_count c) outputs ≡ outputs =
          take_all (readback_count c) outputs (omega (arith, hs.size, readback_whole registers)) in
        subst (λ l. IsConsistent c (poll c (found_in replies l) regs is_open s).0 outputs)
          (sym whole) (poll-IsConsistent c replies regs is_open s outputs hs)
    | inr coils ↦ subst (λ t. IsConsistent c t outputs) (simp coils refl) hs
  ]

  open_if_closed-same :
      (opens : Bool) (p : Plant)
      → ((open_if_closed opens p).outputs ≡ p.outputs)
        × ((open_if_closed opens p).shadow ≡ p.shadow)
  open_if_closed-same opens p = elim (Bool-cases p.client.is_open) [
    | inl is_open ↦ simp is_open (refl, refl)
    | inr closed ↦ simp closed (refl, refl)
  ]

  open_if_closed-IsGood : (opens : Bool) (p : Plant) → IsGood p → IsGood (open_if_closed opens p)
  open_if_closed-IsGood opens p g i = elim (Bool-cases p.client.is_open) [
    | inl is_open ↦ simp is_open (g i)
    | inr closed ↦ simp closed (g i)
  ]

  find_registers-IsGood : (p : Plant) → IsGood p → IsGood (find_registers m c p).0
  unfolding find_registers
  find_registers-IsGood p g i = elim (Bool-cases (c.in_reg_count == 0)) [
    | inl nothing ↦ rw nothing (g i)
    | inr count ↦ rw count (talk-IsGood c m h _ p g i)
  ]

  pub poll_on-Ticks :
      (opens : Bool) (p : Plant)
      → IsConsistent c p.shadow p.outputs
      → Ticks c p (poll_on m c opens p)
  unfolding poll_on polled
  poll_on-Ticks opens p hs =
      let o = open_if_closed opens p in
      let opened = open_if_closed-same opens p in
      let size : length o.outputs ≡ 16 = ap length opened.0 ∙ hs.size in
      let n = readback_count c in
      let q = (find_coils m c n o).0 in
      let found = found_in (confirms (fate_next o)) (take n o.outputs) in
      let t = (find_registers m c q).0 in
      let polled_to = poll c found (find_registers m c q).1 t.client.is_open t.shadow in
      let after_poll : Shadow → List Bool → Type 0 = λ s l.
        IsConsistent c
          (poll c (found_in (confirms (fate_next o)) (take n l)) (find_registers m c q).1
            t.client.is_open s).0
          p.outputs in
      let shadow : p.shadow ≡ t.shadow =
        sym (find_registers-shadow q ∙ find_coils-shadow c m h n o ∙ opened.1) in
      let outputs = find_registers-outputs q ∙ find_coils-outputs c m h n o size few ∙ opened.0 in
      record {
        plant = record t { shadow = polled_to.0 };
        messages = polled_to.1;
        ends = ap (polled m c q) (find_coils-found c m h n o size few);
        outputs = outputs;
        consistent =
            subst (λ s. after_poll s o.outputs) shadow
              (subst (after_poll p.shadow) (sym opened.0)
                (poll-IsConsistent_found _ _ _ p.shadow p.outputs hs));
        good =
            λ g. find_registers-IsGood q (talk-IsGood c m h _ o (open_if_closed-IsGood opens p g));
      }

Ends-report :
    (bit : ℕ) (on ok : Bool) (before middle : List Bool) (r : Option (Plant × List Report))
    → (ok ≡ true → middle ≡ set_bit bit on before)
    → (middle ≡ before) ⊎ (middle ≡ set_bit bit on before)
    → Ends middle r
    → Ends before (Option.map (reported (bit, on, ok)) r)
Ends-report bit on ok before middle none confirmed nothing_else e = elim e [ ]
Ends-report bit on ok before middle (some (p, reports)) confirmed nothing_else (ends meets) =
    ends (Meets-report bit on ok reports before middle p.outputs confirmed nothing_else meets)

module _ (c : Config) (m : Module) (h : IsModule c m) (few : readback_count c ≤ 16)
    (base : c.coil_base + 16 ≤ 65536) where
  -- With a module that only this node writes and that answers as `IsModule` says, where it may refuse
  -- function 6 for its register, outputs and LEDs below 16, from a state whose shadow is not wrong:
  -- whatever commands and ticks come, whichever requests and replies the connection loses, wherever a
  -- reply breaks off and however the others are cut, no handler reads behind the end of a reply, and the module's outputs
  -- change as the reports say. A command that is reported as done has set its own output; one that is
  -- not has done so or nothing; no other output changes.
  pub run_on-Ends :
      (commands : List Command) (p : Plant)
      → IsConsistent c p.shadow p.outputs
      → Ends p.outputs (run_on m c commands p)
  unfolding run_on Option.bind
  run_on-Ends [] p hs = ends end
  run_on-Ends (set_output bit on ∷ rest) p hs =
      let s = write_on-Simulates c m h bit on p base hs in
      let sets = write_output-Sets c bit on s.fate p.outputs s.replies p.shadow base hs in
      let w = write_output c (found_in s.replies p.outputs) (confirms s.fate) bit on p.shadow in
      subst
        (λ r.
          Ends p.outputs
            (Option.bind r (λ r. Option.map (reported (bit, on, r.1)) (run_on m c rest r.0))))
        (sym s.ends)
        (Ends-report bit on w.2 p.outputs s.plant.outputs (run_on m c rest s.plant)
          (λ ok. s.outputs ∙ sets.confirmed ok)
          (elim sets.nothing_else [ inl e ↦ inl (s.outputs ∙ e) | inr e ↦ inr (s.outputs ∙ e) ])
          (run_on-Ends rest s.plant (Simulates-IsConsistent c bit on p _ base hs s)))
  run_on-Ends (tick opens ∷ rest) p hs =
      let t = poll_on-Ticks c m h few opens p hs in
      subst (λ r. Ends p.outputs (Option.bind r (λ r. run_on m c rest r.0))) (sym t.ends)
        (subst (λ l. Ends l (run_on m c rest t.plant)) t.outputs
          (run_on-Ends rest t.plant
            (subst (IsConsistent c t.plant.shadow) (sym t.outputs) t.consistent)))
