-- ===== src/Crevis/Wire/Done.antt =====
-- Commands over a connection that loses nothing
-- (catkin_ws/src/crevis_io_driver/src/crevis_io_node.cpp).
use ku_polishing_robot_drive.Base.{
  Bool, Bool-cases, List, Option, [], ap, arith, inl, inr, length, ltb, none, refl, some, subst,
  suc, sym, true, zero, ℕ, ◌+◌, ◌∙◌, ◌∷◌, ◌≡◌, ◌≤◌,
}
use mathlib.Core.Option
use ku_polishing_robot_drive.Crevis.Node.{
  Config, Shadow, readback_count, set_bit, sync_output_shadow, write_output, Write,
}
use ku_polishing_robot_drive.Crevis.Node.Outputs.{
  Fate, IsConsistent, Sets, answered, confirms, deliver, found_in, write_output-Sets,
}
use ku_polishing_robot_drive.Crevis.Node.Refinement.{Report}
use ku_polishing_robot_drive.Crevis.Wire.{Module, Plant}
use ku_polishing_robot_drive.Crevis.Wire.Transactions.{IsGood}
use ku_polishing_robot_drive.Crevis.Wire.Simulation.{IsModule, TakesWrites}
use ku_polishing_robot_drive.Crevis.Wire.Writes.{write_on-Simulates, Simulates-IsConsistent}
use ku_polishing_robot_drive.Crevis.Wire.Refinement.{
  Command, poll_on-Ticks, reported, run_on, set_output, tick,
}

-- The outputs once every command has been carried out.
pub carried_out : List Command → List Bool → List Bool
carried_out [] outputs = outputs
carried_out (set_output bit on ∷ rest) outputs = carried_out rest (set_bit bit on outputs)
carried_out (tick opens ∷ rest) outputs = carried_out rest outputs

-- Every command for one of the 16 outputs is reported as done.
pub done_reports : List Command → List Report
done_reports [] = []
done_reports (set_output bit on ∷ rest) = (bit, on, ltb bit 16) ∷ done_reports rest
done_reports (tick opens ∷ rest) = done_reports rest

set_bit-beyond :
    (bit : ℕ) (on : Bool) (bits : List Bool) → length bits ≤ bit → set_bit bit on bits ≡ bits
unfolding set_bit
set_bit-beyond bit on [] far = refl
set_bit-beyond zero on (b ∷ bits) far = absurd (omega arith)
set_bit-beyond (suc bit) on (b ∷ bits) far =
    ap (λ l. b ∷ l) (set_bit-beyond bit on bits (omega arith))

write_output-done :
    (c : Config) (bit : ℕ) (on : Bool) (s : Shadow) (outputs : List Bool)
    → (write_output c (found_in true outputs) (confirms answered) bit on s).2 ≡ ltb bit 16
unfolding write_output sync_output_shadow
write_output-done c bit on s outputs = ground arith

-- The outputs after a command that was answered.
Sets-answered :
    (c : Config) (bit : ℕ) (on : Bool) (fate : Fate) (outputs : List Bool)
    (r : Shadow × Option Write × Bool)
    → length outputs ≡ 16
    → r.2 ≡ ltb bit 16
    → Sets c bit on fate outputs r
    → deliver c fate r.1 outputs ≡ set_bit bit on outputs
Sets-answered c bit on fate outputs r size done sets = elim (Bool-cases (ltb bit 16)) [
  | inl inside ↦ sets.confirmed (done ∙ inside)
  | inr beyond ↦
      let same = set_bit-beyond bit on outputs (ground arith) in
      elim sets.nothing_else [ inl e ↦ e ∙ sym same | inr e ↦ e ]
]

abbrev pub summary : Plant × List Report → List Report × List Bool
summary (p, reports) = (reports, p.outputs)

abbrev preceded : Report → List Report × List Bool → List Report × List Bool
preceded report (reports, outputs) = (report ∷ reports, outputs)

summary-reported :
    (report : Report) (r : Option (Plant × List Report))
    → Option.map summary (Option.map (reported report) r)
      ≡ Option.map (preceded report) (Option.map summary r)
summary-reported report none = refl
summary-reported report (some (p, reports)) = refl

module _ (c : Config) (m : Module) (h : IsModule c m) (few : readback_count c ≤ 16)
    (base : c.coil_base + 16 ≤ 65536) (takes : TakesWrites c h) where
  -- In coil mode, and in register mode with a module whose register function 6 writes, where only this
  -- node writes the module, outputs and LEDs are below 16 and the shadow is not wrong: if every transaction finds a connection and its reply, however the replies are cut, then every
  -- command for one of the 16 outputs is carried out in its turn and reported as done, and a command
  -- for another output is refused; the ticks between them change nothing.
  pub run_on-done :
      (commands : List Command) (p : Plant)
      → IsConsistent c p.shadow p.outputs
      → IsGood p
      → Option.map summary (run_on m c commands p)
        ≡ some (done_reports commands, carried_out commands p.outputs)
  unfolding run_on Option.bind carried_out done_reports
  run_on-done [] p hs g = refl
  run_on-done (set_output bit on ∷ rest) p hs g =
      let s = write_on-Simulates c m h bit on p base hs in
      let good = s.good takes g in
      let sets = write_output-Sets c bit on s.fate p.outputs s.replies p.shadow base hs in
      let w = write_output c (found_in s.replies p.outputs) (confirms s.fate) bit on p.shadow in
      let done : w.2 ≡ ltb bit 16 =
        ap (λ b. (write_output c (found_in b p.outputs) (confirms s.fate) bit on p.shadow).2) good.0
        ∙ ap (λ f. (write_output c (found_in true p.outputs) (confirms f) bit on p.shadow).2) good.1
        ∙ write_output-done c bit on p.shadow p.outputs in
      let outputs = s.outputs ∙ Sets-answered c bit on s.fate p.outputs w hs.size done sets in
      ap
        (λ r.
          Option.map summary
            (Option.bind r (λ r. Option.map (reported (bit, on, r.1)) (run_on m c rest r.0))))
        (s.ends ∙ ap (λ ok. some (s.plant, ok)) done)
      ∙ summary-reported (bit, on, ltb bit 16) (run_on m c rest s.plant)
      ∙ ap (Option.map (preceded (bit, on, ltb bit 16))) (
          run_on-done rest s.plant (Simulates-IsConsistent c bit on p _ base hs s) good.2
          ∙ ap (λ l. some (done_reports rest, carried_out rest l)) outputs)
  run_on-done (tick opens ∷ rest) p hs g =
      let t = poll_on-Ticks c m h few opens p hs in
      ap (λ r. Option.map summary (Option.bind r (λ r. run_on m c rest r.0))) t.ends
      ∙ run_on-done rest t.plant
          (subst (IsConsistent c t.plant.shadow) (sym t.outputs) t.consistent) (t.good g)
      ∙ ap (λ l. some (done_reports rest, carried_out rest l)) t.outputs
