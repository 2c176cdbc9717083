-- ===== src/Crevis/Node/Refinement.antt =====
-- Any sequence of commands and ticks, against what an output is meant to do
-- (catkin_ws/src/crevis_io_driver/src/crevis_io_node.cpp).
use ku_polishing_robot_drive.Base.{
  Bool, List, Option, [], arith, false, inl, inr, refl, subst, true, ℕ, ◌+◌, ◌∷◌, ◌≡◌, ◌≤◌, ◌⊎◌,
}
use ku_polishing_robot_drive.Crevis.Node.Outputs.{
  Fate, IsConsistent, confirms, deliver, found_in, shadow_of-outputs, write_output-Sets,
}
use ku_polishing_robot_drive.Crevis.Node.{
  Config, Shadow, poll, set_bit, sync_output_shadow, write_output,
}

-- A command for an output, with the fate of its frames; or a tick, with or without a reply.
pub data Request : Type 0 where
  setting : ℕ → Bool → Bool → Fate → Request
  polling : Bool → Option (List ℕ) → Bool → Request

-- What a command was, and whether its success was reported.
abbrev pub Report : Type 0
Report = ℕ × Bool × Bool

-- The node's shadow, the module's outputs, and the reports in order.
pub run : Config → List Request → Shadow → List Bool → Shadow × List Bool × List Report
run c [] s outputs = (s, outputs, [])
run c (setting bit on replies fate ∷ rest) s outputs =
    let r = write_output c (found_in replies outputs) (confirms fate) bit on s in
    let more = run c rest r.0 (deliver c fate r.1 outputs) in
    (more.0, more.1, (bit, on, r.2) ∷ more.2)
run c (polling replies regs is_open ∷ rest) s outputs =
    run c rest (poll c (found_in replies outputs) regs is_open s).0 outputs

-- The contract: a command that is reported as done sets its own output and no other; one that is not
-- may have done so or nothing at all.
pub data Meets : List Report → List Bool → List Bool → Type 0 where
  end : {outputs : List Bool} → Meets [] outputs outputs
  took :
      {bit : ℕ} {on ok : Bool} {rest : List Report} {before after : List Bool}
      → Meets rest (set_bit bit on before) after
      → Meets ((bit, on, ok) ∷ rest) before after
  failed :
      {bit : ℕ} {on ok : Bool} {rest : List Report} {before after : List Bool}
      → ok ≡ false
      → Meets rest before after
      → Meets ((bit, on, ok) ∷ rest) before after

pub poll-IsConsistent :
    (c : Config) (replies : Bool) (regs : Option (List ℕ)) (is_open : Bool) (s : Shadow)
    (outputs : List Bool)
    → IsConsistent c s outputs
    → IsConsistent c (poll c (found_in replies outputs) regs is_open s).0 outputs
unfolding poll sync_output_shadow
poll-IsConsistent c replies regs is_open s outputs h = record {
  size = h.size;
  current = λ e. ground (arith, h.current, shadow_of-outputs outputs h.size);
  unused = λ e. ground (arith, h.unused e);
}

pub Meets-report :
    (bit : ℕ) (on ok : Bool) (rest : List Report) (before middle after : List Bool)
    → (ok ≡ true → middle ≡ set_bit bit on before)
    → (middle ≡ before) ⊎ (middle ≡ set_bit bit on before)
    → Meets rest middle after
    → Meets ((bit, on, ok) ∷ rest) before after
Meets-report bit on ok rest before middle after done (inr e) m =
    took (subst (λ (l : List Bool). Meets rest l after) e m)
Meets-report bit on true rest before middle after done (inl e) m =
    took (subst (λ (l : List Bool). Meets rest l after) (done refl) m)
Meets-report bit on false rest before middle after done (inl e) m =
    failed refl (subst (λ (l : List Bool). Meets rest l after) e m)

-- From a node that has just started, or any state whose shadow is not wrong: whatever commands come
-- and whatever the network loses, the outputs of a module with 16 outputs, which only this node
-- writes, change as the reports say, in register mode as in coil mode. A command that is reported
-- as done has set its own output; one that is not has done so or nothing; no other output changes.
pub run-Meets :
    (c : Config) (requests : List Request) (s : Shadow) (outputs : List Bool)
    → c.coil_base + 16 ≤ 65536
    → IsConsistent c s outputs
    → Meets (run c requests s outputs).2 outputs (run c requests s outputs).1
unfolding run
run-Meets c [] s outputs base h = end
run-Meets c (setting bit on replies fate ∷ rest) s outputs base h =
    let sets = write_output-Sets c bit on fate outputs replies s base h in
    Meets-report bit on _ _ outputs _ _ sets.confirmed sets.nothing_else
      (run-Meets c rest _ _ base sets.consistent)
run-Meets c (polling replies regs is_open ∷ rest) s outputs base h =
    run-Meets c rest _ outputs base (poll-IsConsistent c replies regs is_open s outputs h)
