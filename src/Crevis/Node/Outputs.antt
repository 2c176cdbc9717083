-- ===== src/Crevis/Node/Outputs.antt =====
-- The outputs of the module under the node's writes, whatever the network loses
-- (catkin_ws/src/crevis_io_driver/src/crevis_io_node.cpp). The module is described here as its
-- manual does: 16 outputs, one register over all of them, one coil for each; nothing else writes them.
use ku_polishing_robot_drive.Base.{
  Bool, Bool-cases, List, Option, [], ap, arith, false, if◌then◌else◌, inl, inr, leb, length, none,
  refl, replicate, some, subst, suc, take-append_exact, true, u16, zero, ℕ, ◌+◌, ◌-◌, ◌<◌, ◌∙◌, ◌∷◌,
  ◌≡◌, ◌≤◌, ◌⊎◌,
}
use ku_polishing_robot_drive.Crevis.Node.{
  Config, Shadow, Write, coil, ensure_valid, register, set_bit, shadow_of, sync_output_shadow,
  write_output,
}

-- A write arrives and is confirmed; or it arrives and the reply is lost; or it is lost.
pub data Fate : Type 0 where
  answered unanswered lost : Fate

abbrev pub arrives : Fate → Bool
arrives lost = false
arrives _ = true

abbrev pub confirms : Fate → Bool
confirms answered = true
confirms _ = false

abbrev pub apply_write : Config → Write → List Bool → List Bool
apply_write c (register addr bits) outputs = bits
apply_write c (coil addr on) outputs = set_bit (addr - c.coil_base) on outputs

abbrev pub deliver : Config → Fate → Option Write → List Bool → List Bool
deliver c fate none outputs = outputs
deliver c fate (some w) outputs = if arrives fate then apply_write c w outputs else outputs

abbrev pub found_in : Bool → List Bool → Option (List Bool)
found_in replies outputs = if replies then some outputs else none

-- A valid shadow is what the module's outputs are; without registers there is none.
pub record IsConsistent (c : Config) (s : Shadow) (outputs : List Bool) : Type 0 where
  pub size : length outputs ≡ 16
  pub current : s.valid ≡ true → s.bits ≡ outputs
  pub unused : c.register_mode ≡ false → s.valid ≡ false

pub shadow_of-outputs : (outputs : List Bool) → length outputs ≡ 16 → shadow_of outputs ≡ outputs
unfolding shadow_of
shadow_of-outputs outputs size = take-append_exact 16 outputs (replicate 16 false) size

pub length-set_bit :
    (bit : ℕ) (on : Bool) (bits : List Bool) → length (set_bit bit on bits) ≡ length bits
unfolding set_bit
length-set_bit bit on [] = refl
length-set_bit zero on (b ∷ bs) = refl
length-set_bit (suc bit) on (b ∷ bs) = ap suc (length-set_bit bit on bs)

ensure_valid-outputs :
    (c : Config) (s : Shadow) (outputs : List Bool) (replies : Bool)
    → IsConsistent c s outputs
    → (ensure_valid (found_in replies outputs) s).1 ≡ true
    → (ensure_valid (found_in replies outputs) s).0 ≡ record { bits = outputs; valid = true }
unfolding sync_output_shadow
ensure_valid-outputs c s outputs replies h good =
    ground (arith, h.current, shadow_of-outputs outputs h.size)

ensure_valid-fails :
    (c : Config) (s : Shadow) (outputs : List Bool) (replies : Bool)
    → (ensure_valid (found_in replies outputs) s).1 ≡ false
    → (ensure_valid (found_in replies outputs) s).0 ≡ s
unfolding sync_output_shadow
ensure_valid-fails c s outputs replies bad = ground arith

-- What one call of `setOutput` does to the outputs, and what it may report.
pub record Sets (c : Config) (bit : ℕ) (on : Bool) (fate : Fate) (outputs : List Bool)
    (r : Shadow × Option Write × Bool) : Type 0 where
  pub consistent : IsConsistent c r.0 (deliver c fate r.1 outputs)
  pub confirmed : r.2 ≡ true → deliver c fate r.1 outputs ≡ set_bit bit on outputs
  pub nothing_else :
      (deliver c fate r.1 outputs ≡ outputs) ⊎ (deliver c fate r.1 outputs ≡ set_bit bit on outputs)

module _ (c : Config) (bit : ℕ) (on : Bool) (fate : Fate) (outputs : List Bool) where
  Sets-nothing :
      (t : Shadow) → IsConsistent c t outputs → Sets c bit on fate outputs (t, none, false)
  Sets-nothing t h = record { consistent = h; confirmed = λ e. cc; nothing_else = inl refl }

  Sets-register :
      (addr : ℕ)
      → c.register_mode ≡ true
      → length outputs ≡ 16
      → Sets c bit on fate outputs (
        record { bits = set_bit bit on outputs; valid = confirms fate },
        some (register addr (set_bit bit on outputs)),
        confirms fate,
      )
  Sets-register addr mode size = record {
    consistent = record { size = by_fate fate; current = λ e. ground arith; unused = λ e. cc };
    confirmed = λ e. ground arith;
    nothing_else = ground arith;
  }
    where
      by_fate :
          (f : Fate)
          → length (deliver c f (some (register addr (set_bit bit on outputs))) outputs) ≡ 16
      by_fate answered = length-set_bit bit on outputs ∙ size
      by_fate unanswered = length-set_bit bit on outputs ∙ size
      by_fate lost = size

  Sets-coil :
      (s : Shadow)
      → c.register_mode ≡ false
      → c.coil_base + 16 ≤ 65536
      → bit < 16
      → IsConsistent c s outputs
      → Sets c bit on fate outputs (s, some (coil (u16 (c.coil_base + bit)) on), confirms fate)
  Sets-coil s mode base small h =
      let addr : u16 (c.coil_base + bit) - c.coil_base ≡ bit = omega arith in
      record {
        consistent = record {
          size = ground (arith, addr, h.size, length-set_bit bit on outputs);
          current = λ e. cc (h.unused mode);
          unused = h.unused;
        };
        confirmed = λ e. ground (arith, addr);
        nothing_else = ground (arith, addr);
      }

  pub write_output-Sets :
      (replies : Bool) (s : Shadow)
      → c.coil_base + 16 ≤ 65536
      → IsConsistent c s outputs
      → Sets c bit on fate outputs
          (write_output c (found_in replies outputs) (confirms fate) bit on s)
  unfolding write_output
  write_output-Sets replies s base h = elim (Bool-cases (leb 16 bit)) [
    | inl far ↦ rw far (Sets-nothing s h)
    | inr near ↦ elim (Bool-cases c.register_mode) [
      | inr coils ↦
          subst (Sets c bit on fate outputs) (simp (near, coils))
            (Sets-coil s coils base (ground arith) h)
      | inl mode ↦ elim (Bool-cases (ensure_valid (found_in replies outputs) s).1) [
        | inl good ↦
            subst (Sets c bit on fate outputs)
              (simp (near, mode, good, ensure_valid-outputs c s outputs replies h good))
              (Sets-register (u16 c.reg_base) mode h.size)
        | inr bad ↦
            subst (Sets c bit on fate outputs)
              (simp (near, mode, bad, ensure_valid-fails c s outputs replies bad))
              (Sets-nothing s h)
      ]
    ]
  ]
