-- ===== src/Tests/Wires.antt =====
-- The Crevis driver in bytes (catkin_ws/src/crevis_io_driver) on concrete inputs.
use ku_polishing_robot_drive.Base.{
  Bool, List, [], ap, arith, drop, false, if◌then◌else◌, length, refl, some, suc, take, true, u16,
  zero, ℕ, ◌%◌, ◌*◌, ◌+◌, ◌-◌, ◌/◌, ◌<◌, ◌==◌, ◌∙◌, ◌∷◌, ◌≡◌, ◌≤◌,
}
use mathlib.Core.Option
use ku_polishing_robot_drive.Crevis.Modbus.{request, words_pdu}
use ku_polishing_robot_drive.Crevis.Modbus.Packing.{coils_reply, word_of}
use ku_polishing_robot_drive.Crevis.Node.{initial_shadow, max_bit, readback_count, set_bit}
use ku_polishing_robot_drive.Crevis.Wire.{Link, Module, Plant, coil_value, replied, unsent, broken}
use ku_polishing_robot_drive.Crevis.Wire.Simulation.{IsModule, TakesWrites, illegal_function}
use ku_polishing_robot_drive.Crevis.Wire.Refinement.{
  Command, Ends, run_on, run_on-Ends, set_output, tick,
}
use ku_polishing_robot_drive.Crevis.Wire.Done.{carried_out, done_reports, run_on-done, summary}
use ku_polishing_robot_drive.Crevis.Wire.Closing.{shut_down}
use ku_polishing_robot_drive.Crevis.Wire.Closing.Modes.{Closes, shut_down-Closes}
use ku_polishing_robot_drive.Tests.Crevises.{config, outputs, start-IsConsistent}

-- the lowest bits of a word
unfoldable bits_of : ℕ → ℕ → List Bool
bits_of zero w = []
bits_of (suc n) w = (w % 2 == 1) ∷ bits_of n (w / 2)

bits_of-word_of : (bits : List Bool) (n : ℕ) → length bits ≡ n → bits_of n (word_of bits) ≡ bits
unfolding bits_of word_of
bits_of-word_of [] zero size = refl
bits_of-word_of [] (suc n) size = absurd (omega arith)
bits_of-word_of (b ∷ bits) zero size = absurd (omega arith)
bits_of-word_of (true ∷ bits) (suc n) size =
    let low : ((1 + 2 * word_of bits) % 2 == 1) ≡ true = ground arith in
    let high : (1 + 2 * word_of bits) / 2 ≡ word_of bits = omega arith in
    rw (low, high, bits_of-word_of bits n (omega arith)) refl
bits_of-word_of (false ∷ bits) (suc n) size =
    let low : ((0 + 2 * word_of bits) % 2 == 1) ≡ false = ground arith in
    let high : (0 + 2 * word_of bits) / 2 ≡ word_of bits = omega arith in
    rw (low, high, bits_of-word_of bits n (omega arith)) refl

abbrev answer : ℕ → ℕ → ℕ → List ℕ → List ℕ
answer t1 t2 unit pdu = t1 ∷ t2 ∷ drop 2 (request 0 unit pdu)

-- a module whose coils begin at 0x1000, which takes function 6 for its register or refuses it
unfoldable serve : Bool → Module
serve takes (t1 ∷ t2 ∷ _ ∷ _ ∷ _ ∷ _ ∷ unit ∷ code ∷ a1 ∷ a2 ∷ b1 ∷ b2 ∷ []) before =
    if code == 6
    then (if takes
        then (bits_of 16 (b1 * 256 + b2), answer t1 t2 unit (6 ∷ a1 ∷ a2 ∷ b1 ∷ b2 ∷ []))
        else (before, answer t1 t2 unit illegal_function))
    else if code == 5
    then (
      set_bit (a1 * 256 + a2 - 0x1000) (b1 == 0xFF) before,
      answer t1 t2 unit (5 ∷ a1 ∷ a2 ∷ b1 ∷ b2 ∷ []),
    )
    else (before, answer t1 t2 unit (coils_reply (take (b1 * 256 + b2) before)))
serve takes _ before = (before, [])

high_low : (w : ℕ) → w / 256 * 256 + w % 256 ≡ w
high_low w = omega arith

coil_value-high : (on : Bool) → (coil_value on / 256 == 0xFF) ≡ on
coil_value-high true = refl
coil_value-high false = refl

coil_address : (bit : ℕ) → bit < 16 → u16 (0x1000 + bit) - 0x1000 ≡ bit
coil_address bit inside = omega arith

serve_register :
    (takes : Bool) (tid unit : ℕ) (bits before : List Bool)
    → length bits ≡ 16
    → serve takes (request tid unit (words_pdu 6 0x0800 (word_of bits))) before ≡ (
        if takes
        then (bits, request tid unit (words_pdu 6 0x0800 (word_of bits)))
        else (before, request tid unit illegal_function))
unfolding serve request
serve_register true tid unit bits before size =
    ap (λ l. (l, request tid unit (words_pdu 6 0x0800 (word_of bits))))
      (ap (bits_of 16) (high_low (word_of bits)) ∙ bits_of-word_of bits 16 size)
serve_register false tid unit bits before size = refl

serve-IsModule : (takes : Bool) → IsModule config (serve takes)
unfolding serve request
serve-IsModule takes = record {
  takes_single = takes;
  register_write = λ tid unit bits before mode size. serve_register takes tid unit bits before size;
  coil_write = λ tid unit bit on before inside.
      let address =
        ap (λ n. n - 0x1000) (high_low (u16 (0x1000 + bit))) ∙ coil_address bit inside in
      ap (λ l. (l, request tid unit (words_pdu 5 (u16 (0x1000 + bit)) (coil_value on))))
        (ap (λ n. set_bit n (coil_value on / 256 == 0xFF) before) address
          ∙ ap (λ b. set_bit bit b before) (coil_value-high on));
  coils_read = λ tid unit qty before size few.
      ap (λ n. (before, request tid unit (coils_reply (take n before)))) (high_low qty);
  registers_read = λ tid unit addr qty before. refl;
}

abbrev commands : List Command
commands = set_output 3 true ∷ tick false ∷ set_output 8 false ∷ set_output 17 true ∷ []

-- a reply in pieces, one that breaks off, and requests that do not arrive
abbrev links : ℕ → Link
links zero = record { opens = true; delivery = replied (0 ∷ 2 ∷ []) }
links (suc zero) = record { opens = true; delivery = broken 9 (3 ∷ []) }
links (suc (suc zero)) = record { opens = false; delivery = replied [] }
links (suc (suc (suc zero))) = record { opens = true; delivery = unsent }
links (suc (suc (suc (suc n)))) = record { opens = true; delivery = replied [] }

abbrev plant : (ℕ → Link) → Plant
plant links = record {
  client = record { is_open = false; unit = 1; tid = 65535 };
  shadow = initial_shadow;
  links = links;
  outputs = outputs;
}

few : readback_count config ≤ 16
unfolding readback_count max_bit
few = omega arith

-- in register mode, with a module that refuses the writes
run_on-Ends_example : Ends outputs (run_on (serve false) config commands (plant links))
run_on-Ends_example =
    run_on-Ends config (serve false) (serve-IsModule false) few (omega arith) commands (plant links)
      start-IsConsistent

-- in register mode, with a module that takes them
run_on-done_example :
    Option.map summary (
      run_on
        (serve true)
        config
        commands
        (plant (λ i. record { opens = true; delivery = replied [] })))
    ≡ some (done_reports commands, carried_out commands outputs)
unfolding serve-IsModule
run_on-done_example =
    run_on-done config (serve true) (serve-IsModule true) few (omega arith) (λ mode. refl) commands
      (plant (λ i. record { opens = true; delivery = replied [] })) start-IsConsistent (λ i. refl)

shut_down-Closes_example :
    Closes
      (TakesWrites config (serve-IsModule true))
      config
      (plant links)
      (shut_down (serve true) config (plant links))
shut_down-Closes_example =
    shut_down-Closes config (serve true) (serve-IsModule true) (plant links) (omega arith)
      (omega arith)
      (omega arith, (omega arith, (omega arith, (omega arith, (omega arith, (omega arith, tt))))))
      start-IsConsistent
