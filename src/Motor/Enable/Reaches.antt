-- ===== src/Motor/Enable/Reaches.antt =====
-- Drives that keep to CiA 402 are enabled (catkin_ws/src/motor_driver/src/motor_controller.cpp).
use ku_polishing_robot_drive.Motor.Enable.Outcome.{wait_for_state-reached}
use ku_polishing_robot_drive.Base.{
  All, Bool, Bool-cases, List, [], arith, false, inl, inr, refl, suc, true, zero, ℕ, ◌<◌, ◌∷◌, ◌≡◌,
  ◌⊎◌,
}
use ku_polishing_robot_drive.Motor.Enable.{
  Bus, clear_fault, command_twice, enable_operation, is_state, shutdown, switch_on, wait_for_state,
  enable_motor, enable_node, enable_rounds, reach, second_step, switch_to_velocity_mode, third_step,
}
use ku_polishing_robot_drive.Motor.Cia402.{
  Cia402State, fault, operation_enabled, ready_to_switch_on, switched_on,
}

module _ {D : Type 0} (bus : Bus D) where
  -- Within k waits of 10 ms the state is reached, with no fault before.
  abbrev pub Arrives : Cia402State → ℕ → D → Type 0
  Arrives target zero d = is_state bus target d ≡ true
  Arrives target (suc k) d =
      (is_state bus target d ≡ true)
      ⊎ ((is_state bus fault d ≡ false) × Arrives target k (bus.elapse 10 d))

  wait_for_state-Arrives :
      (target : Cia402State) (k rounds : ℕ) (d : D)
      → k < rounds
      → Arrives target k d
      → (wait_for_state bus target rounds d).1 ≡ true
  unfolding wait_for_state
  wait_for_state-Arrives target k zero d h a = absurd (omega arith)
  wait_for_state-Arrives target zero (suc rounds) d h a = rw a
  wait_for_state-Arrives target (suc k) (suc rounds) d h (inl there) = rw there
  wait_for_state-Arrives target (suc k) (suc rounds) d h (inr (fine, a)) =
      ground (arith, wait_for_state-Arrives target k rounds (bus.elapse 10 d) (omega arith) a)

  -- The transitions of CiA 402 that the sequence relies on, each within k waits of 10 ms of the second
  -- of two equal commands: 2 and 6 (shutdown), 3 (switch on), 4 (enable operation); and transition
  -- 15 (fault reset).
  pub record Obeys (node k : ℕ) : Type 0 where
    pub shutdown_ready :
        (d : D)
        → is_state bus fault d ≡ false
        → Arrives ready_to_switch_on k (command_twice bus node shutdown d)
    pub switch_on_on :
        (d : D)
        → is_state bus ready_to_switch_on d ≡ true
        → Arrives switched_on k (command_twice bus node switch_on d)
    pub enable_enabled :
        (d : D)
        → is_state bus switched_on d ≡ true
        → Arrives operation_enabled k (command_twice bus node enable_operation d)
    pub reset_fault : (d : D) → is_state bus fault (clear_fault bus node d) ≡ false

  third_step-enables :
      (node k rounds : ℕ) (r : D × Bool)
      → Obeys node k
      → k < rounds
      → r.1 ≡ true
      → is_state bus switched_on r.0 ≡ true
      → (third_step bus rounds node r).1 ≡ true
  unfolding third_step reach
  third_step-enables node k rounds (d, false) obeys h done at_on = cc
  third_step-enables node k rounds (d, true) obeys h done at_on =
      wait_for_state-Arrives operation_enabled k rounds _ h (obeys.enable_enabled d at_on)

  second_step-enables :
      (node k rounds : ℕ) (r : D × Bool)
      → Obeys node k
      → k < rounds
      → r.1 ≡ true
      → is_state bus ready_to_switch_on r.0 ≡ true
      → (second_step bus rounds node r).1 ≡ true
  unfolding second_step reach
  second_step-enables node k rounds (d, false) obeys h done at_ready = cc
  second_step-enables node k rounds (d, true) obeys h done at_ready =
      let arrived =
        wait_for_state-Arrives switched_on k rounds _ h (obeys.switch_on_on d at_ready) in
      third_step-enables node k rounds _ obeys h arrived
        (wait_for_state-reached bus switched_on rounds _ arrived)

  enable_node-enables :
      (node k rounds : ℕ) (d : D)
      → Obeys node k
      → k < rounds
      → (enable_node bus rounds node d).1 ≡ true
  unfolding enable_node reach
  enable_node-enables node k rounds d obeys h =
      elim (Bool-cases (is_state bus operation_enabled d)) [
        | inl already ↦ rw already
        | inr off ↦
            let arrived =
              wait_for_state-Arrives ready_to_switch_on k rounds _ h
                (obeys.shutdown_ready _ (obeys.reset_fault (switch_to_velocity_mode bus node d))) in
            rw off (
              second_step-enables node k rounds _ obeys h arrived
                (wait_for_state-reached bus ready_to_switch_on rounds _ arrived))
      ]

  enable_rounds-enables :
      (k rounds : ℕ) (nodes : List (ℕ × D))
      → k < rounds
      → All (λ n. Obeys n.0 k) nodes
      → (enable_rounds bus rounds nodes).1 ≡ true
  unfolding enable_rounds
  enable_rounds-enables k rounds [] h all = refl
  enable_rounds-enables k rounds ((node, d) ∷ rest) h all =
      rw (enable_node-enables node k rounds d all.0 h, enable_rounds-enables k rounds rest h all.1)
        refl

  -- If every drive makes the transitions of CiA 402 within 1.99 s of the commands, and resets its
  -- faults, `enable_motor` returns true, from whatever states the drives start.
  pub enable_motor-enables :
      (k : ℕ) (nodes : List (ℕ × D))
      → k < 200
      → All (λ n. Obeys n.0 k) nodes
      → (enable_motor bus nodes).1 ≡ true
  unfolding enable_motor
  enable_motor-enables k nodes h all = enable_rounds-enables k 200 nodes h all
