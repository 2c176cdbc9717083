-- ===== src/Motor/Enable/Outcome.antt =====
-- What success of `enable_motor` and `reset_motor` means, for any drives
-- (catkin_ws/src/motor_driver/src/motor_controller.cpp).
use ku_polishing_robot_drive.Base.{
  All, Bool, Bool-cases, List, Option, [], arith, false, if◌then◌else◌, inl, inr, none, some, suc,
  true, zero, ℕ, ◌==◌, ◌∷◌, ◌≡◌,
}
use ku_polishing_robot_drive.Motor.Cia402.{Cia402State, operation_enabled}
use ku_polishing_robot_drive.Motor.Enable.{
  Bus, all_enabled, command_twice, each, enable_motor, enable_node, enable_operation, enable_rounds,
  is_state, reach, reinit_node, reset_motor, reset_node, second_step, third_step, wait_for_state,
}

module _ {D : Type 0} (bus : Bus D) where
  abbrev pub Enabled : ℕ × D → Type 0
  Enabled (node, d) = is_state bus operation_enabled d ≡ true

  pub wait_for_state-reached :
      (target : Cia402State) (rounds : ℕ) (d : D)
      → (wait_for_state bus target rounds d).1 ≡ true
      → is_state bus target (wait_for_state bus target rounds d).0 ≡ true
  unfolding wait_for_state
  wait_for_state-reached target zero d h = cc
  wait_for_state-reached target (suc rounds) d h =
      ground (arith, wait_for_state-reached target rounds (bus.elapse 10 d))

  third_step-reached :
      (rounds node : ℕ) (r : D × Bool)
      → (third_step bus rounds node r).1 ≡ true
      → is_state bus operation_enabled (third_step bus rounds node r).0 ≡ true
  unfolding third_step reach
  third_step-reached rounds node (d, false) h = cc
  third_step-reached rounds node (d, true) h =
      wait_for_state-reached operation_enabled rounds (command_twice bus node enable_operation d) h

  second_step-reached :
      (rounds node : ℕ) (r : D × Bool)
      → (second_step bus rounds node r).1 ≡ true
      → is_state bus operation_enabled (second_step bus rounds node r).0 ≡ true
  unfolding second_step
  second_step-reached rounds node (d, false) h = cc
  second_step-reached rounds node (d, true) h = third_step-reached rounds node _ h

  enable_node-reached :
      (rounds node : ℕ) (d : D)
      → (enable_node bus rounds node d).1 ≡ true
      → is_state bus operation_enabled (enable_node bus rounds node d).0 ≡ true
  unfolding enable_node
  enable_node-reached rounds node d h = elim (Bool-cases (is_state bus operation_enabled d)) [
    | inl already ↦ rw already already
    | inr off ↦ rw off (second_step-reached rounds node _ (rw off at h))
  ]

  enable_rounds-reached :
      (rounds : ℕ) (nodes : List (ℕ × D))
      → (enable_rounds bus rounds nodes).1 ≡ true
      → All Enabled (enable_rounds bus rounds nodes).0
  unfolding enable_rounds
  enable_rounds-reached rounds [] h = tt
  enable_rounds-reached rounds ((node, d) ∷ rest) h = (
    enable_node-reached rounds node d (ground arith),
    enable_rounds-reached rounds rest (ground arith),
  )

  all_enabled-reached :
      (rounds : ℕ) (nodes : List (ℕ × D))
      → (all_enabled bus rounds nodes).1 ≡ true
      → All Enabled (all_enabled bus rounds nodes).0
  unfolding all_enabled
  all_enabled-reached rounds [] h = tt
  all_enabled-reached rounds ((node, d) ∷ rest) h = (
    wait_for_state-reached operation_enabled rounds d (ground arith),
    all_enabled-reached rounds rest (ground arith),
  )

  -- If `enable_motor` returns true, the statusword of every drive was last read as OPERATION_ENABLED;
  -- and so it is if `reset_motor` returns true.
  pub enable_motor-Enabled :
      (nodes others : List (ℕ × D))
      → (enable_motor bus nodes).1 ≡ true
      → (reset_motor bus others).1 ≡ true
      → All Enabled (enable_motor bus nodes).0 × All Enabled (reset_motor bus others).0
  unfolding enable_motor reset_motor
  enable_motor-Enabled nodes others h g =
      (enable_rounds-reached 200 nodes h, all_enabled-reached 200 _ g)

  unfoldable pub drive_of : ℕ → List (ℕ × D) → Option D
  drive_of node [] = none
  drive_of node ((k, d) ∷ rest) = if k == node then some d else drive_of node rest

  -- Each pass over the nodes keeps the drive that its step keeps.
  drive_of-each :
      (f : ℕ → D → D) (node : ℕ) (d : D) (nodes : List (ℕ × D))
      → f node d ≡ d
      → drive_of node nodes ≡ some d
      → drive_of node (each bus f nodes) ≡ some d
  unfolding drive_of
  drive_of-each f node d [] keep h = h
  drive_of-each f node d ((k, e) ∷ rest) keep h = ground (arith, drive_of-each f node d rest)

  drive_of-enable_rounds :
      (rounds node : ℕ) (d : D) (nodes : List (ℕ × D))
      → enable_node bus rounds node d ≡ (d, true)
      → drive_of node nodes ≡ some d
      → drive_of node (enable_rounds bus rounds nodes).0 ≡ some d
  unfolding drive_of enable_rounds
  drive_of-enable_rounds rounds node d [] keep h = h
  drive_of-enable_rounds rounds node d ((k, e) ∷ rest) keep h =
      ground (arith, drive_of-enable_rounds rounds node d rest)

  drive_of-all_enabled :
      (rounds node : ℕ) (d : D) (nodes : List (ℕ × D))
      → wait_for_state bus operation_enabled rounds d ≡ (d, true)
      → drive_of node nodes ≡ some d
      → drive_of node (all_enabled bus rounds nodes).0 ≡ some d
  unfolding drive_of all_enabled
  drive_of-all_enabled rounds node d [] keep h = h
  drive_of-all_enabled rounds node d ((k, e) ∷ rest) keep h =
      ground (arith, drive_of-all_enabled rounds node d rest)

  wait_for_state-already :
      (target : Cia402State) (rounds : ℕ) (d : D)
      → is_state bus target d ≡ true
      → wait_for_state bus target (suc rounds) d ≡ (d, true)
  unfolding wait_for_state
  wait_for_state-already target rounds d h = rw h

  -- A drive that is enabled and needs no new configuration is left as it is by `reset_motor`: no
  -- frame is sent to it, whatever the other drives do.
  pub reset_motor-undisturbed :
      (node : ℕ) (d : D) (nodes : List (ℕ × D))
      → drive_of node nodes ≡ some d
      → is_state bus operation_enabled d ≡ true
      → bus.needs_reinit d ≡ false
      → drive_of node (reset_motor bus nodes).0 ≡ some d
  unfolding reset_motor enable_motor reinit_node reset_node enable_node
  reset_motor-undisturbed node d nodes h on fine =
      drive_of-all_enabled 200 node d _ (wait_for_state-already operation_enabled 199 d on) (
        drive_of-enable_rounds 200 node d _ (rw on) (
          drive_of-each (reset_node bus) node d _ (rw on)
            (drive_of-each (reinit_node bus) node d nodes (rw fine) h)))
