-- ===== src/Motor/Node/Races.antt =====
-- `cmdCallback` on the spinner thread beside a round of `sync_loop` on its own thread
-- (catkin_ws/src/motor_driver/src/motor_driver_node.cpp and motor_controller.cpp): each target speed is
-- an atomic of its own, stored by the one and loaded by the other, in any order of turns.
use ku_polishing_robot_drive.Base.{
  All, Bool, Bool-cases, List, [], arith, false, if◌then◌else◌, inl, inr, length, ltb, refl, subst,
  sym, true, ℕ, ◌==◌, ◌||◌, ◌∙◌, ◌∷◌, ◌≡◌, ◌≢◌, ◌⊎◌,
}
use ku_polishing_robot_drive.Can.{Frame as CanFrame}
use ku_polishing_robot_drive.Motor.Controller.{States, find_state}
use ku_polishing_robot_drive.Motor.Velocity.{
  Speeds, set_target_velocity, sync_frame, sync_round, target_frame,
}
use ku_polishing_robot_drive.Motor.Velocity.Feedback.{find_state-other, target_frame-same}
use ku_polishing_robot_drive.Motor.Node.{Config, Node, cmd_callback, directed, set_targets}

-- whose turn it is: the callback stores its next speed, or the round loads the next
pub data Turn : Type 0 where
  storing loading : Turn

-- No two entries are for the same node.
abbrev pub Apart : {A : Type 0} → List (ℕ × A) → Type 0
Apart [] = Unit
Apart ((id, _) ∷ rest) = All (λ e. e.0 ≢ id) rest × Apart rest

module _ {W : Type 0} (speeds : Speeds W) where
  -- the calls of `set_target_velocity` in `cmdCallback`
  unfoldable pub stores : List (ℕ × Bool) → List W → List (ℕ × W)
  stores [] rpms = []
  stores (m ∷ motors) [] = []
  stores ((id, reversed) ∷ motors) (rpm ∷ rpms) =
      (id, directed speeds reversed rpm) ∷ stores motors rpms

  unfoldable pub command_stores : Config → List W → Node → List (ℕ × W)
  command_stores c rpms n =
      if ltb (length rpms) (length c.motors)
      then []
      else if n.motors_enabled
      then stores c.motors rpms
      else []

  -- A round of `sync_loop` with the stores of the other thread between its loads. Once the turns are
  -- used up, the round goes on alone.
  unfoldable pub raced_round : List Turn → List (ℕ × W) → List ℕ → States W → List CanFrame
  raced_round [] pending nodes states = sync_round speeds nodes states
  raced_round (storing ∷ turns) [] nodes states = raced_round turns [] nodes states
  raced_round (storing ∷ turns) ((id, w) ∷ pending) nodes states =
      raced_round turns pending nodes (set_target_velocity speeds id w states)
  raced_round (loading ∷ turns) pending [] states = sync_frame ∷ []
  raced_round (loading ∷ turns) pending (node ∷ nodes) states =
      target_frame speeds node states ∷ raced_round turns pending nodes states

  -- Each node is sent the speed that it has in one of the two states; then comes the SYNC.
  pub data Mixed (before after : States W) : List ℕ → List CanFrame → Type 0 where
    completed : Mixed before after [] (sync_frame ∷ [])
    sent :
        {node : ℕ} {nodes : List ℕ} {frame : CanFrame} {frames : List CanFrame}
        → (frame ≡ target_frame speeds node before) ⊎ (frame ≡ target_frame speeds node after)
        → Mixed before after nodes frames
        → Mixed before after (node ∷ nodes) (frame ∷ frames)

  abbrev store_all : List (ℕ × W) → States W → States W
  store_all [] states = states
  store_all ((id, w) ∷ pending) states = store_all pending (set_target_velocity speeds id w states)

  abbrev is_pending : ℕ → List (ℕ × W) → Bool
  is_pending node [] = false
  is_pending node ((id, w) ∷ pending) = id == node || is_pending node pending

  find_state-store_all :
      (node : ℕ) (pending : List (ℕ × W)) (states : States W)
      → is_pending node pending ≡ false
      → find_state node (store_all pending states) ≡ find_state node states
  find_state-store_all node [] states e = refl
  find_state-store_all node ((id, w) ∷ pending) states e =
      find_state-store_all node pending (set_target_velocity speeds id w states) (ground arith)
      ∙ find_state-other speeds node id w states (ground arith)

  is_pending-apart :
      (id : ℕ) (pending : List (ℕ × W))
      → All (λ e. e.0 ≢ id) pending
      → is_pending id pending ≡ false
  is_pending-apart id [] h = refl
  is_pending-apart id ((k, w) ∷ pending) h = ground (arith, is_pending-apart id pending h.1, h.0)

  -- What a load finds: the old speed where the store is still to come, the new one otherwise.
  loaded :
      (node : ℕ) (pending : List (ℕ × W)) (before states : States W)
      → (is_pending node pending ≡ true → find_state node states ≡ find_state node before)
      → (target_frame speeds node states ≡ target_frame speeds node before)
        ⊎ (target_frame speeds node states ≡ target_frame speeds node (store_all pending states))
  loaded node pending before states h = elim (Bool-cases (is_pending node pending)) [
    | inl waits ↦ inl (target_frame-same speeds node states before (h waits))
    | inr stored ↦ inr (
        target_frame-same speeds node states (store_all pending states)
          (sym (find_state-store_all node pending states stored)))
  ]

  sync_round-Mixed :
      (pending : List (ℕ × W)) (nodes : List ℕ) (before states : States W)
      → ((node : ℕ)
          → is_pending node pending ≡ true
          → find_state node states ≡ find_state node before)
      → Mixed before (store_all pending states) nodes (sync_round speeds nodes states)
  unfolding sync_round
  sync_round-Mixed pending [] before states h = completed
  sync_round-Mixed pending (node ∷ nodes) before states h =
      sent (loaded node pending before states (h node))
        (sync_round-Mixed pending nodes before states h)

  raced_round-Mixed :
      (turns : List Turn) (pending : List (ℕ × W)) (nodes : List ℕ) (before states : States W)
      → Apart pending
      → ((node : ℕ)
          → is_pending node pending ≡ true
          → find_state node states ≡ find_state node before)
      → Mixed before (store_all pending states) nodes (raced_round turns pending nodes states)
  unfolding raced_round
  raced_round-Mixed [] pending nodes before states apart h =
      sync_round-Mixed pending nodes before states h
  raced_round-Mixed (storing ∷ turns) [] nodes before states apart h =
      raced_round-Mixed turns [] nodes before states apart h
  raced_round-Mixed (storing ∷ turns) ((id, w) ∷ pending) nodes before states apart h =
      raced_round-Mixed turns pending nodes before (set_target_velocity speeds id w states) apart.1
        (λ node waits. elim (Bool-cases (id == node)) [
          | inl here ↦
              let at : id ≡ node = ground arith in
              absurd (
                cc (
                  waits,
                  subst (λ k. is_pending k pending ≡ false) at
                      (is_pending-apart id pending apart.0),
                ))
          | inr elsewhere ↦
              find_state-other speeds node id w states elsewhere ∙ h node (ground arith)
        ])
  raced_round-Mixed (loading ∷ turns) pending [] before states apart h = completed
  raced_round-Mixed (loading ∷ turns) pending (node ∷ nodes) before states apart h =
      sent (loaded node pending before states (h node))
        (raced_round-Mixed turns pending nodes before states apart h)

  stores-All :
      (id : ℕ) (motors : List (ℕ × Bool)) (rpms : List W)
      → All (λ e. e.0 ≢ id) motors
      → All (λ e. e.0 ≢ id) (stores motors rpms)
  unfolding stores
  stores-All id [] rpms h = tt
  stores-All id (m ∷ motors) [] h = tt
  stores-All id ((k, reversed) ∷ motors) (rpm ∷ rpms) h = (h.0, stores-All id motors rpms h.1)

  stores-Apart :
      (motors : List (ℕ × Bool)) (rpms : List W) → Apart motors → Apart (stores motors rpms)
  unfolding stores
  stores-Apart [] rpms h = tt
  stores-Apart (m ∷ motors) [] h = tt
  stores-Apart ((id, reversed) ∷ motors) (rpm ∷ rpms) h =
      (stores-All id motors rpms h.0, stores-Apart motors rpms h.1)

  store_all-stores :
      (motors : List (ℕ × Bool)) (rpms : List W) (states : States W)
      → store_all (stores motors rpms) states ≡ set_targets speeds motors rpms states
  unfolding stores set_targets
  store_all-stores [] rpms states = refl
  store_all-stores (m ∷ motors) [] states = refl
  store_all-stores ((id, reversed) ∷ motors) (rpm ∷ rpms) states = store_all-stores motors rpms _

  command_stores-Apart :
      (c : Config) (rpms : List W) (n : Node) → Apart c.motors → Apart (command_stores c rpms n)
  unfolding command_stores
  command_stores-Apart c rpms n h = ground (arith, stores-Apart c.motors rpms h)

  store_all-command_stores :
      (c : Config) (now : ℕ) (rpms : List W) (n : Node) (states : States W)
      → store_all (command_stores c rpms n) states ≡ (cmd_callback speeds c now rpms n states).1
  unfolding command_stores cmd_callback
  store_all-command_stores c now rpms n states =
      ground (arith, store_all-stores c.motors rpms states)

  -- If no two motors have the same id, then a round of sync_loop beside a callback for a command, in
  -- any order of their accesses, sends each node its speed from before the callback or its speed from
  -- after it, and then the SYNC.
  pub raced_round-cmd_callback :
      (turns : List Turn) (c : Config) (now : ℕ) (rpms : List W) (n : Node) (nodes : List ℕ)
      (states : States W)
      → Apart c.motors
      → Mixed states
          (cmd_callback speeds c now rpms n states).1
          nodes
          (raced_round turns (command_stores c rpms n) nodes states)
  raced_round-cmd_callback turns c now rpms n nodes states apart =
      subst (λ t. Mixed states t nodes (raced_round turns (command_stores c rpms n) nodes states))
        (store_all-command_stores c now rpms n states)
        (raced_round-Mixed turns (command_stores c rpms n) nodes states states
          (command_stores-Apart c rpms n apart) (λ node waits. refl))
