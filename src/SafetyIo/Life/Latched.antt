-- ===== src/SafetyIo/Life/Latched.antt =====
-- The emergency-stop topic over the node's whole life
-- (catkin_ws/src/safety_io_driver/src/safety_io_node.cpp). A publisher that latches keeps its last
-- message.
use ku_polishing_robot_drive.Base.{
  Bool, Bool-cases, List, Option, [], ap, false, inl, inr, none, refl, some, true, ℕ, ◌++◌, ◌∙◌,
  ◌∷◌, ◌≡◌, ◌⊎◌,
}
use ku_polishing_robot_drive.SafetyIo.Modbus.{
  Client, Network, Result, err, ok, read_discrete_inputs,
}
use ku_polishing_robot_drive.SafetyIo.Node.{
  Config, Message, after_inputs, after_outputs, connected, estop, estop_active, is_enabled, poll,
  publish_estop, publish_failure, publish_values, input, output, config_io_messages, poll_outputs,
  poll_inputs,
}
use ku_polishing_robot_drive.SafetyIo.Node.Estop.{Untriggered, estop_active-false, reads_off}
use ku_polishing_robot_drive.SafetyIo.Life.{Node, publish, tick, ticks, start_node}

-- what the emergency-stop topic shows, of the messages with the newest first
unfoldable pub shown_estop : List Message → Option Bool
shown_estop [] = none
shown_estop (estop active ∷ messages) = some active
shown_estop (connected now ∷ messages) = shown_estop messages
shown_estop (input name value ∷ messages) = shown_estop messages
shown_estop (output name value ∷ messages) = shown_estop messages

-- Messages before the last one that is shown do not matter.
shown-append :
    (xs ys : List Message) (active : Bool)
    → ((older : List Message) → shown_estop (publish ys older) ≡ some active)
    → (older : List Message) → shown_estop (publish (xs ++ ys) older) ≡ some active
shown-append [] ys active h older = h older
shown-append (x ∷ xs) ys active h older = shown-append xs ys active h (x ∷ older)

-- The message at the end is the one that is shown.
shown-publish_estop :
    (c : Config) (active : Bool) (older : List Message)
    → is_enabled c ≡ true
    → shown_estop (publish (publish_estop c active) older) ≡ some active
unfolding shown_estop
shown-publish_estop c active older enabled = simp enabled refl

shown-publish_values :
    (c : Config) (iv ov : List Bool) (older : List Message)
    → is_enabled c ≡ true
    → shown_estop (publish (publish_values c iv ov) older) ≡ some (estop_active c iv ov)
unfolding publish_values
shown-publish_values c iv ov older enabled =
    let active = estop_active c iv ov in
    let ends : List Message = publish_estop c active in
    let mapped = config_io_messages iv c.config_io_outputs ++ ends in
    let outputs = (poll_outputs c.power_output ov c.outputs none).0 in
    shown-append (poll_inputs c.estop_sources iv c.inputs).0 (outputs ++ mapped) active
      (shown-append outputs mapped active (
        shown-append (config_io_messages iv c.config_io_outputs) ends active
          (λ older. shown-publish_estop c active older enabled)))
      (connected true ∷ older)

shown-publish_failure :
    (c : Config) (older : List Message)
    → is_enabled c ≡ true
    → shown_estop (publish (publish_failure c) older) ≡ some true
unfolding publish_failure
shown-publish_failure c older enabled = shown-publish_estop c true (connected false ∷ older) enabled

-- Both reads of a poll gave values, no input that is a source is triggered, and the traction power
-- output does not read off.
pub record Calm (c : Config) (nets : Network × Network) (client : Client) : Type 0 where
  pub input_values : List Bool
  pub output_values : List Bool
  pub inputs_read : (read_discrete_inputs client nets.0 c.input_count).1 ≡ ok input_values
  pub outputs_read :
      (read_discrete_inputs
        (read_discrete_inputs client nets.0 c.input_count).0
        nets.1
        c.output_count).1
      ≡ ok output_values
  pub untriggered : Untriggered c.estop_sources input_values c.inputs
  pub powered : reads_off c.power_output output_values c.outputs ≡ false

-- What a poll leaves on the topic: the emergency stop, or a release with its reasons.
abbrev Shown : Config → Network × Network → Client → List Message → Type 0
Shown c nets client published =
    (shown_estop published ≡ some true)
    ⊎ ((shown_estop published ≡ some false) × Calm c nets client)

outputs-Shown :
    (c : Config) (nets : Network × Network) (client : Client) (iv : List Bool)
    (r : Client × Result (List Bool)) (older : List Message)
    → is_enabled c ≡ true
    → (read_discrete_inputs client nets.0 c.input_count).1 ≡ ok iv
    → (read_discrete_inputs
        (read_discrete_inputs client nets.0 c.input_count).0
        nets.1
        c.output_count)
      ≡ r
    → Shown c nets client (publish (after_outputs c iv r).1 older)
outputs-Shown c nets client iv (t, err e) older enabled inputs outputs =
    inl (shown-publish_failure c older enabled)
outputs-Shown c nets client iv (t, ok ov) older enabled inputs outputs =
    let shown = shown-publish_values c iv ov older enabled in
    elim (Bool-cases (estop_active c iv ov)) [
      | inl active ↦ inl (shown ∙ ap some active)
      | inr released ↦
          let calm = (estop_active-false c iv ov).0 released in
          inr (
            shown ∙ ap some released,
            record {
              input_values = iv;
              output_values = ov;
              inputs_read = inputs;
              outputs_read = ap (λ r. r.1) outputs;
              untriggered = calm.0;
              powered = calm.1;
            },
          )
    ]

inputs-Shown :
    (c : Config) (nets : Network × Network) (client : Client) (r : Client × Result (List Bool))
    (older : List Message)
    → is_enabled c ≡ true
    → read_discrete_inputs client nets.0 c.input_count ≡ r
    → Shown c nets client (publish (after_inputs c nets.1 r).1 older)
inputs-Shown c nets client (t, err e) older enabled inputs =
    inl (shown-publish_failure c older enabled)
inputs-Shown c nets client (t, ok iv) older enabled inputs =
    outputs-Shown c nets client iv (read_discrete_inputs t nets.1 c.output_count) older enabled
      (ap (λ r. r.1) inputs) (ap (λ r. read_discrete_inputs r.0 nets.1 c.output_count) inputs)

tick-Shown :
    (c : Config) (nets : Network × Network) (n : Node)
    → is_enabled c ≡ true
    → Shown c nets n.client (tick c nets n).published
unfolding tick poll
tick-Shown c nets n enabled = inputs-Shown c nets n.client _ n.published enabled refl

-- The topic shows a release, and the last poll of this history is the reason.
pub record Released (c : Config) (history : List (Network × Network)) (n : Node) : Type 0 where
  pub before : List (Network × Network)
  pub last : Network × Network
  pub last_poll : history ≡ before ++ last ∷ []
  pub shown : shown_estop (ticks c history n).published ≡ some false
  pub calm : Calm c last (ticks c before n).client

ticks-Shown :
    (c : Config) (nets : Network × Network) (rest : List (Network × Network)) (n : Node)
    → is_enabled c ≡ true
    → (shown_estop (ticks c (nets ∷ rest) n).published ≡ some true) ⊎ Released c (nets ∷ rest) n
unfolding ticks
ticks-Shown c nets [] n enabled = elim (tick-Shown c nets n enabled) [
  | inl active ↦ inl active
  | inr (shown, calm) ↦
      inr (record { before = []; last = nets; last_poll = refl; shown = shown; calm = calm })
]
ticks-Shown c nets (next ∷ rest) n enabled =
    elim (ticks-Shown c next rest (tick c nets n) enabled) [
      | inl active ↦ inl active
      | inr r ↦ inr (record {
        before = nets ∷ r.before;
        last = r.last;
        last_poll = ap (λ l. nets ∷ l) r.last_poll;
        shown = r.shown;
        calm = r.calm;
      })
    ]

-- With at least one source, the emergency-stop topic of a node that has been constructed always shows
-- a value, whatever the network has answered since. It shows a release only if there was a poll, and
-- in the last one both reads gave values, under which no input that is a source is triggered and the
-- traction power output does not read off.
pub ticks-Released :
    (c : Config) (unit_id : ℕ) (history : List (Network × Network))
    → is_enabled c ≡ true
    → (shown_estop (ticks c history (start_node unit_id c)).published ≡ some true)
      ⊎ Released c history (start_node unit_id c)
unfolding ticks
ticks-Released c unit_id [] enabled =
    inl (shown-publish_estop c true (connected false ∷ []) enabled)
ticks-Released c unit_id (nets ∷ rest) enabled =
    ticks-Shown c nets rest (start_node unit_id c) enabled
