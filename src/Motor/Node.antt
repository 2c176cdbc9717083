-- ===== src/Motor/Node.antt =====
-- The ROS node of the drive motors: parameters, `cmdCallback`, the interlock and `controlLoop`
-- (catkin_ws/src/motor_driver/src/motor_driver_node.cpp). Two clocks are read: `now` of ROS and
-- `steady` of the controller; times are nanoseconds. Messages are given in the order of publication.
pub mod Threads
pub mod Views
pub mod Commands
pub mod Live
pub mod Races
pub mod Params
use ku_polishing_robot_drive.Base.{
  Bool, List, Option, [], eqb_ℤ, false, if◌then◌else◌, length, ltb, ltb_ℤ, negsuc, none, not, pos,
  same, some, true, u8, ℕ, ℤ, ◌&&◌, ◌++◌, ◌+◌, ◌==◌, ◌||◌, ◌∷◌,
}
use ku_polishing_robot_drive.Motor.Controller.{
  States, is_operation_enabled, reinit_pending, request_reinit,
}
use ku_polishing_robot_drive.Motor.Velocity.{
  Alarm, Snapshot, Speeds, get_alarm, get_feedback_velocity, get_status, older_than,
  set_target_velocity,
}

pub record Config : Type 0 where
  -- the motors with their directions; true is -1
  pub motors : List (ℕ × Bool)
  pub cmd_timeout : ℕ
  pub feedback_timeout : ℕ
  pub reinit_feedback_loss : ℕ
  pub fault_reset_interval : ℕ
  pub require_traction_enable : Bool
  pub use_brake_interlock : Bool

pub record Node : Type 0 where
  pub last_cmd_time : ℕ
  pub last_reset_attempt : ℕ
  pub motors_enabled : Bool
  pub transition_in_progress : Bool
  pub is_error : Bool
  pub last_traction_enable_cmd : ℤ
  pub brake_engaged : Bool
  pub brake_fb_initialized : Bool
  pub last_brake_want_enabled : Bool

abbrev repeat_false : List ℕ → List (ℕ × Bool)
repeat_false [] = []
repeat_false (id ∷ ids) = (u8 id, false) ∷ repeat_false ids

abbrev with_directions : List ℕ → List ℤ → List (ℕ × Bool)
with_directions [] dirs = []
with_directions (id ∷ ids) [] = []
with_directions (id ∷ ids) (d ∷ dirs) = (u8 id, ltb_ℤ d (pos 0)) ∷ with_directions ids dirs

-- `drive_motor_ids` and `motor_directions`; directions of another size are ignored
unfoldable pub load_motors : Option (List ℕ) → Option (List ℤ) → List (ℕ × Bool)
load_motors ids dirs =
    let ids' : List ℕ = elim ids [
      | none ↦ 1 ∷ 2 ∷ []
      | some [] ↦ 1 ∷ 2 ∷ []
      | some (i ∷ is) ↦ i ∷ is
    ] in
    elim dirs [
      | none ↦ repeat_false ids'
      | some ds ↦ if length ds == length ids' then with_directions ids' ds else repeat_false ids'
    ]

abbrev pub initial_node : ℕ → Node
initial_node now = record {
  last_cmd_time = now;
  last_reset_attempt = 0;
  motors_enabled = false;
  transition_in_progress = false;
  is_error = false;
  last_traction_enable_cmd = negsuc 0;
  brake_engaged = false;
  brake_fb_initialized = false;
  last_brake_want_enabled = false;
}

unfoldable pub compute_want_enabled : Config → Node → Bool
compute_want_enabled c n =
    (if c.require_traction_enable then eqb_ℤ n.last_traction_enable_cmd (pos 1) else true)
    && (if c.use_brake_interlock then not n.brake_engaged else true)

-- `updateEnableState` under its mutex: the new state, and the goal of the thread that it starts
unfoldable pub update_enable_state : Config → Node → Node × Option Bool
update_enable_state c n =
    let want = compute_want_enabled c n in
    if n.brake_fb_initialized && same want n.last_brake_want_enabled
    then (n, none)
    else if n.transition_in_progress
    then (n, none)
    else (
      record n {
        transition_in_progress = true;
        last_brake_want_enabled = want;
        brake_fb_initialized = true;
      },
      some want,
    )

pub data Message (W : Type 0) : Type 0 where
  velocity : List W → Message W
  status : List Snapshot → Message W
  drive_alarm : Alarm → Message W
  feedback_alarm : ℕ → Message W
  error : Bool → Message W

module _ {W : Type 0} (speeds : Speeds W) where
  abbrev pub directed : Bool → W → W
  directed reversed w = if reversed then speeds.negate w else w

  unfoldable pub set_targets : List (ℕ × Bool) → List W → States W → States W
  set_targets [] rpms states = states
  set_targets (m ∷ motors) [] states = states
  set_targets ((id, reversed) ∷ motors) (rpm ∷ rpms) states =
      set_targets motors rpms (set_target_velocity speeds id (directed reversed rpm) states)

  -- A command that is too short is ignored, and so is one while the motors are off, but for its time.
  unfoldable pub cmd_callback : Config → ℕ → List W → Node → States W → Node × States W
  cmd_callback c now rpms n states = if ltb (length rpms) (length c.motors) then (n, states) else (
    record n { last_cmd_time = now },
    if n.motors_enabled then set_targets c.motors rpms states else states,
  )

  unfoldable pub stop_targets : List (ℕ × Bool) → States W → States W
  stop_targets [] states = states
  stop_targets ((id, reversed) ∷ motors) states =
      stop_targets motors (set_target_velocity speeds id speeds.zero_speed states)

  unfoldable pub watch_commands : Config → ℕ → Node → States W → States W
  watch_commands c now n states =
      if n.motors_enabled && ltb (n.last_cmd_time + c.cmd_timeout) now
      then stop_targets c.motors states
      else states

  abbrev pub velocities : List (ℕ × Bool) → States W → List W
  velocities [] states = []
  velocities ((id, reversed) ∷ motors) states =
      directed reversed (get_feedback_velocity speeds id states) ∷ velocities motors states

abbrev pub ids_of : List (ℕ × Bool) → List ℕ
ids_of [] = []
ids_of ((id, reversed) ∷ motors) = id ∷ ids_of motors

module _ {W : Type 0} where
  abbrev pub statuses : List (ℕ × Bool) → States W → List Snapshot
  statuses [] states = []
  statuses ((id, reversed) ∷ motors) states = get_status id states ∷ statuses motors states

  -- the loop over `get_alarm`: the states, the messages, `has_drive_fault`
  unfoldable pub check_alarms : List (ℕ × Bool) → States W → States W × List (Message W) × Bool
  check_alarms [] states = (states, [], false)
  check_alarms ((id, reversed) ∷ motors) states =
      let (settled, alarm) = get_alarm id states in
      let (states', messages, has_fault) = check_alarms motors settled in
      elim alarm [
        | none ↦ (states', messages, has_fault)
        | some a ↦ (states', drive_alarm a ∷ messages, true)
      ]

  -- the loop over the ages of the feedback: the states, the messages, `feedback_timeout`
  unfoldable pub check_feedback :
      Config → ℕ → List (ℕ × Bool) → States W → States W × List (Message W) × Bool
  check_feedback c steady [] states = (states, [], false)
  check_feedback c steady ((id, reversed) ∷ motors) states =
      let late = older_than steady c.feedback_timeout id states in
      let lost = older_than steady c.reinit_feedback_loss id states in
      let (states', messages, timeout) =
        check_feedback c steady motors (if lost then request_reinit steady id states else states) in
      (states', if late then feedback_alarm id ∷ messages else messages, late || timeout)

  unfoldable pub any_not_enabled : List (ℕ × Bool) → States W → Bool
  any_not_enabled [] states = false
  any_not_enabled ((id, reversed) ∷ motors) states =
      not (is_operation_enabled id states) || any_not_enabled motors states

  -- `want_reset`
  unfoldable pub wants_reset : Config → ℕ → Node → States W → Bool → Bool → Bool
  wants_reset c now n states has_fault timeout =
      (has_fault
        || any_not_enabled c.motors states && not timeout
        || reinit_pending (ids_of c.motors) states)
      && compute_want_enabled c n
      && not n.transition_in_progress
      && ltb (n.last_reset_attempt + c.fault_reset_interval) now

-- what one run of `controlLoop` leaves before its last `exchange`
pub record Tick (W : Type 0) : Type 0 where
  pub node : Node
  pub states : States W
  pub messages : List (Message W)
  pub want_reset : Bool

module _ {W : Type 0} (speeds : Speeds W) where
  unfoldable pub control_loop : Config → ℕ → ℕ → Node → States W → Tick W
  control_loop c now steady n states =
      let stopped = watch_commands speeds c now n states in
      let (settled, alarms, has_fault) = check_alarms c.motors stopped in
      let (checked, late, timeout) = check_feedback c steady c.motors settled in
      record {
        node = record n { is_error = has_fault || timeout };
        states = checked;
        messages =
            velocity (velocities speeds c.motors stopped)
            ∷ status (statuses c.motors stopped)
            ∷ (alarms ++ (late ++ error (has_fault || timeout) ∷ []));
        want_reset = wants_reset c now n checked has_fault timeout;
      }
