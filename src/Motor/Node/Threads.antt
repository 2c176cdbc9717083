-- ===== src/Motor/Node/Threads.antt =====
-- The threads of the node as a step relation (catkin_ws/src/motor_driver/src/motor_driver_node.cpp):
-- the spinner's callbacks, and the detached threads that enable, disable and reset the motors. What a
-- thread does between two accesses of a shared flag is one step; how the drives answer is open.
pub mod Invariant
pub mod Preserved
pub mod Exclusion
use ku_polishing_robot_drive.Base.{
  Bool, List, Option, [], false, if◌then◌else◌, none, same, some, true, ℕ, ◌++◌, ◌||◌, ◌∷◌, ◌≡◌,
  ◌≤◌,
}
use ku_polishing_robot_drive.Motor.Controller.{States}
use ku_polishing_robot_drive.Motor.Node.{
  Config, Node, compute_want_enabled, initial_node, update_enable_state, wants_reset,
}

pub data Goal : Type 0 where
  enabling disabling resetting : Goal

-- A detached thread: before its calls of the controller return; after it has stored
-- `motors_enabled_`, with the goal of an enabling or disabling thread; after it has cleared the flag.
pub data Worker : Type 0 where
  running : Goal → Worker
  releasing : Option Bool → Worker
  rechecking : Bool → Worker

-- `decided`: the timer's thread stands before the `exchange` at the end of `controlLoop`
pub record System : Type 0 where
  pub node : Node
  pub workers : List Worker
  pub decided : Bool
  pub time : ℕ

abbrev pub goal_of : Bool → Goal
goal_of want = if want then enabling else disabling

abbrev pub started : Option Bool → List Worker → List Worker
started none workers = workers
started (some want) workers = running (goal_of want) ∷ workers

-- what `motors_enabled_` is set to when the calls of the controller return
abbrev pub outcome : Goal → Bool → Bool
outcome enabling good = good
outcome disabling good = false
outcome resetting good = good

abbrev pub after : Goal → Option Bool
after enabling = some true
after disabling = some false
after resetting = none

-- a successful reset clears the error
abbrev pub error_after : Goal → Bool → Bool → Bool
error_after resetting true e = false
error_after _ good e = e

abbrev pub released : Option Bool → List Worker
released none = []
released (some want) = rechecking want ∷ []

-- the end of an enabling or disabling thread
abbrev pub recheck : Config → Bool → Node → Node × Option Bool
recheck c want n =
    if same want (compute_want_enabled c n) then (n, none) else update_enable_state c n

abbrev pub start_system : Config → ℕ → System
start_system c now =
    let (n, want) = update_enable_state c (initial_node now) in
    record { node = n; workers = started want []; decided = false; time = now }

module _ (W : Type 0) (c : Config) where
  pub data Step (s : System) : System → Type 0 where
    command :
        (now : ℕ)
        → s.time ≤ now
        → Step s (record s { node = record s.node { last_cmd_time = now }; time = now })
    tick :
        (now : ℕ) (states : States W) (has_fault timeout : Bool)
        → s.time ≤ now
        → s.decided ≡ false
        → Step s (record s {
          node = record s.node { is_error = has_fault || timeout };
          decided = wants_reset c now s.node states has_fault timeout;
          time = now;
        })
    claim :
        (now : ℕ)
        → s.time ≤ now
        → s.decided ≡ true
        → s.node.transition_in_progress ≡ false
        → Step s (record s {
          node = record s.node { transition_in_progress = true; last_reset_attempt = now };
          workers = running resetting ∷ s.workers;
          decided = false;
          time = now;
        })
    pass :
        s.decided ≡ true
        → s.node.transition_in_progress ≡ true
        → Step s (record s { decided = false })
    finish :
        (front back : List Worker) (goal : Goal) (good : Bool)
        → s.workers ≡ front ++ running goal ∷ back
        → Step s (record s {
          node = record s.node {
            motors_enabled = outcome goal good;
            is_error = error_after goal good s.node.is_error;
          };
          workers = front ++ releasing (after goal) ∷ back;
        })
    release :
        (front back : List Worker) (want : Option Bool)
        → s.workers ≡ front ++ releasing want ∷ back
        → Step s (record s {
          node = record s.node { transition_in_progress = false };
          workers = front ++ (released want ++ back);
        })
    leave :
        (front back : List Worker) (want : Bool)
        → s.workers ≡ front ++ rechecking want ∷ back
        → Step s (record s {
          node = (recheck c want s.node).0;
          workers = front ++ started (recheck c want s.node).1 back;
        })

  pub data Reach (s : System) : System → Type 0 where
    here : Reach s s
    next : {t u : System} → Reach s t → Step t u → Reach s u
