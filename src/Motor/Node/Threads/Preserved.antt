-- ===== src/Motor/Node/Threads/Preserved.antt =====
-- Every step of the node's threads keeps the invariant
-- (catkin_ws/src/motor_driver/src/motor_driver_node.cpp).
use ku_polishing_robot_drive.Base.{
  All, All-append, Bool, List, Option, [], ap, arith, false, inl, inr, none, some, subst, sym, true,
  ℕ, ◌++◌, ◌+◌, ◌<◌, ◌∙◌, ◌∷◌, ◌≡◌, ◌⊎◌,
}
use ku_polishing_robot_drive.Motor.Node.Threads.Invariant.{
  holders, holders-append, interlock, IsAllowed, Inv, All-split, goal_of-IsAllowed,
}
use ku_polishing_robot_drive.Motor.Controller.{States}
use ku_polishing_robot_drive.Motor.Node.{
  Config, compute_want_enabled, update_enable_state, wants_reset, Node,
}
use ku_polishing_robot_drive.Motor.Node.Threads.{
  command, tick, claim, pass, finish, release, leave, here, next, System, Worker, disabling,
  enabling, rechecking, releasing, resetting, running, Step, command, tick, goal_of, Goal, after,
  error_after, outcome, recheck, released, started, Reach,
}

-- The threads in a list, apart from the one that makes a step.
holders-around :
    (front : List Worker) (w : Worker) (back : List Worker)
    → holders (front ++ w ∷ back) ≡ holders front + holders (w ∷ []) + holders back
unfolding holders
holders-around front (running goal) back = omega (arith, holders-append front (running goal ∷ back))
holders-around front (releasing want) back =
    omega (arith, holders-append front (releasing want ∷ back))
holders-around front (rechecking want) back =
    omega (arith, holders-append front (rechecking want ∷ back))

holders-released :
    (front back : List Worker) (want : Option Bool)
    → holders (front ++ (released want ++ back)) ≡ holders front + holders back
unfolding holders
holders-released front back none = holders-append front back
holders-released front back (some want) = holders-append front (rechecking want ∷ back)

released-IsAllowed :
    (c : Config) (want : Option Bool) (back : List Worker)
    → All (IsAllowed c) back
    → All (IsAllowed c) (released want ++ back)
released-IsAllowed c none back h = h
released-IsAllowed c (some want) back h = (tt, h)

outcome-allowed :
    (c : Config) (goal : Goal) (good : Bool)
    → IsAllowed c (running goal)
    → outcome goal good ≡ true
    → interlock c ≡ true
outcome-allowed c enabling good h e = h
outcome-allowed c disabling good h e = cc
outcome-allowed c resetting good h e = h

-- A thread that ends either leaves everything as it is, or starts the next transition.
recheck-cases :
    (c : Config) (want : Bool) (n : Node)
    → (recheck c want n ≡ (n, none))
      ⊎ ((n.transition_in_progress ≡ false)
          × (recheck c want n ≡ (
            record n {
              transition_in_progress = true;
              last_brake_want_enabled = compute_want_enabled c n;
              brake_fb_initialized = true;
            },
            some (compute_want_enabled c n),
          )))
unfolding update_enable_state
recheck-cases c want n = ground arith

finish-Inv :
    (c : Config) (s : System) (front back : List Worker) (goal : Goal) (good : Bool)
    → s.workers ≡ front ++ running goal ∷ back
    → Inv c s
    → Inv c (record s {
      node = record s.node {
        motors_enabled = outcome goal good;
        is_error = error_after goal good s.node.is_error;
      };
      workers = front ++ releasing (after goal) ∷ back;
    })
unfolding holders compute_want_enabled
finish-Inv c s front back goal good e inv =
    let (before, mine, behind) =
      All-split (IsAllowed c) front (running goal) back (subst (All (IsAllowed c)) e inv.allowed) in
    record {
      one = omega (
        arith,
        ap holders e,
        inv.one,
        holders-around front (running goal) back,
        holders-around front (releasing (after goal)) back,
      );
      allowed = All-append (IsAllowed c) front _ before (tt, behind);
      steady = inv.steady;
      enabled = outcome-allowed c goal good mine;
      decision = inv.decision;
    }

release-Inv :
    (c : Config) (s : System) (front back : List Worker) (want : Option Bool)
    → s.workers ≡ front ++ releasing want ∷ back
    → Inv c s
    → Inv c (record s {
      node = record s.node { transition_in_progress = false };
      workers = front ++ (released want ++ back);
    })
unfolding holders compute_want_enabled
release-Inv c s front back want e inv =
    let (before, mine, behind) =
      All-split (IsAllowed c) front (releasing want) back
        (subst (All (IsAllowed c)) e inv.allowed) in
    record {
      one = ground (
        arith,
        ap holders e,
        inv.one,
        holders-around front (releasing want) back,
        holders-released front back want,
      );
      allowed = All-append (IsAllowed c) front _ before (released-IsAllowed c want back behind);
      steady = inv.steady;
      enabled = inv.enabled;
      decision = inv.decision;
    }

leave-Inv :
    (c : Config) (s : System) (front back : List Worker) (want : Bool)
    → s.workers ≡ front ++ rechecking want ∷ back
    → Inv c s
    → Inv c (record s {
      node = (recheck c want s.node).0;
      workers = front ++ started (recheck c want s.node).1 back;
    })
unfolding holders compute_want_enabled
leave-Inv c s front back want e inv =
    let (before, mine, behind) =
      All-split (IsAllowed c) front (rechecking want) back
        (subst (All (IsAllowed c)) e inv.allowed) in
    elim (recheck-cases c want s.node) [
      | inl same_node ↦ rw same_node (record {
        one = omega (
          arith,
          ap holders e,
          inv.one,
          holders-around front (rechecking want) back,
          holders-append front back,
        );
        allowed = All-append (IsAllowed c) front back before behind;
        steady = inv.steady;
        enabled = inv.enabled;
        decision = inv.decision;
      })
      | inr (free, start) ↦ rw start (record {
        one = ground (
          arith,
          ap holders e,
          inv.one,
          holders-around front (rechecking want) back,
          holders-around front (running (goal_of (compute_want_enabled c s.node))) back,
        );
        allowed =
            All-append (IsAllowed c) front _ before
              (goal_of-IsAllowed c (compute_want_enabled c s.node) inv.steady, behind);
        steady = inv.steady;
        enabled = inv.enabled;
        decision = inv.decision;
      })
    ]

tick_decides :
    (c : Config) {W : Type 0} (s : System) (now : ℕ) (states : States W) (has_fault timeout : Bool)
    → wants_reset c now s.node states has_fault timeout ≡ true
    → (compute_want_enabled c s.node ≡ true)
      × (s.node.last_reset_attempt + c.fault_reset_interval < now)
unfolding wants_reset
tick_decides c s now states has_fault timeout h = ground arith

module _ {W : Type 0} {c : Config} where
  pub Step-Inv : {s t : System} → Inv c s → Step W c s t → Inv c t
  unfolding holders compute_want_enabled
  Step-Inv inv (command now later) = record {
    one = inv.one;
    allowed = inv.allowed;
    steady = inv.steady;
    enabled = inv.enabled;
    decision = λ h. ground (arith, inv.decision h);
  }
  Step-Inv {s} inv (tick now states has_fault timeout later idle) = record {
    one = inv.one;
    allowed = inv.allowed;
    steady = inv.steady;
    enabled = inv.enabled;
    decision = λ h.
        let (want, due) = tick_decides c s now states has_fault timeout h in
        (sym inv.steady ∙ want, due);
  }
  Step-Inv inv (claim now later go free) = record {
    one = ground (arith, inv.one);
    allowed = ((inv.decision go).0, inv.allowed);
    steady = inv.steady;
    enabled = inv.enabled;
    decision = λ h. cc;
  }
  Step-Inv inv (pass go taken) = record {
    one = inv.one;
    allowed = inv.allowed;
    steady = inv.steady;
    enabled = inv.enabled;
    decision = λ h. cc;
  }
  Step-Inv {s} inv (finish front back goal good e) = finish-Inv c s front back goal good e inv
  Step-Inv {s} inv (release front back want e) = release-Inv c s front back want e inv
  Step-Inv {s} inv (leave front back want e) = leave-Inv c s front back want e inv

  pub Reach-Inv : {s t : System} → Inv c s → Reach W c s t → Inv c t
  Reach-Inv inv here = inv
  Reach-Inv inv (next r st) = Step-Inv (Reach-Inv inv r) st
