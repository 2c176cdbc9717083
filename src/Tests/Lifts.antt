-- ===== src/Tests/Lifts.antt =====
-- The lift driver (catkin_ws/src/lift_driver) on concrete inputs.
use ku_polishing_robot_drive.Base.{
  All, List, [], arith, false, length, negsuc, pos, refl, true, ℕ, ◌*◌, ◌++◌, ◌-ℤ◌, ◌<◌, ◌∷◌, ◌≡◌,
  ◌≢◌, ◌≤◌,
}
use ku_polishing_robot_drive.Lift.Protocol.{Ids, velocity, alarm_reset, frame, encode}
use ku_polishing_robot_drive.Lift.Receive.{scan, read_and_parse}
use ku_polishing_robot_drive.Lift.Receive.Reads.{read_and_parse_bounded, read_all, read_all-flatten}
use ku_polishing_robot_drive.Lift.Receive.Resync.{reply_ids, scan-noise_frame}
use ku_polishing_robot_drive.Lift.Driver.{
  send_velocity, track_velocity, send, publish, at_lower_limit, Config, Driver, core, manual,
  homing, cancel_resume, exceeds, distance,
}
use ku_polishing_robot_drive.Lift.Alarm.{update_alarm}
use ku_polishing_robot_drive.Lift.Motion.{
  motion_by_mode, update_homing, home_log, home_done, post_home_vel, update_motion, motion_by_mode,
  update_homing, home_log, watch_stall,
}
use ku_polishing_robot_drive.Lift.Events.{
  Event, inc_position_cmd, tick, home, reset, initial, run, step, velocity_cmd,
}
use ku_polishing_robot_drive.Lift.Invariant.{Inv}
use ku_polishing_robot_drive.Lift.Invariant.Runs.{run-Inv}
use ku_polishing_robot_drive.Lift.Safety.Stop.{alarm_rise_stops}
use ku_polishing_robot_drive.Lift.Safety.Origin.{Reading, motions, origins}
use ku_polishing_robot_drive.Lift.Safety.Origin.History.{homed_needs_limit}
use ku_polishing_robot_drive.Lift.Safety.Idle.{IsStill, moves}
use ku_polishing_robot_drive.Lift.Safety.Idle.Runs.{run_still}
use ku_polishing_robot_drive.Lift.Homing.Ends.{homing_ends}
use ku_polishing_robot_drive.Lift.Commands.{home_callback, home_begin, home_speed, home_velocity}
use mathlib.Core.List.{flatten}

abbrev ids : Ids
ids = record { motor_rmid = 183; host_mid = 172; ctrl_id = 1 }

-- seconds
abbrev s : ℕ → ℕ
s n = n * 1_000_000_000

abbrev config : Config
config = record {
  ids = ids;
  up_speed_rpm = pos 300;
  timeout = s 1;
  posi_base_vel_rpm = 300;
  home_speed_rpm = 0;
  home_stall_counts = pos 5;
  home_stall = s 2;
  home_min = s 1;
  home_timeout = s 40;
  in_position_tol = pos 20;
  post_home_scaled = λ v. v;
  post_home_speeds_up = false;
  use_limit_switch_for_home = true;
  limit_di_descend_mask = 4;
  auto_release_on_stop = true;
  release_grace = s 2;
  release_stop = s 1;
  auto_reset_on_alarm = true;
  alarm_reset_interval = s 2;
  alarm_reset_max_attempts = 5;
  alarm_resume_max_cycles = 3;
}

abbrev fresh_driver : Driver
fresh_driver = record {
  serial_open = true;
  got_data = true;
  current_pos = pos 120;
  status_byte = 0;
  di_byte = 4;
  rpm = pos 0;
  last_rx = s 10;
  rx_buf = [];
  mode = manual;
  homed = false;
  target_pos = pos 0;
  home_dir_speed = pos 0;
  home_start = 0;
  home_start_pos = pos 0;
  home_alarm_seen = false;
  home_log_time = 0;
  home_log_pos = pos 0;
  stall_since = 0;
  stall_ref_pos = pos 0;
  stall_tracking = false;
  pending_home = false;
  last_vel_cmd = pos 0;
  vel_cmd_time = 0;
  vel_ref_pos = pos 0;
  vel_ref_time = 0;
  vel_ref_valid = false;
  alarm_active = false;
  alarm_status = 0;
  alarm_reset_attempts = 0;
  alarm_reset_exhausted = false;
  last_alarm_reset = 0;
  resume_mode = manual;
  resume_target = pos 0;
  resume_cycles = 0;
  sent = [];
  published = [];
}

-- a monitor reply: speed 0, alarm bit set, position 120, inputs 4
abbrev monitor_reply : List ℕ
monitor_reply = 0 ∷ 0 ∷ 0 ∷ 0 ∷ 0 ∷ 0 ∷ 1 ∷ 120 ∷ 0 ∷ 0 ∷ 0 ∷ 4 ∷ []

collect : List ℕ → ℕ → List ℕ → List ℕ
collect pids pid bytes = pid ∷ pids

velocity_bytes : encode ids (velocity (negsuc 299)) ≡ 183 ∷ 172 ∷ 1 ∷ 130 ∷ 2 ∷ 212 ∷ 254 ∷ 70 ∷ []
unfolding encode
velocity_bytes = refl

abbrev history : List (ℕ × Event)
history =
    (s 10, inc_position_cmd (pos 500))
    ∷ (s 11, tick (frame (reply_ids ids) 196 monitor_reply))
    ∷ (s 12, reset true)
    ∷ (s 13, home true)
    ∷ []

run-Inv_example : Inv config (core (run config (initial config true true false) history))
run-Inv_example = run-Inv config true true false history

alarm_rise_stops_example :
    (update_alarm config (s 10) 1 true (pos 120) fresh_driver).sent
    ≡ alarm_reset ∷ velocity (pos 0) ∷ velocity (pos 0) ∷ []
alarm_rise_stops_example =
    (alarm_rise_stops config (s 10) 1 (pos 120) fresh_driver refl refl refl).3

-- Homing again, with an origin: two readings at a place for two seconds, without the limit input.
abbrev homed_driver : Driver
homed_driver = record fresh_driver { homed = true }

abbrev at_second : ℕ → Reading
at_second n = record { now = s n; at = pos 3; fresh = true; di = 4 }

homed_again :
    origins (motions config (at_second 10 ∷ []) (home_begin config (s 8) homed_driver)).sent
    < origins
        (motions config
          (at_second 12 ∷ at_second 10 ∷ [])
          (home_begin config (s 8) homed_driver)).sent
unfolding motions origins update_motion motion_by_mode update_homing home_log send_velocity
    track_velocity send at_lower_limit home_done publish post_home_vel watch_stall exceeds distance
    home_begin cancel_resume home_velocity home_speed ku_polishing_robot_drive.Base.◌-ℤ◌
homed_again = omega arith

homed_needs_limit_example :
    (motions config (at_second 10 ∷ []) (home_begin config (s 8) homed_driver)).mode ≡ homing
homed_needs_limit_example =
    (homed_needs_limit config (s 8) homed_driver (at_second 12) (at_second 10 ∷ []) homed_again).0

abbrev chunks : List (List ℕ)
chunks = (9 ∷ 172 ∷ 183 ∷ 1 ∷ []) ∷ (197 ∷ 0 ∷ 215 ∷ []) ∷ []

read_all-flatten_example : read_all ids collect [] chunks [] ≡ scan ids collect (flatten chunks) []
read_all-flatten_example = read_all-flatten ids collect chunks [] (omega arith)

scan-noise_frame_example :
    scan ids collect ((9 ∷ 7 ∷ []) ++ (frame (reply_ids ids) 196 monitor_reply ++ [])) []
    ≡ scan ids collect [] (collect [] 196 monitor_reply)
scan-noise_frame_example =
    scan-noise_frame ids collect (9 ∷ 7 ∷ []) 196 monitor_reply [] [] (omega arith) (omega arith)

read_and_parse_bounded_example :
    length (read_and_parse ids collect (172 ∷ []) (183 ∷ 1 ∷ []) []).1 ≤ 260
read_and_parse_bounded_example =
    (read_and_parse_bounded ids collect (172 ∷ []) (183 ∷ 1 ∷ []) [] (omega arith) (omega arith)).1

-- homing asked for at 13 s
abbrev homing_run : List (ℕ × Event)
homing_run = (s 13, home true) ∷ []

homing_run_start :
    let d = run config (initial config true true false) homing_run in
    (d.mode ≡ homing) × (d.pending_home ≡ false) × (d.home_start ≡ s 13)
unfolding run step initial publish send home_callback home_begin home_speed cancel_resume
homing_run_start = (refl, refl, refl)

homing_ends_example :
    (run config
      (run config (initial config true true false) homing_run)
      ((s 14, tick []) ∷ (s 54, tick []) ∷ [])).mode
    ≢ homing
homing_ends_example =
    homing_ends config true true false homing_run ((s 14, tick []) ∷ []) (s 54) []
      homing_run_start.1 (refl, tt) (omega (arith, homing_run_start.2))

-- an alarm comes, is reset by hand, and a stop is commanded
abbrev calm_run : List (ℕ × Event)
calm_run =
    (s 10, tick (frame (reply_ids ids) 196 monitor_reply))
    ∷ (s 11, reset true)
    ∷ (s 12, velocity_cmd (pos 0))
    ∷ (s 13, home false)
    ∷ (s 14, tick [])
    ∷ []

calm_run_never : All (λ e. moves e ≡ false) calm_run
unfolding moves
calm_run_never = (refl, (refl, (refl, (refl, (refl, tt)))))

run_still_example : All IsStill (run config (initial config true true false) calm_run).sent
run_still_example = run_still config true true calm_run calm_run_never
