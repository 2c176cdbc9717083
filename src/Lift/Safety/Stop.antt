-- ===== src/Lift/Safety/Stop.antt =====
-- What the lift driver (catkin_ws/src/lift_driver/src/lift_driver_node.cpp) does at an alarm.
use ku_polishing_robot_drive.Base.{
  arith, false, has_bit, if◌then◌else◌, pos, refl, true, ℕ, ℤ, ◌∷◌, ◌≡◌,
}
use ku_polishing_robot_drive.Lift.Protocol.{alarm_reset, velocity, alarm_reset}
use ku_polishing_robot_drive.Lift.Driver.{
  position, Config, Driver, Mode, core-send_velocity, homing, manual, send, send_velocity,
  track_velocity, position,
}
use ku_polishing_robot_drive.Lift.Alarm.{
  alarm_rise, alarm_watch, auto_reset, remember, request_alarm_reset, update_alarm,
}
use ku_polishing_robot_drive.Lift.Events.{destroy}

-- What `sendVelocity` leaves alone, and what it sends.
send_velocity-effect :
    (now : ℕ) (rpm : ℤ) (d : Driver)
    → let t = send_velocity now rpm d in
      (t.serial_open ≡ d.serial_open)
      × (t.last_alarm_reset ≡ d.last_alarm_reset)
      × (t.sent ≡ (if d.serial_open then velocity rpm ∷ d.sent else d.sent))
unfolding send_velocity track_velocity send
send_velocity-effect now rpm d = ground arith

-- The last frame of the destructor stops the lift, and the port is closed behind it.
destroy-sent :
    (now : ℕ) (d : Driver)
    → d.serial_open ≡ true
    → ((destroy now d).sent ≡ velocity (pos 0) ∷ d.sent) × ((destroy now d).serial_open ≡ false)
unfolding destroy
destroy-sent now d port = (ground (arith, send_velocity-effect now (pos 0) d), refl)

-- The state behind the rising edge.
record Risen (d t : Driver) : Type 0 where
  is_manual : t.mode ≡ manual
  active : t.alarm_active ≡ true
  same_origin : t.homed ≡ d.homed
  port_open : t.serial_open ≡ true
  stopped : t.sent ≡ velocity (pos 0) ∷ d.sent
  attempts : t.alarm_reset_attempts ≡ 0
  armed : t.alarm_reset_exhausted ≡ false
  at_once : t.last_alarm_reset ≡ 0

remember-Risen :
    (m : Mode) (d t : Driver) → Risen d (record t { mode = manual }) → Risen d (remember m t)
unfolding remember
remember-Risen manual d t h = h
remember-Risen homing d t h = ground arith
remember-Risen position d t h = ground arith

alarm_rise-Risen : (now st : ℕ) (d : Driver) → d.serial_open ≡ true → Risen d (alarm_rise now st d)
unfolding alarm_rise
alarm_rise-Risen now st d port =
    let s = record d {
      alarm_active = true;
      alarm_status = st;
      alarm_reset_attempts = 0;
      alarm_reset_exhausted = false;
      last_alarm_reset = 0;
    } in
    let t = send_velocity now (pos 0) s in
    remember-Risen t.mode d t
      (ground (arith, core-send_velocity now (pos 0) s, send_velocity-effect now (pos 0) s))

-- An automatic reset with no attempt made and none of the limit spent.
auto_reset_first :
    (c : Config) (now : ℕ) (d t : Driver)
    → Risen d t
    → let u = auto_reset c now t in
      (u.mode ≡ manual)
      × (u.alarm_active ≡ true)
      × (u.homed ≡ d.homed)
      × (u.sent ≡ (
          if c.auto_reset_on_alarm
          then alarm_reset ∷ velocity (pos 0) ∷ velocity (pos 0) ∷ d.sent
          else velocity (pos 0) ∷ d.sent))
      × (u.alarm_reset_attempts ≡ (if c.auto_reset_on_alarm then 1 else 0))
unfolding auto_reset request_alarm_reset send
auto_reset_first c now d t h =
    ground (arith, core-send_velocity now (pos 0) t, send_velocity-effect now (pos 0) t)

update_alarm_rise :
    (c : Config) (now st : ℕ) (at : ℤ) (d : Driver)
    → d.alarm_active ≡ false
    → has_bit st 0 ≡ true
    → update_alarm c now st true at d ≡ auto_reset c now (alarm_rise now st d)
unfolding update_alarm alarm_watch
update_alarm_rise c now st at d quiet bit = rw (bit, quiet)

-- At the rising edge of an alarm, on a fresh tick with the port open, the lift driver is in manual
-- mode with the alarm active and the origin as it was, and it has sent velocity 0; if automatic
-- reset is on, it has gone on with velocity 0 and one alarm reset, its first attempt, and otherwise
-- it has sent nothing else and made no attempt.
pub alarm_rise_stops :
    (c : Config) (now st : ℕ) (at : ℤ) (d : Driver)
    → d.serial_open ≡ true
    → d.alarm_active ≡ false
    → has_bit st 0 ≡ true
    → let t = update_alarm c now st true at d in
      (t.mode ≡ manual)
      × (t.alarm_active ≡ true)
      × (t.homed ≡ d.homed)
      × (t.sent ≡ (
          if c.auto_reset_on_alarm
          then alarm_reset ∷ velocity (pos 0) ∷ velocity (pos 0) ∷ d.sent
          else velocity (pos 0) ∷ d.sent))
      × (t.alarm_reset_attempts ≡ (if c.auto_reset_on_alarm then 1 else 0))
alarm_rise_stops c now st at d port quiet bit =
    rw (update_alarm_rise c now st at d quiet bit)
      (auto_reset_first c now d (alarm_rise now st d) (alarm_rise-Risen now st d port))
