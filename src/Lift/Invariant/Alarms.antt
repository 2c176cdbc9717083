-- ===== src/Lift/Invariant/Alarms.antt =====
-- The alarm handling keeps the invariant.
use ku_polishing_robot_drive.Base.{
  Bool, ap, arith, false, has_bit, pos, refl, true, ℕ, ℤ, ◌+◌, ◌-ℤ◌, ◌<◌, ◌≡◌, ◌≤◌, ◌⊎◌,
}
use ku_polishing_robot_drive.Lift.Protocol
use ku_polishing_robot_drive.Lift.Protocol.{alarm_reset, inc_position}
use ku_polishing_robot_drive.Lift.Driver.{
  manual, position, Config, Driver, Core, core, core-send, core-send_velocity, send_velocity, Mode,
  homing,
}
use ku_polishing_robot_drive.Lift.Alarm.{
  request_alarm_reset, resume_position, alarm_clear, alarm_rise, alarm_watch, auto_reset, remember,
  resume_after_alarm, resume_by_mode, update_alarm,
}
use ku_polishing_robot_drive.Lift.Invariant.{Inv}

-- A manual reset starts from no attempt.
pub request_alarm_reset-Inv :
    (c : Config) (now : ℕ) (by_hand : Bool) (d : Driver)
    → d.alarm_active ≡ true
    → (by_hand ≡ true → d.alarm_reset_attempts ≡ 0)
    → Inv c (core d)
    → Inv c (core (request_alarm_reset c now by_hand d))
unfolding request_alarm_reset
request_alarm_reset-Inv c now by_hand d active fresh h =
    ground
      (arith, core-send_velocity now (pos 0) d, core-send alarm_reset (send_velocity now (pos 0) d))

-- The state at the falling edge of the alarm, before the resume.
record Cleared (c : Config) (k : Core) : Type 0 where
  idle : k.mode ≡ manual
  quiet : k.alarm_active ≡ false
  fresh : k.attempts ≡ 0
  armed : k.exhausted ≡ false
  kind : (k.resume_mode ≡ manual) ⊎ (k.resume_mode ≡ position)
  capped : 0 < c.alarm_resume_max_cycles → k.resume_cycles ≤ c.alarm_resume_max_cycles

resume_position-Inv :
    (c : Config) (at : ℤ) (d : Driver) → Cleared c (core d) → Inv c (core (resume_position at d))
unfolding resume_position
resume_position-Inv c at d h =
    let t = record d { resume_mode = manual; target_pos = d.resume_target; mode = position } in
    ground (
      arith,
      core-send (Protocol.position d.resume_target) t,
      core-send (inc_position (d.resume_target -ℤ at)) t,
    )

resume_by_mode-Inv :
    (c : Config) (m : Mode) (now : ℕ) (at : ℤ) (d : Driver)
    → m ≡ position
    → Cleared c (core d)
    → Inv c (core (resume_by_mode m now at d))
unfolding resume_by_mode
resume_by_mode-Inv c manual now at d e h = absurd (cc)
resume_by_mode-Inv c homing now at d e h = absurd (cc)
resume_by_mode-Inv c position now at d e h = resume_position-Inv c at d h

resume_after_alarm-Inv :
    (c : Config) (now : ℕ) (at : ℤ) (d : Driver)
    → Cleared c (core d)
    → Inv c (core (resume_after_alarm c now at d))
unfolding resume_after_alarm
resume_after_alarm-Inv c now at d h = ground (
  arith,
  resume_by_mode-Inv c d.resume_mode now at (record d { resume_cycles = d.resume_cycles + 1 }),
)

alarm_clear-Inv :
    (c : Config) (now st : ℕ) (at : ℤ) (d : Driver)
    → d.alarm_active ≡ true
    → Inv c (core d)
    → Inv c (core (alarm_clear c now st at d))
unfolding alarm_clear
alarm_clear-Inv c now st at d active h =
    resume_after_alarm-Inv c now at
      (record d {
        alarm_active = false;
        alarm_status = st;
        alarm_reset_attempts = 0;
        alarm_reset_exhausted = false;
      })
      (record {
        idle = h.alarm_manual active;
        quiet = refl;
        fresh = refl;
        armed = refl;
        kind = h.resume_kind;
        capped = h.cycles_capped;
      })

remember-Inv :
    (c : Config) (m : Mode) (d : Driver)
    → d.alarm_active ≡ true
    → d.alarm_reset_attempts ≡ 0
    → (d.resume_mode ≡ manual) ⊎ (d.resume_mode ≡ position)
    → (0 < c.alarm_resume_max_cycles → d.resume_cycles ≤ c.alarm_resume_max_cycles)
    → Inv c (core (remember m d))
unfolding remember
remember-Inv c manual d a z k l = ground arith
remember-Inv c homing d a z k l = ground arith
remember-Inv c position d a z k l = ground arith

alarm_rise-Inv :
    (c : Config) (now st : ℕ) (d : Driver) → Inv c (core d) → Inv c (core (alarm_rise now st d))
unfolding alarm_rise
alarm_rise-Inv c now st d h =
    let s = record d {
      alarm_active = true;
      alarm_status = st;
      alarm_reset_attempts = 0;
      alarm_reset_exhausted = false;
      last_alarm_reset = 0;
    } in
    let same = core-send_velocity now (pos 0) s in
    remember-Inv c (send_velocity now (pos 0) s).mode (send_velocity now (pos 0) s)
      (ap (λ k. k.alarm_active) same) (ap (λ k. k.attempts) same) (ground (arith, same))
      (ground (arith, same))

pub alarm_watch-Inv :
    (c : Config) (now : ℕ) (alarm : Bool) (st : ℕ) (d : Driver)
    → Inv c (core d)
    → Inv c (core (alarm_watch now alarm st d))
unfolding alarm_watch
alarm_watch-Inv c now alarm st d h = ground (arith, alarm_rise-Inv c now st d h)

auto_reset-Inv :
    (c : Config) (now : ℕ) (d : Driver) → Inv c (core d) → Inv c (core (auto_reset c now d))
unfolding auto_reset
auto_reset-Inv c now d h = ground (arith, request_alarm_reset-Inv c now false d)

-- One tick of the alarm handling, with any data.
pub update_alarm-Inv :
    (c : Config) (now st : ℕ) (fresh : Bool) (at : ℤ) (d : Driver)
    → Inv c (core d)
    → Inv c (core (update_alarm c now st fresh at d))
unfolding update_alarm
update_alarm-Inv c now st fresh at d h =
    let t = alarm_watch now (has_bit st 0) st d in
    let kept = alarm_watch-Inv c now (has_bit st 0) st d h in
    ground (arith, kept, alarm_clear-Inv c now st at t, auto_reset-Inv c now t kept)
