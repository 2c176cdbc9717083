-- ===== src/Lift/Safety/Origin/History.antt =====
-- Homing as a history of readings, up to the origin
-- (catkin_ws/src/lift_driver/src/lift_driver_node.cpp).
use ku_polishing_robot_drive.Base.{
  Bool-cases, List, [], ap, arith, bit_and, false, inl, inr, not, pos, refl, subst, sym, true, u8,
  ℕ, ◌&&◌, ◌+◌, ◌<◌, ◌||◌, ◌∙◌, ◌∷◌, ◌≡◌, ◌≤◌, ◌⊎◌,
}
use ku_polishing_robot_drive.Lift.Commands.{home_begin}
use ku_polishing_robot_drive.Lift.Motion.{
  home_done, home_log, motion_by_mode, update_homing, update_motion, update_position, watch_stall,
}
use ku_polishing_robot_drive.Lift.Driver.{
  Config, Driver, Mode, at_lower_limit, cancel_resume, distance, elapsed, exceeds, homing, manual,
  overrun, position, send_velocity,
}
use ku_polishing_robot_drive.Lift.Safety.Origin.{
  Lasted, Reading, Still, home_done-data, homing_data, homing_data-home_log,
  homing_data-send_velocity, motion_by_mode-origins, motions, origins,
}

-- While homing, the tracked reference has lasted.
abbrev Tracks : Config → List Reading → Driver → Type 0
Tracks c rs d =
    d.mode ≡ homing → d.stall_tracking ≡ true → Lasted c d.stall_since d.stall_ref_pos rs

-- An origin ends homing.
home_done-Tracks :
    (c : Config) (now : ℕ) (rs : List Reading) (d : Driver) → Tracks c rs (home_done c now d)
home_done-Tracks c now rs d mode tracking = absurd (cc (mode, (home_done-data c now d).0))

watch_stall-Tracks :
    (c : Config) (r : Reading) (rs : List Reading) (d : Driver)
    → r.fresh ≡ true
    → d.mode ≡ homing
    → Tracks c rs d
    → Tracks c (r ∷ rs) (watch_stall c r.now r.at d)
unfolding watch_stall
watch_stall-Tracks c r rs d fresh in_homing h =
    let moved =
      not d.stall_tracking || exceeds (distance r.at d.stall_ref_pos) c.home_stall_counts in
    let over = elapsed d.home_start c.home_min r.now && elapsed d.stall_since c.home_stall r.now in
    elim (Bool-cases moved) [
      | inl new ↦ simp new (λ mode tracking. (fresh, inl (refl, refl)))
      | inr old ↦ elim (Bool-cases over) [
        | inl done ↦
            let e : watch_stall c r.now r.at d ≡ home_done c r.now d = simp (old, done) in
            subst (Tracks c (r ∷ rs)) (sym e) (home_done-Tracks c r.now (r ∷ rs) d)
        | inr going ↦
            let e : watch_stall c r.now r.at d ≡ d = simp (old, going) in
            subst (Tracks c (r ∷ rs)) (sym e)
              (λ mode tracking. (fresh, inr (ground arith, h mode tracking)))
      ]
    ]

Tracks-same :
    (c : Config) (rs : List Reading) (d t : Driver)
    → homing_data t ≡ homing_data d
    → Tracks c rs d
    → Tracks c rs t
Tracks-same c rs d t e h mode tracking =
    subst (λ k. Lasted c k t.stall_ref_pos rs) (sym (ap (λ x. x.3) e))
      (subst (λ k. Lasted c d.stall_since k rs) (sym (ap (λ x. x.4) e))
        (h (sym (ap (λ x. x.0) e) ∙ mode) (sym (ap (λ x. x.2) e) ∙ tracking)))

update_homing-Tracks :
    (c : Config) (r : Reading) (rs : List Reading) (d : Driver)
    → d.mode ≡ homing
    → Tracks c rs d
    → Tracks c (r ∷ rs) (update_homing c r.now r.at r.fresh r.di d)
unfolding update_homing
update_homing-Tracks c r rs d0 in_homing h =
    let d = home_log r.now r.at d0 in
    let t = send_velocity r.now d.home_dir_speed d in
    let same : homing_data t ≡ homing_data d0 =
      homing_data-send_velocity r.now d.home_dir_speed d ∙ homing_data-home_log r.now r.at d0 in
    let u = update_homing c r.now r.at r.fresh r.di d0 in
    let goal : Driver → Type 0 = Tracks c (r ∷ rs) in
    elim (Bool-cases (overrun d.home_start c.home_timeout r.now)) [
      | inl late ↦ simp late (λ mode tracking. absurd (cc))
      | inr in_time ↦
          elim (Bool-cases (c.use_limit_switch_for_home && at_lower_limit c r.di r.fresh)) [
            | inl limit ↦
                let e : u ≡ home_done c r.now d = simp (in_time, limit) in
                subst goal (sym e) (home_done-Tracks c r.now (r ∷ rs) d)
            | inr no_limit ↦ elim (Bool-cases r.fresh) [
              | inr stale ↦
                  let e : u ≡ record t { stall_tracking = false } =
                    simp (in_time, no_limit) (simp stale) in
                  subst goal (sym e) (λ mode tracking. absurd (cc))
              | inl fresh ↦
                  let e : u ≡ watch_stall c r.now r.at t = simp (in_time, no_limit) (simp fresh) in
                  subst goal (sym e) (
                    watch_stall-Tracks c r rs t fresh (ap (λ x. x.0) same ∙ in_homing)
                      (Tracks-same c rs d0 t same h))
            ]
          ]
    ]

-- What holds since homing began.
record Homes (c : Config) (began : ℕ) (rs : List Reading) (d : Driver) : Type 0 where
  pub started : d.home_start ≡ began
  pub tracks : Tracks c rs d

home_start-update_homing :
    (c : Config) (r : Reading) (d : Driver)
    → (update_homing c r.now r.at r.fresh r.di d).home_start ≡ d.home_start
unfolding update_homing watch_stall
home_start-update_homing c r d0 =
    let d = home_log r.now r.at d0 in
    let t = send_velocity r.now d.home_dir_speed d in
    ground (
      arith,
      homing_data-home_log r.now r.at d0,
      homing_data-send_velocity r.now (pos 0) d,
      homing_data-send_velocity r.now d.home_dir_speed d,
      (home_done-data c r.now d).1,
      (home_done-data c r.now t).1,
    )

motion_by_mode-Homes :
    (c : Config) (m : Mode) (began : ℕ) (r : Reading) (rs : List Reading) (d : Driver)
    → d.mode ≡ m
    → Homes c began rs d
    → Homes c began (r ∷ rs) (motion_by_mode m c r.now r.at r.fresh r.di d)
unfolding motion_by_mode update_position
motion_by_mode-Homes c homing began r rs d e h = record {
  started = home_start-update_homing c r d ∙ h.started;
  tracks = update_homing-Tracks c r rs d e h.tracks;
}
motion_by_mode-Homes c manual began r rs d e h = record {
  started = h.started;
  tracks = λ mode tracking. absurd (cc);
}
motion_by_mode-Homes c position began r rs d e h = record {
  started = ground (arith, h.started);
  tracks = λ mode tracking. absurd (ground arith);
}

motions-Homes :
    (c : Config) (began : ℕ) (rs : List Reading) (d : Driver)
    → Homes c began rs (motions c rs (home_begin c began d))
unfolding motions update_motion home_begin cancel_resume
motions-Homes c began [] d = record { started = refl; tracks = λ mode tracking. absurd (cc) }
motions-Homes c began (r ∷ rs) d =
    let was = motions c rs (home_begin c began d) in
    motion_by_mode-Homes c was.mode began r rs was refl (motions-Homes c began rs d)

-- From the start of homing on, whether there was an origin before or not, and over any ticks of
-- `updateMotion`: the lift driver takes an
-- origin at a tick only while it is still homing, with fresh data, before the homing timeout, and only
-- where the lower limit input shows the limit (if that input is used), or where homing has run for
-- `home_min` and the lift stands still: all readings of the last `home_stall` were fresh and within
-- `home_stall_counts` of the first of them.
pub homed_needs_limit :
    (c : Config) (began : ℕ) (d : Driver) (r : Reading) (rs : List Reading)
    → origins (motions c rs (home_begin c began d)).sent
      < origins (motions c (r ∷ rs) (home_begin c began d)).sent
    → ((motions c rs (home_begin c began d)).mode ≡ homing)
      × (r.fresh ≡ true)
      × (r.now ≤ began + c.home_timeout)
      × (((c.use_limit_switch_for_home ≡ true) × (bit_and r.di (u8 c.limit_di_descend_mask) ≡ 0))
          ⊎ ((began + c.home_min ≤ r.now) × Still c r rs))
unfolding motions update_motion
homed_needs_limit c began d r rs more =
    let was = motions c rs (home_begin c began d) in
    let h = motions-Homes c began rs d in
    let (mode, seen) = motion_by_mode-origins c was.mode r was refl more in
    let (fresh, in_time, reason) = seen in
    (
      mode,
      fresh,
      omega (arith, h.started),
      elim reason [
        | inl limit ↦ inl limit
        | inr (tracking, near, ran, long) ↦ inr (
          omega (arith, h.started),
          record {
            since = was.stall_since;
            ref = was.stall_ref_pos;
            lasted = h.tracks mode tracking;
            near = near;
            long = long;
          },
        )
      ],
    )
