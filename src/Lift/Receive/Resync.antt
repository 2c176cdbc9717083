-- ===== src/Lift/Receive/Resync.antt =====
-- Frames of the controller are found again, also behind noise.
use ku_polishing_robot_drive.Base.{
  All, List, [], append_assoc, arith, drop, drop-append_exact, length, length-append, refl, take,
  take-append_exact, u8, ℕ, ◌++◌, ◌+◌, ◌<◌, ◌∙◌, ◌∷◌, ◌≡◌, ◌≢◌, ◌≤◌,
}
use ku_polishing_robot_drive.Lift.Protocol.{Ids, frame}
use ku_polishing_robot_drive.Lift.Protocol.Frames.{sum_bytes-frame}
use ku_polishing_robot_drive.Lift.Receive.{skip, accept, look_at, look, scan}
use ku_polishing_robot_drive.Lift.Receive.Stream.{scan_skip, scan_accept}

-- The address that the controller answers with: the host first.
abbrev pub reply_ids : Ids → Ids
reply_ids ids = record ids { motor_rmid = ids.host_mid; host_mid = ids.motor_rmid }

length-frame :
    (ids : Ids) (pid : ℕ) (bytes : List ℕ) → length (frame ids pid bytes) ≡ length bytes + 6
unfolding frame
length-frame ids pid bytes = omega (arith, length-append bytes)

data-frame :
    (ids : Ids) (pid : ℕ) (bytes rest : List ℕ)
    → take (length bytes) (drop 5 (frame ids pid bytes ++ rest)) ≡ bytes
unfolding frame
data-frame ids pid bytes rest =
    rw (append_assoc bytes) (take-append_exact (length bytes) bytes _ refl)

-- The scan accepts a reply at the front of the buffer, whatever follows it.
look_at-frame :
    (ids : Ids) (pid : ℕ) (bytes rest : List ℕ)
    → length bytes < 256
    → look_at ids ids.host_mid ids.motor_rmid pid
        (u8 (length bytes))
        (frame (reply_ids ids) pid bytes ++ rest)
      ≡ accept pid bytes (5 + length bytes + 1)
unfolding look_at
look_at-frame ids pid bytes rest h =
    let byte : u8 (length bytes) ≡ length bytes = omega arith in
    rw byte (
      ground (
        arith,
        length-append (frame (reply_ids ids) pid bytes) rest,
        length-frame (reply_ids ids) pid bytes,
        take-append_exact (5 + length bytes + 1) (frame (reply_ids ids) pid bytes) rest,
        sum_bytes-frame (reply_ids ids) pid bytes,
        data-frame (reply_ids ids) pid bytes rest,
      ))

look-frame :
    (ids : Ids) (pid : ℕ) (bytes rest : List ℕ)
    → length bytes < 256
    → look ids (frame (reply_ids ids) pid bytes ++ rest) ≡ accept pid bytes (5 + length bytes + 1)
unfolding look frame
look-frame ids pid [] rest h = look_at-frame ids pid [] rest h
look-frame ids pid (b ∷ bytes) rest h = look_at-frame ids pid (b ∷ bytes) rest h

-- Six bytes of which the first is not the host's address: one byte is stepped over.
look_noise :
    (ids : Ids) (b : ℕ) (buf : List ℕ)
    → b ≢ ids.host_mid
    → 5 ≤ length buf
    → look ids (b ∷ buf) ≡ skip
unfolding look look_at
look_noise ids b [] h p = absurd (omega arith)
look_noise ids b (x1 ∷ []) h p = absurd (omega arith)
look_noise ids b (x1 ∷ x2 ∷ []) h p = absurd (omega arith)
look_noise ids b (x1 ∷ x2 ∷ x3 ∷ []) h p = absurd (omega arith)
look_noise ids b (x1 ∷ x2 ∷ x3 ∷ x4 ∷ []) h p = absurd (omega arith)
look_noise ids b (x1 ∷ x2 ∷ x3 ∷ x4 ∷ x5 ∷ rest) h p = ground arith

module _ {ℓ} {S : Type ℓ} (ids : Ids) (handle : S → ℕ → List ℕ → S) where
  pub scan-frame :
      (pid : ℕ) (bytes rest : List ℕ) (s : S)
      → length bytes < 256
      → scan ids handle (frame (reply_ids ids) pid bytes ++ rest) s
        ≡ scan ids handle rest (handle s pid bytes)
  scan-frame pid bytes rest s h =
      scan_accept ids handle _ s (look-frame ids pid bytes rest h)
      ∙ rw (
          drop-append_exact (5 + length bytes + 1) (frame (reply_ids ids) pid bytes) rest
            (omega (arith, length-frame (reply_ids ids) pid bytes)))

  -- A reply with fewer than 256 data bytes is handed over, once and with its own data, also when
  -- noise stands before it: any bytes at all, as long as none of them is the host's address byte.
  -- The scan goes on behind the frame.
  pub scan-noise_frame :
      (noise : List ℕ) (pid : ℕ) (bytes rest : List ℕ) (s : S)
      → All (λ b. b ≢ ids.host_mid) noise
      → length bytes < 256
      → scan ids handle (noise ++ (frame (reply_ids ids) pid bytes ++ rest)) s
        ≡ scan ids handle rest (handle s pid bytes)
  scan-noise_frame [] pid bytes rest s quiet h = scan-frame pid bytes rest s h
  scan-noise_frame (b ∷ noise) pid bytes rest s quiet h =
      scan_skip ids handle _ s (
        look_noise ids b _ quiet.0 (
          omega (
            arith,
            length-append noise (frame (reply_ids ids) pid bytes ++ rest),
            length-append (frame (reply_ids ids) pid bytes) rest,
            length-frame (reply_ids ids) pid bytes,
          )))
      ∙ scan-noise_frame noise pid bytes rest s quiet.1 h
