-- ===== src/Lift/Protocol/Frames.antt =====
-- Checksums of the frames that `sendFrame` builds.
use ku_polishing_robot_drive.Base.{List, [], arith, refl, u8, ℕ, ◌++◌, ◌+◌, ◌<◌, ◌∙◌, ◌∷◌, ◌≡◌}
use ku_polishing_robot_drive.Lift.Protocol.{Ids, sum_bytes, checksum, frame_body, frame}

pub sum_bytes-append :
    (acc : ℕ) (xs ys : List ℕ) → sum_bytes acc (xs ++ ys) ≡ sum_bytes (sum_bytes acc xs) ys
unfolding sum_bytes
sum_bytes-append acc [] ys = refl
sum_bytes-append acc (x ∷ xs) ys = sum_bytes-append (u8 (acc + x)) xs ys

pub sum_bytes-lt : (acc : ℕ) (xs : List ℕ) → acc < 256 → sum_bytes acc xs < 256
unfolding sum_bytes
sum_bytes-lt acc [] h = h
sum_bytes-lt acc (x ∷ xs) h = sum_bytes-lt (u8 (acc + x)) xs (omega arith)

-- The checksum byte brings any byte sum to 0.
pub checksum_closes : (s : ℕ) → s < 256 → sum_bytes s (checksum s ∷ []) ≡ 0
unfolding sum_bytes checksum
checksum_closes s h = omega arith

-- The bytes of every frame that `sendFrame` writes sum to 0 modulo 256, which is the test that a
-- receiver makes.
pub sum_bytes-frame : (ids : Ids) (pid : ℕ) (bytes : List ℕ) → sum_bytes 0 (frame ids pid bytes) ≡ 0
unfolding frame
sum_bytes-frame ids pid bytes =
    let body = frame_body ids pid bytes in
    sum_bytes-append 0 body _
    ∙ checksum_closes (sum_bytes 0 body) (sum_bytes-lt 0 body (omega arith))
