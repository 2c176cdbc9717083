-- ===== src/SafetyIo/Modbus/Stream.antt =====
-- `receiveAll` over any segmentation of the byte stream
-- (catkin_ws/src/safety_io_driver/src/safety_io_node.cpp).
use ku_polishing_robot_drive.Base.{
  Bool-cases, List, [], arith, drop, drop-append_ge, drop-append_le, inl, inr, leb, leb→le, length,
  length-append, length-drop, none, refl, some, suc, take, take-append_ge, take-append_le, zero, ℕ,
  ◌++◌, ◌-◌, ◌<◌, ◌∷◌, ◌≡◌, ◌≤◌,
}
use ku_polishing_robot_drive.SafetyIo.Modbus.{Recv, chunk, failed, interrupted, receive_all}

-- The bytes that arrive before the first error or the end of the connection.
unfoldable pub stream : List Recv → List ℕ
stream [] = []
stream (interrupted ∷ script) = stream script
stream (failed ∷ script) = []
stream (chunk [] ∷ script) = []
stream (chunk (b ∷ bs) ∷ script) = b ∷ (bs ++ stream script)

stream-chunk :
    (bs : List ℕ) (script : List Recv)
    → 0 < length bs
    → stream (chunk bs ∷ script) ≡ bs ++ stream script
unfolding stream
stream-chunk [] script h = absurd (omega arith)
stream-chunk (b ∷ bs) script h = refl

-- If n bytes arrive before the first error, `receiveAll` of n bytes succeeds with exactly the first
-- n of them, and what is left of the stream follows them, however the bytes are cut into chunks and
-- however often a call is interrupted.
pub receive_all-take :
    (script : List Recv) (n : ℕ)
    → n ≤ length (stream script)
    → ((receive_all script n).0 ≡ some (take n (stream script)))
      × (stream (receive_all script n).1 ≡ drop n (stream script))
unfolding receive_all stream
receive_all-take script zero h = (refl, refl)
receive_all-take [] (suc n) h = absurd (omega arith)
receive_all-take (interrupted ∷ script) (suc n) h = receive_all-take script (suc n) h
receive_all-take (failed ∷ script) (suc n) h = absurd (omega arith)
receive_all-take (chunk [] ∷ script) (suc n) h = absurd (omega arith)
receive_all-take (chunk (b ∷ bs) ∷ script) (suc n) h = elim (Bool-cases (leb (length bs) n)) [
  | inl inside ↦
      let le = leb→le (length bs) n inside in
      let ih =
        receive_all-take script (n - length bs)
          (omega (arith, h, length-append bs (stream script))) in
      rw
        (
          inside,
          ih.0,
          ih.1,
          take-append_ge n bs (stream script) le,
          drop-append_ge n bs (stream script) le,
        )
        (refl, refl)
  | inr beyond ↦
      let le : n < length bs = ground arith in
      rw
        (
          beyond,
          take-append_le n bs (stream script) (omega arith),
          drop-append_le n bs (stream script) (omega arith),
        )
        (refl, stream-chunk (drop n bs) script (omega (arith, length-drop n bs)))
]

-- If fewer than n bytes arrive before the first error, `receiveAll` of n bytes fails.
pub receive_all_short :
    (script : List Recv) (n : ℕ) → length (stream script) < n → (receive_all script n).0 ≡ none
unfolding receive_all stream
receive_all_short script zero h = absurd (omega arith)
receive_all_short [] (suc n) h = refl
receive_all_short (interrupted ∷ script) (suc n) h = receive_all_short script (suc n) h
receive_all_short (failed ∷ script) (suc n) h = refl
receive_all_short (chunk [] ∷ script) (suc n) h = refl
receive_all_short (chunk (b ∷ bs) ∷ script) (suc n) h =
    ground (arith, length-append bs (stream script), receive_all_short script (n - length bs))
