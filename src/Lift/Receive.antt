-- ===== src/Lift/Receive.antt =====
-- The receive side: the frame scan of `readAndParse` in
-- catkin_ws/src/lift_driver/src/lift_driver_node.cpp, over any handler of accepted frames.
-- `scan` works on the part of `rx_buf_` from index `i` on, so `i += n` drops n bytes.
pub mod Rounds
pub mod Stream
pub mod Reads
pub mod Resync
pub mod Lines
use ku_polishing_robot_drive.Base.{
  List, [], drop, if◌then◌else◌, length, ltb, not, suc, take, zero, ℕ, ◌++◌, ◌+◌, ◌==◌, ◌||◌, ◌∷◌,
}
use ku_polishing_robot_drive.Lift.Protocol.{Ids, sum_bytes}

-- What one round of the loop finds at the front of the buffer: too few bytes, a byte to step over,
-- or a frame with its `pid`, its data and its length.
pub data Look : Type 0 where
  wait : Look
  skip : Look
  accept : ℕ → List ℕ → ℕ → Look

-- The reply carries the addresses the other way round: first `host_mid_`, then `motor_rmid_`.
unfoldable pub look_at : Ids → ℕ → ℕ → ℕ → ℕ → List ℕ → Look
unfolding sum_bytes
look_at ids first second pid num buf =
    if not (first == ids.host_mid) || not (second == ids.motor_rmid)
    then skip
    else if ltb (length buf) (5 + num + 1)
    then wait
    else if sum_bytes 0 (take (5 + num + 1) buf) == 0
    then accept pid (take num (drop 5 buf)) (5 + num + 1)
    else skip

-- `rx_buf_.size() >= i + 6` is the pattern of six bytes.
unfoldable pub look : Ids → List ℕ → Look
unfolding look_at
look ids (a ∷ b ∷ c ∷ pid ∷ num ∷ x ∷ rest) =
    look_at ids a b pid num (a ∷ b ∷ c ∷ pid ∷ num ∷ x ∷ rest)
look ids _ = wait

module _ {ℓ} {S : Type ℓ} (ids : Ids) (handle : S → ℕ → List ℕ → S) where
  -- The loop, with the number of rounds as fuel; it gives the state and the bytes left over.
  unfoldable pub scan_loop : ℕ → List ℕ → S → S × List ℕ
  scan_loop zero buf s = (s, buf)
  scan_loop (suc fuel) buf s = elim (look ids buf) [
    | wait ↦ (s, buf)
    | skip ↦ scan_loop fuel (drop 1 buf) s
    | accept pid bytes n ↦ scan_loop fuel (drop n buf) (handle s pid bytes)
  ]

  -- Each round but the last takes a byte at least, so the length is fuel enough.
  unfoldable pub scan : List ℕ → S → S × List ℕ
  unfolding scan_loop
  scan buf s = scan_loop (length buf) buf s

  -- `if (rx_buf_.size() > 512) rx_buf_.clear();`
  unfoldable pub clear_overlong : List ℕ → List ℕ
  clear_overlong buf = if ltb 512 (length buf) then [] else buf

  -- `readAndParse` on the bytes that one `serial_->read` delivered (none on a timeout or an error)
  unfoldable pub read_and_parse : List ℕ → List ℕ → S → S × List ℕ
  unfolding scan clear_overlong
  read_and_parse rx_buf received s =
      let (s', rest) = scan (rx_buf ++ received) s in (s', clear_overlong rest)
