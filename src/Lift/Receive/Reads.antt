-- ===== src/Lift/Receive/Reads.antt =====
-- Successive reads of the serial port: the receive buffer stays short, so the guard against an
-- overlong buffer never drops a byte, and the state depends on the stream alone.
use ku_polishing_robot_drive.Base.{
  All, All-append, IsByte, List, [], append-nil, append_assoc, arith, length, refl, sym, ℕ, ◌++◌,
  ◌∙◌, ◌∷◌, ◌≡◌, ◌≤◌,
}
use ku_polishing_robot_drive.Lift.Protocol.{Ids}
use ku_polishing_robot_drive.Lift.Receive.{wait, look_at, look, scan, read_and_parse}
use ku_polishing_robot_drive.Lift.Receive.Stream.{scan-wait, scan-append, scan_wait, scan-All}
use mathlib.Core.List.{flatten}

-- Bytes that wait for more are fewer than the longest frame, which has 261.
look_at_wait :
    (ids : Ids) (a b pid num : ℕ) (buf : List ℕ)
    → IsByte num
    → look_at ids a b pid num buf ≡ wait
    → length buf ≤ 260
unfolding look_at
look_at_wait ids a b pid num buf h e = ground arith

look_wait : (ids : Ids) (buf : List ℕ) → All IsByte buf → look ids buf ≡ wait → length buf ≤ 260
unfolding look
look_wait ids [] h e = omega arith
look_wait ids (a ∷ []) h e = omega arith
look_wait ids (a ∷ b ∷ []) h e = omega arith
look_wait ids (a ∷ b ∷ c ∷ []) h e = omega arith
look_wait ids (a ∷ b ∷ c ∷ pid ∷ []) h e = omega arith
look_wait ids (a ∷ b ∷ c ∷ pid ∷ num ∷ []) h e = omega arith
look_wait ids (a ∷ b ∷ c ∷ pid ∷ num ∷ x ∷ rest) h e =
    look_at_wait ids a b pid num (a ∷ b ∷ c ∷ pid ∷ num ∷ x ∷ rest) (omega arith) e

module _ {ℓ} {S : Type ℓ} (ids : Ids) (handle : S → ℕ → List ℕ → S) where
  -- What a scan leaves over is at most 260 bytes.
  scan_rest : (buf : List ℕ) (s : S) → All IsByte buf → length (scan ids handle buf s).1 ≤ 260
  scan_rest buf s h = look_wait ids _ (scan-All ids handle buf s h) (scan-wait ids handle buf s)

  -- Whatever bytes are in the buffer and whatever bytes a read delivers, `readAndParse` leaves at
  -- most 260 bytes, and it is the frame scan alone: `rx_buf_.clear()` is never reached.
  pub read_and_parse_bounded :
      (rx_buf received : List ℕ) (s : S)
      → All IsByte rx_buf
      → All IsByte received
      → (read_and_parse ids handle rx_buf received s ≡ scan ids handle (rx_buf ++ received) s)
        × (length (read_and_parse ids handle rx_buf received s).1 ≤ 260)
  unfolding read_and_parse
  read_and_parse_bounded rx_buf received s hb hr =
      let short = scan_rest (rx_buf ++ received) s (All-append IsByte rx_buf received hb hr) in
      (ground (arith, short), ground (arith, short))

  -- Successive calls of `readAndParse`, one for each read.
  unfoldable pub read_all : List ℕ → List (List ℕ) → S → S × List ℕ
  read_all rx_buf [] s = (s, rx_buf)
  read_all rx_buf (received ∷ more) s =
      let (s', rest) = read_and_parse ids handle rx_buf received s in read_all rest more s'

  read_all-scan :
      (chunks : List (List ℕ)) (rx_buf : List ℕ) (s : S)
      → All IsByte rx_buf
      → All (All IsByte) chunks
      → look ids rx_buf ≡ wait
      → read_all rx_buf chunks s ≡ scan ids handle (rx_buf ++ flatten chunks) s
  unfolding read_all flatten
  read_all-scan [] rx_buf s hb hc e = rw append-nil (sym (scan_wait ids handle rx_buf s e))
  read_all-scan (received ∷ more) rx_buf s hb hc e =
      let buf = rx_buf ++ received in
      let bytes = All-append IsByte rx_buf received hb hc.0 in
      rw ((read_and_parse_bounded rx_buf received s hb hc.0).0, ← append_assoc)
        (read_all-scan more (scan ids handle buf s).1 (scan ids handle buf s).0
            (scan-All ids handle buf s bytes) hc.1 (scan-wait ids handle buf s)
          ∙ sym (scan-append ids handle buf (flatten more) s))

  -- However the serial port cuts a stream of bytes into reads, the calls of `readAndParse` from an
  -- empty buffer hand over the same frames in the same order, and leave the same bytes, as one call
  -- on the whole stream.
  pub read_all-flatten :
      (chunks : List (List ℕ)) (s : S)
      → All (All IsByte) chunks
      → read_all [] chunks s ≡ scan ids handle (flatten chunks) s
  unfolding look
  read_all-flatten chunks s h = read_all-scan chunks [] s tt h refl
