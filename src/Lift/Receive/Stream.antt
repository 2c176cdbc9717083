-- ===== src/Lift/Receive/Stream.antt =====
-- The frame scan over a stream: its end, its equations, and its independence of how the serial
-- port cuts the stream into reads.
use ku_polishing_robot_drive.Base.{
  All, All-drop, IsByte, List, [], arith, drop, drop-append_le, inl, inr, length, length-drop, refl,
  suc, sym, zero, ℕ, ◌++◌, ◌∙◌, ◌∷◌, ◌≡◌, ◌≢◌, ◌≤◌,
}
use ku_polishing_robot_drive.Lift.Protocol.{Ids}
use ku_polishing_robot_drive.Lift.Receive.{Look, wait, skip, accept, look, scan_loop, scan}
use ku_polishing_robot_drive.Lift.Receive.Rounds.{look-append, look_accept, look_skip, Look-cases}

look-nil : (ids : Ids) → look ids [] ≡ wait
unfolding look
look-nil ids = refl

wait≢skip : wait ≡ skip → ⊥
wait≢skip e = cc

wait≢accept : (pid : ℕ) (bytes : List ℕ) (n : ℕ) → wait ≡ accept pid bytes n → ⊥
wait≢accept pid bytes n e = cc

module _ {ℓ} {S : Type ℓ} (ids : Ids) (handle : S → ℕ → List ℕ → S) where
  -- One round of the loop, by what it finds.
  loop_wait :
      (f : ℕ) (buf : List ℕ) (s : S) → look ids buf ≡ wait → scan_loop ids handle f buf s ≡ (s, buf)
  unfolding scan_loop
  loop_wait zero buf s e = refl
  loop_wait (suc f) buf s e = rw (e, scan_loop)

  loop_skip :
      (f : ℕ) (buf : List ℕ) (s : S)
      → look ids buf ≡ skip
      → scan_loop ids handle (suc f) buf s ≡ scan_loop ids handle f (drop 1 buf) s
  unfolding scan_loop
  loop_skip f buf s e = rw (e, scan_loop)

  loop_accept :
      (f : ℕ) (buf : List ℕ) (s : S) {pid n : ℕ} {bytes : List ℕ}
      → look ids buf ≡ accept pid bytes n
      → scan_loop ids handle (suc f) buf s
        ≡ scan_loop ids handle f (drop n buf) (handle s pid bytes)
  unfolding scan_loop
  loop_accept f buf s e = rw (e, scan_loop)

  -- Any two amounts of fuel that cover the buffer give the same result.
  scan_loop_fuel :
      (f g : ℕ) (buf : List ℕ) (s : S)
      → length buf ≤ f
      → length buf ≤ g
      → scan_loop ids handle f buf s ≡ scan_loop ids handle g buf s
  scan_loop_fuel zero g [] s p q =
      loop_wait zero [] s (look-nil ids) ∙ sym (loop_wait g [] s (look-nil ids))
  scan_loop_fuel zero g (x ∷ xs) s p q = absurd (omega arith)
  scan_loop_fuel (suc f) zero [] s p q =
      loop_wait (suc f) [] s (look-nil ids) ∙ sym (loop_wait zero [] s (look-nil ids))
  scan_loop_fuel (suc f) zero (x ∷ xs) s p q = absurd (omega arith)
  scan_loop_fuel (suc f) (suc g) buf s p q = elim (Look-cases (look ids buf)) [
    | inl e ↦ loop_wait (suc f) buf s e ∙ sym (loop_wait (suc g) buf s e)
    | inr (inl e) ↦
        loop_skip f buf s e
        ∙ scan_loop_fuel f g (drop 1 buf) s (omega (arith, length-drop 1 buf, look_skip ids buf e))
            (omega (arith, length-drop 1 buf, look_skip ids buf e))
        ∙ sym (loop_skip g buf s e)
    | inr (inr (pid, bytes, n, e)) ↦
        let size = look_accept ids buf e in
        loop_accept f buf s e
        ∙ scan_loop_fuel f g (drop n buf) (handle s pid bytes)
            (omega (arith, length-drop n buf, size)) (omega (arith, length-drop n buf, size))
        ∙ sym (loop_accept g buf s e)
  ]

  -- The scan as a recursion on the bytes left.
  pub scan_wait : (buf : List ℕ) (s : S) → look ids buf ≡ wait → scan ids handle buf s ≡ (s, buf)
  unfolding scan
  scan_wait buf s e = loop_wait (length buf) buf s e

  pub scan_skip :
      (buf : List ℕ) (s : S)
      → look ids buf ≡ skip
      → scan ids handle buf s ≡ scan ids handle (drop 1 buf) s
  unfolding scan
  scan_skip [] s e = absurd (wait≢skip (sym (look-nil ids) ∙ e))
  scan_skip (x ∷ xs) s e = loop_skip (length xs) (x ∷ xs) s e

  pub scan_accept :
      (buf : List ℕ) (s : S) {pid n : ℕ} {bytes : List ℕ}
      → look ids buf ≡ accept pid bytes n
      → scan ids handle buf s ≡ scan ids handle (drop n buf) (handle s pid bytes)
  unfolding scan
  scan_accept [] s {pid} {n} {bytes} e = absurd (wait≢accept pid bytes n (sym (look-nil ids) ∙ e))
  scan_accept (x ∷ xs) s {pid} {n} {bytes} e =
      loop_accept (length xs) (x ∷ xs) s e
      ∙ scan_loop_fuel (length xs) _ (drop n (x ∷ xs)) (handle s pid bytes)
          (omega (arith, length-drop n (x ∷ xs), look_accept ids (x ∷ xs) e)) (omega arith)

  -- The loop ends because fewer bytes are left than the next frame needs, never for want of fuel.
  scan_loop-wait :
      (f : ℕ) (buf : List ℕ) (s : S)
      → length buf ≤ f
      → look ids (scan_loop ids handle f buf s).1 ≡ wait
  scan_loop-wait zero [] s p = rw (loop_wait zero [] s (look-nil ids)) (look-nil ids)
  scan_loop-wait zero (x ∷ xs) s p = absurd (omega arith)
  scan_loop-wait (suc f) buf s p = elim (Look-cases (look ids buf)) [
    | inl e ↦ rw (loop_wait (suc f) buf s e) e
    | inr (inl e) ↦
        rw (loop_skip f buf s e)
          (scan_loop-wait f (drop 1 buf) s (omega (arith, length-drop 1 buf, look_skip ids buf e)))
    | inr (inr (pid, bytes, n, e)) ↦ rw (loop_accept f buf s e) (
        scan_loop-wait f (drop n buf) (handle s pid bytes)
          (omega (arith, length-drop n buf, look_accept ids buf e)))
  ]

  pub scan-wait : (buf : List ℕ) (s : S) → look ids (scan ids handle buf s).1 ≡ wait
  unfolding scan
  scan-wait buf s = scan_loop-wait (length buf) buf s (omega arith)

  look_decided :
      (xs ys : List ℕ) {l : Look} → look ids xs ≡ l → look ids xs ≢ wait → look ids (xs ++ ys) ≡ l
  look_decided xs ys e d = look-append ids xs ys d ∙ e

  -- The scan of a first part, then of what it left with the second part behind it.
  scan-append_fuel :
      (f : ℕ) (xs ys : List ℕ) (s : S)
      → length xs ≤ f
      → scan ids handle (xs ++ ys) s
        ≡ scan ids handle ((scan ids handle xs s).1 ++ ys) (scan ids handle xs s).0
  scan-append_fuel zero [] ys s p = rw (scan_wait [] s (look-nil ids))
  scan-append_fuel zero (x ∷ xs) ys s p = absurd (omega arith)
  scan-append_fuel (suc f) xs ys s p = elim (Look-cases (look ids xs)) [
    | inl e ↦ rw (scan_wait xs s e)
    | inr (inl e) ↦
        let size = look_skip ids xs e in
        let same : look ids (xs ++ ys) ≡ skip = look_decided xs ys e (λ q. wait≢skip (sym q ∙ e)) in
        rw (scan_skip (xs ++ ys) s same, scan_skip xs s e, drop-append_le 1 xs ys (omega arith))
          (scan-append_fuel f (drop 1 xs) ys s (omega (arith, length-drop 1 xs)))
    | inr (inr (pid, bytes, n, e)) ↦
        let size = look_accept ids xs e in
        let same : look ids (xs ++ ys) ≡ accept pid bytes n =
          look_decided xs ys e (λ q. wait≢accept pid bytes n (sym q ∙ e)) in
        rw (scan_accept (xs ++ ys) s same, scan_accept xs s e, drop-append_le n xs ys size.1)
          (scan-append_fuel f (drop n xs) ys (handle s pid bytes) (omega (arith, length-drop n xs)))
  ]

  -- A frame scan may be cut at any place: the bytes that it leaves over, with those that come
  -- later behind them, are scanned to the same state and the same rest as the whole.
  pub scan-append :
      (xs ys : List ℕ) (s : S)
      → scan ids handle (xs ++ ys) s
        ≡ scan ids handle ((scan ids handle xs s).1 ++ ys) (scan ids handle xs s).0
  scan-append xs ys s = scan-append_fuel (length xs) xs ys s (omega arith)

  scan_loop-All :
      (f : ℕ) (buf : List ℕ) (s : S) → All IsByte buf → All IsByte (scan_loop ids handle f buf s).1
  unfolding scan_loop
  scan_loop-All zero buf s h = h
  scan_loop-All (suc f) buf s h = elim (Look-cases (look ids buf)) [
    | inl e ↦ rw (loop_wait (suc f) buf s e) h
    | inr (inl e) ↦
        rw (loop_skip f buf s e) (scan_loop-All f (drop 1 buf) s (All-drop IsByte 1 buf h))
    | inr (inr (pid, bytes, n, e)) ↦
        rw (loop_accept f buf s e)
          (scan_loop-All f (drop n buf) (handle s pid bytes) (All-drop IsByte n buf h))
  ]

  pub scan-All : (buf : List ℕ) (s : S) → All IsByte buf → All IsByte (scan ids handle buf s).1
  unfolding scan
  scan-All buf s h = scan_loop-All (length buf) buf s h

  -- What every handler call keeps, the scan keeps.
  scan_loop-keeps {κ} :
      (P : S → Type κ)
      → ((s : S) (pid : ℕ) (bytes : List ℕ) → P s → P (handle s pid bytes))
      → (f : ℕ) (buf : List ℕ) (s : S) → P s
      → P (scan_loop ids handle f buf s).0
  unfolding scan_loop
  scan_loop-keeps P keep zero buf s h = h
  scan_loop-keeps P keep (suc f) buf s h = elim (Look-cases (look ids buf)) [
    | inl e ↦ rw (loop_wait (suc f) buf s e) h
    | inr (inl e) ↦ rw (loop_skip f buf s e) (scan_loop-keeps P keep f (drop 1 buf) s h)
    | inr (inr (pid, bytes, n, e)) ↦
        rw (loop_accept f buf s e)
          (scan_loop-keeps P keep f (drop n buf) (handle s pid bytes) (keep s pid bytes h))
  ]

  pub scan-keeps {κ} :
      (P : S → Type κ)
      → ((s : S) (pid : ℕ) (bytes : List ℕ) → P s → P (handle s pid bytes))
      → (buf : List ℕ) (s : S) → P s
      → P (scan ids handle buf s).0
  unfolding scan
  scan-keeps P keep buf s h = scan_loop-keeps P keep (length buf) buf s h
