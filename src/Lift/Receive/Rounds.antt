-- ===== src/Lift/Receive/Rounds.antt =====
-- One round of the frame scan, and the loop as a recursion on what is left of the buffer.
use ku_polishing_robot_drive.Base.{
  Bool-cases, List, [], arith, drop, drop-append_le, inl, inr, length, length-append, length-drop,
  ltb, refl, take-append_le, ℕ, ◌++◌, ◌+◌, ◌∷◌, ◌≡◌, ◌≢◌, ◌≤◌, ◌⊎◌,
}
use ku_polishing_robot_drive.Lift.Protocol.{Ids}
use ku_polishing_robot_drive.Lift.Receive.{Look, wait, skip, accept, look_at, look}

-- A round that is decided is not undone by bytes that come later.
pub look_at-append :
    (ids : Ids) (a b pid num : ℕ) (xs ys : List ℕ)
    → look_at ids a b pid num xs ≢ wait
    → 5 ≤ length xs
    → look_at ids a b pid num (xs ++ ys) ≡ look_at ids a b pid num xs
unfolding look_at
look_at-append ids a b pid num xs ys decided long =
    elim (Bool-cases (ltb (length xs) (5 + num + 1))) [
      | inl short ↦ ground (arith, length-append xs ys)
      | inr whole ↦
          let enough : 5 + num + 1 ≤ length xs = ground arith in
          rw
            (
              length-append xs ys,
              take-append_le (5 + num + 1) xs ys enough,
              drop-append_le 5 xs ys long,
              take-append_le num (drop 5 xs) ys (omega (arith, length-drop 5 xs)),
            )
            (ground arith)
    ]

pub look-append :
    (ids : Ids) (xs ys : List ℕ) → look ids xs ≢ wait → look ids (xs ++ ys) ≡ look ids xs
unfolding look
look-append ids [] ys decided = absurd (decided refl)
look-append ids (a ∷ []) ys decided = absurd (decided refl)
look-append ids (a ∷ b ∷ []) ys decided = absurd (decided refl)
look-append ids (a ∷ b ∷ c ∷ []) ys decided = absurd (decided refl)
look-append ids (a ∷ b ∷ c ∷ pid ∷ []) ys decided = absurd (decided refl)
look-append ids (a ∷ b ∷ c ∷ pid ∷ num ∷ []) ys decided = absurd (decided refl)
look-append ids (a ∷ b ∷ c ∷ pid ∷ num ∷ x ∷ rest) ys decided =
    look_at-append ids a b pid num (a ∷ b ∷ c ∷ pid ∷ num ∷ x ∷ rest) ys decided (omega arith)

-- What an accepted frame says of the buffer.
look_at_accept :
    (ids : Ids) (a b pid num : ℕ) (buf : List ℕ) {p n : ℕ} {bytes : List ℕ}
    → look_at ids a b pid num buf ≡ accept p bytes n
    → (6 ≤ n) × (n ≤ length buf)
unfolding look_at
look_at_accept ids a b pid num buf h = ground arith

pub look_accept :
    (ids : Ids) (buf : List ℕ) {p n : ℕ} {bytes : List ℕ}
    → look ids buf ≡ accept p bytes n
    → (6 ≤ n) × (n ≤ length buf)
unfolding look
look_accept ids [] h = absurd (cc)
look_accept ids (a ∷ []) h = absurd (cc)
look_accept ids (a ∷ b ∷ []) h = absurd (cc)
look_accept ids (a ∷ b ∷ c ∷ []) h = absurd (cc)
look_accept ids (a ∷ b ∷ c ∷ pid ∷ []) h = absurd (cc)
look_accept ids (a ∷ b ∷ c ∷ pid ∷ num ∷ []) h = absurd (cc)
look_accept ids (a ∷ b ∷ c ∷ pid ∷ num ∷ x ∷ rest) h =
    look_at_accept ids a b pid num (a ∷ b ∷ c ∷ pid ∷ num ∷ x ∷ rest) h

pub look_skip : (ids : Ids) (buf : List ℕ) → look ids buf ≡ skip → 6 ≤ length buf
unfolding look
look_skip ids [] h = absurd (cc)
look_skip ids (a ∷ []) h = absurd (cc)
look_skip ids (a ∷ b ∷ []) h = absurd (cc)
look_skip ids (a ∷ b ∷ c ∷ []) h = absurd (cc)
look_skip ids (a ∷ b ∷ c ∷ pid ∷ []) h = absurd (cc)
look_skip ids (a ∷ b ∷ c ∷ pid ∷ num ∷ []) h = absurd (cc)
look_skip ids (a ∷ b ∷ c ∷ pid ∷ num ∷ x ∷ rest) h = omega arith

pub Look-cases :
    (l : Look)
    → (l ≡ wait) ⊎ ((l ≡ skip) ⊎ ((p : ℕ) × (bytes : List ℕ) × (n : ℕ) × (l ≡ accept p bytes n)))
Look-cases wait = inl refl
Look-cases skip = inr (inl refl)
Look-cases (accept p bytes n) = inr (inr (p, bytes, n, refl))
