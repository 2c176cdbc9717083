-- ===== src/Lift/Serial/Writes.antt =====
-- What a write leaves on the line (catkin_ws/src/lift_driver/src/serial_interface.cpp).
use ku_polishing_robot_drive.Base.{
  Bool-cases, List, [], ap, append_assoc, drop, inl, inr, refl, some, take, take-append-drop, true,
  ℕ, ◌++◌, ◌↔◌, ◌∙◌, ◌∷◌, ◌≡◌,
}
use ku_polishing_robot_drive.Lift.Serial.{Serial, WriteAnswer, failed, taken, write_all, write_port}

write_all-prefix :
    (answers : List WriteAnswer) (bytes : List ℕ)
    → ((write_all answers bytes).sent ++ (write_all answers bytes).left ≡ bytes)
      × (((write_all answers bytes).result ≡ some true) ↔ ((write_all answers bytes).left ≡ []))
unfolding write_all
write_all-prefix answers [] = (refl, (λ h. refl, λ h. refl))
write_all-prefix [] (b ∷ bs) = (refl, (λ h. cc, λ h. cc))
write_all-prefix (failed ∷ answers) (b ∷ bs) = (refl, (λ h. cc, λ h. cc))
write_all-prefix (taken n ∷ answers) (b ∷ bs) =
    let ih = write_all-prefix answers (drop n (b ∷ bs)) in
    let front : List ℕ = take n (b ∷ bs) in
    let more = write_all answers (drop n (b ∷ bs)) in
    (
      append_assoc front more.sent more.left
          ∙ ap (λ (l : List ℕ). front ++ l) ih.0
          ∙ take-append-drop n (b ∷ bs),
      ih.1,
    )

-- Whatever the port answers, a write has put a beginning of its bytes on the line, in order and each
-- once; its result is true, where there is something to send, only if nothing is left.
pub write_port-prefix :
    (s : Serial) (answers : List WriteAnswer) (bytes : List ℕ)
    → ((write_port s answers bytes).sent ++ (write_port s answers bytes).left ≡ bytes)
      × ((write_port s answers bytes).result ≡ some true → (write_port s answers bytes).left ≡ [])
unfolding write_port
write_port-prefix s answers bytes = elim (Bool-cases s.is_open) [
  | inl on ↦ let h = write_all-prefix answers bytes in rw on (h.0, h.1.0)
  | inr off ↦ rw off (refl, λ h. cc)
]
