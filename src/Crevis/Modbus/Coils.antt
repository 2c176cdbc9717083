-- ===== src/Crevis/Modbus/Coils.antt =====
-- The bounds of `readCoils` (catkin_ws/src/crevis_io_driver/src/crevis_io_node.cpp).
use ku_polishing_robot_drive.Base.{
  List, arith, length, some, suc, true, zero, ℕ, ◌*◌, ◌+◌, ◌-◌, ◌<◌, ◌↔◌, ◌≡◌, ◌≢◌,
}
use ku_polishing_robot_drive.Crevis.Modbus.{
  coils_of, has_function, out_of_bounds, unpack_coils, unread,
}

unpack_coils-unread : (r : List ℕ) (i n : ℕ) → unpack_coils r i n ≢ unread
unfolding unpack_coils
unpack_coils-unread r i zero h = cc
unpack_coils-unread r i (suc n) h = ground (arith, unpack_coils-unread r (i + 1) n)

-- The access that reaches furthest decides.
unpack_coils-bounds :
    (r : List ℕ) (i n : ℕ)
    → (unpack_coils r i n ≡ out_of_bounds) ↔ (8 * (length r - 2) < i + n × (0 < n))
unfolding unpack_coils
unpack_coils-bounds r i zero = (λ h. cc, λ h. absurd (omega arith))
unpack_coils-bounds r i (suc n) =
    let ih = unpack_coils-bounds r (i + 1) n in
    let there = unpack_coils-unread r (i + 1) n in
    (λ h. ground (arith, ih.0, there), λ h. ground (arith, ih.1, there))

-- Where the function code and the byte count of a reply are accepted, `readCoils` reads behind the
-- end of the reply exactly when more coils were asked for than the reply has bits: the byte count is
-- compared with the size of the reply, and not with the quantity of the request.
pub coils_of-out_of_bounds :
    (r : List ℕ) (qty : ℕ)
    → has_function 1 r ≡ true
    → (coils_of qty (some r) ≡ out_of_bounds) ↔ (8 * (length r - 2) < qty)
unfolding coils_of
coils_of-out_of_bounds r qty good =
    let e = unpack_coils-bounds r 0 qty in
    rw good (λ h. omega (arith, (e.0 h).0), λ h. e.1 (omega arith))
