-- ===== src/Bms/Replies.antt =====
-- What the published battery state shows of the replies received
-- (catkin_ws/src/bms_driver/src/bms_driver_node.cpp).
use ku_polishing_robot_drive.Base.{Bool, List, [], pos, sub_ℕ, true, ℕ, ◌&&◌, ◌==◌, ◌∷◌, ◌≡◌}
use ku_polishing_robot_drive.Bms.{
  Bms, Floats, tenths, CanFrame, Config, be16, can_callback, is_reply, data_id_of,
}

-- a reply with voltage, current and state of charge
abbrev pub is_pack : Config → CanFrame → Bool
is_pack c frame = is_reply c frame && data_id_of frame == 0x90

module _ {F : Type 0} (floats : Floats F) where
  -- frames with the times of their callbacks, in order
  pub run : Config → List (ℕ × CanFrame) → Bms F → Bms F
  run c [] s = s
  run c ((now, frame) ∷ rest) s = run c rest (can_callback floats c now frame s)

  abbrev pub Shows : Bms F → ℕ → List ℕ → Type 0
  Shows s t b =
      (s.got_data ≡ true)
      × (s.last_rx ≡ t)
      × (s.voltage ≡ tenths floats (pos (be16 b 0)))
      × (s.current ≡ tenths floats (sub_ℕ (be16 b 4) 30000))
      × (s.soc ≡ tenths floats (pos (be16 b 6)))
