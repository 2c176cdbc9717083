-- ===== src/Lift/Protocol/Fields.antt =====
-- What the little-endian fields of a command say to the reader of `le16` and `le32`.
use ku_polishing_robot_drive.Base.{
  IsInt16, IsInt32, ap, le16_bytes, le16_word, le32_bytes, le32_word, signed16, signed16-to_u16,
  signed32, signed32-to_u32, to_u16, to_u16-lt, to_u32, to_u32-lt, ℤ, ◌∙◌, ◌≡◌,
}
use ku_polishing_robot_drive.Lift.Protocol.{le16, le32}

-- An `int16_t` written lowest byte first by `sendVelocity` is read back by `le16`.
pub le16-le16_bytes : (z : ℤ) → IsInt16 z → le16 (le16_bytes (to_u16 z)) ≡ z
unfolding le16
le16-le16_bytes z h = ap signed16 (le16_word (to_u16 z) (to_u16-lt z)) ∙ signed16-to_u16 z h

-- An `int32_t` written lowest byte first by `sendPosition` is read back by `le32`.
pub le32-le32_bytes : (z : ℤ) → IsInt32 z → le32 (le32_bytes (to_u32 z)) ≡ z
unfolding le32
le32-le32_bytes z h = ap signed32 (le32_word (to_u32 z) (to_u32-lt z)) ∙ signed32-to_u32 z h
