-- ===== src/Base/Bytes.antt =====
-- Bytes and machine words: casts that wrap, two's complement, little- and big-endian order.
use Prim.Native.Nat.{ℕ, ◌+◌, ◌-◌, ◌*◌, ◌/◌, ◌%◌, ◌<◌}
use mathlib.Core.Path.{◌≡◌}
use mathlib.Core.List.{List, [], ◌∷◌}
use native.Mathlib.Omega.{arith}
use ku_polishing_robot_drive.Base.Tests.{ltb, if◌then◌else◌}
use ku_polishing_robot_drive.Base.Int.{ℤ, pos, negsuc, ◌≤ℤ◌}

abbrev pub IsByte : ℕ → Type 0
IsByte b = b < 256

-- `static_cast<uint8_t>`, `uint16_t`, `uint32_t` of an unsigned value
abbrev pub u8 : ℕ → ℕ
u8 n = n % 256

abbrev pub u16 : ℕ → ℕ
u16 n = n % 65536

abbrev pub u32 : ℕ → ℕ
u32 n = n % 4294967296

-- `static_cast<uint16_t>` and `uint32_t` of a signed value
abbrev pub to_u16 : ℤ → ℕ
to_u16 (pos n) = n % 65536
to_u16 (negsuc n) = 65535 - n % 65536

abbrev pub to_u32 : ℤ → ℕ
to_u32 (pos n) = n % 4294967296
to_u32 (negsuc n) = 4294967295 - n % 4294967296

-- the number that a bit pattern of 16 or 32 bits stands for
abbrev pub signed16 : ℕ → ℤ
signed16 w = if ltb w 32768 then pos w else negsuc (65535 - w)

abbrev pub signed32 : ℕ → ℤ
signed32 w = if ltb w 2147483648 then pos w else negsuc (4294967295 - w)

-- `static_cast<int16_t>` of a signed value
abbrev pub int16 : ℤ → ℤ
int16 z = signed16 (to_u16 z)

abbrev pub IsInt16 : ℤ → Type 0
IsInt16 z = (negsuc 32767 ≤ℤ z) × (z ≤ℤ pos 32767)

abbrev pub IsInt32 : ℤ → Type 0
IsInt32 z = (negsuc 2147483647 ≤ℤ z) × (z ≤ℤ pos 2147483647)

pub signed16-to_u16 : (z : ℤ) → IsInt16 z → signed16 (to_u16 z) ≡ z
signed16-to_u16 (pos n) h = ground arith
signed16-to_u16 (negsuc n) h = ground arith

pub signed32-to_u32 : (z : ℤ) → IsInt32 z → signed32 (to_u32 z) ≡ z
signed32-to_u32 (pos n) h = ground arith
signed32-to_u32 (negsuc n) h = ground arith

pub to_u32-lt : (z : ℤ) → to_u32 z < 4294967296
to_u32-lt (pos n) = omega arith
to_u32-lt (negsuc n) = omega arith

pub to_u16-lt : (z : ℤ) → to_u16 z < 65536
to_u16-lt (pos n) = omega arith
to_u16-lt (negsuc n) = omega arith

-- the bytes of a word, lowest first
abbrev pub le16_bytes : ℕ → List ℕ
le16_bytes v = v % 256 ∷ v / 256 % 256 ∷ []

abbrev pub le32_bytes : ℕ → List ℕ
le32_bytes v = v % 256 ∷ v / 256 % 256 ∷ v / 65536 % 256 ∷ v / 16777216 % 256 ∷ []

pub le16_word : (v : ℕ) → v < 65536 → v % 256 + v / 256 % 256 * 256 ≡ v
le16_word v h = omega arith

pub le32_word :
    (v : ℕ)
    → v < 4294967296
    → v % 256 + v / 256 % 256 * 256 + v / 65536 % 256 * 65536 + v / 16777216 % 256 * 16777216 ≡ v
le32_word v h = omega arith
