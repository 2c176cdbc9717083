-- ===== src/Crevis/Modbus/Packing.antt =====
-- Bits packed into a word and into the bytes of a reply, and `readCoils` on such a reply
-- (catkin_ws/src/crevis_io_driver/src/crevis_io_node.cpp).
use ku_polishing_robot_drive.Base.{
  Bool, Bool-cases, List, [], ap, arith, drop, drop_all, false, get_or, has_bit, if◌then◌else◌, inl,
  inr, leb, length, ltb, lt→ltb, refl, some, suc, sym, take, true, zero, ℕ, ◌%◌, ◌*◌, ◌+◌, ◌-◌, ◌/◌,
  ◌<◌, ◌^◌, ◌∙◌, ◌∷◌, ◌≡◌, ◌≤◌,
}
use ku_polishing_robot_drive.Crevis.Modbus.{unpack_coils, coils_of, has_function, values}
use native.Mathlib.Nat.{div-div-eq-div-mul, pow-succ', zero-div}

-- The number that has these bits, lowest first.
unfoldable pub word_of : List Bool → ℕ
word_of [] = 0
word_of (b ∷ bs) = (if b then 1 else 0) + 2 * word_of bs

has_bit-halved : (n k : ℕ) → n / 2 ^ suc k ≡ n / 2 / 2 ^ k
has_bit-halved n k = ap (λ m. n / m) (pow-succ' 2 k) ∙ sym (div-div-eq-div-mul n 2 (2 ^ k))

pub has_bit-word_of : (bits : List Bool) (i : ℕ) → has_bit (word_of bits) i ≡ get_or bits i false
unfolding word_of
has_bit-word_of [] zero = refl
has_bit-word_of [] (suc i) = rw (zero-div (2 ^ suc i)) refl
has_bit-word_of (true ∷ bs) zero = ground arith
has_bit-word_of (false ∷ bs) zero = ground arith
has_bit-word_of (b ∷ bs) (suc i) =
    let half : word_of (b ∷ bs) / 2 ≡ word_of bs = ground arith in
    rw (has_bit-halved (word_of (b ∷ bs)) i, half) (has_bit-word_of bs i)

-- the bytes that carry up to 16 bits
unfoldable pub packed : List Bool → List ℕ
packed bits =
    if leb (length bits) 8
    then word_of bits ∷ []
    else word_of (take 8 bits) ∷ word_of (drop 8 bits) ∷ []

-- What the manual gives as the reply of a read of coils.
abbrev pub coils_reply : List Bool → List ℕ
coils_reply bits = 1 ∷ length (packed bits) ∷ packed bits

get_or-take :
    (n i : ℕ) (bits : List Bool) → i < n → get_or (take n bits) i false ≡ get_or bits i false
get_or-take zero i bits h = absurd (omega arith)
get_or-take (suc n) i [] h = refl
get_or-take (suc n) zero (b ∷ bits) h = refl
get_or-take (suc n) (suc i) (b ∷ bits) h = get_or-take n i bits (omega arith)

get_or-drop :
    (n i : ℕ) (bits : List Bool) → get_or (drop n bits) i false ≡ get_or bits (n + i) false
get_or-drop zero i bits = ap (λ j. get_or bits j false) (omega arith)
get_or-drop (suc n) i [] = refl
get_or-drop (suc n) i (b ∷ bits) =
    let e : suc n + i ≡ suc (n + i) = omega arith in rw e (get_or-drop n i bits)

drop-get_or :
    (i : ℕ) (bits : List Bool)
    → i < length bits
    → drop i bits ≡ get_or bits i false ∷ drop (suc i) bits
drop-get_or i [] h = absurd (omega arith)
drop-get_or zero (b ∷ bits) h = refl
drop-get_or (suc i) (b ∷ bits) h = drop-get_or i bits (omega arith)

-- Bit j of a reply, where `readCoils` looks for it.
abbrev reply_bit : List ℕ → ℕ → Bool
reply_bit r j = has_bit (get_or r (2 + j / 8) 0) (j % 8)

coils_reply-bit :
    (bits : List Bool) (j : ℕ)
    → length bits ≤ 16
    → j < length bits
    → (2 + j / 8 < length (coils_reply bits))
      × (reply_bit (coils_reply bits) j ≡ get_or bits j false)
unfolding packed
coils_reply-bit bits j size h = elim (Bool-cases (leb (length bits) 8)) [
  | inl one ↦
      let byte : j / 8 ≡ 0 = ground arith in
      let bit : j % 8 ≡ j = ground arith in
      rw (one, byte, bit) (omega arith, has_bit-word_of bits j)
  | inr two ↦ elim (Bool-cases (ltb j 8)) [
    | inl low ↦
        let byte : j / 8 ≡ 0 = ground arith in
        let bit : j % 8 ≡ j = ground arith in
        rw (two, byte, bit)
          (omega arith, has_bit-word_of (take 8 bits) j ∙ get_or-take 8 j bits (ground arith))
    | inr high ↦
        let byte : j / 8 ≡ 1 = ground arith in
        let bit : j % 8 ≡ j - 8 = ground arith in
        let whole : 8 + (j - 8) ≡ j = ground arith in
        rw (two, byte, bit)
          (
            omega arith,
            has_bit-word_of (drop 8 bits) (j - 8)
                ∙ get_or-drop 8 (j - 8) bits
                ∙ ap (λ i. get_or bits i false) whole,
          )
  ]
]

unpack_coils-bits :
    (bits : List Bool) (i n : ℕ)
    → length bits ≤ 16
    → i + n ≡ length bits
    → unpack_coils (coils_reply bits) i n ≡ values (drop i bits)
unfolding unpack_coils
unpack_coils-bits bits i zero size e = ap values (sym (drop_all i bits (omega arith)))
unpack_coils-bits bits i (suc n) size e =
    let bit = coils_reply-bit bits i size (omega arith) in
    let inside = lt→ltb (2 + i / 8) (length (coils_reply bits)) bit.0 in
    let next : i + 1 ≡ suc i = omega arith in
    rw (inside, unpack_coils-bits bits (i + 1) n size (omega arith), bit.1, next)
      (ap values (sym (drop-get_or i bits (omega arith))))

has_function-coils_reply : (bits : List Bool) → has_function 1 (coils_reply bits) ≡ true
unfolding has_function
has_function-coils_reply bits = ground arith

-- `readCoils` finds the bits that a reply packs.
pub coils_of-coils_reply :
    (bits : List Bool)
    → length bits ≤ 16
    → coils_of (length bits) (some (coils_reply bits)) ≡ values bits
unfolding coils_of
coils_of-coils_reply bits size =
    let good : has_function 1 (coils_reply bits) ≡ true = has_function-coils_reply bits in
    rw good (unpack_coils-bits bits 0 (length bits) size (omega arith))

pub length-packed : (bits : List Bool) → length (packed bits) ≤ 2
unfolding packed
length-packed bits = ground arith
