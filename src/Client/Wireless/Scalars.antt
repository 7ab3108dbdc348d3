-- ===== src/Client/Wireless/Scalars.antt =====
-- The scalars of SPAKE2 in adb_client/src/wireless.rs, as little-endian bytes, and their multiples
-- of a point. The points are those of the library for the curve.
pub mod Sums
pub mod Multiples
use adb_client.Base.{
  ◌==◌, if◌then◌else◌, replicate, ℕ, ◌+◌, ◌*◌, ◌/◌, ◌%◌, ◌^◌, List, [], ◌∷◌, ◌++◌,
}
use adb_client.Base.Bytes.{Bytes}

unfoldable pub shift_behind : ℕ → Bytes → Bytes
shift_behind carry [] = []
-- The bits of `byte << 3` and of the carry are apart, so that `|` adds them.
shift_behind carry (b ∷ bs) = (b * 8 % 256 + carry) ∷ shift_behind (b / 32) bs

unfoldable pub shift_left_three : Bytes → Bytes
shift_left_three value = shift_behind 0 value

unfoldable pub add_behind : ℕ → Bytes → Bytes → Bytes
add_behind carry [] right = []
add_behind carry (l ∷ ls) [] = []
add_behind carry (l ∷ ls) (r ∷ rs) =
    let sum = l + r + carry in (sum % 256) ∷ add_behind (sum / 256) ls rs

unfoldable pub add_le : Bytes → Bytes → Bytes
add_le left right = add_behind 0 left right

-- Bit `bit` of the first byte.
unfoldable pub low_bit : ℕ → Bytes → ℕ
low_bit bit [] = 0
low_bit bit (b ∷ bs) = b / 2 ^ bit % 2

-- One round of the loop of `clear_cofactor_bits`, which chooses all bytes of the sum or none.
unfoldable pub clear_bit : ℕ → Bytes → Bytes → Bytes
clear_bit bit order value = if low_bit bit value == 1 then add_le value order else value

abbrev pub group_order : Bytes
group_order =
    0xed
    ∷ 0xd3
    ∷ 0xf5
    ∷ 0x5c
    ∷ 0x1a
    ∷ 0x63
    ∷ 0x12
    ∷ 0x58
    ∷ 0xd6
    ∷ 0x9c
    ∷ 0xf7
    ∷ 0xa2
    ∷ 0xde
    ∷ 0xf9
    ∷ 0xde
    ∷ 0x14
    ∷ (replicate 15 0 ++ 0x10 ∷ [])

unfoldable pub clear_cofactor_bits : Bytes → Bytes
clear_cofactor_bits value =
    let twice = add_le group_order group_order in
    clear_bit 2 (add_le twice twice) (clear_bit 1 twice (clear_bit 0 group_order value))

module _ {Point : Type 0} (identity : Point) (add : Point → Point → Point) where
  -- The two points `result` and `multiple` after one bit.
  unfoldable pub multiply_bit : ℕ → ℕ → Point × Point → Point × Point
  multiply_bit byte bit (result, multiple) =
      (if byte / 2 ^ bit % 2 == 1 then add result multiple else result, add multiple multiple)

  unfoldable pub multiply_bits : ℕ → List ℕ → Point × Point → Point × Point
  multiply_bits byte [] state = state
  multiply_bits byte (bit ∷ bits) state = multiply_bits byte bits (multiply_bit byte bit state)

  unfoldable pub multiply_bytes : Bytes → Point × Point → Point × Point
  multiply_bytes [] state = state
  multiply_bytes (byte ∷ bs) state =
      multiply_bytes bs (multiply_bits byte (0 ∷ 1 ∷ 2 ∷ 3 ∷ 4 ∷ 5 ∷ 6 ∷ 7 ∷ []) state)

  unfoldable pub multiply_raw : Point → Bytes → Point
  multiply_raw point scalar = (multiply_bytes scalar (identity, point)).0
