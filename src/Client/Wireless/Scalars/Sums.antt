-- ===== src/Client/Wireless/Scalars/Sums.antt =====
-- What the scalars are as numbers.
use adb_client.Base.{
  ◌==◌, if◌then◌else◌, if_either, length, All, ℕ, zero, suc, ◌+◌, ◌*◌, ◌/◌, ◌%◌, ◌^◌, ◌<◌, ◌≡◌,
  refl, sym, ap, ◌∙◌, [], ◌∷◌, arith,
}
use adb_client.Base.Bytes.{Bytes}
use adb_client.Base.Words.{IsByte, from_le_bytes}
use adb_client.Client.Wireless.Scalars.{
  shift_behind, shift_left_three, add_behind, add_le, low_bit, clear_bit, group_order,
  clear_cofactor_bits,
}

-- A carry behind bytes.
abbrev behind : Bytes → ℕ → ℕ
behind [] c = c
behind (b ∷ bs) c = 256 * behind bs c

shift_behind-carry :
    (carry : ℕ) (bs : Bytes)
    → (out : ℕ) × (from_le_bytes (shift_behind carry bs) + behind bs out
        ≡ 8 * from_le_bytes bs + carry)
unfolding shift_behind
shift_behind-carry carry [] = (carry, refl)
shift_behind-carry carry (b ∷ bs) =
    let (out, h) = shift_behind-carry (b / 32) bs in (out, omega (arith, h))

add_behind-carry :
    (carry : ℕ) (ls rs : Bytes)
    → length ls ≡ length rs
    → (out : ℕ) × (from_le_bytes (add_behind carry ls rs) + behind ls out
        ≡ from_le_bytes ls + from_le_bytes rs + carry)
unfolding add_behind
add_behind-carry carry [] [] h = (carry, omega arith)
add_behind-carry carry [] (r ∷ rs) h = absurd (omega arith)
add_behind-carry carry (l ∷ ls) [] h = absurd (omega arith)
add_behind-carry carry (l ∷ ls) (r ∷ rs) h =
    let (out, e) = add_behind-carry ((l + r + carry) / 256) ls rs (omega arith) in
    (out, omega (arith, e))

abbrev over : ℕ → ℕ → ℕ
over zero c = c
over (suc n) c = 256 * over n c

behind-over : (bs : Bytes) (c : ℕ) → behind bs c ≡ over (length bs) c
behind-over [] c = refl
behind-over (b ∷ bs) c = ap (λ n. 256 * n) (behind-over bs c)

behind_32 : (bs : Bytes) (c : ℕ) → length bs ≡ 32 → behind bs c ≡ 2 ^ 256 * c
behind_32 bs c h = let e = behind-over bs c ∙ ap (λ n. over n c) h in omega (arith, e)

-- A sum that fits 256 bits is exact.
pub from_le_bytes-add_le :
    (left right : Bytes)
    → length left ≡ 32
    → length right ≡ 32
    → from_le_bytes left + from_le_bytes right < 2 ^ 256
    → from_le_bytes (add_le left right) ≡ from_le_bytes left + from_le_bytes right
unfolding add_le
from_le_bytes-add_le left right p q fits =
    let (out, e) = add_behind-carry 0 left right (p ∙ sym q) in
    omega (arith, e, behind_32 left out p)

length-add_behind :
    (carry : ℕ) (ls rs : Bytes)
    → length ls ≡ length rs
    → length (add_behind carry ls rs) ≡ length ls
unfolding add_behind
length-add_behind carry [] rs h = refl
length-add_behind carry (l ∷ ls) [] h = absurd (omega arith)
length-add_behind carry (l ∷ ls) (r ∷ rs) h =
    omega (arith, length-add_behind ((l + r + carry) / 256) ls rs (omega arith))

-- A scalar below 2^253 is multiplied by the cofactor 8.
pub from_le_bytes-shift_left_three :
    (value : Bytes)
    → length value ≡ 32
    → from_le_bytes value < 2 ^ 253
    → from_le_bytes (shift_left_three value) ≡ 8 * from_le_bytes value
unfolding shift_left_three
from_le_bytes-shift_left_three value p fits =
    let (out, e) = shift_behind-carry 0 value in omega (arith, e, behind_32 value out p)

-- One round: a scalar of 32 bytes, and what it is as a number.
clear_bit-sum :
    (bit : ℕ) (order value : Bytes)
    → length value ≡ 32
    → length order ≡ 32
    → from_le_bytes value + from_le_bytes order < 2 ^ 256
    → (length (clear_bit bit order value) ≡ 32)
      × (from_le_bytes (clear_bit bit order value) ≡ (
          if low_bit bit value == 1
          then from_le_bytes value + from_le_bytes order
          else from_le_bytes value))
unfolding clear_bit add_le
clear_bit-sum bit order value p q fits =
    let sum = from_le_bytes-add_le value order p q fits in
    let size = length-add_behind 0 value order (p ∙ sym q) ∙ p in ground (arith, sum, size)

low_bit-number :
    (value : Bytes)
    → (low_bit 0 value ≡ from_le_bytes value % 2)
      × ((low_bit 1 value ≡ from_le_bytes value / 2 % 2)
          × (low_bit 2 value ≡ from_le_bytes value / 4 % 2))
unfolding low_bit
low_bit-number [] = (refl, (refl, refl))
low_bit-number (b ∷ bs) = (omega arith, (omega arith, omega arith))

-- Three rounds with an odd number, doubled each time, make a multiple of 8.
three_rounds :
    (n x y z w : ℕ)
    → n % 8 ≡ 5
    → y ≡ (if x % 2 == 1 then x + n else x)
    → z ≡ (if y / 2 % 2 == 1 then y + 2 * n else y)
    → w ≡ (if z / 4 % 2 == 1 then z + 4 * n else z)
    → (k : ℕ) × ((k < 8) × ((w ≡ x + k * n) × (w % 8 ≡ 0)))
three_rounds n x y z w odd e f g = (x % 2 + 2 * (y / 2 % 2) + 4 * (z / 4 % 2), ground arith)

same_choice : (b c x y : ℕ) → b ≡ c → (if b == 1 then x else y) ≡ (if c == 1 then x else y)
same_choice b c x y h = ap (λ bit. if bit == 1 then x else y) h

-- The scalar becomes a multiple of the cofactor 8 that stands for the same residue.
pub clear_cofactor_bits-residue :
    (value : Bytes)
    → length value ≡ 32
    → from_le_bytes value < from_le_bytes group_order
    → (k : ℕ) × ((k < 8)
        × ((from_le_bytes (clear_cofactor_bits value)
              ≡ from_le_bytes value + k * from_le_bytes group_order)
            × (from_le_bytes (clear_cofactor_bits value) % 8 ≡ 0)))
unfolding clear_cofactor_bits add_le add_behind
clear_cofactor_bits-residue value p fits =
    let twice = add_le group_order group_order in
    let four = add_le twice twice in
    let v1 = clear_bit 0 group_order value in
    let v2 = clear_bit 1 twice v1 in
    let (size1, e) = clear_bit-sum 0 group_order value p refl (omega (arith, fits)) in
    let bits = low_bit-number value in
    let bits1 = low_bit-number v1 in
    let bits2 = low_bit-number v2 in
    let below1 : from_le_bytes v1 < 2 * from_le_bytes group_order = ground (arith, e, fits) in
    let (size2, f) = clear_bit-sum 1 twice v1 size1 refl (omega (arith, below1)) in
    let below2 : from_le_bytes v2 < 4 * from_le_bytes group_order = ground (arith, f, below1) in
    let (size3, g) = clear_bit-sum 2 four v2 size2 refl (omega (arith, below2)) in
    three_rounds (from_le_bytes group_order) (from_le_bytes value) (from_le_bytes v1)
      (from_le_bytes v2) (from_le_bytes (clear_bit 2 four v2)) refl (e ∙ same_choice _ _ _ _ bits.0)
      (f ∙ same_choice _ _ _ _ bits1.1.0) (g ∙ same_choice _ _ _ _ bits2.1.1)

shift_behind-IsByte :
    (carry : ℕ) (bs : Bytes) → carry < 8 → All IsByte bs → All IsByte (shift_behind carry bs)
unfolding shift_behind
shift_behind-IsByte carry [] h _ = tt
shift_behind-IsByte carry (b ∷ bs) h (p, ps) =
    (omega arith, shift_behind-IsByte (b / 32) bs (omega arith) ps)

pub shift_left_three-IsByte : (bs : Bytes) → All IsByte bs → All IsByte (shift_left_three bs)
unfolding shift_left_three
shift_left_three-IsByte bs h = shift_behind-IsByte 0 bs (omega arith) h

add_behind-IsByte : (carry : ℕ) (ls rs : Bytes) → All IsByte (add_behind carry ls rs)
unfolding add_behind
add_behind-IsByte carry [] rs = tt
add_behind-IsByte carry (l ∷ ls) [] = tt
add_behind-IsByte carry (l ∷ ls) (r ∷ rs) =
    (omega arith, add_behind-IsByte ((l + r + carry) / 256) ls rs)

clear_bit-IsByte :
    (bit : ℕ) (order value : Bytes) → All IsByte value → All IsByte (clear_bit bit order value)
unfolding clear_bit add_le
clear_bit-IsByte bit order value h =
    if_either (All IsByte) (low_bit bit value == 1) _ _ (add_behind-IsByte 0 value order) h

pub clear_cofactor_bits-IsByte :
    (value : Bytes) → All IsByte value → All IsByte (clear_cofactor_bits value)
unfolding clear_cofactor_bits
clear_cofactor_bits-IsByte value h =
    clear_bit-IsByte 2 _ _ (clear_bit-IsByte 1 _ _ (clear_bit-IsByte 0 group_order value h))
