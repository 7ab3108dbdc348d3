-- ===== src/Base/Hex.antt =====
-- Rust's `{:0w$x}` of an unsigned integer, and `from_str_radix` with radix 16.
use Prim.Native.Nat.{ℕ, zero, suc, ◌+◌, ◌-◌, ◌*◌, ◌/◌, ◌%◌, ◌^◌, ◌≤◌, ◌<◌}
use mathlib.Core.Path.{◌≡◌, refl, sym, ap, ◌∙◌}
use mathlib.Core.Bool.{◌&&◌}
use mathlib.Core.Logic.{◌⊎◌, ◌≢◌}
use mathlib.Core.Option.{Option, none, some}
use mathlib.Core.List.{[], ◌∷◌, ◌++◌, append-nil, append_assoc, cons-ne-nil}
use native.Mathlib.Omega.{arith}
use adb_client.Base.Tests.{ltb, leb, if◌then◌else◌}
use adb_client.Base.Lists.{All, All-append}
use adb_client.Base.Bytes.{Bytes, bytes, strip_prefix}

unfoldable pub hex_digit : ℕ → ℕ
hex_digit n = if ltb n 10 then b'0' + n else b'a' + (n - 10)

-- The lowest `width` digits, which are all of a number below `16 ^ width`.
unfoldable pub to_hex : ℕ → ℕ → Bytes
to_hex zero n = []
to_hex (suc width) n = to_hex width (n / 16) ++ hex_digit (n % 16) ∷ []

unfoldable pub digit_value : ℕ → Option ℕ
digit_value b =
    if leb b'0' b && leb b b'9'
    then some (b - b'0')
    else if leb b'a' b && leb b b'f'
    then some (b - b'a' + 10)
    else if leb b'A' b && leb b b'F'
    then some (b - b'A' + 10)
    else none

-- The digits of a text behind the number `acc`.
unfoldable pub hex_behind : ℕ → Bytes → Option ℕ
hex_behind acc [] = some acc
hex_behind acc (b ∷ bs) = elim (digit_value b) [
  | none ↦ none
  | some d ↦ hex_behind (acc * 16 + d) bs
]

-- `hex_behind`, where a text with no digit is an error.
unfoldable pub hex_number : Bytes → Option ℕ
hex_number [] = none
hex_number (b ∷ bs) = hex_behind 0 (b ∷ bs)

-- `uN::from_str_radix(text, 16).ok()`: a plus sign may stand in front.
unfoldable pub from_str_radix_16 : ℕ → Bytes → Option ℕ
from_str_radix_16 bits text =
    let digits : Bytes = elim (strip_prefix (bytes "+") text) [ none ↦ text | some rest ↦ rest ] in
    elim (hex_number digits) [ none ↦ none | some n ↦ if ltb n (2 ^ bits) then some n else none ]

digit_value-hex_digit : (d : ℕ) → d < 16 → digit_value (hex_digit d) ≡ some d
unfolding digit_value hex_digit
digit_value-hex_digit d h = ground arith

hex_behind_step :
    (acc d : ℕ) (rest : Bytes)
    → d < 16
    → hex_behind acc (hex_digit d ∷ rest) ≡ hex_behind (acc * 16 + d) rest
unfolding hex_behind
hex_behind_step acc d rest h = rw (digit_value-hex_digit d h, hex_behind) refl

-- The digits of a number are read back as that number, whatever stands behind them.
pub hex_behind-to_hex :
    (width n : ℕ) (rest : Bytes)
    → n < 16 ^ width
    → hex_behind 0 (to_hex width n ++ rest) ≡ hex_behind n rest
unfolding to_hex
hex_behind-to_hex zero n rest h = ap (λ k. hex_behind k rest) (omega arith)
hex_behind-to_hex (suc width) n rest h = rw append_assoc (
    hex_behind-to_hex width (n / 16) (hex_digit (n % 16) ∷ rest) (omega arith)
    ∙ hex_behind_step (n / 16) (n % 16) rest (omega arith)
    ∙ ap (λ k. hex_behind k rest) (omega arith))

-- Between `0` and `9`, or between `a` and `f`.
abbrev pub IsHexDigit : ℕ → Type 0
IsHexDigit b = ((b'0' ≤ b) × (b ≤ b'9')) ⊎ ((b'a' ≤ b) × (b ≤ b'f'))

hex_digit-IsHexDigit : (d : ℕ) → d < 16 → IsHexDigit (hex_digit d)
unfolding hex_digit
hex_digit-IsHexDigit d h = ground arith

pub to_hex-IsHexDigit : (width n : ℕ) → All IsHexDigit (to_hex width n)
unfolding to_hex
to_hex-IsHexDigit zero n = tt
to_hex-IsHexDigit (suc width) n =
    All-append IsHexDigit _ _ (to_hex-IsHexDigit width (n / 16))
      (hex_digit-IsHexDigit (n % 16) (omega arith), tt)

append-cons-ne-nil : (bs : Bytes) (b : ℕ) → bs ++ b ∷ [] ≢ []
append-cons-ne-nil [] b = cons-ne-nil b []
append-cons-ne-nil (c ∷ cs) b = cons-ne-nil c (cs ++ b ∷ [])

from_str_radix_16-digits :
    (bits n : ℕ) (bs : Bytes)
    → All IsHexDigit bs
    → bs ≢ []
    → hex_behind 0 bs ≡ some n
    → n < 2 ^ bits
    → from_str_radix_16 bits bs ≡ some n
unfolding from_str_radix_16 strip_prefix
from_str_radix_16-digits bits n [] ds ne e h = absurd (ne refl)
from_str_radix_16-digits bits n (b ∷ bs) (d, ds) ne e h =
    let number : hex_number (b ∷ bs) ≡ some n = (unfold hex_number in e) in ground (arith, number)

-- A number that fits the word and the width is read back from its digits.
pub from_str_radix_16-to_hex :
    (bits width n : ℕ)
    → n < 16 ^ suc width
    → n < 2 ^ bits
    → from_str_radix_16 bits (to_hex (suc width) n) ≡ some n
from_str_radix_16-to_hex bits width n fits word =
    let digits = to_hex (suc width) n in
    let ne : digits ≢ [] = (unfold to_hex in append-cons-ne-nil (to_hex width (n / 16)) _) in
    let read : hex_behind 0 digits ≡ some n =
      ap (hex_behind 0) (sym (append-nil digits))
      ∙ hex_behind-to_hex (suc width) n [] fits
      ∙ (unfold hex_behind in refl) in
    from_str_radix_16-digits bits n digits (to_hex-IsHexDigit (suc width) n) ne read word
