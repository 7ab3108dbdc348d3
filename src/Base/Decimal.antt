-- ===== src/Base/Decimal.antt =====
-- Rust's `{}` of an unsigned integer, and `parse` of one.
use Prim.Native.Nat.{ℕ, zero, suc, ◌+◌, ◌-◌, ◌*◌, ◌^◌, ◌≤◌, ◌/◌, ◌%◌}
use mathlib.Core.List.{[], ◌∷◌, ◌++◌}
use mathlib.Core.Path.{◌≡◌, refl}
use mathlib.Core.Bool.{◌&&◌}
use mathlib.Core.Option.{Option, none, some}
use mathlib.Core.Logic.{inl, inr}
use native.Mathlib.Omega.{arith}
use adb_client.Base.Lists.{All, All-append}
use adb_client.Base.Tests.{Bool-cases, ltb→lt, ltb, leb, if◌then◌else◌}
use adb_client.Base.Bytes.{Bytes, bytes, strip_prefix}

-- One digit for each unit of fuel; a number has fewer digits than its value plus one.
digits : ℕ → ℕ → Bytes
digits zero n = []
digits (suc fuel) n =
    let front = digits fuel (n / 10) in
    if ltb n 10 then (b'0' + n) ∷ [] else front ++ (b'0' + n % 10) ∷ []

unfoldable pub to_decimal : ℕ → Bytes
unfolding digits
to_decimal n = digits (suc n) n

-- The digits of an unsigned number, at least one.
unfoldable pub parse_digits : ℕ → Bytes → Option ℕ
parse_digits acc [] = some acc
parse_digits acc (b ∷ bs) =
    let rest = parse_digits (acc * 10 + (b - b'0')) bs in
    if leb b'0' b && leb b b'9' then rest else none

unfoldable pub parse_number : Bytes → Option ℕ
parse_number [] = none
parse_number (b ∷ bs) = parse_digits 0 (b ∷ bs)

-- `parse::<uN>().ok()`: a plus sign may stand in front.
unfoldable pub parse_unsigned : ℕ → Bytes → Option ℕ
parse_unsigned bits text =
    let digits : Bytes = elim (strip_prefix (bytes "+") text) [ none ↦ text | some rest ↦ rest ] in
    elim (parse_number digits) [ none ↦ none | some n ↦ if ltb n (2 ^ bits) then some n else none ]

abbrev pub IsDigit : ℕ → Type 0
IsDigit b = (b'0' ≤ b) × (b ≤ b'9')

digits-IsDigit : (fuel n : ℕ) → All IsDigit (digits fuel n)
unfolding digits
digits-IsDigit zero n = tt
digits-IsDigit (suc fuel) n =
    let below = digits-IsDigit fuel (n / 10) in
    let more =
      All-append IsDigit (digits fuel (n / 10)) ((b'0' + n % 10) ∷ []) below (omega arith, tt) in
    elim (Bool-cases (ltb n 10)) [
      | inl small ↦
          let one : IsDigit (b'0' + n) = omega (arith, ltb→lt n 10 small) in rw small (one, tt)
      | inr large ↦ rw large more
    ]

-- A printed number has no byte but digits.
pub to_decimal-IsDigit : (n : ℕ) → All IsDigit (to_decimal n)
unfolding to_decimal
to_decimal-IsDigit n = digits-IsDigit (suc n) n

mode_digits : to_decimal 0o100644 ≡ bytes "33188"
unfolding to_decimal
mode_digits = refl
