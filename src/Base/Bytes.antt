-- ===== src/Base/Bytes.antt =====
-- Texts as their UTF-8 bytes, and what the program uses of Rust's `str`.
use Prim.Native.Char.{code}
use Prim.Native.String.{String}
use Prim.Native.Nat.{ℕ}
use mathlib.Core.Path.{◌≡◌, refl}
use mathlib.Core.Bool.{Bool, true, false, ◌&&◌}
use mathlib.Core.List.{List, [], ◌∷◌}
use mathlib.Core.Option.{Option, none, some}
use native.Mathlib.Omega.{arith}
use adb_client.Base.Tests.{◌==◌, if◌then◌else◌}

abbrev pub Bytes : Type 0
Bytes = List ℕ

-- The bytes of an ASCII literal.
abbrev pub bytes : String → Bytes
bytes String.[] = []
bytes (String.◌∷◌ c s) = code c ∷ bytes s

-- `==` on texts and byte strings.
unfoldable pub bytes_eq : Bytes → Bytes → Bool
bytes_eq [] [] = true
bytes_eq [] (c ∷ cs) = false
bytes_eq (b ∷ bs) [] = false
bytes_eq (b ∷ bs) (c ∷ cs) = b == c && bytes_eq bs cs

pub bytes_eq_refl : (bs : Bytes) → bytes_eq bs bs ≡ true
unfolding bytes_eq
bytes_eq_refl [] = refl
bytes_eq_refl (b ∷ bs) = ground (arith, bytes_eq_refl bs)

pub bytes_eq→eq : (bs cs : Bytes) → bytes_eq bs cs ≡ true → bs ≡ cs
unfolding bytes_eq
bytes_eq→eq [] [] h = refl
bytes_eq→eq [] (c ∷ cs) h = cc
bytes_eq→eq (b ∷ bs) [] h = cc
bytes_eq→eq (b ∷ bs) (c ∷ cs) h = ground (arith, bytes_eq→eq bs cs)

-- `str::trim_end_matches` with one character.
unfoldable pub trim_end : ℕ → Bytes → Bytes
trim_end c [] = []
trim_end c (b ∷ bs) = elim (trim_end c bs) [
  | [] ↦ if b == c then [] else b ∷ []
  | x ∷ xs ↦ b ∷ x ∷ xs
]

-- `str::strip_prefix`
unfoldable pub strip_prefix : Bytes → Bytes → Option Bytes
strip_prefix [] bs = some bs
strip_prefix (p ∷ ps) [] = none
strip_prefix (p ∷ ps) (b ∷ bs) = if p == b then strip_prefix ps bs else none

unfoldable pub cons_front : ℕ → Option (Bytes × Bytes) → Option (Bytes × Bytes)
cons_front b none = none
cons_front b (some (front, back)) = some (b ∷ front, back)

-- `str::split_once` with a non-empty pattern: the parts before and behind its first occurrence.
unfoldable pub split_once : Bytes → Bytes → Option (Bytes × Bytes)
split_once pattern_bytes [] = none
split_once pattern_bytes (b ∷ bs) = elim (strip_prefix pattern_bytes (b ∷ bs)) [
  | some rest ↦ some ([], rest)
  | none ↦ cons_front b (split_once pattern_bytes bs)
]

unfoldable pub cons_head : ℕ → List Bytes → List Bytes
cons_head b [] = (b ∷ []) ∷ []
cons_head b (p ∷ ps) = (b ∷ p) ∷ ps

-- `str::split` with one character: always one part more than there are separators.
unfoldable pub split : ℕ → Bytes → List Bytes
split c [] = [] ∷ []
split c (b ∷ bs) = let rest = split c bs in if b == c then [] ∷ rest else cons_head b rest
