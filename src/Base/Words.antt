-- ===== src/Base/Words.antt =====
-- Rust's `u32`, `u64` and their little-endian bytes. A byte is a number below 256.
use adb_client.Base.Tests.{ltb, if◌then◌else◌}
use Prim.Native.Nat.{ℕ, ◌+◌, ◌-◌, ◌*◌, ◌/◌, ◌%◌, ◌^◌, ◌<◌}
use mathlib.Core.Path.{◌≡◌}
use mathlib.Core.List.{List, [], ◌∷◌}
use native.Mathlib.Omega.{arith}
use adb_client.Base.Lists.{All}

abbrev pub IsU32 : ℕ → Type 0
IsU32 n = n < 2 ^ 32

abbrev pub IsByte : ℕ → Type 0
IsByte b = b < 256

-- `u32::to_le_bytes`
abbrev pub to_le_bytes : ℕ → List ℕ
to_le_bytes n = (n % 256) ∷ (n / 256 % 256) ∷ (n / 65536 % 256) ∷ (n / 16777216 % 256) ∷ []

-- `u32::from_le_bytes` and `u64::from_le_bytes`, on a slice of any length.
abbrev pub from_le_bytes : List ℕ → ℕ
from_le_bytes [] = 0
from_le_bytes (b ∷ bs) = b + 256 * from_le_bytes bs

-- `u32::to_be_bytes`
abbrev pub to_be_bytes : ℕ → List ℕ
to_be_bytes n = (n / 16777216 % 256) ∷ (n / 65536 % 256) ∷ (n / 256 % 256) ∷ (n % 256) ∷ []

-- The number of which `acc` is the part in front.
abbrev pub be_behind : ℕ → List ℕ → ℕ
be_behind acc [] = acc
be_behind acc (b ∷ bs) = be_behind (acc * 256 + b) bs

-- `u32::from_be_bytes`
abbrev pub from_be_bytes : List ℕ → ℕ
from_be_bytes = be_behind 0

pub from_be_bytes-to_be_bytes : (n : ℕ) → IsU32 n → from_be_bytes (to_be_bytes n) ≡ n
from_be_bytes-to_be_bytes n h = omega arith

pub from_le_bytes-to_le_bytes : (n : ℕ) → IsU32 n → from_le_bytes (to_le_bytes n) ≡ n
from_le_bytes-to_le_bytes n h = omega arith

pub to_le_bytes-IsByte : (n : ℕ) → All IsByte (to_le_bytes n)
to_le_bytes-IsByte n = omega arith

-- Rust's signed integers; `negsuc n` is -(n + 1).
pub data ℤ : Type 0 where
  pos : ℕ → ℤ
  negsuc : ℕ → ℤ

-- The integer that a bit pattern of 64 bits stands for.
abbrev pub signed64 : ℕ → ℤ
signed64 n = if ltb n (2 ^ 63) then pos n else negsuc (2 ^ 64 - n - 1)
