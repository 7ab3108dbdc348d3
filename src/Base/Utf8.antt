-- ===== src/Base/Utf8.antt =====
-- Rust's `String::from_utf8_lossy`: each maximal ill-formed part becomes U+FFFD.
use Prim.Native.Nat.{ℕ, ◌-◌, ◌<◌}
use mathlib.Core.Path.{◌≡◌, refl}
use mathlib.Core.Bool.{Bool, ◌&&◌}
use mathlib.Core.List.{[], ◌∷◌, ◌++◌}
use native.Mathlib.Omega.{arith}
use adb_client.Base.Tests.{ltb, leb, ◌==◌, if◌then◌else◌}
use adb_client.Base.Lists.{All}
use adb_client.Base.Bytes.{Bytes, bytes_eq}

-- A character of which `seen` has been read, and `need` bytes are missing: the next in `lo..=hi`,
-- the others in 0x80..=0xBF. No byte is missing between characters.
pub record Partial : Type 0 where
  pub seen : Bytes
  pub need : ℕ
  pub lo : ℕ
  pub hi : ℕ

abbrev between : Partial
between = record { seen = []; need = 0; lo = 0x80; hi = 0xBF }

abbrev replacement : Bytes
replacement = 0xEF ∷ 0xBF ∷ 0xBD ∷ []

opening : ℕ → ℕ → ℕ → ℕ → Bytes × Partial
opening b need lo hi = ([], record { seen = b ∷ []; need = need; lo = lo; hi = hi })

-- The first byte of a character.
start : ℕ → Bytes × Partial
unfolding opening
start b =
    if ltb b 0x80
    then (b ∷ [], between)
    else if leb 0xC2 b && leb b 0xDF
    then opening b 1 0x80 0xBF
    else if b == 0xE0
    then opening b 2 0xA0 0xBF
    else if b == 0xED
    then opening b 2 0x80 0x9F
    else if leb 0xE1 b && leb b 0xEF
    then opening b 2 0x80 0xBF
    else if b == 0xF0
    then opening b 3 0x90 0xBF
    else if leb 0xF1 b && leb b 0xF3
    then opening b 3 0x80 0xBF
    else if b == 0xF4
    then opening b 3 0x80 0x8F
    else (replacement, between)

-- A further byte; one that does not fit ends the part, and starts a character itself.
continue : Partial → ℕ → Bytes × Partial
unfolding start
continue p b =
    if p.need == 0
    then start b
    else if leb p.lo b && leb b p.hi
    then (if p.need == 1
        then (p.seen ++ b ∷ [], between)
        else ([], record { seen = p.seen ++ b ∷ []; need = p.need - 1; lo = 0x80; hi = 0xBF }))
    else (let (out, q) = start b in (replacement ++ out, q))

lossy_from : Partial → Bytes → Bytes
unfolding continue
lossy_from p [] = if p.need == 0 then [] else replacement
lossy_from p (b ∷ bs) = let (out, q) = continue p b in out ++ lossy_from q bs

unfoldable pub from_utf8_lossy : Bytes → Bytes
unfolding lossy_from
from_utf8_lossy bs = lossy_from between bs

-- A text is UTF-8 when no part of it is replaced.
unfoldable pub is_utf8 : Bytes → Bool
is_utf8 bs = bytes_eq (from_utf8_lossy bs) bs

-- ASCII is unchanged.
pub from_utf8_lossy_ascii : (bs : Bytes) → All (λ b. b < 128) bs → from_utf8_lossy bs ≡ bs
unfolding from_utf8_lossy
from_utf8_lossy_ascii [] h = refl
from_utf8_lossy_ascii (b ∷ bs) (hb, hbs) = ground (arith, from_utf8_lossy_ascii bs hbs)

-- Two characters of one and two bytes, a cut one, and a byte that starts none.
mixed :
    from_utf8_lossy (b'a' ∷ 0xC3 ∷ 0xA9 ∷ 0xE2 ∷ 0x82 ∷ b'b' ∷ 0xFF ∷ [])
    ≡ b'a' ∷ 0xC3 ∷ 0xA9 ∷ 0xEF ∷ 0xBF ∷ 0xBD ∷ b'b' ∷ 0xEF ∷ 0xBF ∷ 0xBD ∷ []
unfolding from_utf8_lossy
mixed = refl
