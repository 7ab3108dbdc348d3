-- ===== src/Base/Split.antt =====
-- Where Rust's `str` methods cut a text that is put together from parts.
use Prim.Native.Nat.{ℕ}
use mathlib.Core.Path.{◌≡◌, refl}
use mathlib.Core.Bool.{Bool, false, ◌||◌}
use mathlib.Core.Logic.{◌≢◌, inl, inr}
use mathlib.Core.List.{List, [], ◌∷◌, ◌++◌}
use mathlib.Core.Option.{Option, none, some}
use native.Mathlib.Omega.{arith}
use adb_client.Base.Tests.{◌==◌, ==_refl, Bool-cases}
use adb_client.Base.Lists.{All}
use adb_client.Base.Bytes.{Bytes, strip_prefix, split, cons_head, split_once, cons_front}

-- `str::contains` with one character.
unfoldable pub contains : ℕ → Bytes → Bool
contains c [] = false
contains c (b ∷ bs) = b == c || contains c bs

-- `str::contains` with a set of characters.
unfoldable pub contains_any : Bytes → Bytes → Bool
contains_any cs [] = false
contains_any cs (b ∷ bs) = contains b cs || contains_any cs bs

-- `str::rsplit_once` with a non-empty pattern: the parts before and behind its last occurrence.
unfoldable pub rsplit_once : Bytes → Bytes → Option (Bytes × Bytes)
rsplit_once pattern_bytes [] = none
rsplit_once pattern_bytes (b ∷ bs) = elim (rsplit_once pattern_bytes bs) [
  | some (front, back) ↦ some (b ∷ front, back)
  | none ↦ elim (strip_prefix pattern_bytes (b ∷ bs)) [ some rest ↦ some ([], rest) | none ↦ none ]
]

-- A text without the byte `c`.
abbrev pub Lacks : ℕ → Bytes → Type 0
Lacks c bs = All (λ b. b ≢ c) bs

pub strip_prefix-append : (front back : Bytes) → strip_prefix front (front ++ back) ≡ some back
unfolding strip_prefix
strip_prefix-append [] back = refl
strip_prefix-append (b ∷ front) back = ground (arith, strip_prefix-append front back)

pub split_once-append :
    (c : ℕ) (front back : Bytes)
    → Lacks c front
    → split_once (c ∷ []) (front ++ c ∷ back) ≡ some (front, back)
unfolding split_once strip_prefix cons_front
split_once-append c [] back h = ground arith
split_once-append c (b ∷ front) back (p, ps) = ground (arith, split_once-append c front back ps)

pub rsplit_once-Lacks :
    (c : ℕ) (pattern_bytes bs : Bytes) → Lacks c bs → rsplit_once (c ∷ pattern_bytes) bs ≡ none
unfolding rsplit_once strip_prefix
rsplit_once-Lacks c pattern_bytes [] h = refl
rsplit_once-Lacks c pattern_bytes (b ∷ bs) (p, ps) =
    ground (arith, rsplit_once-Lacks c pattern_bytes bs ps)

-- An occurrence that is found behind `front` is the last one with `front` before it.
pub rsplit_once-append :
    (pattern_bytes front bs before back : Bytes)
    → rsplit_once pattern_bytes bs ≡ some (before, back)
    → rsplit_once pattern_bytes (front ++ bs) ≡ some (front ++ before, back)
unfolding rsplit_once
rsplit_once-append pattern_bytes [] bs before back h = h
rsplit_once-append pattern_bytes (b ∷ front) bs before back h =
    rw (rsplit_once-append pattern_bytes front bs before back h, rsplit_once) refl

-- There is always a first part.
pub split-cons :
    (c : ℕ) (bs : Bytes) → (part : Bytes) × ((parts : List Bytes) × (split c bs ≡ part ∷ parts))
unfolding split cons_head
split-cons c [] = ([], ([], refl))
split-cons c (b ∷ bs) = elim (Bool-cases (b == c)) [
  | inl same ↦ ([], (split c bs, rw same refl))
  | inr other ↦
      let (part, (parts, e)) = split-cons c bs in (b ∷ part, (parts, rw (other, e, cons_head) refl))
]

pub split-Lacks : (c : ℕ) (bs : Bytes) → Lacks c bs → split c bs ≡ bs ∷ []
unfolding split cons_head
split-Lacks c [] h = refl
split-Lacks c (b ∷ bs) (p, ps) =
    let other : (b == c) ≡ false = ground (arith, p) in
    rw (other, split-Lacks c bs ps, cons_head) refl

-- A field without the separator is the first part.
pub split-append :
    (c : ℕ) (front back : Bytes)
    → Lacks c front
    → split c (front ++ c ∷ back) ≡ front ∷ split c back
unfolding split cons_head
split-append c [] back h = rw (==_refl c) refl
split-append c (b ∷ front) back (p, ps) =
    let other : (b == c) ≡ false = ground (arith, p) in
    rw (other, split-append c front back ps, cons_head) refl
