-- ===== src/Base/White.antt =====
-- Unicode's white space in UTF-8, and what Rust's `str` does with it; a line is one without its end.
use Prim.Native.Nat.{ℕ, zero, suc}
use mathlib.Core.Path.{◌≡◌, refl}
use mathlib.Core.Bool.{Bool, true, false, ◌&&◌, ◌||◌}
use mathlib.Core.List.{List, [], ◌∷◌, ◌++◌}
use adb_client.Base.Tests.{leb, ◌==◌, if◌then◌else◌}
use adb_client.Base.Bytes.{Bytes, bytes, bytes_eq, split}

white_three : ℕ → ℕ → Bytes → ℕ
white_three a b [] = 0
white_three a b (c ∷ cs) =
    if (a == 0xE1 && b == 0x9A && c == 0x80)
      || (a == 0xE2
          && b == 0x80
          && ((leb 0x80 c && leb c 0x8A) || c == 0xA8 || c == 0xA9 || c == 0xAF))
      || (a == 0xE2 && b == 0x81 && c == 0x9F)
      || (a == 0xE3 && b == 0x80 && c == 0x80)
    then 3
    else 0

white_two : ℕ → Bytes → ℕ
unfolding white_three
white_two a [] = 0
white_two a (b ∷ bs) =
    if a == 0xC2 && (b == 0x85 || b == 0xA0)
    then 2
    else if leb 0xE1 a && leb a 0xE3
    then white_three a b bs
    else 0

-- The size of the white space character in front, or 0.
unfoldable pub white_len : Bytes → ℕ
unfolding white_two
white_len [] = 0
white_len (b ∷ bs) = if b == b' ' || (leb 9 b && leb b 13) then 1 else white_two b bs

-- `trim_start`, where `k` bytes of a character are still to be skipped.
unfoldable pub trim_front : ℕ → Bytes → Bytes
trim_front k [] = []
trim_front (suc k) (b ∷ bs) = trim_front k bs
trim_front zero (b ∷ bs) = elim (white_len (b ∷ bs)) [ zero ↦ b ∷ bs | suc k ↦ trim_front k bs ]

unfoldable pub is_empty : Bytes → Bool
is_empty [] = true
is_empty (b ∷ bs) = false

-- `trim_end`: the text ends where only white space follows.
unfoldable pub trim_back : Bytes → Bytes
trim_back [] = []
trim_back (b ∷ bs) =
    let rest = trim_back bs in if is_empty (trim_front 0 (b ∷ bs)) then [] else b ∷ rest

unfoldable pub trim : Bytes → Bytes
trim bs = trim_back (trim_front 0 bs)

unfoldable pub add_word : Bytes → List Bytes → List Bytes
add_word [] rest = rest
add_word (c ∷ cs) rest = (c ∷ cs) ∷ rest

-- `split_whitespace`, where `word` is the word so far.
unfoldable pub words_behind : ℕ → Bytes → Bytes → List Bytes
words_behind k word [] = add_word word []
words_behind (suc k) word (b ∷ bs) = words_behind k word bs
words_behind zero word (b ∷ bs) = elim (white_len (b ∷ bs)) [
  | zero ↦ words_behind zero (word ++ b ∷ []) bs
  | suc k ↦ add_word word (words_behind k [] bs)
]

unfoldable pub split_whitespace : Bytes → List Bytes
split_whitespace bs = words_behind 0 [] bs

unfoldable pub strip_return : Bytes → Bytes
strip_return [] = []
strip_return (b ∷ []) = if b == b'\r' then [] else b ∷ []
strip_return (b ∷ c ∷ bs) = b ∷ strip_return (c ∷ bs)

-- All lines but an empty one at the end.
unfoldable pub whole_lines : List Bytes → List Bytes
whole_lines [] = []
whole_lines (line ∷ []) = if is_empty line then [] else line ∷ []
whole_lines (line ∷ next ∷ rest) = strip_return line ∷ whole_lines (next ∷ rest)

-- `str::lines`
unfoldable pub lines : Bytes → List Bytes
lines bs = whole_lines (split b'\n' bs)

wide_space :
    split_whitespace (b'a' ∷ 0xC2 ∷ 0xA0 ∷ b'\t' ∷ b'b' ∷ 0xE2 ∷ 0x80 ∷ 0x83 ∷ b'c' ∷ [])
    ≡ bytes "a" ∷ bytes "b" ∷ bytes "c" ∷ []
unfolding split_whitespace words_behind white_len add_word
wide_space = refl

some_lines : lines (bytes "a\r\n\n b") ≡ bytes "a" ∷ [] ∷ bytes " b" ∷ []
unfolding lines split strip_return whole_lines adb_client.Base.Bytes.cons_head is_empty
some_lines = refl

trimmed : trim (bytes "\t Success \r") ≡ bytes "Success"
unfolding trim trim_back trim_front white_len is_empty
trimmed = refl
