-- ===== src/Proto/Message/Words.antt =====
-- The words of a header as `next_packet` reads them.
use adb_client.Base.{
  ℕ, ◌+◌, ◌*◌, ◌≤◌, ◌≡◌, refl, ap, ◌++◌, arith, length, slice-append, ==_refl, le→ltb,
}
use adb_client.Base.Outcome.{ok}
use adb_client.Base.Bytes.{Bytes}
use adb_client.Base.Words.{from_le_bytes, IsU32, from_le_bytes-to_le_bytes}
use adb_client.Proto.Kinds.{Command, cnxn, clse, auth, open_stream, wrte, okay, stls}
use adb_client.Proto.Message.{
  as_u32, try_from, magic, Packet, checksum, header_bytes, PendingHeader, word, read_header,
}
use adb_client.Proto.Message.Checksum.{checksum-IsU32}

-- `try_from` accepts the code of every command, and `magic` fits a word.
pub try_from-as_u32 : (c : Command) → try_from (as_u32 c) ≡ ok c
unfolding try_from
try_from-as_u32 cnxn = refl
try_from-as_u32 clse = refl
try_from-as_u32 auth = refl
try_from-as_u32 open_stream = refl
try_from-as_u32 wrte = refl
try_from-as_u32 okay = refl
try_from-as_u32 stls = refl

as_u32-IsU32 : (c : Command) → IsU32 (as_u32 c)
as_u32-IsU32 cnxn = omega arith
as_u32-IsU32 clse = omega arith
as_u32-IsU32 auth = omega arith
as_u32-IsU32 open_stream = omega arith
as_u32-IsU32 wrte = omega arith
as_u32-IsU32 okay = omega arith
as_u32-IsU32 stls = omega arith

magic-IsU32 : (c : Command) → IsU32 (magic c)
unfolding magic
magic-IsU32 cnxn = omega arith
magic-IsU32 clse = omega arith
magic-IsU32 auth = omega arith
magic-IsU32 open_stream = omega arith
magic-IsU32 wrte = omega arith
magic-IsU32 okay = omega arith
magic-IsU32 stls = omega arith

-- What fits the four-byte words and the size limit of a decoder.
pub record Fits (max_payload : ℕ) (p : Packet) : Type 0 where
  pub arg0_fits : IsU32 p.arg0
  pub arg1_fits : IsU32 p.arg1
  pub payload_fits : IsU32 (length p.payload)
  pub payload_le_max : length p.payload ≤ max_payload

-- The header that `next_packet` keeps for `p`.
abbrev pub pending : Packet → PendingHeader
pending p = record {
  command = p.command;
  arg0 = p.arg0;
  arg1 = p.arg1;
  len = length p.payload;
  checksum = checksum p.payload;
}

pub length-header_bytes :
    (p : Packet) (rest : Bytes) → length (header_bytes p ++ rest) ≡ 24 + length rest
unfolding header_bytes
length-header_bytes p rest = omega arith

module _ (p : Packet) (rest : Bytes) where
  word_0 : word (header_bytes p ++ rest) 0 ≡ as_u32 p.command
  unfolding word header_bytes
  word_0 = from_le_bytes-to_le_bytes _ (as_u32-IsU32 p.command)

  word_1 : IsU32 p.arg0 → word (header_bytes p ++ rest) 1 ≡ p.arg0
  unfolding word header_bytes
  word_1 h = from_le_bytes-to_le_bytes _ h

  word_2 : IsU32 p.arg1 → word (header_bytes p ++ rest) 2 ≡ p.arg1
  unfolding word header_bytes
  word_2 h = from_le_bytes-to_le_bytes _ h

  word_3 : IsU32 (length p.payload) → word (header_bytes p ++ rest) 3 ≡ length p.payload
  unfolding word header_bytes
  word_3 h = from_le_bytes-to_le_bytes _ h

  word_4 : word (header_bytes p ++ rest) 4 ≡ checksum p.payload
  unfolding word header_bytes
  word_4 = from_le_bytes-to_le_bytes _ (checksum-IsU32 p.payload)

  word_5 : word (header_bytes p ++ rest) 5 ≡ magic p.command
  unfolding word header_bytes
  word_5 = from_le_bytes-to_le_bytes _ (magic-IsU32 p.command)

pub read_header-header_bytes :
    (max_payload : ℕ) (p : Packet) (rest : Bytes)
    → Fits max_payload p
    → read_header (header_bytes p ++ rest) max_payload ≡ ok (pending p)
unfolding read_header
read_header-header_bytes max_payload p rest fits = rw (
  word_0 p rest,
  word_1 p rest fits.arg0_fits,
  word_2 p rest fits.arg1_fits,
  word_3 p rest fits.payload_fits,
  word_4 p rest,
  word_5 p rest,
  try_from-as_u32 p.command,
  ==_refl (magic p.command),
  le→ltb _ _ fits.payload_le_max,
)

-- Bytes that arrive behind a header change none of its words.
word-append :
    (buf more : Bytes) (i : ℕ) → i * 4 + 4 ≤ length buf → word (buf ++ more) i ≡ word buf i
unfolding word
word-append buf more i h = ap from_le_bytes (slice-append _ _ buf more (omega arith) h)

pub read_header-append :
    (buf more : Bytes) (max_payload : ℕ)
    → 24 ≤ length buf
    → read_header (buf ++ more) max_payload ≡ read_header buf max_payload
unfolding read_header
read_header-append buf more max_payload h = rw (
  word-append buf more 0 (omega arith),
  word-append buf more 1 (omega arith),
  word-append buf more 2 (omega arith),
  word-append buf more 3 (omega arith),
  word-append buf more 4 (omega arith),
  word-append buf more 5 (omega arith),
)
