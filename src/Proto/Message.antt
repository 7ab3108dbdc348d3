-- ===== src/Proto/Message.antt =====
-- adb_proto/src/message.rs: the packet header, its checksum, and the incremental decoder.
pub mod Words
pub mod Checksum
pub mod RoundTrip
pub mod Push
pub mod Shrink
use adb_client.Base.{
  ℕ, suc, ◌+◌, ◌*◌, ◌%◌, ◌^◌, Bool, true, not, ◌&&◌, [], ◌∷◌, ◌++◌, Option, none, some, length,
  drop, take, slice, ltb, ◌==◌, if◌then◌else◌, bit_xor,
}
use adb_client.Base.Outcome.{Result, ok, err, ◌>>=◌}
use adb_client.Base.Bytes.{Bytes}
use adb_client.Base.Words.{to_le_bytes, from_le_bytes}
use adb_client.Proto.Kinds.{
  Command, cnxn, clse, auth, open_stream, wrte, okay, stls, ProtoError, bad_magic,
  payload_too_large, bad_checksum, unknown_command,
}

-- `HEADER_LEN`
abbrev pub header_len : ℕ
header_len = 24

-- `command as u32`
abbrev pub as_u32 : Command → ℕ
as_u32 cnxn = 0x4E584E43
as_u32 clse = 0x45534C43
as_u32 auth = 0x48545541
as_u32 open_stream = 0x4E45504F
as_u32 wrte = 0x45545257
as_u32 okay = 0x59414B4F
as_u32 stls = 0x534C5453

-- `Command::try_from`
unfoldable pub try_from : ℕ → Result ProtoError Command
try_from value =
    if value == 0x4E584E43
    then ok cnxn
    else if value == 0x45534C43
    then ok clse
    else if value == 0x48545541
    then ok auth
    else if value == 0x4E45504F
    then ok open_stream
    else if value == 0x45545257
    then ok wrte
    else if value == 0x59414B4F
    then ok okay
    else if value == 0x534C5453
    then ok stls
    else err (unknown_command value)

unfoldable pub magic : Command → ℕ
magic c = bit_xor (as_u32 c) 0xFFFFFFFF

pub record Packet : Type 0 where
  pub command : Command
  pub arg0 : ℕ
  pub arg1 : ℕ
  pub payload : Bytes

-- The fold of `checksum`, from the sum so far.
unfoldable pub checksum_from : ℕ → Bytes → ℕ
checksum_from acc [] = acc
checksum_from acc (b ∷ bs) = checksum_from ((acc + b) % 2 ^ 32) bs

unfoldable pub checksum : Bytes → ℕ
unfolding checksum_from
checksum data_bytes = checksum_from 0 data_bytes

-- The six words of a header, once the length is known to fit.
unfoldable pub header_bytes : Packet → Bytes
header_bytes p =
    to_le_bytes (as_u32 p.command)
    ++ (to_le_bytes p.arg0
        ++ (to_le_bytes p.arg1
            ++ (to_le_bytes (length p.payload)
                ++ (to_le_bytes (checksum p.payload) ++ to_le_bytes (magic p.command)))))

-- `Packet::encode_header`. `none` is the panic of `expect` on a payload of 2^32 bytes or more.
unfoldable pub encode_header : Packet → Option Bytes
encode_header p = if ltb (length p.payload) (2 ^ 32) then some (header_bytes p) else none

pub record PendingHeader : Type 0 where
  pub command : Command
  pub arg0 : ℕ
  pub arg1 : ℕ
  pub len : ℕ
  pub checksum : ℕ

pub record PacketDecoder : Type 0 where
  pub buf : Bytes
  pub header : Option PendingHeader
  pub max_payload : ℕ
  pub verify_checksum : Bool

-- `PacketDecoder::new`
unfoldable pub new : ℕ → PacketDecoder
new max_payload = record {
  buf = [];
  header = none;
  max_payload = max_payload;
  verify_checksum = true;
}

unfoldable pub set_max_payload : PacketDecoder → ℕ → PacketDecoder
set_max_payload d max_payload = record d { max_payload = max_payload }

unfoldable pub set_verify_checksum : PacketDecoder → Bool → PacketDecoder
set_verify_checksum d verify = record d { verify_checksum = verify }

abbrev pub push : PacketDecoder → Bytes → PacketDecoder
push d bytes = record d { buf = d.buf ++ bytes }

-- What the decoder holds; a pending header counts as one byte.
abbrev pub size : PacketDecoder → ℕ
size d = elim d.header [ none ↦ length d.buf | some _ ↦ suc (length d.buf) ]

-- The closure `word` of `next_packet`.
unfoldable pub word : Bytes → ℕ → ℕ
word buf i = from_le_bytes (slice (i * 4) (i * 4 + 4) buf)

-- The checks of `next_packet` on a header that has arrived.
unfoldable pub read_header : Bytes → ℕ → Result ProtoError PendingHeader
read_header buf max_payload = do
  command ← try_from (word buf 0)
  if not (word buf 5 == magic command)
      then err bad_magic
      else if ltb max_payload (word buf 3)
      then err (payload_too_large (word buf 3) max_payload)
      else ok (record {
        command = command;
        arg0 = word buf 1;
        arg1 = word buf 2;
        len = word buf 3;
        checksum = word buf 4;
      })

-- The second half of `next_packet`: the payload of the header `h`, if all of it has arrived.
unfoldable pub take_payload :
    PacketDecoder → PendingHeader → PacketDecoder × Result ProtoError (Option Packet)
take_payload d h = if ltb (length d.buf) h.len then (d, ok none) else (
  record d { buf = drop h.len d.buf; header = none },
  (if d.verify_checksum && not (checksum (take h.len d.buf) == h.checksum)
      then err bad_checksum
      else ok (
          some (record {
            command = h.command;
            arg0 = h.arg0;
            arg1 = h.arg1;
            payload = take h.len d.buf;
          }))),
)

-- The first half of `next_packet`, where no header is pending.
unfoldable pub start_packet : PacketDecoder → PacketDecoder × Result ProtoError (Option Packet)
start_packet d =
    if ltb (length d.buf) header_len then (d, ok none) else elim (read_header d.buf d.max_payload) [
      | err e ↦ (d, err e)
      | ok h ↦ take_payload (record d { buf = drop header_len d.buf; header = some h }) h
    ]

-- `PacketDecoder::next_packet`. An error leaves the state as it was reached.
unfoldable pub next_packet : PacketDecoder → PacketDecoder × Result ProtoError (Option Packet)
unfolding start_packet
next_packet d = elim d.header [ none ↦ start_packet d | some h ↦ take_payload d h ]
