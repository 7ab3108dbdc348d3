-- ===== src/Client/Message.antt =====
-- adb_client/src/message_devices/adb_transport_message.rs and the encodings of message_commands.rs.
pub mod Codec
use adb_client.Base.{
  ℕ, ◌+◌, ◌*◌, ◌%◌, ◌^◌, Bool, true, false, not, ◌&&◌, [], ◌∷◌, ◌++◌, Option, none, some, length,
  slice, ltb, ◌==◌, if◌then◌else◌, bit_xor,
}
use adb_client.Base.Outcome.{Result, ok, err, ◌>>=◌}
use adb_client.Base.Bytes.{Bytes}
use adb_client.Base.Words.{to_le_bytes, from_le_bytes}
use adb_client.Client.Kinds.{
  MessageCommand, command_code, command_of, MessageSubcommand, subcommand_code, subcommand_of,
  RustAdbError, conversion_error, invalid_magic, payload_exceeds, wrong_response_received,
  try_from_int,
}

-- `MAX_ADB_MESSAGE_PAYLOAD`
abbrev pub max_adb_message_payload : ℕ
max_adb_message_payload = 1024 * 1024

-- `ADBTransportMessageHeader`
pub record Header : Type 0 where
  pub command : MessageCommand
  pub arg0 : ℕ
  pub arg1 : ℕ
  pub data_length : ℕ
  pub data_crc32 : ℕ
  pub magic : ℕ

-- `ADBTransportMessage`
pub record Message : Type 0 where
  pub header : Header
  pub payload : Bytes

-- `compute_crc32`; the sum wraps, as in a build without overflow checks.
unfoldable pub compute_crc32 : Bytes → ℕ
compute_crc32 [] = 0
compute_crc32 (b ∷ bs) = (b + compute_crc32 bs) % 2 ^ 32

unfoldable pub compute_magic : MessageCommand → ℕ
compute_magic c = bit_xor (command_code c) 0xFFFFFFFF

abbrev pub header_of : MessageCommand → ℕ → ℕ → Bytes → Header
header_of command arg0 arg1 payload = record {
  command = command;
  arg0 = arg0;
  arg1 = arg1;
  data_length = length payload;
  data_crc32 = compute_crc32 payload;
  magic = compute_magic command;
}

-- `ADBTransportMessageHeader::try_new`
unfoldable pub try_new_header : MessageCommand → ℕ → ℕ → Bytes → Result RustAdbError Header
try_new_header command arg0 arg1 payload =
    if ltb (length payload) (2 ^ 32)
    then ok (header_of command arg0 arg1 payload)
    else err try_from_int

-- `ADBTransportMessage::try_new`
unfoldable pub try_new : MessageCommand → ℕ → ℕ → Bytes → Result RustAdbError Message
unfolding try_new_header
try_new command arg0 arg1 payload = do
  header ← try_new_header command arg0 arg1 payload
  ok (record { header = header; payload = payload })

unfoldable pub validate_before_payload : Header → Result RustAdbError (Unit {0})
validate_before_payload h =
    if not (h.magic == compute_magic h.command)
    then err invalid_magic
    else if ltb max_adb_message_payload h.data_length
    then err (payload_exceeds h.data_length)
    else ok tt

-- `ADBTransportMessageHeader::encode`
unfoldable pub encode : Header → Bytes
encode h =
    to_le_bytes (command_code h.command)
    ++ (to_le_bytes h.arg0
        ++ (to_le_bytes h.arg1
            ++ (to_le_bytes h.data_length ++ (to_le_bytes h.data_crc32 ++ to_le_bytes h.magic))))

-- `LittleEndian::read_u32` of the four bytes at an offset.
unfoldable pub read_u32 : Bytes → ℕ → ℕ
read_u32 input i = from_le_bytes (slice i (i + 4) input)

-- `ADBTransportMessageHeader::decode`; the record has 24 bytes.
unfoldable pub decode : Bytes → Result RustAdbError Header
unfolding read_u32
decode input =
    if not (length input == 24)
    then err conversion_error
    else elim (command_of (read_u32 input 0)) [
      | none ↦ err conversion_error
      | some command ↦ ok (record {
        command = command;
        arg0 = read_u32 input 4;
        arg1 = read_u32 input 8;
        data_length = read_u32 input 12;
        data_crc32 = read_u32 input 16;
        magic = read_u32 input 20;
      })
    ]

unfoldable pub check_message_integrity : Message → Bool
check_message_integrity m =
    (compute_magic m.header.command == m.header.magic)
    && (compute_crc32 m.payload == m.header.data_crc32)

-- `assert_command`; commands are compared by their codes.
unfoldable pub assert_command : Message → MessageCommand → Result RustAdbError (Unit {0})
assert_command m expected =
    if command_code expected == command_code m.header.command
    then ok tt
    else err (wrong_response_received m.header.command expected)

-- `SubcommandWithArg`, made by `with_arg`.
pub record SubcommandWithArg : Type 0 where
  pub subcommand : MessageSubcommand
  pub arg : ℕ

abbrev pub with_arg : MessageSubcommand → ℕ → SubcommandWithArg
with_arg subcommand arg = record { subcommand = subcommand; arg = arg }

-- `SubcommandWithArg::encode`
unfoldable pub encode_subcommand : SubcommandWithArg → Bytes
encode_subcommand s = to_le_bytes (subcommand_code s.subcommand) ++ to_le_bytes s.arg

-- `SubcommandWithArg::decode`; the record has 8 bytes, and what follows them is not read.
unfoldable pub decode_subcommand : Bytes → Result RustAdbError SubcommandWithArg
unfolding read_u32
decode_subcommand input =
    if ltb (length input) 8 then err conversion_error else elim (subcommand_of (read_u32 input 0)) [
      | none ↦ err conversion_error
      | some subcommand ↦ ok (with_arg subcommand (read_u32 input 4))
    ]
