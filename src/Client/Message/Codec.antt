-- ===== src/Client/Message/Codec.antt =====
-- The encodings of adb_transport_message.rs and message_commands.rs, and their agreement with adb_proto.
use adb_client.Base.{
  ℕ, ◌%◌, ◌≡◌, ◌∙◌, sym, refl, arith, true, [], ◌∷◌, ◌++◌, length, some, le→ltb, lt→ltb, ==_refl,
  ltb, if◌then◌else◌, ◌^◌,
}
use adb_client.Base.Outcome.{ok, err}
use adb_client.Base.Bytes.{Bytes}
use adb_client.Base.Words.{IsU32, to_le_bytes, from_le_bytes-to_le_bytes}
use adb_client.Proto.Kinds
use adb_client.Proto.Kinds.{Command}
use adb_client.Proto.Message.{Packet, as_u32, magic, checksum, header_bytes, encode_header}
use adb_client.Proto.Message.Checksum.{sum, checksum-sum}
use adb_client.Client.Kinds.{
  payload_exceeds, MessageCommand, cnxn, clse, auth, open_stream, write, okay, stls, command_code,
  command_of, MessageSubcommand, subcommand_code, subcommand_of,
}
use adb_client.Client.Message.{
  Header, Message, compute_crc32, compute_magic, header_of, try_new, validate_before_payload,
  encode, decode, read_u32, check_message_integrity, max_adb_message_payload, with_arg,
  encode_subcommand, decode_subcommand,
}

-- The words of a header that are not the command.
pub record FitsWords (h : Header) : Type 0 where
  pub arg0_fits : IsU32 h.arg0
  pub arg1_fits : IsU32 h.arg1
  pub data_length_fits : IsU32 h.data_length
  pub data_crc32_fits : IsU32 h.data_crc32
  pub magic_fits : IsU32 h.magic

command_of-command_code : (c : MessageCommand) → command_of (command_code c) ≡ some c
unfolding command_of
command_of-command_code cnxn = refl
command_of-command_code clse = refl
command_of-command_code auth = refl
command_of-command_code open_stream = refl
command_of-command_code write = refl
command_of-command_code okay = refl
command_of-command_code stls = refl

command_code-IsU32 : (c : MessageCommand) → IsU32 (command_code c)
command_code-IsU32 cnxn = omega arith
command_code-IsU32 clse = omega arith
command_code-IsU32 auth = omega arith
command_code-IsU32 open_stream = omega arith
command_code-IsU32 write = omega arith
command_code-IsU32 okay = omega arith
command_code-IsU32 stls = omega arith

-- A header of 32-bit words is read back by `decode` from what `encode` makes of it.
pub decode-encode : (h : Header) → FitsWords h → decode (encode h) ≡ ok h
unfolding decode encode read_u32
decode-encode h fits = rw (
  from_le_bytes-to_le_bytes (command_code h.command) (command_code-IsU32 h.command),
  command_of-command_code h.command,
  from_le_bytes-to_le_bytes h.arg0 fits.arg0_fits,
  from_le_bytes-to_le_bytes h.arg1 fits.arg1_fits,
  from_le_bytes-to_le_bytes h.data_length fits.data_length_fits,
  from_le_bytes-to_le_bytes h.data_crc32 fits.data_crc32_fits,
  from_le_bytes-to_le_bytes h.magic fits.magic_fits,
)

subcommand_of-subcommand_code :
    (c : MessageSubcommand)
    → (subcommand_of (subcommand_code c) ≡ some c) × IsU32 (subcommand_code c)
unfolding subcommand_of
subcommand_of-subcommand_code MessageSubcommand.stat = (refl, omega arith)
subcommand_of-subcommand_code MessageSubcommand.send = (refl, omega arith)
subcommand_of-subcommand_code MessageSubcommand.recv = (refl, omega arith)
subcommand_of-subcommand_code MessageSubcommand.quit = (refl, omega arith)
subcommand_of-subcommand_code MessageSubcommand.fail = (refl, omega arith)
subcommand_of-subcommand_code MessageSubcommand.done = (refl, omega arith)
subcommand_of-subcommand_code MessageSubcommand.sync_data = (refl, omega arith)
subcommand_of-subcommand_code MessageSubcommand.list = (refl, omega arith)

-- A subcommand with a 32-bit argument is read back from its encoding, whatever follows it.
pub decode_subcommand-encode_subcommand :
    (c : MessageSubcommand) (arg : ℕ) (rest : Bytes)
    → IsU32 arg
    → decode_subcommand (encode_subcommand (with_arg c arg) ++ rest) ≡ ok (with_arg c arg)
unfolding decode_subcommand encode_subcommand read_u32
decode_subcommand-encode_subcommand c arg rest small =
    let (named, fits) = subcommand_of-subcommand_code c in
    rw (
      from_le_bytes-to_le_bytes (subcommand_code c) fits,
      named,
      from_le_bytes-to_le_bytes arg small,
      le→ltb (length (to_le_bytes (subcommand_code c) ++ (to_le_bytes arg ++ rest))) 8
          (omega arith),
    )

-- The same command in adb_proto.
abbrev pub proto_command : MessageCommand → Command
proto_command cnxn = Kinds.cnxn
proto_command clse = Kinds.clse
proto_command auth = Kinds.auth
proto_command open_stream = Kinds.open_stream
proto_command write = Kinds.wrte
proto_command okay = Kinds.okay
proto_command stls = Kinds.stls

compute_crc32-sum : (bs : Bytes) → compute_crc32 bs ≡ sum bs % 2 ^ 32
unfolding compute_crc32
compute_crc32-sum [] = refl
compute_crc32-sum (b ∷ bs) = omega (arith, compute_crc32-sum bs)

same_crc : (bs : Bytes) → compute_crc32 bs ≡ checksum bs
same_crc bs = compute_crc32-sum bs ∙ sym (checksum-sum bs)

abbrev pub message_of : MessageCommand → ℕ → ℕ → Bytes → Message
message_of c arg0 arg1 payload = record {
  header = header_of c arg0 arg1 payload;
  payload = payload;
}

abbrev pub proto_packet : MessageCommand → ℕ → ℕ → Bytes → Packet
proto_packet c arg0 arg1 payload = record {
  command = proto_command c;
  arg0 = arg0;
  arg1 = arg1;
  payload = payload;
}

try_new-message_of :
    (c : MessageCommand) (arg0 arg1 : ℕ) (payload : Bytes)
    → IsU32 (length payload)
    → try_new c arg0 arg1 payload ≡ ok (message_of c arg0 arg1 payload)
unfolding try_new
try_new-message_of c arg0 arg1 payload small = rw (lt→ltb (length payload) (2 ^ 32) small)

same_code : (c : MessageCommand) → as_u32 (proto_command c) ≡ command_code c
same_code cnxn = refl
same_code clse = refl
same_code auth = refl
same_code open_stream = refl
same_code write = refl
same_code okay = refl
same_code stls = refl

same_magic : (c : MessageCommand) → magic (proto_command c) ≡ compute_magic c
unfolding magic compute_magic
same_magic c = rw (same_code c)

-- The two crates put the same bytes on the wire: for a payload below 2^32 bytes `try_new` of adb_client
-- makes a message with that payload, and its header is encoded as adb_proto encodes the header of the
-- same packet.
pub encode-encode_header :
    (c : MessageCommand) (arg0 arg1 : ℕ) (payload : Bytes)
    → IsU32 (length payload)
    → (try_new c arg0 arg1 payload ≡ ok (message_of c arg0 arg1 payload))
      × (encode_header (proto_packet c arg0 arg1 payload)
          ≡ some (encode (message_of c arg0 arg1 payload).header))
unfolding encode_header encode header_bytes
encode-encode_header c arg0 arg1 payload small = (
  try_new-message_of c arg0 arg1 payload small,
  rw (lt→ltb (length payload) (2 ^ 32) small, same_code c, same_magic c, same_crc payload),
)

-- For a payload below 2^32 bytes, what `try_new` makes passes `check_message_integrity`, and passes
-- `validate_before_payload` exactly where the payload is not longer than 1 MiB.
pub try_new-check_message_integrity :
    (c : MessageCommand) (arg0 arg1 : ℕ) (payload : Bytes)
    → IsU32 (length payload)
    → (m : Message) × (try_new c arg0 arg1 payload ≡ ok m)
      × (check_message_integrity m ≡ true)
      × (validate_before_payload m.header ≡ (
          if ltb max_adb_message_payload (length payload)
          then err (payload_exceeds (length payload))
          else ok tt))
unfolding check_message_integrity validate_before_payload
try_new-check_message_integrity c arg0 arg1 payload small = (
  message_of c arg0 arg1 payload,
  try_new-message_of c arg0 arg1 payload small,
  rw (==_refl (compute_magic c), ==_refl (compute_crc32 payload)),
  rw (==_refl (compute_magic c)),
)
