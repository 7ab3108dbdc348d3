-- ===== src/Client/Kinds.antt =====
-- The enumerations of adb_client/src/message_devices: message commands and sync subcommands
-- (message_commands.rs), and the errors that the modelled functions return.
use adb_client.Base.{ℕ, Option, none, some, ◌==◌, if◌then◌else◌}
use adb_client.Base.Bytes.{Bytes}

-- `MessageCommand`; `open_stream` is `Open`.
pub data MessageCommand : Type 0 where
  cnxn clse auth open_stream write okay stls : MessageCommand

-- `u32::from` of a `MessageCommand`.
abbrev pub command_code : MessageCommand → ℕ
command_code cnxn = 0x4E584E43
command_code clse = 0x45534C43
command_code auth = 0x48545541
command_code open_stream = 0x4E45504F
command_code write = 0x45545257
command_code okay = 0x59414B4F
command_code stls = 0x534C5453

-- `MessageCommand::try_from`, which is derived from the codes.
unfoldable pub command_of : ℕ → Option MessageCommand
command_of value =
    if value == 0x4E584E43
    then some cnxn
    else if value == 0x45534C43
    then some clse
    else if value == 0x48545541
    then some auth
    else if value == 0x4E45504F
    then some open_stream
    else if value == 0x45545257
    then some write
    else if value == 0x59414B4F
    then some okay
    else if value == 0x534C5453
    then some stls
    else none

-- `MessageSubcommand`
pub data MessageSubcommand : Type 0 where
  stat send recv quit fail done sync_data list : MessageSubcommand

-- `u32::from` of a `MessageSubcommand`.
abbrev pub subcommand_code : MessageSubcommand → ℕ
subcommand_code stat = 0x54415453
subcommand_code send = 0x444E4553
subcommand_code recv = 0x56434552
subcommand_code quit = 0x54495551
subcommand_code fail = 0x4C494146
subcommand_code done = 0x454E4F44
subcommand_code sync_data = 0x41544144
subcommand_code list = 0x5453494C

-- `MessageSubcommand::try_from`
unfoldable pub subcommand_of : ℕ → Option MessageSubcommand
subcommand_of value =
    if value == 0x54415453
    then some stat
    else if value == 0x444E4553
    then some send
    else if value == 0x56434552
    then some recv
    else if value == 0x54495551
    then some quit
    else if value == 0x4C494146
    then some fail
    else if value == 0x454E4F44
    then some done
    else if value == 0x41544144
    then some sync_data
    else if value == 0x5453494C
    then some list
    else none

-- The errors, with what goes into their texts.
pub data RustAdbError : Type 0 where
  conversion_error : RustAdbError
  invalid_magic : RustAdbError
  payload_exceeds : ℕ → RustAdbError
  wrong_response_received : (ours expected : MessageCommand) → RustAdbError
  unexpected_eof : RustAdbError
  sync_error_exceeds : RustAdbError
  request_failed : Bytes → RustAdbError
  unexpected_sync_response : MessageSubcommand → RustAdbError
  unknown_sync_response : ℕ → RustAdbError
  invalid_legacy_stat : RustAdbError
  wrong_command_received : MessageCommand → RustAdbError
  try_from_int : RustAdbError
  io_error : RustAdbError
  not_a_tcp_end : Bytes → RustAdbError
  invalid_port : RustAdbError
  wrong_destination : (destination expected : Bytes) → RustAdbError
  unknown_stream : RustAdbError
  id_mismatch : RustAdbError
  unexpected_in_relay : MessageCommand → RustAdbError
  no_connection : ℕ → RustAdbError
  shell_parse_error : Bytes → RustAdbError
  wrong_response : Bytes → MessageCommand → RustAdbError
  utf8_error key_error : RustAdbError
