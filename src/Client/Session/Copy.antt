-- ===== src/Client/Session/Copy.antt =====
-- adb_client/src/message_devices/adb_session.rs: `copy_sync_file`, the receiving end of a file.
use adb_client.Base.{
  ℕ, zero, suc, ◌*◌, [], ◌++◌, none, some, length, take, drop, ltb, if◌then◌else◌,
}
use adb_client.Base.Bytes.{Bytes}
use adb_client.Base.Utf8.{from_utf8_lossy}
use adb_client.Client.Kinds.{
  MessageSubcommand, fail, done, sync_data, subcommand_of, RustAdbError, unexpected_eof,
  sync_error_exceeds, request_failed, unexpected_sync_response, unknown_sync_response,
}
use adb_client.Client.Message.{read_u32}

-- `MAX_SYNC_ERROR_LENGTH`
abbrev pub max_sync_error_length : ℕ
max_sync_error_length = 1024 * 1024

-- How the copy ends; `stuck` marks a loop that ran out of fuel.
pub data CopyEnd : Type 0 where
  finished : CopyEnd
  failed : RustAdbError → CopyEnd
  stuck : CopyEnd

-- What a round of the loop makes of the input: the body of a DATA frame and the input behind it, or
-- an end, with the bytes that are still copied.
pub data Frame : Type 0 where
  copied : (body left : Bytes) → Frame
  ended : (body left : Bytes) → CopyEnd → Frame

-- The arms of the match on the subcommand; `input` stands behind the header.
unfoldable pub on_subcommand : MessageSubcommand → ℕ → Bytes → Frame
on_subcommand sync_data len input =
    if ltb (length input) len
    then ended input [] (failed unexpected_eof)
    else copied (take len input) (drop len input)
on_subcommand done len input = ended [] input finished
on_subcommand fail len input =
    if ltb max_sync_error_length len
    then ended [] input (failed sync_error_exceeds)
    else if ltb (length input) len
    then ended [] [] (failed unexpected_eof)
    else ended [] (drop len input) (failed (request_failed (from_utf8_lossy (take len input))))
on_subcommand other len input = ended [] input (failed (unexpected_sync_response other))

unfoldable pub read_frame : Bytes → Frame
unfolding on_subcommand read_u32
read_frame input =
    if ltb (length input) 8
    then ended [] [] (failed unexpected_eof)
    else elim (subcommand_of (read_u32 input 0)) [
      | none ↦ ended [] (drop 8 input) (failed (unknown_sync_response (read_u32 input 0)))
      | some c ↦ on_subcommand c (read_u32 input 4) (drop 8 input)
    ]

-- What is left of the input, what has been copied, and the end.
abbrev pub Copied : Type 0
Copied = Bytes × Bytes × CopyEnd

abbrev pub go_on : (Bytes → Bytes → Copied) → Bytes → Frame → Copied
go_on more output (copied body left) = more left (output ++ body)
go_on more output (ended body left end) = (left, output ++ body, end)

-- The loop of `copy_sync_file`, on fuel.
unfoldable pub copy_from : ℕ → Bytes → Bytes → Copied
unfolding read_frame
copy_from zero input output = (input, output, stuck)
copy_from (suc fuel) input output = go_on (copy_from fuel) output (read_frame input)

-- `copy_sync_file` on an input that delivers these bytes, in whatever pieces, and then ends, and an
-- output that takes all bytes. Each round takes eight bytes at least.
unfoldable pub copy_sync_file : Bytes → Copied
unfolding copy_from
copy_sync_file input = copy_from (suc (length input)) input []
