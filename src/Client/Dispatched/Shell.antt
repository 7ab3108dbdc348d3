-- ===== src/Client/Dispatched/Shell.antt =====
-- `shell_command` and `pull` of adb_client/src/message_devices/dispatched_device.rs, on an open
-- service: the loops over the packets that the device puts into the stream.

pub mod Output
pub mod Download
use adb_client.Base.{
  ltb, leb, ◌==◌, if◌then◌else◌, length, take, slice, ℕ, zero, suc, ◌+◌, ◌-◌, ◌*◌, ◌^◌, ◌&&◌, List,
  [], ◌∷◌, ◌++◌,
}
use adb_client.Base.Outcome.{Result, ok, err}
use adb_client.Base.Bytes.{Bytes, bytes, bytes_eq}
use adb_client.Base.Decimal.{to_decimal}
use adb_client.Base.Utf8.{from_utf8_lossy}
use adb_client.Base.Words.{to_le_bytes, from_le_bytes}
use adb_client.Client.Kinds.{RustAdbError, request_failed, shell_parse_error, try_from_int}
use adb_client.Client.Message.{Message}
use adb_client.Client.Session.{AdbSession}
use adb_client.Client.Dispatched.{Ended, close_ack, read_bytes, send_expect_okay}

-- How a loop ends; `stuck` marks one that ran out of fuel.
pub data LoopEnd : Type 0 where
  ended : Result RustAdbError (Unit {0}) → LoopEnd
  stuck : LoopEnd

-- The service at the end, what was written to the output, and the end.
abbrev pub Ran : Type 0
Ran = AdbSession × Bytes × LoopEnd

-- A read of the loop, which goes on with the bytes and with what stays buffered.
abbrev pub with_bytes :
    Bytes
    → (AdbSession → Bytes → Bytes → Ran)
    → AdbSession × Result RustAdbError (Bytes × Bytes)
    → Ran
with_bytes output next (s, ok (data_bytes, left)) = next s data_bytes left
with_bytes output next (s, err e) = (s, output, ended (err e))

-- The diagnostics so far with more behind them, 64 KiB at most.
unfoldable pub add_errors : Bytes → Bytes → Bytes
add_errors errors more =
    if ltb (length errors) (64 * 1024)
    then errors ++ take (64 * 1024 - length errors) more
    else errors

unfoldable pub exit_result : ℕ → Bytes → Result RustAdbError (Unit {0})
exit_result code errors =
    if code == 0
    then ok tt
    else err (
        request_failed (
          bytes "remote command exited "
          ++ (to_decimal code ++ (bytes ": " ++ from_utf8_lossy errors))))

abbrev pub closed : Bytes → Result RustAdbError (Unit {0}) → Ended → Ran
closed output result (s, ok _) = (s, output, ended result)
closed output result (s, err e) = (s, output, ended (err e))

-- The packet that ends the command: one byte, its exit code.
unfoldable pub on_exit : AdbSession → Bytes → Bytes → Bytes → Ran
on_exit s output errors (code ∷ []) = closed output (exit_result code errors) (close_ack s)
on_exit s output errors payload = (
  s,
  output,
  ended (
      err (
        shell_parse_error (
          bytes "exit packet has "
          ++ (to_decimal (length payload) ++ bytes " bytes instead of 1")))),
)

-- The match on the kind of a packet; `more` goes on with the output and the diagnostics.
unfoldable pub on_shell_packet :
    (Bytes → Bytes → Ran) → ℕ → Bytes → AdbSession → Bytes → Bytes → Ran
on_shell_packet more id payload s output errors =
    if id == 1
    then more (output ++ payload) errors
    else if id == 2
    then more output (add_errors errors payload)
    else if id == 3
    then on_exit s output errors payload
    else (s, output, ended (err (request_failed (bytes "invalid shell packet"))))

abbrev pub first_byte : Bytes → ℕ
first_byte [] = 0
first_byte (b ∷ bs) = b

-- A packet of a known size; `more` goes on with the service and what stays buffered.
unfoldable pub on_sized :
    (AdbSession → Bytes → Bytes → Bytes → Ran) → ℕ → ℕ → Bytes → Bytes → AdbSession → Bytes → Ran
on_sized more id size output errors s left =
    if ltb (1024 * 1024) size
    then (s, output, ended (err (request_failed (bytes "oversized shell packet"))))
    else with_bytes output
        (λ s' payload rest. on_shell_packet (more s' rest) id payload s' output errors)
        (read_bytes s left size)

-- The loop of `shell_command`, on fuel; `output` and `errors` are what there is so far.
unfoldable pub shell_loop : ℕ → AdbSession → Bytes → Bytes → Bytes → Ran
shell_loop zero s buffered output errors = (s, output, stuck)
shell_loop (suc fuel) s buffered output errors =
    with_bytes output
      (λ s' header left.
        on_sized (shell_loop fuel) (first_byte header) (from_le_bytes (slice 1 5 header)) output
          errors s' left)
      (read_bytes s buffered 5)

-- The payloads that the channel still brings.
unfoldable pub total_bytes : List (Result RustAdbError Message) → ℕ
total_bytes [] = 0
total_bytes (ok m ∷ reads) = length m.payload + total_bytes reads
total_bytes (err e ∷ reads) = total_bytes reads

-- `shell_command` on the service that was opened for it. A round takes five bytes at least.
unfoldable pub shell_command : AdbSession → Ran
shell_command s = shell_loop (suc (total_bytes s.transport.reads)) s [] [] []

-- The match on the name of a frame of a download; `rest` reads its body.
unfoldable pub pull_loop : ℕ → AdbSession → Bytes → Bytes → Ran
pull_loop zero s buffered output = (s, output, stuck)
pull_loop (suc fuel) s buffered output =
    with_bytes output
      (λ s1 header left.
        let size = from_le_bytes (slice 4 8 header) in
        let name = take 4 header in
        let body = read_bytes s1 left size in
        if bytes_eq name (bytes "DONE")
        then (s1, output, ended (ok tt))
        else if bytes_eq name (bytes "DATA") && leb size (64 * 1024)
        then with_bytes output (λ s2 payload rest. pull_loop fuel s2 rest (output ++ payload)) body
        else if bytes_eq name (bytes "FAIL") && leb size (64 * 1024)
        then with_bytes output
            (λ s2 payload rest.
              (s2, output, ended (err (request_failed (from_utf8_lossy payload)))))
            body
        else (s1, output, ended (err (request_failed (bytes "invalid sync download packet")))))
      (read_bytes s buffered 8)

-- The service is closed at the end, and how that ends is not looked at.
abbrev pub close_after : Ran → Ran
close_after (s, output, end) = ((close_ack s).0, output, end)

abbrev pub after_request : Ended → Ran
after_request (s, err e) = (s, [], ended (err e))
after_request (s, ok _) = close_after (pull_loop (suc (total_bytes s.transport.reads)) s [] [])

-- `pull` on an open sync service.
unfoldable pub pull : Bytes → AdbSession → Ran
pull path s =
    if ltb (length path) (2 ^ 32)
    then after_request (send_expect_okay s (bytes "RECV" ++ (to_le_bytes (length path) ++ path)))
    else (s, [], ended (err try_from_int))
