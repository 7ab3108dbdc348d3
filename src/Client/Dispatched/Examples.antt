-- ===== src/Client/Dispatched/Examples.antt =====
-- The theorems about the dispatched device at concrete packets.
use adb_client.Base.{◌≡◌, refl, inl, inr, List, [], ◌∷◌, ◌++◌, arith}
use adb_client.Base.Outcome.{Result, ok}
use adb_client.Base.Bytes.{Bytes, bytes}
use adb_client.Client.Kinds.{MessageCommand, clse, write, okay, RustAdbError, io_error}
use adb_client.Client.Message.{Message, header_of}
use adb_client.Client.Session.{AdbSession}
use adb_client.Client.Session.Pushed.{session}
use adb_client.Client.Dispatched.Source.{received, bytes_of}
use adb_client.Client.Dispatched.Shell.{ended, shell_command, pull}
use adb_client.Client.Dispatched.Shell.Output.{
  Part, out_part, error_part, output_of, diagnostics_of, IsExit, shell_command-shell_stream,
}
use adb_client.Client.Dispatched.Shell.Download.{pull-data_frames}
use adb_client.Client.Dispatched.Drain.{drain_to, drain_to-closed}
use adb_client.Proto.Sync.Request
use adb_client.Proto.Sync.Request.{data_frames, frames_of, frame, chunks}

abbrev packet : MessageCommand → Bytes → Message
packet command payload = record { header = header_of command 7 3 payload; payload = payload }

abbrev parts : List Part
parts = out_part (bytes "hi") ∷ error_part (bytes "no") ∷ out_part (0 ∷ []) ∷ []

-- The stream of a command, cut into three packets with an OKAY between them.
abbrev cut : List Message
cut =
    packet write (1 ∷ 2 ∷ 0 ∷ 0 ∷ 0 ∷ b'h' ∷ [])
    ∷ packet okay []
    ∷ packet write (b'i' ∷ 2 ∷ 2 ∷ 0 ∷ 0 ∷ 0 ∷ b'n' ∷ b'o' ∷ 1 ∷ 1 ∷ 0 ∷ [])
    ∷ packet write (0 ∷ 0 ∷ 0 ∷ 3 ∷ 1 ∷ 0 ∷ 0 ∷ 0 ∷ 2 ∷ [])
    ∷ []

shell_command-shell_stream_example :
    (u : AdbSession) × ((result : Result RustAdbError (Unit {0})) × ((shell_command
            (session 3 7 (received cut) [])
          ≡ (u, output_of parts, ended result))
        × IsExit 2 (diagnostics_of parts) result))
shell_command-shell_stream_example =
    shell_command-shell_stream parts 2 [] 3 7 cut [] (omega arith)
      (inl refl, (inr refl, (inl refl, (inl refl, tt)))) refl

abbrev file_packets : List Message
file_packets =
    packet write (bytes "DATA" ++ 2 ∷ 0 ∷ 0 ∷ [])
    ∷ packet write (0 ∷ b'o' ∷ b'k' ∷ b'D' ∷ [])
    ∷ packet write (b'O' ∷ b'N' ∷ b'E' ∷ 5 ∷ 0 ∷ 0 ∷ 0 ∷ [])
    ∷ []

pull-data_frames_example :
    (u : AdbSession) × (pull
        (bytes "/f")
        (session 3 7 (ok (packet okay []) ∷ received file_packets) [])
      ≡ (u, bytes "ok", ended (ok tt)))
unfolding data_frames Request.done frames_of frame chunks
pull-data_frames_example =
    pull-data_frames (bytes "/f") (bytes "ok") [] 5 3 7 (packet okay []) file_packets []
      (omega arith) refl (inl refl, (inl refl, (inl refl, tt))) refl

drain_to-closed_example :
    (u : AdbSession) × (drain_to
        (λ c. io_error)
        (session 3 7 (received cut ++ ok (packet clse []) ∷ []) [])
      ≡ (u, bytes_of cut, ok tt))
drain_to-closed_example =
    drain_to-closed (λ c. io_error) 3 7 cut (packet clse []) [] []
      (inl refl, (inr refl, (inl refl, (inl refl, tt)))) refl
