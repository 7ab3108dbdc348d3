-- ===== src/Client/Dispatched/Drain.antt =====
-- `drain_to` of adb_client/src/message_devices/dispatched_device.rs, and the commands whose output
-- is all that the device sends until it closes the service.
use adb_client.Base.{
  if◌then◌else◌, length, take, All, length-append, ℕ, zero, suc, ◌<◌, ◌≡◌, refl, sym, ap, ◌∙◌, inl,
  inr, List, [], ◌∷◌, ◌++◌, append-nil, append_assoc, arith,
}
use adb_client.Base.Outcome.{Result, ok, err}
use adb_client.Base.Bytes.{Bytes, bytes, bytes_eq}
use adb_client.Base.Utf8.{from_utf8_lossy}
use adb_client.Client.Kinds.{
  MessageCommand, clse, write, okay, RustAdbError, io_error, request_failed,
}
use adb_client.Client.Message.{Message, try_new, try_new_header}
use adb_client.Client.Session.{AdbSession, read_message, write_new}
use adb_client.Client.Session.Pushed.{session, IsCommand}
use adb_client.Client.Dispatched.{Ended, acknowledge, close_ack, open_session}
use adb_client.Client.Dispatched.Source.{
  IsData, received, bytes_of, carried, length-received, acknowledge-session,
}

-- The service, what was written to the output, and how the command ended.
abbrev pub Drained : Type 0
Drained = AdbSession × Bytes × Result RustAdbError (Unit {0})

-- A step that writes nothing, and what follows it.
abbrev pub if_ended : Bytes → (AdbSession → Drained) → Ended → Drained
if_ended output next (s, ok _) = next s
if_ended output next (s, err e) = (s, output, err e)

-- The match on a packet; `unexpected` is the error for the other commands, whose text names them.
unfoldable pub on_drained :
    (MessageCommand → RustAdbError)
    → (AdbSession → Bytes → Drained)
    → Bytes
    → Bytes
    → AdbSession
    → MessageCommand
    → Drained
on_drained unexpected more output payload s write =
    if_ended (output ++ payload) (λ s'. more s' (output ++ payload)) (acknowledge s)
on_drained unexpected more output payload s clse =
    if_ended output (λ s'. (s', output, ok tt)) (close_ack s)
on_drained unexpected more output payload s okay = more s output
on_drained unexpected more output payload s command = (s, output, err (unexpected command))

abbrev pub with_message :
    Bytes → (AdbSession → Message → Drained) → AdbSession × Result RustAdbError Message → Drained
with_message output next (s, ok m) = next s m
with_message output next (s, err e) = (s, output, err e)

-- The loop, on as much fuel as there are packets: behind the last the channel fails.
unfoldable pub drain : (MessageCommand → RustAdbError) → ℕ → AdbSession → Bytes → Drained
drain unexpected zero s output = (s, output, err io_error)
drain unexpected (suc fuel) s output =
    with_message output
      (λ s' m. on_drained unexpected (drain unexpected fuel) output m.payload s' m.header.command)
      (read_message s)

unfoldable pub drain_to : (MessageCommand → RustAdbError) → AdbSession → Drained
drain_to unexpected s = drain unexpected (length s.transport.reads) s []

-- `exec_out`, `root`, `remount` and `tcpip`: a service is opened and drained.
unfoldable pub run_service : (MessageCommand → RustAdbError) → Bytes → AdbSession → Drained
run_service unexpected destination s =
    if_ended [] (drain_to unexpected) (open_session destination s)

abbrev pub check_response : Drained → Ended
check_response (s, response, err e) = (s, err e)
check_response (s, response, ok _) =
    if bytes_eq (take 4 response) (bytes "OKAY")
    then (s, ok tt)
    else (s, err (request_failed (bytes "reverse failed: " ++ from_utf8_lossy response)))

unfoldable pub reverse_command : (MessageCommand → RustAdbError) → Bytes → AdbSession → Ended
reverse_command unexpected destination s = check_response (run_service unexpected destination s)

module _ (unexpected : MessageCommand → RustAdbError) (local_id remote_id : ℕ) where
  drain_step :
      (fuel : ℕ) (m : Message) (reads : List (Result RustAdbError Message)) (sent : List Message)
      (output : Bytes)
      → drain unexpected (suc fuel) (session local_id remote_id (ok m ∷ reads) sent) output
        ≡ on_drained unexpected
            (drain unexpected fuel)
            output
            m.payload
            (session local_id remote_id reads sent)
            m.header.command
  unfolding drain
  drain_step fuel m reads sent output = refl

  drain-closed :
      (packets : List Message) (fuel : ℕ) (last : Message)
      (later : List (Result RustAdbError Message)) (sent : List Message) (output : Bytes)
      → All IsData packets
      → IsCommand clse last
      → length packets < fuel
      → (u : AdbSession) × (drain unexpected fuel
            (session local_id remote_id (received packets ++ ok last ∷ later) sent)
            output
          ≡ (u, output ++ bytes_of packets, ok tt))
  unfolding on_drained close_ack write_new try_new try_new_header
  drain-closed packets zero last later sent output h closes enough = absurd (omega arith)
  drain-closed [] (suc fuel) last later sent output h closes enough = (
    _,
    drain_step fuel last later sent output
        ∙ ap
            (on_drained unexpected (drain unexpected fuel) output last.payload
              (session local_id remote_id later sent))
            closes
        ∙ ap (λ o. (_, o, ok tt)) (sym (append-nil output)),
  )
  drain-closed (m ∷ packets) (suc fuel) last later sent output (p, h) closes enough =
      let reads = received packets ++ ok last ∷ later in
      let go =
        on_drained unexpected (drain unexpected fuel) output m.payload
          (session local_id remote_id reads sent) in
      elim p [
        | inl is_write ↦
            let (message, acked) = acknowledge-session local_id remote_id reads sent in
            let (u, below) =
              drain-closed packets fuel last later (sent ++ message ∷ []) (output ++ m.payload) h
                closes (omega arith) in
            (
              u,
              drain_step fuel m reads sent output
                  ∙ ap go is_write
                  ∙ ap
                      (if_ended (output ++ m.payload)
                        (λ s. drain unexpected fuel s (output ++ m.payload)))
                      acked
                  ∙ below
                  ∙ ap (λ o. (u, o, ok tt))
                      (append_assoc output m.payload (bytes_of packets)
                        ∙ ap (λ c. output ++ (carried c m.payload ++ bytes_of packets))
                            (sym is_write)),
            )
        | inr is_okay ↦
            let (u, below) =
              drain-closed packets fuel last later sent output h closes (omega arith) in
            (
              u,
              drain_step fuel m reads sent output
                  ∙ ap go is_okay
                  ∙ below
                  ∙ ap (λ o. (u, o, ok tt))
                      (ap (λ c. output ++ (carried c m.payload ++ bytes_of packets)) (sym is_okay)),
            )
      ]

  -- A service whose device sends data and OKAY packets and then closes it, and whose sends succeed,
  -- is drained to its end: the output is the payloads of the WRTE packets in their order, and what
  -- the channel brings behind the CLSE does not matter.
  pub drain_to-closed :
      (packets : List Message) (last : Message) (later : List (Result RustAdbError Message))
      (sent : List Message)
      → All IsData packets
      → IsCommand clse last
      → (u : AdbSession) × (drain_to unexpected
            (session local_id remote_id (received packets ++ ok last ∷ later) sent)
          ≡ (u, bytes_of packets, ok tt))
  unfolding drain_to
  drain_to-closed packets last later sent h closes =
      drain-closed packets (length (received packets ++ ok last ∷ later)) last later sent [] h
        closes
        (omega (arith, length-append (received packets) (ok last ∷ later), length-received packets))
