-- ===== src/Client/Dispatched.antt =====
-- adb_client/src/message_devices/dispatched_device.rs: `DispatchedService` and the commands of the
-- dispatched device. The channel of the service is a transport: what `receive` returns in turn, and
-- what was given to `send`.
pub mod Source
pub mod Shell
pub mod Drain
mod Examples
use adb_client.Base.{
  ltb, ◌==◌, if◌then◌else◌, length, take, drop, ℕ, zero, suc, ◌+◌, ◌*◌, ◌^◌, not, List, [], ◌∷◌,
  ◌++◌,
}
use adb_client.Base.Outcome.{Result, ok, err}
use adb_client.Base.Bytes.{Bytes, bytes, bytes_eq}
use adb_client.Base.Decimal.{to_decimal}
use adb_client.Base.Utf8.{from_utf8_lossy}
use adb_client.Client.Kinds.{
  MessageCommand, open_stream, clse, write, okay, MessageSubcommand, send, done, sync_data,
  RustAdbError, io_error, try_from_int, request_failed,
}
use adb_client.Client.Message.{Message, with_arg, encode_subcommand}
use adb_client.Client.Session.{AdbSession, then_with, read_message, write_new}

-- Nothing is returned but success or an error.
abbrev pub Ended : Type 0
Ended = AdbSession × Result RustAdbError (Unit {0})

unfoldable pub acknowledge : AdbSession → Ended
acknowledge s = write_new s okay []

unfoldable pub close_ack : AdbSession → Ended
close_ack s = write_new s clse []

-- The check of `open_session` on the reply to OPEN, which brings the id of the device's side.
unfoldable pub expect_opened : Bytes → AdbSession → Message → Ended
expect_opened refusal s m = elim m.header.command [
  | okay ↦
      if m.header.arg1 == s.local_id
      then (record s { remote_id = m.header.arg0 }, ok tt)
      else (s, err (request_failed refusal))
  | _ ↦ (s, err (request_failed refusal))
]

-- `destination` with a zero behind it, unless it ends with one.
unfoldable pub zero_ended : Bytes → Bytes
zero_ended [] = 0 ∷ []
zero_ended (b ∷ []) = if b == 0 then 0 ∷ [] else b ∷ 0 ∷ []
zero_ended (b ∷ c ∷ bs) = b ∷ zero_ended (c ∷ bs)

-- The part of `open_session` and `open_destination` behind the payload, on a session that is
-- registered and has no id of the device yet.
unfoldable pub open_with : Bytes → Bytes → AdbSession → Ended
open_with refusal payload s =
    then_with (λ s' _. then_with (expect_opened refusal) (read_message s'))
      (write_new s open_stream payload)

unfoldable pub open_session : Bytes → AdbSession → Ended
open_session destination s =
    open_with (bytes "open dispatched session failed: expected OKAY for " ++ to_decimal s.local_id)
      (zero_ended destination) s

unfoldable pub open_destination : Bytes → AdbSession → Ended
open_destination destination s =
    open_with (bytes "forward destination rejected") (destination ++ 0 ∷ []) s

-- The body of the loop of `read_bytes`: `more` goes on with what is buffered then.
unfoldable pub on_packet :
    (AdbSession → Bytes → AdbSession × Result RustAdbError Bytes)
    → Bytes
    → Bytes
    → AdbSession
    → MessageCommand
    → AdbSession × Result RustAdbError Bytes
on_packet more buffered payload s write =
    then_with (λ s' _. more s' (buffered ++ payload)) (acknowledge s)
on_packet more buffered payload s okay = more s buffered
on_packet more buffered payload s clse =
    ((close_ack s).0, err (request_failed (bytes "device closed service before completion")))
on_packet more buffered payload s _ = (s, err (request_failed (bytes "unexpected service packet")))

-- The loop of `read_bytes`, on as much fuel as there are packets: behind the last the channel fails.
unfoldable pub fill : ℕ → AdbSession → Bytes → ℕ → AdbSession × Result RustAdbError Bytes
fill zero s buffered n = if ltb (length buffered) n then (s, err io_error) else (s, ok buffered)
fill (suc fuel) s buffered n =
    let next =
      then_with
        (λ s' m. on_packet (λ s'' b. fill fuel s'' b n) buffered m.payload s' m.header.command)
        (read_message s) in
    if ltb (length buffered) n then next else (s, ok buffered)

-- The bytes, and what stays buffered.
unfoldable pub read_bytes :
    AdbSession → Bytes → ℕ → AdbSession × Result RustAdbError (Bytes × Bytes)
read_bytes s buffered n =
    then_with (λ s' b. (s', ok (take n b, drop n b))) (fill (length s.transport.reads) s buffered n)

unfoldable pub expect_acknowledged : AdbSession → Message → Ended
expect_acknowledged s m = elim m.header.command [
  | okay ↦ (s, ok tt)
  | _ ↦ (s, err (request_failed (bytes "ADB service did not acknowledge write")))
]

unfoldable pub send_expect_okay : AdbSession → Bytes → Ended
send_expect_okay s payload =
    then_with (λ s' _. then_with expect_acknowledged (read_message s')) (write_new s write payload)

-- The loop of `push`: a read of no bytes is the end of the input.
unfoldable pub push_chunks : List Bytes → AdbSession → Ended
push_chunks [] s = (s, ok tt)
push_chunks ([] ∷ later) s = (s, ok tt)
push_chunks ((b ∷ bs) ∷ later) s =
    then_with (λ s' _. push_chunks later s')
      (send_expect_okay s (encode_subcommand (with_arg sync_data (length (b ∷ bs))) ++ (b ∷ bs)))

-- The reply of the device behind DONE: unlike in `push_file`, its payload is looked at.
unfoldable pub expect_pushed : AdbSession → Message → Ended
expect_pushed s m = elim m.header.command [
  | write ↦
      then_with
        (λ s' _.
          then_with
            (λ s'' _. if bytes_eq (take 4 m.payload) (bytes "OKAY") then (s'', ok tt) else (
              s'',
              err (request_failed (bytes "sync push failed: " ++ from_utf8_lossy m.payload)),
            ))
            (close_ack s'))
        (acknowledge s)
  | _ ↦ (s, err (request_failed (bytes "sync push did not return a result packet")))
]

-- `push` on an open sync service, where the reads of the input bring these pieces.
unfoldable pub push : List Bytes → Bytes → AdbSession → Ended
push pieces path s =
    let destination = path ++ bytes ",0777" in
    if not (ltb (length destination) (2 ^ 32))
    then (s, err try_from_int)
    else then_with
        (λ s' _.
          then_with
            (λ s'' _.
              then_with (λ s3 _. then_with expect_pushed (read_message s3))
                (send_expect_okay s'' (encode_subcommand (with_arg done 0))))
            (push_chunks pieces s'))
        (send_expect_okay s (encode_subcommand (with_arg send (length destination)) ++ destination))
