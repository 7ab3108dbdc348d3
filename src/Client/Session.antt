-- ===== src/Client/Session.antt =====
-- adb_client/src/message_devices/adb_session.rs: `ADBSession`, a session between the client and the
-- daemon of a device, on a transport that is a parameter.
pub mod Copy
pub mod Received
pub mod Pushed
use adb_client.Base.{
  ℕ, ◌+◌, ◌^◌, Bool, true, false, not, ◌||◌, List, [], ◌∷◌, ◌++◌, Option, none, some, length, take,
  drop, ltb, ◌==◌, if◌then◌else◌,
}
use adb_client.Base.Outcome.{Result, ok, err, ◌>>=◌}
use adb_client.Base.Bytes.{Bytes, bytes_eq}
use adb_client.Base.Words.{to_le_bytes}
use adb_client.Client.Kinds.{
  MessageCommand, write, okay, MessageSubcommand, stat, done, sync_data, subcommand_code,
  RustAdbError, io_error, try_from_int, invalid_legacy_stat, wrong_command_received,
}
use adb_client.Client.Message.{Message, try_new, assert_command, with_arg, encode_subcommand}

-- A transport: what `read_message` will return, then a failure; what `write_message` was given, and how
-- the call ends that follows `n` earlier ones.
pub record Transport : Type 0 where
  pub reads : List (Result RustAdbError Message)
  pub written : List Message
  pub write_ends : ℕ → Result RustAdbError (Unit {0})

-- `ADBSession`
pub record AdbSession : Type 0 where
  pub transport : Transport
  pub local_id : ℕ
  pub remote_id : ℕ

abbrev pub read_message : AdbSession → AdbSession × Result RustAdbError Message
read_message s = elim s.transport.reads [
  | [] ↦ (s, err io_error)
  | first ∷ later ↦ (record s { transport = record s.transport { reads = later } }, first)
]

abbrev pub write_message : AdbSession → Message → AdbSession × Result RustAdbError (Unit {0})
write_message s m = (
  record s { transport = record s.transport { written = s.transport.written ++ m ∷ [] } },
  s.transport.write_ends (length s.transport.written),
)

-- A step of a session, which goes on where it succeeds.
abbrev pub then_with {ℓ κ} :
    {A : Type ℓ} {B : Type κ}
    → (AdbSession → A → AdbSession × Result RustAdbError B)
    → AdbSession × Result RustAdbError A
    → AdbSession × Result RustAdbError B
then_with next (s, ok a) = next s a
then_with next (s, err e) = (s, err e)

-- `ADBTransportMessage::try_new` with the ids of the session, and `write_message` of what it made.
unfoldable pub write_new :
    AdbSession → MessageCommand → Bytes → AdbSession × Result RustAdbError (Unit {0})
write_new s command payload =
    then_with write_message (s, try_new command s.local_id s.remote_id payload)

-- `recv_and_reply_okay`
unfoldable pub recv_and_reply_okay : AdbSession → AdbSession × Result RustAdbError Message
unfolding write_new
recv_and_reply_okay s =
    then_with (λ s' m. then_with (λ s'' _. (s'', ok m)) (write_new s' okay [])) (read_message s)

-- `assert_command` of OKAY, and the message again.
unfoldable pub expect_okay : AdbSession → Message → AdbSession × Result RustAdbError Message
expect_okay s m = elim (assert_command m okay) [ ok _ ↦ (s, ok m) | err e ↦ (s, err e) ]

-- `send_and_expect_okay`, with the message that is made for it.
unfoldable pub send_and_expect_okay :
    AdbSession → MessageCommand → Bytes → AdbSession × Result RustAdbError Message
unfolding write_new expect_okay
send_and_expect_okay s command payload =
    then_with (λ s' _. then_with expect_okay (read_message s')) (write_new s command payload)

-- `SyncPayloadReader`: `left` is `payload[offset..]`.
pub record SyncPayloadReader : Type 0 where
  pub session : AdbSession
  pub left : Bytes

-- The body of the loop of `read`: the payload of the next WRTE, which is not empty.
unfoldable pub next_payload : AdbSession → Message → AdbSession × Result RustAdbError Bytes
next_payload s m = elim (assert_command m write) [
  | err e ↦ (s, err e)
  | ok _ ↦ elim m.payload [ [] ↦ (s, err io_error) | b ∷ bs ↦ (s, ok (b ∷ bs)) ]
]

-- At most `n` of the bytes that are there.
abbrev pub hand_out : ℕ → AdbSession → Bytes → SyncPayloadReader × Result RustAdbError Bytes
hand_out n s payload = (record { session = s; left = drop n payload }, ok (take n payload))

abbrev pub hand_out_of :
    ℕ → AdbSession × Result RustAdbError Bytes → SyncPayloadReader × Result RustAdbError Bytes
hand_out_of n (s, ok payload) = hand_out n s payload
hand_out_of n (s, err e) = (record { session = s; left = [] }, err e)

-- `SyncPayloadReader::read` into a buffer of `n` bytes. The loop runs once at most, as an empty payload
-- is an error. An error of the session stands as it is, not wrapped into one of `std::io`.
unfoldable pub read : SyncPayloadReader → ℕ → SyncPayloadReader × Result RustAdbError Bytes
unfolding recv_and_reply_okay next_payload
read r n = if n == 0 then (r, ok []) else elim r.left [
  | [] ↦ hand_out_of n (then_with next_payload (recv_and_reply_okay r.session))
  | b ∷ bs ↦ hand_out n r.session (b ∷ bs)
]

-- A DATA frame of what was read, in one WRTE.
unfoldable pub send_piece : AdbSession → Bytes → AdbSession × Result RustAdbError Message
unfolding send_and_expect_okay
send_piece s piece =
    send_and_expect_okay s write (encode_subcommand (with_arg sync_data (length piece)) ++ piece)

-- The reply behind the OKAY to DONE. Its payload is not looked at.
unfoldable pub expect_write : AdbSession → Message → AdbSession × Result RustAdbError (Unit {0})
expect_write s m = elim m.header.command [
  | write ↦ (s, ok tt)
  | _ ↦ (s, err (wrong_command_received m.header.command))
]

unfoldable pub finish : AdbSession → AdbSession × Result RustAdbError (Unit {0})
unfolding send_and_expect_okay expect_write
finish s =
    then_with (λ s' _. then_with expect_write (read_message s'))
      (send_and_expect_okay s write (encode_subcommand (with_arg done 0)))

-- The loop of `push_file`: a read of no bytes is the end of the file.
unfoldable pub push_pieces : List Bytes → AdbSession → AdbSession × Result RustAdbError (Unit {0})
unfolding finish send_piece
push_pieces [] s = finish s
push_pieces ([] ∷ later) s = finish s
push_pieces ((b ∷ bs) ∷ later) s = then_with (λ s' _. push_pieces later s') (send_piece s (b ∷ bs))

-- `push_file`, on what `read` brings in turn, each piece at most `BUFFER_SIZE` bytes, where no read of
-- the file fails. The first piece is sent even where it is empty.
unfoldable pub push_file : AdbSession → List Bytes → AdbSession × Result RustAdbError (Unit {0})
unfolding push_pieces send_piece
push_file s [] = then_with (λ s' _. push_pieces [] s') (send_piece s [])
push_file s (first ∷ later) = then_with (λ s' _. push_pieces later s') (send_piece s first)

-- The check of `stat_with_explicit_ids` on its reply, and the bytes that are decoded.
unfoldable pub stat_payload : AdbSession → Message → AdbSession × Result RustAdbError Bytes
stat_payload s m =
    if not (length m.payload == 16)
      || not (bytes_eq (take 4 m.payload) (to_le_bytes (subcommand_code stat)))
    then (s, err invalid_legacy_stat)
    else (s, ok (drop 4 m.payload))

-- `stat_with_explicit_ids`, up to the decoding of the three words.
unfoldable pub stat_with_explicit_ids : AdbSession → Bytes → AdbSession × Result RustAdbError Bytes
unfolding send_and_expect_okay stat_payload
stat_with_explicit_ids s remote_path =
    if not (ltb (length remote_path) (2 ^ 32))
    then (s, err try_from_int)
    else then_with
        (λ s' _.
          then_with (λ s'' _. then_with stat_payload (read_message s''))
            (send_and_expect_okay s' write remote_path))
        (send_and_expect_okay s write (encode_subcommand (with_arg stat (length remote_path))))
