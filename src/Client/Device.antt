-- ===== src/Client/Device.antt =====
-- adb_client/src/message_devices/adb_message_device.rs: a device reached over its own transport. Its
-- transport stands in a session, which has no ids until a service is open.
pub mod Listing
pub mod Handshake
mod Examples
use adb_client.Base.{
  ◌==◌, if◌then◌else◌, ℕ, zero, suc, ◌+◌, ◌*◌, Bool, true, false, not, none, some, List, [], ◌∷◌,
  ◌++◌,
}
use adb_client.Base.Outcome.{Result, ok, err}
use adb_client.Base.Bytes.{Bytes, bytes, strip_prefix}
use adb_client.Base.Decimal.{to_decimal}
use adb_client.Base.Utf8.{from_utf8_lossy, is_utf8}
use adb_client.Client.Kinds.{
  MessageCommand, cnxn, clse, auth, open_stream, write, okay, stls, MessageSubcommand, quit,
  command_code, RustAdbError, request_failed, wrong_response, utf8_error,
}
use adb_client.Client.Message.{Message, try_new, assert_command, with_arg, encode_subcommand}
use adb_client.Client.Session.{
  AdbSession, then_with, read_message, write_message, write_new, send_and_expect_okay,
}
use adb_client.Client.Dispatched.{Ended, zero_ended}

-- The key's two calls: `sign` of a token, and the text of `android_pubkey_encode`.
pub record RsaKey : Type 0 where
  pub sign : Bytes → Result RustAdbError Bytes
  pub android_pubkey : Result RustAdbError Bytes

-- `Display` of a command, by name.
abbrev pub command_text : MessageCommand → Bytes
command_text cnxn = bytes "CNXN"
command_text clse = bytes "CLSE"
command_text auth = bytes "AUTH"
command_text open_stream = bytes "OPEN"
command_text write = bytes "WRTE"
command_text okay = bytes "OKAY"
command_text stls = bytes "STLS"

-- `try_new` and `write_message` of what it made.
unfoldable pub send_new : MessageCommand → ℕ → ℕ → Bytes → AdbSession → Ended
send_new command arg0 arg1 payload s =
    then_with write_message (s, try_new command arg0 arg1 payload)

abbrev pub auth_token : ℕ
auth_token = 1

-- The reply to a token: the type and the payload, the public key with a zero behind it.
unfoldable pub auth_reply : RsaKey → Bool → Bytes → Result RustAdbError (ℕ × Bytes)
auth_reply key true token = elim key.android_pubkey [
  | ok text ↦ ok (3, text ++ 0 ∷ [])
  | err e ↦ err e
]
auth_reply key false token = elim (key.sign token) [
  | ok signature ↦ ok (2, signature)
  | err e ↦ err e
]

unfoldable pub wrong_auth : ℕ → RustAdbError
wrong_auth v =
    request_failed (bytes "Received AUTH message with type != 1 (" ++ (to_decimal v ++ bytes ")"))

unfoldable pub banner_read : AdbSession → Bytes → Ended
banner_read s banner = if is_utf8 banner then (s, ok tt) else (s, err utf8_error)

-- The loop of `auth_handshake`: the rounds that are left, whether the public key is next, and the
-- response to look at.
unfoldable pub auth_loop : ℕ → RsaKey → Bool → AdbSession → Message → Ended
auth_loop zero key send_public_key s response =
    (s, err (request_failed (bytes "Android device did not finish RSA authorization")))
auth_loop (suc rounds) key send_public_key s response =
    let answer =
      then_with
        (λ s' reply.
          then_with
            (λ s'' _. then_with (auth_loop rounds key (not send_public_key)) (read_message s''))
            (send_new auth reply.0 0 reply.1 s'))
        (s, auth_reply key send_public_key response.payload) in
    elim response.header.command [
      | cnxn ↦ banner_read s response.payload
      | auth ↦
          if response.header.arg0 == auth_token
          then answer
          else (s, err (wrong_auth response.header.arg0))
      | command ↦ (s, err (wrong_response (bytes "Expected CNXN or AUTH command") command))
    ]

unfoldable pub auth_handshake : RsaKey → AdbSession → Message → Ended
auth_handshake key s message = elim message.header.command [
  | auth ↦
      if message.header.arg0 == auth_token
      then auth_loop 8 key false s message
      else (s, err (wrong_auth message.header.arg0))
  | _ ↦ (s, ok tt)
]

-- What `connect` makes of the first message. `upgraded` is how `upgrade_connection` ends.
unfoldable pub on_greeting : RsaKey → Result RustAdbError (Unit {0}) → AdbSession → Message → Ended
on_greeting key upgraded s message = elim message.header.command [
  | stls ↦ then_with (λ s' _. (s', upgraded)) (send_new stls 1 0 [] s)
  | cnxn ↦ (s, ok tt)
  | auth ↦ auth_handshake key s message
  | command ↦ (s, err (wrong_response (bytes "Expected CNXN, STLS or AUTH command") command))
]

abbrev pub host_banner : Bytes
host_banner = bytes "host::adb_client" ++ 0 ∷ []

-- `connect`; `connected` is how the `connect` of the transport ends.
unfoldable pub connect :
    RsaKey → (connected upgraded : Result RustAdbError (Unit {0})) → AdbSession → Ended
connect key connected upgraded s =
    then_with
      (λ s' _.
        then_with (λ s'' _. then_with (on_greeting key upgraded) (read_message s''))
          (send_new cnxn 0x01000000 1048576 host_banner s'))
      (s, connected)

-- The checks of `open_session` on the reply.
unfoldable pub expect_opened : ℕ → AdbSession → Message → Ended
expect_opened local_id s response = elim response.header.command [
  | okay ↦
      if response.header.arg1 == local_id
      then (record s { local_id = local_id; remote_id = response.header.arg0 }, ok tt)
      else (
        s,
        err (
            request_failed (
              bytes "Open session failed: responses used "
              ++ (to_decimal response.header.arg1
                  ++ (bytes " for our local_id instead of " ++ to_decimal local_id)))),
      )
  | command ↦ (
    s,
    err (
        request_failed (
          bytes "Open session failed: got "
          ++ (command_text command ++ bytes " in response instead of OKAY"))),
  )
]

-- `open_session`, with the id that the random number generator gives.
unfoldable pub open_session : ℕ → Bytes → AdbSession → Ended
open_session local_id destination s =
    then_with (λ s' _. then_with (expect_opened local_id) (read_message s'))
      (send_new open_stream local_id 0 (zero_ended destination) s)

unfoldable pub end_transaction : AdbSession → Ended
end_transaction s =
    then_with (λ s' _. then_with (λ s'' _. (s'', ok tt)) (read_message s'))
      (send_and_expect_okay s write (encode_subcommand (with_arg quit 0)))

unfoldable pub expect_command : MessageCommand → AdbSession → Message → Ended
expect_command command s m = (s, assert_command m command)

-- The CLSE behind the result of `reverse_forward`, and the reply to it.
unfoldable pub close_reverse : AdbSession → Ended
close_reverse s =
    then_with
      (λ s' close. then_with (λ s'' _. write_new s'' clse []) (expect_command clse s' close))
      (read_message s)

-- The result of `reverse_forward`: it is acknowledged, and must start with OKAY.
unfoldable pub on_reverse_result : AdbSession → Message → Ended
on_reverse_result s result =
    then_with
      (λ s' _.
        then_with
          (λ s'' _. elim (strip_prefix (bytes "OKAY") result.payload) [
            | some _ ↦ close_reverse s''
            | none ↦ (
              s'',
              err (
                  request_failed
                    (bytes "reverse registration failed: " ++ from_utf8_lossy result.payload)),
            )
          ])
          (write_new s' okay []))
      (expect_command write s result)

unfoldable pub reverse_forward : ℕ → (remote local : Bytes) → AdbSession → Ended
reverse_forward local_id remote local s =
    then_with (λ s' _. then_with on_reverse_result (read_message s'))
      (open_session local_id (bytes "reverse:forward:" ++ (remote ++ (bytes ";" ++ local))) s)

unfoldable pub remove_reverse_forward : ℕ → (remote : Bytes) → AdbSession → Ended
remove_reverse_forward local_id remote s =
    then_with (λ s' _. (s', ok tt))
      (open_session local_id (bytes "reverse:killforward:" ++ remote) s)
