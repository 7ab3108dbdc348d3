-- ===== src/Client/ReverseRelay.antt =====
-- adb_client/src/message_devices/reverse_relay.rs: connections of the device that are joined to a TCP
-- port of the host. Sockets, the transport and the random number generator are parameters.
pub mod Opened
use adb_client.Base.{
  ℕ, Bool, true, false, not, ◌&&◌, List, [], ◌∷◌, ◌++◌, Option, none, some, length, ◌==◌,
  if◌then◌else◌,
}
use adb_client.Base.Outcome.{Result, ok, err}
use adb_client.Base.Bytes.{Bytes, bytes, bytes_eq, trim_end, strip_prefix}
use adb_client.Base.Utf8.{from_utf8_lossy}
use adb_client.Base.NatMap.{NatMap, lookup, insert, remove}
use adb_client.Client.Kinds.{
  MessageCommand, open_stream, write, clse, okay, RustAdbError, io_error, not_a_tcp_end,
  invalid_port, wrong_destination, unknown_stream, id_mismatch, unexpected_in_relay, no_connection,
}
use adb_client.Client.Message.{Message, try_new}
use adb_client.Client.Dispatcher.{parse_u16}

-- `LocalEvent`
pub data LocalEvent : Type 0 where
  data_from : (local_id : ℕ) (payload : Bytes) → LocalEvent
  closed : (local_id : ℕ) → LocalEvent

-- `ReverseRelay`. A socket is the remote id of its stream and what has been written into it; `sent` is
-- what `write_message` was given, and `write_ends n` how the call ends that follows `n` earlier ones.
pub record ReverseRelay : Type 0 where
  pub remote : Bytes
  pub local_end : Bytes
  pub local_port : ℕ
  pub sockets : NatMap (ℕ × Bytes)
  pub accepted_stream : Bool
  pub sent : List Message
  pub write_ends : ℕ → Result RustAdbError (Unit {0})

-- `ReverseRelay::new`
unfoldable pub new_relay :
    Bytes → Bytes → (ℕ → Result RustAdbError (Unit {0})) → Result RustAdbError ReverseRelay
new_relay remote local_end write_ends = elim (strip_prefix (bytes "tcp:") local_end) [
  | none ↦ err (not_a_tcp_end local_end)
  | some text ↦ elim (parse_u16 text) [
    | none ↦ err invalid_port
    | some port ↦ ok (record {
      remote = remote;
      local_end = local_end;
      local_port = port;
      sockets = [];
      accepted_stream = false;
      sent = [];
      write_ends = write_ends;
    })
  ]
]

abbrev pub Outcome : Type 0
Outcome = ReverseRelay × Result RustAdbError (Unit {0})

-- `write_message`
abbrev pub write_message : ReverseRelay → Message → Outcome
write_message r m = (record r { sent = r.sent ++ m ∷ [] }, r.write_ends (length r.sent))

abbrev pub write_made : ReverseRelay → Result RustAdbError Message → Outcome
write_made r (ok m) = write_message r m
write_made r (err e) = (r, err e)

-- `try_new` and `write_message` of what it made.
unfoldable pub write_new : ReverseRelay → MessageCommand → ℕ → ℕ → Bytes → Outcome
write_new r command arg0 arg1 payload = write_made r (try_new command arg0 arg1 payload)

-- The body of the loop of `flush_local_events`.
unfoldable pub on_local_event : ReverseRelay → LocalEvent → Outcome
unfolding write_new
on_local_event r (data_from local_id payload) = elim (lookup local_id r.sockets) [
  | none ↦ (r, ok tt)
  | some (remote_id, _) ↦ write_new r write local_id remote_id payload
]
on_local_event r (closed local_id) = elim (lookup local_id r.sockets) [
  | none ↦ (r, ok tt)
  | some (remote_id, _) ↦
      write_new (record r { sockets = remove local_id r.sockets }) clse local_id remote_id []
]

-- A step that follows where the one before succeeded.
abbrev pub and_then : (ReverseRelay → Outcome) → Outcome → Outcome
and_then next (r, ok _) = next r
and_then next (r, err e) = (r, err e)

-- `flush_local_events`, on the events that wait.
unfoldable pub flush_local_events : List LocalEvent → ReverseRelay → Outcome
unfolding on_local_event
flush_local_events [] r = (r, ok tt)
flush_local_events (e ∷ es) r = and_then (flush_local_events es) (on_local_event r e)

-- What the calls come to that a device message may lead to: the connection to the local port and its
-- set-up, the random id, and the write into a socket.
pub record Calls : Type 0 where
  pub is_connected : Bool
  pub is_prepared : Bool
  pub random_id : ℕ
  pub socket_written : Bool

-- The end of `accept_device_open`, once the OKAY is written.
abbrev pub add_socket : ℕ → ℕ → ReverseRelay → Outcome
add_socket local_id device_id r = (
  record r { sockets = insert local_id (device_id, []) r.sockets; accepted_stream = true },
  ok tt,
)

-- `accept_device_open`
unfoldable pub accept_device_open : ReverseRelay → Message → Calls → Outcome
unfolding write_new
accept_device_open r m calls =
    let destination = trim_end 0 (from_utf8_lossy m.payload) in
    if not (bytes_eq destination r.local_end)
    then (r, err (wrong_destination destination r.local_end))
    else if not calls.is_connected
    then (r, err (no_connection r.local_port))
    else if not calls.is_prepared
    then (r, err io_error)
    else and_then (add_socket calls.random_id m.header.arg0)
        (write_new r okay calls.random_id m.header.arg0 [])

-- `write_to_local`. A socket that fails takes none of the bytes here.
unfoldable pub write_to_local : ReverseRelay → Message → Calls → Outcome
unfolding write_new
write_to_local r m calls = elim (lookup m.header.arg1 r.sockets) [
  | none ↦ (r, err unknown_stream)
  | some (expected_remote, written) ↦
      if not (expected_remote == m.header.arg0)
      then (r, err id_mismatch)
      else if not calls.socket_written
      then (r, err io_error)
      else write_new
          (record r {
            sockets = insert m.header.arg1 (expected_remote, written ++ m.payload) r.sockets;
          })
          okay m.header.arg1 m.header.arg0 []
]

-- `close_device_stream`
unfoldable pub close_device_stream : ReverseRelay → Message → Outcome
unfolding write_new
close_device_stream r m =
    write_new (record r { sockets = remove m.header.arg1 r.sockets }) clse m.header.arg1
      m.header.arg0 []

-- `handle_device_message`
unfoldable pub handle_command : MessageCommand → ReverseRelay → Message → Calls → Outcome
unfolding accept_device_open write_to_local close_device_stream
handle_command open_stream r m calls = accept_device_open r m calls
handle_command write r m calls = write_to_local r m calls
handle_command clse r m calls = close_device_stream r m
handle_command okay r m calls = (r, ok tt)
handle_command other r m calls = (r, err (unexpected_in_relay other))

-- What `read_message_with_timeout` comes to.
pub data RelayRead : Type 0 where
  message : Message → Calls → RelayRead
  idle_poll : RelayRead
  failed_read : RelayRead

-- The test of `run` whether the relay is done.
abbrev pub is_done : ReverseRelay → Bool
is_done r = elim r.sockets [ [] ↦ r.accepted_stream | _ ∷ _ ↦ false ]

-- A round of `run` from the read on, and whether the loop goes on: `ok true` is its end.
abbrev pub done_or_on : Outcome → ReverseRelay × Result RustAdbError Bool
done_or_on (r, ok _) = (r, ok (is_done r))
done_or_on (r, err e) = (r, err e)

unfoldable pub on_read : RelayRead → ReverseRelay → ReverseRelay × Result RustAdbError Bool
unfolding handle_command
on_read (message m calls) r = done_or_on (handle_command m.header.command r m calls)
on_read idle_poll r = (r, ok false)
on_read failed_read r = (r, err io_error)

abbrev pub read_unless_done :
    RelayRead → ReverseRelay × Result RustAdbError Bool → ReverseRelay × Result RustAdbError Bool
read_unless_done read (r, ok false) = on_read read r
read_unless_done read (r, x) = (r, x)

unfoldable pub relay_round :
    ReverseRelay → List LocalEvent → RelayRead → ReverseRelay × Result RustAdbError Bool
unfolding flush_local_events on_read
relay_round r events read = read_unless_done read (done_or_on (flush_local_events events r))

-- `run`, on what each round finds; `ok false` is a loop that has not ended yet.
unfoldable pub run_from :
    List (List LocalEvent × RelayRead)
    → ReverseRelay × Result RustAdbError Bool
    → ReverseRelay × Result RustAdbError Bool
unfolding relay_round
run_from [] x = x
run_from ((events, read) ∷ later) (r, ok false) = run_from later (relay_round r events read)
run_from (_ ∷ later) x = x
