-- ===== src/Client/Dispatcher/Relay.antt =====
-- adb_client/src/message_devices/transport_dispatcher.rs: `relay`, which joins a session that the
-- device has opened to a socket of the host.
pub mod Window
use adb_client.Base.{ℕ, Bool, true, false, List, [], ◌∷◌, ◌++◌, Option, none, some, if◌then◌else◌}
use adb_client.Base.Bytes.{Bytes}
use adb_client.Client.Kinds.{MessageCommand, write, okay, clse}
use adb_client.Client.Message.{Message, header_of}

-- `sent` is what `send` was given, `socket` what has been written into the socket.
pub record Relay : Type 0 where
  pub local_id : ℕ
  pub remote_id : ℕ
  pub pending_write : Bool
  pub sent : List Message
  pub socket : Bytes

-- The closure `send`. A payload is one read of 64 KiB at most, so `try_new` makes the message.
abbrev pub send : Relay → MessageCommand → Bytes → Relay
send r command payload = record r {
  sent =
      r.sent
      ++ record { header = header_of command r.local_id r.remote_id payload; payload = payload }
        ∷ [];
}

-- How the relay ends: without an error, with the error of a call, or by a packet that it does not
-- expect.
pub data End : Type 0 where
  finished : End
  call_failed : End
  unexpected_packet : MessageCommand → End

-- What `recv_timeout` and `read` come to.
pub data Received : Type 0 where
  got : Message → Received
  timeout : Received
  disconnected : Received

pub data SocketRead : Type 0 where
  end_of_file : SocketRead
  some_bytes : Bytes → SocketRead
  would_block : SocketRead
  read_failed : SocketRead

-- The results of the calls of one round of the loop: `write_all` and the two calls of `send` tell
-- whether they succeed.
pub record Calls : Type 0 where
  pub packet : Received
  pub written : Bool
  pub okay_sent : Bool
  pub read : SocketRead
  pub write_sent : Bool

-- The arm for WRTE. A socket that fails takes none of the bytes here; a message that is not sent is
-- still one that `send` was given.
unfoldable pub on_packet_write : Relay → Message → Calls → Relay × Option End
on_packet_write r m calls =
    let r' = record r { socket = r.socket ++ m.payload } in
    if calls.written
    then (send r' okay [], (if calls.okay_sent then none else some call_failed))
    else (r, some call_failed)

unfoldable pub on_command : MessageCommand → Relay → Message → Calls → Relay × Option End
unfolding on_packet_write
on_command write r m calls = on_packet_write r m calls
on_command okay r m calls = (record r { pending_write = false }, none)
on_command clse r m calls = (r, some finished)
on_command other r m calls = (r, some (unexpected_packet other))

-- The match on `recv_timeout`.
unfoldable pub on_received : Received → Relay → Calls → Relay × Option End
unfolding on_command
on_received (got m) r calls = on_command m.header.command r m calls
on_received timeout r calls = (r, none)
on_received disconnected r calls = (r, some finished)

-- The match on `read`.
unfoldable pub on_read : SocketRead → Relay → Calls → Relay × Option End
on_read end_of_file r calls = (r, some finished)
on_read (some_bytes chunk) r calls =
    if calls.write_sent
    then (record (send r write chunk) { pending_write = true }, none)
    else (send r write chunk, some call_failed)
on_read would_block r calls = (r, none)
on_read read_failed r calls = (r, some call_failed)

-- The second half of a round, where the first has not ended the loop.
unfoldable pub read_unless_pending : Calls → Relay × Option End → Relay × Option End
unfolding on_read
read_unless_pending calls (r, some end) = (r, some end)
read_unless_pending calls (r, none) =
    let answer = on_read calls.read r calls in if r.pending_write then (r, none) else answer

unfoldable pub round : Relay → Calls → Relay × Option End
unfolding on_received read_unless_pending
round r calls = read_unless_pending calls (on_received calls.packet r calls)

-- The loop, and the CLSE behind it. `none` is a loop that has not ended yet.
unfoldable pub rounds : Relay × Option End → List Calls → Relay × Option End
unfolding round
rounds (r, some end) more = (send r clse [], some end)
rounds (r, none) [] = (r, none)
rounds (r, none) (calls ∷ more) = rounds (round r calls) more

-- The relay once it has sent the OKAY that opens the stream.
abbrev pub first_okay : ℕ → ℕ → Relay
first_okay local_id remote_id =
    send
      (record {
        local_id = local_id;
        remote_id = remote_id;
        pending_write = false;
        sent = [];
        socket = [];
      })
      okay []

-- `relay`, from its first OKAY on, which may fail too; before it the socket is only set up.
unfoldable pub relay : ℕ → ℕ → Bool → List Calls → Relay × Option End
unfolding rounds
relay local_id remote_id first_sent turns =
    let r = first_okay local_id remote_id in
    let answer = rounds (r, none) turns in if first_sent then answer else (r, some call_failed)
