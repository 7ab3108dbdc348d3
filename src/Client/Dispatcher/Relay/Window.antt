-- ===== src/Client/Dispatcher/Relay/Window.antt =====
-- The flow control of a relay.
use adb_client.Base.{
  ℕ, ◌+◌, ◌≤◌, ◌≡◌, arith, inl, inr, Bool, true, false, Bool-cases, List, [], ◌∷◌, ◌++◌, Option,
  none, some, if◌then◌else◌,
}
use adb_client.Base.Bytes.{Bytes}
use adb_client.Client.Kinds.{MessageCommand, cnxn, clse, auth, open_stream, write, okay, stls}
use adb_client.Client.Message.{Message, header_of}
use adb_client.Client.Dispatcher.Relay.{
  Relay, send, End, Received, got, timeout, disconnected, SocketRead, end_of_file, some_bytes,
  would_block, read_failed, Calls, on_packet_write, on_command, on_received, on_read,
  read_unless_pending, round, rounds, first_okay, relay,
}

abbrev pub one_write : MessageCommand → ℕ
one_write write = 1
one_write _ = 0

abbrev pub one_okay : MessageCommand → ℕ
one_okay okay = 1
one_okay _ = 0

-- The WRTE messages that were sent.
unfoldable pub writes : List Message → ℕ
writes [] = 0
writes (m ∷ ms) = one_write m.header.command + writes ms

abbrev pub okays_in : Received → ℕ
okays_in (got m) = one_okay m.header.command
okays_in timeout = 0
okays_in disconnected = 0

-- The OKAY packets that were received.
unfoldable pub okays : List Calls → ℕ
okays [] = 0
okays (c ∷ cs) = okays_in c.packet + okays cs

-- The WRTE messages, and one more if another may be sent at once.
abbrev pub claims : Relay → ℕ
claims r = writes r.sent + (if r.pending_write then 0 else 1)

-- After the end nothing more may be sent but the CLSE.
abbrev pub weight : Relay × Option End → ℕ
weight (r, none) = claims r
weight (r, some end) = writes r.sent

writes-append : (ms ns : List Message) → writes (ms ++ ns) ≡ writes ms + writes ns
unfolding writes
writes-append [] ns = omega arith
writes-append (m ∷ ms) ns = omega (arith, writes-append ms ns)

writes-send :
    (r : Relay) (c : MessageCommand) (payload : Bytes)
    → writes (send r c payload).sent ≡ writes r.sent + one_write c
unfolding writes
writes-send r c payload = omega (
  arith,
  writes-append r.sent
      (record { header = header_of c r.local_id r.remote_id payload; payload = payload } ∷ []),
)

on_command-claims :
    (c : MessageCommand) (r : Relay) (m : Message) (calls : Calls)
    → weight (on_command c r m calls) ≤ claims r + one_okay c
unfolding on_command on_packet_write
on_command-claims write r m calls =
    ground (arith, writes-send (record r { socket = r.socket ++ m.payload }) okay [])
on_command-claims okay r m calls = ground arith
on_command-claims clse r m calls = omega arith
on_command-claims cnxn r m calls = omega arith
on_command-claims auth r m calls = omega arith
on_command-claims open_stream r m calls = omega arith
on_command-claims stls r m calls = omega arith

on_received-claims :
    (p : Received) (r : Relay) (calls : Calls)
    → weight (on_received p r calls) ≤ claims r + okays_in p
unfolding on_received
on_received-claims (got m) r calls = on_command-claims m.header.command r m calls
on_received-claims timeout r calls = omega arith
on_received-claims disconnected r calls = omega arith

on_read-claims :
    (p : SocketRead) (r : Relay) (calls : Calls)
    → r.pending_write ≡ false
    → weight (on_read p r calls) ≤ claims r
unfolding on_read
on_read-claims end_of_file r calls quiet = omega arith
on_read-claims (some_bytes chunk) r calls quiet = ground (arith, writes-send r write chunk)
on_read-claims would_block r calls quiet = omega arith
on_read-claims read_failed r calls quiet = omega arith

read_unless_pending-weight :
    (calls : Calls) (x : Relay × Option End) → weight (read_unless_pending calls x) ≤ weight x
unfolding read_unless_pending
read_unless_pending-weight calls (r, some end) = omega arith
read_unless_pending-weight calls (r, none) = elim (Bool-cases r.pending_write) [
  | inl pending ↦ ground arith
  | inr quiet ↦ ground (arith, on_read-claims calls.read r calls quiet)
]

rounds-writes :
    (x : Relay × Option End) (turns : List Calls)
    → writes (rounds x turns).0.sent ≤ weight x + okays turns
unfolding rounds round okays
rounds-writes (r, some end) turns = omega (arith, writes-send r clse [])
rounds-writes (r, none) [] = omega arith
rounds-writes (r, none) (calls ∷ turns) = omega (
  arith,
  rounds-writes (round r calls) turns,
  read_unless_pending-weight calls (on_received calls.packet r calls),
  on_received-claims calls.packet r calls,
)

-- Whatever arrives on the session and on the socket, and whichever calls fail, the WRTE messages that
-- a relay sends are at most one more than the OKAY packets that it has received.
pub relay-writes :
    (local_id remote_id : ℕ) (first_sent : Bool) (turns : List Calls)
    → writes (relay local_id remote_id first_sent turns).0.sent ≤ 1 + okays turns
unfolding relay writes
relay-writes local_id remote_id true turns =
    rounds-writes (first_okay local_id remote_id, none) turns
relay-writes local_id remote_id false turns = omega arith
