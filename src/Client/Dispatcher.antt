-- ===== src/Client/Dispatcher.antt =====
-- adb_client/src/message_devices/transport_dispatcher.rs: the one reader of a transport, which routes
-- packets to the sessions that are registered.
pub mod Relay
pub mod Ids
pub mod Routing
use adb_client.Base.{
  ℕ, zero, suc, ◌+◌, ◌*◌, ◌-◌, ◌%◌, ◌^◌, Bool, true, false, not, ◌&&◌, ◌||◌, List, [], ◌∷◌, ◌++◌,
  Option, none, some, length, ltb, leb, ◌==◌, if◌then◌else◌, max,
}
use adb_client.Base.Outcome.{Result, ok, err}
use adb_client.Base.Decimal.{parse_unsigned}
use adb_client.Base.Bytes.{Bytes, bytes, bytes_eq, trim_end, strip_prefix}
use adb_client.Base.Utf8.{from_utf8_lossy}
use adb_client.Base.NatMap.{NatMap, lookup, insert, remove}
use adb_client.Client.Kinds.{MessageCommand, open_stream, clse, RustAdbError}
use adb_client.Client.Message.{Message, header_of}

-- The channel of a session, as what the dispatcher has sent into it, oldest first.
abbrev pub Mailbox : Type 0
Mailbox = List Message

abbrev pub Routes : Type 0
Routes = List (Bytes × Bytes)

-- The variables of `run_loop`. `written` is what `write_message` was given, `connectors` what each
-- reverse connector was sent, by its port; `dropped` is what the channels held when the loop let them
-- all go.
pub record Dispatcher : Type 0 where
  pub routes : Routes
  pub sessions : NatMap Mailbox
  pub next_local_id : ℕ
  pub connectors : NatMap (List (ℕ × ℕ))
  pub written : List Message
  pub dropped : NatMap Mailbox
  pub running : Bool

abbrev pub started : Dispatcher
started = record {
  routes = [];
  sessions = [];
  next_local_id = 1;
  connectors = [];
  written = [];
  dropped = [];
  running = true;
}

-- `DispatcherCommand`, without the channels for the replies. `write_message` ends with the result it
-- is given here.
pub data DispatcherCommand : Type 0 where
  write : Message → Result RustAdbError (Unit {0}) → DispatcherCommand
  register : DispatcherCommand
  unregister : (local_id : ℕ) → DispatcherCommand
  route : (remote : Bytes) (local_end : Option Bytes) → DispatcherCommand
  routes_wanted : DispatcherCommand
  shutdown : DispatcherCommand

-- What is sent on the channel for the reply; a registration can find no id.
pub data Reply : Type 0 where
  write_ended : Result RustAdbError (Unit {0}) → Reply
  registered : Option ℕ → Reply
  routed : Reply
  routes_are : Routes → Reply
  nothing : Reply

-- The step of `next_local_id`: `wrapping_add(1).max(1)`.
abbrev pub next_id : ℕ → ℕ
next_id n = max ((n + 1) % 2 ^ 32) 1

-- `contains_key`
abbrev pub is_taken : ℕ → NatMap Mailbox → Bool
is_taken local_id sessions = elim (lookup local_id sessions) [ none ↦ false | some _ ↦ true ]

-- The loop of `allocate_local_id`, on the number of rounds: the next id, and the one found.
unfoldable pub allocate : ℕ → NatMap Mailbox → ℕ → ℕ × Option ℕ
allocate zero sessions candidate = (candidate, none)
allocate (suc rounds) sessions candidate = elim ((candidate == 0) || is_taken candidate sessions) [
  | true ↦ allocate rounds sessions (next_id candidate)
  | false ↦ (next_id candidate, some candidate)
]

-- `1..u32::MAX`
abbrev pub max_rounds : ℕ
max_rounds = 2 ^ 32 - 2

unfoldable pub allocate_local_id : NatMap Mailbox → ℕ → ℕ × Option ℕ
allocate_local_id sessions next = allocate max_rounds sessions next

-- A new channel under the id that was found, if one was.
abbrev pub open_with : Dispatcher → ℕ × Option ℕ → Dispatcher × Option ℕ
open_with d (next, none) = (record d { next_local_id = next }, none)
open_with d (next, some local_id) =
    (record d { next_local_id = next; sessions = insert local_id [] d.sessions }, some local_id)

unfoldable pub open_channel : Dispatcher → Dispatcher × Option ℕ
open_channel d = open_with d (allocate_local_id d.sessions d.next_local_id)

unfoldable pub get_route : Bytes → Routes → Option Bytes
get_route remote [] = none
get_route remote ((from, to) ∷ routes) =
    let other = get_route remote routes in if bytes_eq from remote then some to else other

unfoldable pub remove_route : Bytes → Routes → Routes
remove_route remote [] = []
remove_route remote ((from, to) ∷ routes) =
    let others = remove_route remote routes in
    if bytes_eq from remote then others else (from, to) ∷ others

abbrev pub set_route : Bytes → Bytes → Routes → Routes
set_route remote local_end routes = (remote, local_end) ∷ remove_route remote routes

-- The match of `run_loop` on a command.
unfoldable pub run_command : Dispatcher → DispatcherCommand → Dispatcher × Reply
unfolding open_channel
run_command d (write m ended) = (record d { written = d.written ++ m ∷ [] }, write_ended ended)
run_command d register = ((open_channel d).0, registered (open_channel d).1)
run_command d (unregister local_id) = (record d { sessions = remove local_id d.sessions }, nothing)
run_command d (route remote (some local_end)) =
    (record d { routes = set_route remote local_end d.routes }, routed)
run_command d (route remote none) = (record d { routes = remove_route remote d.routes }, routed)
run_command d routes_wanted = (d, routes_are d.routes)
run_command d shutdown = (record d { running = false }, nothing)

-- `values().find(…)` of a text equal to the one sought.
unfoldable pub find_value : Bytes → Routes → Option Bytes
find_value sought [] = none
find_value sought ((from, to) ∷ routes) =
    let other = find_value sought routes in if bytes_eq to sought then some to else other

-- `parse::<u16>`
unfoldable pub parse_u16 : Bytes → Option ℕ
parse_u16 text = parse_unsigned 16 text

-- `local.strip_prefix("tcp:")` and the port behind it.
unfoldable pub port_of : Bytes → Option ℕ
port_of local_end = elim (strip_prefix (bytes "tcp:") local_end) [
  | none ↦ none
  | some text ↦ parse_u16 text
]

-- The host end of a destination: the route of that name, or a route to it.
unfoldable pub host_end : Routes → Bytes → Option Bytes
host_end routes destination = elim (get_route destination routes) [
  | some local_end ↦ some local_end
  | none ↦ find_value destination routes
]

abbrev pub queue_of : Option (List (ℕ × ℕ)) → List (ℕ × ℕ)
queue_of none = []
queue_of (some queue) = queue

abbrev pub connect : Dispatcher → ℕ → ℕ → ℕ → Dispatcher
connect d port local_id remote_id = record d {
  connectors =
      insert port (queue_of (lookup port d.connectors) ++ (local_id, remote_id) ∷ []) d.connectors;
}

abbrev pub connect_opened : ℕ → ℕ → Dispatcher × Option ℕ → Dispatcher
connect_opened port remote_id (d, none) = d
connect_opened port remote_id (d, some local_id) = connect d port local_id remote_id

-- A route with no port, or no free id, answers the device with nothing.
unfoldable pub accept_open : Dispatcher → Option ℕ → ℕ → Dispatcher
accept_open d none remote_id = d
accept_open d (some port) remote_id = connect_opened port remote_id (open_channel d)

abbrev pub close_message : ℕ → Message
close_message id = record { header = header_of clse 0 id []; payload = [] }

-- The arm of `run_loop` for OPEN.
unfoldable pub on_open : Dispatcher → Message → Dispatcher
unfolding accept_open
on_open d m =
    let destination = trim_end 0 (from_utf8_lossy m.payload) in
    elim (host_end d.routes destination) [
      | some local_end ↦ accept_open d (port_of local_end) m.header.arg0
      | none ↦ record d { written = d.written ++ close_message m.header.arg0 ∷ [] }
    ]

-- The arm for any other packet.
unfoldable pub deliver : Dispatcher → Message → Dispatcher
deliver d m = elim (lookup m.header.arg1 d.sessions) [
  | none ↦ d
  | some mailbox ↦ record d { sessions = insert m.header.arg1 (mailbox ++ m ∷ []) d.sessions }
]

unfoldable pub dispatch : Dispatcher → MessageCommand → Message → Dispatcher
unfolding on_open deliver
dispatch d open_stream m = on_open d m
dispatch d _ m = deliver d m

-- CLSE into every channel.
unfoldable pub close_all : NatMap Mailbox → NatMap Mailbox
close_all [] = []
close_all ((local_id, mailbox) ∷ sessions) =
    (local_id, mailbox ++ close_message local_id ∷ []) ∷ close_all sessions

-- What `read_message_with_timeout` came to: a packet, one of the three errors that mean that none
-- arrived, or any other error.
pub data Incoming : Type 0 where
  packet : Message → Incoming
  idle : Incoming
  failed : Incoming

-- The match of `run_loop` on what was read.
unfoldable pub receive : Dispatcher → Incoming → Dispatcher
unfolding dispatch close_all
receive d (packet m) = dispatch d m.header.command m
receive d idle = d
receive d failed = record d { sessions = []; dropped = close_all d.sessions; running = false }

-- A turn of `run_loop`: a command, or a read. After the loop has returned there are no more turns.
pub data Turn : Type 0 where
  commanded : DispatcherCommand → Turn
  received : Incoming → Turn

unfoldable pub take_turn : Dispatcher → Turn → Dispatcher
unfolding run_command receive
take_turn d (commanded c) = (run_command d c).0
take_turn d (received i) = receive d i

unfoldable pub run_loop : Dispatcher → List Turn → Dispatcher
unfolding take_turn
run_loop d [] = d
run_loop d (t ∷ ts) = elim d.running [ false ↦ d | true ↦ run_loop (take_turn d t) ts ]
