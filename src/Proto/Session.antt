-- ===== src/Proto/Session.antt =====
-- adb_proto/src/session.rs: the connection handshake and the multiplexed streams, as a state record
-- with one function for each method.
pub mod Banner
pub mod Receive
pub mod Cases
pub mod Buffered
pub mod Fragments
pub mod Wire
pub mod Ends
pub mod Trace
pub mod Carries
pub mod Handled
pub mod Delivery
pub mod Claims
pub mod Window
use adb_client.Base.{
  ℕ, zero, suc, ◌+◌, ◌*◌, ◌%◌, ◌^◌, ◌≡◌, refl, Bool, true, false, not, ◌||◌, List, [], ◌∷◌, ◌++◌,
  Option, none, some, length, drop, take, ltb, ◌==◌, if◌then◌else◌, min, max,
}
use adb_client.Base.Outcome.{Result, ok, err, ◌>>=◌}
use adb_client.Base.Bytes.{Bytes, bytes}
use adb_client.Base.Utf8.{from_utf8_lossy}
use adb_client.Base.NatMap.{NatMap, lookup, insert, remove}
use adb_client.Proto.Kinds.{
  Command, cnxn, clse, auth, open_stream, wrte, okay, stls, State, idle, handshaking, connected,
  ProtoError, protocol, not_connected, stream_not_open, tls_unsupported, unexpected_packet,
}
use adb_client.Proto.Message.{Packet, PacketDecoder, new, set_verify_checksum, push, next_packet}
use Banner.{DeviceBanner, parse}

abbrev pub auth_token : ℕ
auth_token = 1

abbrev pub auth_signature : ℕ
auth_signature = 2

abbrev pub auth_rsapublickey : ℕ
auth_rsapublickey = 3

abbrev pub version_skip_checksum : ℕ
version_skip_checksum = 0x01000001

pub record SessionConfig : Type 0 where
  pub version : ℕ
  pub max_payload : ℕ
  pub system_identity : Bytes
  pub key_comment : Bytes

-- `SessionConfig::default`
abbrev pub default_config : SessionConfig
default_config = record {
  version = 0x01000000;
  max_payload = 1024 * 1024;
  system_identity = bytes "host::adb_proto";
  key_comment = bytes "adb_proto";
}

-- What the session uses of `AdbKey`: the two calls that end in the RSA library.
pub record AdbKey : Type 0 where
  pub sign_token : Bytes → Result ProtoError Bytes
  pub android_public_key : Bytes → Result ProtoError Bytes

pub data Event : Type 0 where
  awaiting_user_approval : Event
  connected_to : DeviceBanner → Event
  stream_opened : (local_id : ℕ) → Event
  stream_data : (local_id : ℕ) (payload : Bytes) → Event
  stream_closed : (local_id : ℕ) → Event

pub record Stream : Type 0 where
  pub remote_id : Option ℕ
  pub outbox : Bytes
  pub write_in_flight : Bool

-- `Stream::default`
abbrev pub new_stream : Stream
new_stream = record { remote_id = none; outbox = []; write_in_flight = false }

-- The queues `transmit` and `events` have their front first.
pub record Session : Type 0 where
  pub config : SessionConfig
  pub key : AdbKey
  pub state : State
  pub decoder : PacketDecoder
  pub transmit : List Packet
  pub events : List Event
  pub send_public_key_next : Bool
  pub peer_max_payload : ℕ
  pub streams : NatMap Stream
  pub next_local_id : ℕ

-- What can stop a method: an error that it returns, or a panic. `stuck` is neither, it marks a loop
-- that ran out of fuel.
pub data Fault : Type 0 where
  proto : ProtoError → Fault
  panic : Fault
  stuck : Fault

-- `Session::new`
unfoldable pub new_session : SessionConfig → AdbKey → Session
unfolding new
new_session config key = record {
  config = config;
  key = key;
  state = idle;
  decoder = new config.max_payload;
  transmit = [];
  events = [];
  send_public_key_next = false;
  peer_max_payload = 4096;
  streams = [];
  next_local_id = 1;
}

abbrev pub packet : Command → ℕ → ℕ → Bytes → Packet
packet c arg0 arg1 payload = record { command = c; arg0 = arg0; arg1 = arg1; payload = payload }

abbrev pub queue_packet : Session → Packet → Session
queue_packet s p = record s { transmit = s.transmit ++ p ∷ [] }

abbrev pub queue_event : Session → Event → Session
queue_event s e = record s { events = s.events ++ e ∷ [] }

abbrev pub set_stream : Session → ℕ → Stream → Session
set_stream s local_id stream = record s { streams = insert local_id stream s.streams }

-- `Session::start`
unfoldable pub start : Session → Session
start s =
    record (queue_packet s
      (packet cnxn s.config.version s.config.max_payload (s.config.system_identity ++ 0 ∷ []))) {
        state = handshaking;
      }

-- `Session::is_connected`
unfoldable pub is_connected : Session → Bool
is_connected s = elim s.state [ connected ↦ true | _ ↦ false ]

-- `Session::poll_transmit`
unfoldable pub poll_transmit : Session → Session × Option Packet
poll_transmit s = elim s.transmit [
  | [] ↦ (s, none)
  | p ∷ rest ↦ (record s { transmit = rest }, some p)
]

-- `Session::poll_event`
unfoldable pub poll_event : Session → Session × Option Event
poll_event s = elim s.events [ [] ↦ (s, none) | e ∷ rest ↦ (record s { events = rest }, some e) ]

-- `Session::open`, after the check that the session is connected. The id wraps at 2^32.
unfoldable pub open_connected : Session → Bytes → Session
open_connected s service =
    let s' =
      queue_packet (record s { next_local_id = (s.next_local_id + 1) % 2 ^ 32 })
        (packet open_stream s.next_local_id 0 (service ++ 0 ∷ [])) in
    set_stream s' s.next_local_id new_stream

-- `Session::open` with `require_connected`.
unfoldable pub open_service : Session → Bytes → Session × Result ProtoError ℕ
unfolding is_connected open_connected
open_service s service =
    if is_connected s
    then (open_connected s service, ok s.next_local_id)
    else (s, err (protocol not_connected))

-- The last part of `Session::flush`: one chunk of the outbox goes out.
unfoldable pub send_chunk : Session → ℕ → Stream → ℕ → Session
send_chunk s local_id stream remote_id =
    let len = min (length stream.outbox) s.peer_max_payload in
    let stream' = record stream { outbox = drop len stream.outbox; write_in_flight = true } in
    queue_packet (set_stream s local_id stream')
      (packet wrte local_id remote_id (take len stream.outbox))

unfoldable pub is_empty : Bytes → Bool
is_empty [] = true
is_empty (b ∷ bs) = false

unfoldable pub flush_stream : Session → ℕ → Stream → Session
unfolding is_empty send_chunk
flush_stream s local_id stream = elim stream.remote_id [
  | none ↦ s
  | some remote_id ↦
      if stream.write_in_flight || is_empty stream.outbox
      then s
      else send_chunk s local_id stream remote_id
]

-- `Session::flush`
unfoldable pub flush : Session → ℕ → Session
unfolding flush_stream
flush s local_id = elim (lookup local_id s.streams) [
  | none ↦ s
  | some stream ↦ flush_stream s local_id stream
]

-- `Session::write`
unfoldable pub write : Session → ℕ → Bytes → Session × Result ProtoError (Unit {0})
write s local_id more = elim (lookup local_id s.streams) [
  | none ↦ (s, err (protocol (stream_not_open local_id)))
  | some stream ↦ (
    flush (set_stream s local_id (record stream { outbox = stream.outbox ++ more })) local_id,
    ok tt,
  )
]

-- `Session::pending_write_len`
unfoldable pub pending_write_len : Session → ℕ → ℕ
pending_write_len s local_id = elim (lookup local_id s.streams) [
  | none ↦ 0
  | some stream ↦ length stream.outbox
]

-- `Session::ack`
unfoldable pub ack : Session → ℕ → Session
ack s local_id = elim (lookup local_id s.streams) [
  | none ↦ s
  | some stream ↦ elim stream.remote_id [
    | none ↦ s
    | some remote_id ↦ queue_packet s (packet okay local_id remote_id [])
  ]
]

-- `unwrap_or(0)` of `close`.
abbrev pub remote_or_zero : Option ℕ → ℕ
remote_or_zero none = 0
remote_or_zero (some remote_id) = remote_id

-- `Session::close`
unfoldable pub close : Session → ℕ → Session
close s local_id = elim (lookup local_id s.streams) [
  | none ↦ s
  | some stream ↦
      queue_packet (record s { streams = remove local_id s.streams })
        (packet clse local_id (remote_or_zero stream.remote_id) [])
]
