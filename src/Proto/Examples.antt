-- ===== src/Proto/Examples.antt =====
-- Tests of the models of adb_proto/src on concrete packets, and the theorems at concrete sessions.
use adb_client.Base.{
  ℕ, ◌↔◌, ◌+◌, ◌*◌, ◌≤◌, ◌<◌, ◌≡◌, ◌≢◌, ◌^◌, refl, ◌⊎◌, arith, Bool, true, false, List, [], ◌∷◌,
  ◌++◌, Option, none, some, length, concat, All, take, drop,
}
use adb_client.Base.Outcome.{ok, err}
use adb_client.Base.Bytes.{Bytes, bytes}
use adb_client.Base.NatMap.{lookup}
use adb_client.Proto.Kinds
use adb_client.Proto.Kinds.{
  cnxn, wrte, okay, clse, auth, State, bad_magic, ProtoError, protocol, unexpected_packet,
}
use adb_client.Proto.Message
use adb_client.Proto.Message.{
  Packet, PacketDecoder, header_bytes, encode_header, push, next_packet, size,
}
use adb_client.Proto.Message.Words.{Fits}
use adb_client.Proto.Message.RoundTrip.{waiting, wire, next_packet-encode_header}
use adb_client.Proto.Session.{
  Session, AdbKey, default_config, new_session, start, packet, Fault, Stream, panic, proto,
}
use adb_client.Proto.Session.Receive.{handle_packet, handle_input}
use adb_client.Proto.Session.Trace.{Call, starts, opens, writes, polls, receives, History, run}
use adb_client.Proto.Session.Carries.{sent, queued}
use adb_client.Proto.Session.Claims.{claimed, writes_on}
use adb_client.Proto.Session.Delivery.{IsLive, written, run_delivers}
use adb_client.Proto.Session.Window.{okays, run_window}
use adb_client.Proto.Session.Wire.{wires, handle_packets, left_behind, handle_input-wires}
use adb_client.Proto.Session.Buffered.{buffered}
use adb_client.Proto.Session.Fragments.{feed, unfed, feed-concat, feed-concat_err}
use adb_client.Proto.Session.Ends.{IsReturned, handle_input-IsReturned}

-- A key whose signature is the token itself.
abbrev echo_key : AdbKey
echo_key = record { sign_token = λ token. ok token; android_public_key = λ comment. ok comment }

abbrev hello : Packet
hello = packet cnxn 0x01000000 4096 (bytes "device::ro.product.model=Pixel 8")

abbrev greeting : Session
greeting = start (new_session default_config echo_key)

-- Stream 1 is open at the device under 7.
abbrev opened_stream : Stream
opened_stream = record { remote_id = some 7; outbox = []; write_in_flight = false }

abbrev online : Session
online = record (new_session default_config echo_key) {
  state = Kinds.connected;
  next_local_id = 2;
  streams = (1, opened_stream) ∷ [];
}

abbrev ready : Packet
ready = packet okay 7 1 []

abbrev some_data : Packet
some_data = packet wrte 7 1 (bytes "hi")

abbrev a_call : List Call
a_call = writes 1 (bytes "one") ∷ writes 1 (bytes "two") ∷ polls ∷ receives ready ∷ []

abbrev from_online : History
from_online = record { session = online; log = [] }

test_sent : sent 1 (run from_online a_call).log ≡ bytes "one"
unfolding sent run adb_client.Proto.Session.poll_transmit adb_client.Proto.Session.write
    adb_client.Base.NatMap.lookup adb_client.Proto.Session.flush adb_client.Base.NatMap.insert
    new_session adb_client.Proto.Session.Carries.payload_on
test_sent = refl

hello-Fits : Fits (1024 * 1024) hello
hello-Fits = record {
  arg0_fits = omega arith;
  arg1_fits = omega arith;
  payload_fits = omega arith;
  payload_le_max = omega arith;
}

online-IsLive : IsLive 1 online
unfolding lookup
online-IsLive = record { is_open = λ e. cc; is_old = omega arith }

run_delivers_example :
    sent 1 (run from_online a_call).log ++ queued 1 (run from_online a_call).session
    ≡ sent 1 [] ++ (queued 1 online ++ written 1 a_call)
unfolding adb_client.Proto.Session.Delivery.opened new_session
run_delivers_example =
    run_delivers 1 from_online a_call online-IsLive (tt, (tt, (tt, ((λ e. cc), tt)))) (omega arith)

-- The calls from the start of a session in which stream 1 is opened and written on.
abbrev dialogue : List Call
dialogue =
    starts
    ∷ receives hello
    ∷ opens (bytes "shell:ls")
    ∷ writes 1 (bytes "one")
    ∷ receives ready
    ∷ polls
    ∷ writes 1 (bytes "two")
    ∷ []

abbrev fresh : Session
fresh = new_session default_config echo_key

claimed-fresh : claimed 1 fresh ≡ 0
unfolding claimed new_session writes_on lookup
claimed-fresh = refl

run_window_example :
    writes_on 1 (run (record { session = fresh; log = [] }) dialogue).log
      + writes_on 1 (run (record { session = fresh; log = [] }) dialogue).session.transmit
    ≤ okays 1 dialogue
run_window_example = run_window 1 fresh dialogue claimed-fresh

abbrev first_part : Bytes
first_part = take 10 (wire ready)

abbrev second_part : Bytes
second_part = drop 10 (wire ready)

succeeds :
    feed (handle_input online first_part) (second_part ∷ [])
    ≡ ((feed (handle_input online first_part) (second_part ∷ [])).0, ok tt)
unfolding feed handle_input next_packet handle_packet new_session header_bytes Message.read_header
    Message.try_from Message.word Message.magic Message.take_payload Message.checksum
    adb_client.Proto.Session.Receive.on_okay lookup adb_client.Proto.Session.flush
    adb_client.Base.NatMap.insert
succeeds = refl

feed-concat_example :
    handle_input online (first_part ++ concat (second_part ∷ []))
    ≡ ((feed (handle_input online first_part) (second_part ∷ [])).0, ok tt)
feed-concat_example =
    feed-concat online (feed (handle_input online first_part) (second_part ∷ [])).0 first_part
      (second_part ∷ []) succeeds

-- CNXN is refused once the session is connected.
abbrev refused : Bytes
refused = wire (packet cnxn 1 1 [])

abbrev fed_refused : Session
fed_refused = (feed (handle_input online refused) (wire ready ∷ [])).0

stops :
    feed (handle_input online refused) (wire ready ∷ [])
    ≡ (fed_refused, err (proto (protocol (unexpected_packet cnxn Kinds.connected))))
unfolding feed handle_input next_packet handle_packet new_session header_bytes Message.read_header
    Message.try_from Message.word Message.magic Message.take_payload Message.checksum
stops = refl

feed-concat_err_example : handle_input online (refused ++ concat (wire ready ∷ [])) ≡ (
  buffered (concat (unfed (handle_input online refused) (wire ready ∷ []))) fed_refused,
  err (proto (protocol (unexpected_packet cnxn Kinds.connected))),
)
feed-concat_err_example =
    feed-concat_err online fed_refused (proto (protocol (unexpected_packet cnxn Kinds.connected)))
      refused (wire ready ∷ []) stops

ready-Fits : Fits (1024 * 1024) ready
ready-Fits = record {
  arg0_fits = omega arith;
  arg1_fits = omega arith;
  payload_fits = omega arith;
  payload_le_max = omega arith;
}

some_data-Fits : Fits (1024 * 1024) some_data
some_data-Fits = record {
  arg0_fits = omega arith;
  arg1_fits = omega arith;
  payload_fits = omega arith;
  payload_le_max = omega arith;
}

handle_input-wires_example :
    handle_input online (wires (ready ∷ some_data ∷ []))
    ≡ left_behind (handle_packets online (ready ∷ some_data ∷ []))
unfolding new_session Message.new
handle_input-wires_example =
    handle_input-wires online (ready ∷ some_data ∷ [])
      (record { buf_empty = refl; no_header = refl }) (ready-Fits, (some_data-Fits, tt))

handle_input-IsReturned_example : IsReturned (handle_input greeting (wire hello)).1
unfolding new_session start
handle_input-IsReturned_example = handle_input-IsReturned greeting (wire hello) (omega arith)

next_packet-encode_header_example :
    next_packet (waiting (header_bytes hello ++ (hello.payload ++ refused)) (1024 * 1024) true)
    ≡ (waiting refused (1024 * 1024) true, ok (some hello))
unfolding encode_header
next_packet-encode_header_example =
    next_packet-encode_header (1024 * 1024) true hello (header_bytes hello) refused hello-Fits refl

abbrev half_read : PacketDecoder
half_read = waiting first_part 4096 true

abbrev whole : PacketDecoder
whole = waiting (wire ready) 4096 true
