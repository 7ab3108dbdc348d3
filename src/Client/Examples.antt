-- ===== src/Client/Examples.antt =====
-- Tests of the models of adb_client/src/message_devices, and the theorems at concrete inputs.
use adb_client.Base.{
  ℕ, ◌+◌, ◌*◌, ◌^◌, ◌≤◌, ◌<◌, ◌≡◌, ◌≢◌, refl, arith, Bool, true, false, List, [], ◌∷◌, ◌++◌, Option,
  none, some, length, concat, ltb, if◌then◌else◌,
}
use adb_client.Base.Outcome.{ok}
use adb_client.Base.Bytes.{Bytes, bytes}
use adb_client.Base.NatMap.{lookup}
use adb_client.Proto.Message.{encode_header}
use adb_client.Proto.Sync.Request.{data_frames}
use adb_client.Proto.Sync.Transfer.{with_done}
use adb_client.Client.Kinds.{open_stream, write, okay}
use adb_client.Client.Message.{Header, Message, header_of, try_new, encode}
use adb_client.Client.Message.Codec.{message_of, proto_packet, encode-encode_header}
use adb_client.Client.Dispatcher.Routing
use adb_client.Client.Dispatcher.{
  Dispatcher, started, register, unregister, Turn, commanded, received, packet, run_loop, parse_u16,
  port_of,
}
use adb_client.Client.Dispatcher.Ids.{IsWellFormed, run_loop-IsWellFormed}
use adb_client.Client.Dispatcher.Routing.{addressed, run_loop-addressed}
use adb_client.Client.Dispatcher.Relay.{Calls, got, timeout, some_bytes, relay}
use adb_client.Client.Dispatcher.Relay.Window.{writes, okays, relay-writes}
use adb_client.Client.Session.{push_file}
use adb_client.Client.Session.Copy.{copy_sync_file, finished}
use adb_client.Client.Session.Received.{copy_sync_file-data_frames}
use adb_client.Client.Session.Pushed.{
  acked, session, file_writes, payloads, push_file-copy_sync_file,
}
use adb_client.Client.ReverseRelay.{
  ReverseRelay, RelayRead, LocalEvent, data_from, message, idle_poll, run_from,
}
use adb_client.Client.ReverseRelay
use adb_client.Client.ReverseRelay.Opened.{IsSound, run_from-IsSound}

abbrev a_header : Header
a_header = header_of write 1 2 (bytes "hi")

encode-encode_header_example :
    (try_new write 1 2 (bytes "hi") ≡ ok (message_of write 1 2 (bytes "hi")))
    × (encode_header (proto_packet write 1 2 (bytes "hi")) ≡ some (encode a_header))
encode-encode_header_example = encode-encode_header write 1 2 (bytes "hi") (omega arith)

test_port_of : port_of (bytes "tcp:+080") ≡ some 80
unfolding port_of parse_u16 adb_client.Base.Bytes.strip_prefix adb_client.Base.Decimal.parse_number
    adb_client.Base.Decimal.parse_digits adb_client.Base.Decimal.parse_unsigned
test_port_of = refl

-- A packet for stream 1.
abbrev a_packet : Message
a_packet = message_of write 9 1 (bytes "x")

-- Stream 1 is registered, stream 2 comes and goes.
abbrev registered_one : Dispatcher
registered_one = record started { sessions = (1, []) ∷ []; next_local_id = 2 }

registered_one-IsWellFormed : IsWellFormed registered_one
unfolding lookup
registered_one-IsWellFormed = record {
  no_zero = refl;
  next_positive = omega arith;
  next_small = omega arith;
}

abbrev a_run : List Turn
a_run =
    commanded register
    ∷ received (packet a_packet)
    ∷ commanded (unregister 2)
    ∷ received (packet a_packet)
    ∷ []

run_loop-IsWellFormed_example : IsWellFormed (run_loop registered_one a_run)
run_loop-IsWellFormed_example =
    run_loop-IsWellFormed registered_one a_run registered_one-IsWellFormed

run_loop-addressed_example :
    lookup 1 (run_loop registered_one a_run).sessions ≡ some ([] ++ addressed 1 a_run)
unfolding lookup Routing.spares
run_loop-addressed_example =
    run_loop-addressed 1 [] registered_one a_run registered_one-IsWellFormed refl refl
      (refl, (refl, (refl, (refl, tt))))

-- Two reads of the socket with an OKAY between them.
abbrev a_round : Calls
a_round = record {
  packet = timeout;
  written = true;
  okay_sent = true;
  read = some_bytes (bytes "tap");
  write_sent = true;
}

abbrev an_okay : Message
an_okay = message_of okay 9 1 []

abbrev relayed : List Calls
relayed = a_round ∷ a_round ∷ record a_round { packet = got an_okay } ∷ []

relay-writes_example : writes (relay 1 9 true relayed).0.sent ≤ 1 + okays relayed
relay-writes_example = relay-writes 1 9 true relayed

-- Both sides of the bound are met here.
test_relay : writes (relay 1 9 true relayed).0.sent ≡ 2
unfolding writes relay
test_relay = refl

copy_sync_file-data_frames_example :
    copy_sync_file (concat (data_frames (bytes "file")) ++ with_done 9 (bytes "later"))
    ≡ (bytes "later", bytes "file", finished)
copy_sync_file-data_frames_example = copy_sync_file-data_frames (bytes "file") (bytes "later") 9

push_file-copy_sync_file_example :
    (push_file
        (session 1 9 (acked (an_okay ∷ an_okay ∷ an_okay ∷ []) (ok a_packet ∷ [])) [])
        (bytes "fi" ∷ bytes "le" ∷ [])
      ≡ (session 1 9 [] (file_writes 1 9 (bytes "fi" ∷ bytes "le" ∷ [])), ok tt))
    × (copy_sync_file (payloads 1 9 (file_writes 1 9 (bytes "fi" ∷ bytes "le" ∷ [])))
        ≡ ([], bytes "file", finished))
push_file-copy_sync_file_example =
    push_file-copy_sync_file 1 9 (bytes "fi") (bytes "le" ∷ []) an_okay an_okay (an_okay ∷ [])
      a_packet [] (omega arith) ((omega arith, omega arith), tt) refl (refl, (refl, (refl, tt)))
      refl

-- A relay at its start, and a stream that is opened, written on and closed.
abbrev idle_relay : ReverseRelay
idle_relay = record {
  remote = bytes "localabstract:scrcpy";
  local_end = bytes "tcp:27183";
  local_port = 27183;
  sockets = [];
  accepted_stream = false;
  sent = [];
  write_ends = λ n. ok tt;
}

abbrev calls : ReverseRelay.Calls
calls = record { is_connected = true; is_prepared = true; random_id = 5; socket_written = true }

abbrev an_open : Message
an_open = message_of open_stream 9 0 (bytes "tcp:27183")

abbrev relay_rounds : List (List LocalEvent × RelayRead)
relay_rounds =
    ([], message an_open calls)
    ∷ (data_from 5 (bytes "tap") ∷ LocalEvent.closed 5 ∷ [], idle_poll)
    ∷ []

idle_relay-IsSound : IsSound idle_relay
unfolding lookup
idle_relay-IsSound = record { sockets_opened = λ id socket e. cc; writes_opened = tt }

run_from-IsSound_example : IsSound (run_from relay_rounds (idle_relay, ok false)).0
run_from-IsSound_example = run_from-IsSound relay_rounds (idle_relay, ok false) idle_relay-IsSound
