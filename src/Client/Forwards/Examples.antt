-- ===== src/Client/Forwards/Examples.antt =====
-- Forward rules and forwarded connections at concrete inputs.
use adb_client.Base.{◌+◌, ◌≤◌, ◌≡◌, refl, ◌↔◌, true, false, none, some, List, [], ◌∷◌, ◌++◌, arith}
use adb_client.Base.Bytes.{Bytes, bytes, bytes_eq, strip_prefix}
use adb_client.Base.Decimal.{parse_unsigned, parse_number, parse_digits}
use adb_client.Base.Outcome.{ok}
use adb_client.Client.Kinds.{okay, write, clse}
use adb_client.Client.Message.{try_new, try_new_header}
use adb_client.Client.Message.Codec.{message_of}
use adb_client.Client.Session.{write_new}
use adb_client.Client.Session.Pushed.{session}
use adb_client.Client.Dispatched.{acknowledge, close_ack}
use adb_client.Client.Forwards.{
  get, remove, contains_key, forward_port, check_local, listening, Forwards, set_serving, set_stop,
  start_serving, remove_forward, serve, remove_one, Reach, here, next,
}
use adb_client.Client.Forwards.Alive.{start, Reach-alive}
use adb_client.Client.Forwards.Connection.{
  buffer, end_of_input, Forward, Round, sent_buffer, on_event, unless_busy, take_event,
  acknowledged, on_socket, on_packet, on_received, forward_round, forward_rounds,
}
use adb_client.Client.Forwards.Connection.Sending.{write_bytes, channel_bytes, writes, forward_of}
use adb_client.Client.Forwards.Connection.Ordered.{okays, forward_rounds-ordered}

abbrev web : Bytes
web = bytes "tcp:8080"

abbrev device_web : Bytes
device_web = bytes "tcp:80"

-- A rule is made; made again after its removal, it belongs to the second call.
remade : (f : Forwards) × Reach start f
unfolding check_local contains_key forward_port get remove strip_prefix parse_unsigned parse_number
    parse_digits bytes_eq start_serving remove_forward set_serving set_stop
remade = (
  _,
  next (next (next here (serve 0 8080 web device_web refl refl)) (remove_one web))
      (serve 1 8080 web (bytes "tcp:81") refl refl),
)

Reach-alive_example :
    ((get web remade.0.routes ≡ some (bytes "tcp:81", 1))
      ↔ ((remade.0.serving 1 ≡ listening web (bytes "tcp:81")) × (remade.0.stop 1 ≡ false)))
    × ((remove_forward web remade.0).0.serving 1 ≡ listening web (bytes "tcp:81")
        → (remove_forward web remade.0).0.stop 1 ≡ true)
Reach-alive_example = Reach-alive remade.0 remade.1 web (bytes "tcp:81") 1

abbrev opened : Forward
opened = record {
  session = session 3 9 [] [];
  pending = false;
  channel = buffer (bytes "GET ") ∷ buffer (bytes "/") ∷ end_of_input ∷ [];
  socket = [];
}

-- The second buffer waits for the OKAY of the first; the device answers before it closes.
abbrev rounds : List Round
rounds =
    record { ready = true; received = ok none; socket_write = ok tt }
    ∷ record { ready = true; received = ok (some (message_of okay 9 3 [])); socket_write = ok tt }
    ∷ record {
      ready = true;
      received = ok (some (message_of write 9 3 (bytes "OK")));
      socket_write = ok tt;
    }
    ∷ record { ready = true; received = ok (some (message_of clse 9 3 [])); socket_write = ok tt }
    ∷ []

forward_rounds-ordered_example :
    (write_bytes (forward_of (forward_rounds rounds opened)).session.transport.written
        ++ channel_bytes (forward_of (forward_rounds rounds opened)).channel
      ≡ channel_bytes opened.channel)
    × (writes (forward_of (forward_rounds rounds opened)).session.transport.written
        ≤ okays rounds + 1)
forward_rounds-ordered_example =
    forward_rounds-ordered rounds opened refl (omega arith, (omega arith, (tt, tt)))

carried_both :
    ((forward_of (forward_rounds rounds opened)).socket ≡ bytes "OK")
    × (writes (forward_of (forward_rounds rounds opened)).session.transport.written ≡ 2)
unfolding forward_rounds forward_round take_event unless_busy on_event sent_buffer on_received
    on_packet on_socket acknowledged write_new try_new try_new_header acknowledge close_ack
carried_both = (refl, refl)
