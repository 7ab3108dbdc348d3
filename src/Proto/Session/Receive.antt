-- ===== src/Proto/Session/Receive.antt =====
-- adb_proto/src/session.rs: what a session does with the packets that it receives.
use adb_client.Base.{ℕ, zero, suc, false, not, [], none, some, ltb, ◌==◌, if◌then◌else◌, min, max}
use adb_client.Base.Outcome.{Result, ok, err}
use adb_client.Base.Bytes.{Bytes}
use adb_client.Base.Utf8.{from_utf8_lossy}
use adb_client.Base.NatMap.{lookup, remove}
use adb_client.Proto.Kinds.{
  Command, cnxn, clse, auth, wrte, okay, stls, State, handshaking, connected, protocol,
  tls_unsupported, unexpected_packet,
}
use adb_client.Proto.Message.{Packet, set_verify_checksum, push, size, next_packet}
use adb_client.Proto.Session.Banner.{parse}
use adb_client.Proto.Session.{
  Session, Fault, proto, panic, stuck, connected_to, awaiting_user_approval, stream_opened,
  stream_data, stream_closed, packet, queue_packet, queue_event, set_stream, flush, auth_token,
  auth_signature, auth_rsapublickey, version_skip_checksum,
}

-- The state after a method, and how it ended.
abbrev pub Step : Type 0
Step = Session × Result Fault (Unit {0})

-- `Session::on_okay`
unfoldable pub on_okay : Session → ℕ → ℕ → Session
on_okay s remote_id local_id = elim (lookup local_id s.streams) [
  | none ↦ s
  | some stream ↦ elim stream.remote_id [
    | none ↦
        flush
          (queue_event (set_stream s local_id (record stream { remote_id = some remote_id }))
            (stream_opened local_id))
          local_id
    | some _ ↦ flush (set_stream s local_id (record stream { write_in_flight = false })) local_id
  ]
]

-- `Session::on_write`
unfoldable pub on_write : Session → ℕ → ℕ → Bytes → Session
on_write s remote_id local_id payload = elim (lookup local_id s.streams) [
  | none ↦ queue_packet s (packet clse 0 remote_id [])
  | some _ ↦ queue_event s (stream_data local_id payload)
]

-- The arm of `handle_packet` for CLSE.
unfoldable pub on_close : Session → ℕ → Session
on_close s local_id = elim (lookup local_id s.streams) [
  | none ↦ s
  | some _ ↦ queue_event (record s { streams = remove local_id s.streams }) (stream_closed local_id)
]

-- The arm for CNXN. `clamp(1, max)` panics where `max` is below 1, after the decoder was told whether
-- to verify checksums.
unfoldable pub on_connect : Session → Packet → Step
on_connect s p =
    let negotiated = min p.arg0 s.config.version in
    let s' = record s {
      decoder = set_verify_checksum s.decoder (ltb negotiated version_skip_checksum);
    } in
    if s.config.max_payload == 0 then (s', err panic) else (
      queue_event
          (record s' {
            peer_max_payload = min (max p.arg1 1) s.config.max_payload;
            state = connected;
          })
          (connected_to (parse (from_utf8_lossy p.payload))),
      ok tt,
    )

-- The two replies to an AUTH token: the public key, or the token signed.
unfoldable pub offer_key : Session → Step
offer_key s = elim (s.key.android_public_key s.config.key_comment) [
  | err e ↦ (s, err (proto e))
  | ok key ↦ (
    record (queue_event (queue_packet s (packet auth auth_rsapublickey 0 key))
        awaiting_user_approval) { send_public_key_next = not s.send_public_key_next },
    ok tt,
  )
]

unfoldable pub sign : Session → Packet → Step
sign s p = elim (s.key.sign_token p.payload) [
  | err e ↦ (s, err (proto e))
  | ok signature ↦ (
    record (queue_packet s (packet auth auth_signature 0 signature)) {
      send_public_key_next = not s.send_public_key_next;
    },
    ok tt,
  )
]

-- The arm for an AUTH token.
unfoldable pub on_token : Session → Packet → Step
unfolding offer_key sign
on_token s p = if s.send_public_key_next then offer_key s else sign s p

-- The match of `handle_packet`.
unfoldable pub dispatch : State → Command → Session → Packet → Step
unfolding on_connect on_token on_close
dispatch handshaking cnxn s p = on_connect s p
dispatch handshaking auth s p =
    if p.arg0 == auth_token
    then on_token s p
    else (s, err (proto (protocol (unexpected_packet auth handshaking))))
dispatch handshaking stls s p = (s, err (proto (protocol tls_unsupported)))
dispatch connected okay s p = (on_okay s p.arg0 p.arg1, ok tt)
dispatch connected wrte s p = (on_write s p.arg0 p.arg1 p.payload, ok tt)
dispatch connected clse s p = (on_close s p.arg1, ok tt)
dispatch state command s p = (s, err (proto (protocol (unexpected_packet command state))))

-- `Session::handle_packet`
unfoldable pub handle_packet : Session → Packet → Step
unfolding dispatch
handle_packet s p = dispatch s.state p.command s p

-- The loop of `handle_input`, on fuel.
unfoldable pub handle_loop : ℕ → Session → Step
handle_loop zero s = (s, err stuck)
handle_loop (suc fuel) s =
    let (d, r) = next_packet s.decoder in
    let s' = record s { decoder = d } in
    elim r [
      | err e ↦ (s', err (proto e))
      | ok none ↦ (s', ok tt)
      | ok (some p) ↦
          let (s'', r') = handle_packet s' p in
          elim r' [ err e ↦ (s'', err e) | ok _ ↦ handle_loop fuel s'' ]
    ]

-- `Session::handle_input`
unfoldable pub handle_input : Session → Bytes → Step
unfolding handle_loop
handle_input s more =
    let s' = record s { decoder = push s.decoder more } in handle_loop (suc (size s'.decoder)) s'
