-- ===== src/Proto/Session/Buffered.antt =====
-- What waits in the decoder plays no part in how a packet is handled.
use adb_client.Base.{ℕ, ◌≡◌, refl, some, false, inl, inr, arith, Option-cases, Bool-cases, ◌==◌}
use adb_client.Base.Bytes.{Bytes}
use adb_client.Base.NatMap.{lookup}
use adb_client.Proto.Kinds.{Command, cnxn, clse, auth, wrte, okay, State, handshaking, connected}
use adb_client.Proto.Message.{Packet, push, size, set_verify_checksum}
use adb_client.Proto.Session.{
  Session, Stream, set_stream, queue_event, stream_opened, flush, flush_stream,
}
use adb_client.Proto.Session.Cases.{on_okay_cases}
use adb_client.Proto.Session.Receive.{
  Step, on_okay, on_write, on_close, on_connect, on_token, dispatch, handle_packet,
}

-- The session with `more` behind what its decoder holds.
abbrev pub buffered : Bytes → Session → Session
buffered more s = record s { decoder = push s.decoder more }

abbrev pub buffered_step : Bytes → Step → Step
buffered_step more (s, r) = (buffered more s, r)

module _ (more : Bytes) where
  flush_stream-buffered :
      (s : Session) (local_id : ℕ) (stream : Stream)
      → flush_stream (buffered more s) local_id stream
        ≡ buffered more (flush_stream s local_id stream)
  unfolding flush_stream
  flush_stream-buffered s local_id stream = ground arith

  flush-buffered :
      (s : Session) (local_id : ℕ)
      → flush (buffered more s) local_id ≡ buffered more (flush s local_id)
  unfolding flush
  flush-buffered s local_id = elim (Option-cases (lookup local_id s.streams)) [
    | inl e ↦ rw (e, flush)
    | inr (stream, e) ↦ rw (e, flush) (flush_stream-buffered s local_id stream)
  ]

  on_okay-buffered :
      (s : Session) (remote_id local_id : ℕ)
      → on_okay (buffered more s) remote_id local_id ≡ buffered more (on_okay s remote_id local_id)
  unfolding on_okay
  on_okay-buffered s remote_id local_id = elim (Option-cases (lookup local_id s.streams)) [
    | inl e ↦ rw (e, on_okay)
    | inr (stream, e) ↦ elim (Option-cases stream.remote_id) [
      | inl fresh ↦ rw (e, on_okay, fresh) (flush-buffered _ local_id)
      | inr (known, opened) ↦ rw (e, on_okay, opened) (flush-buffered _ local_id)
    ]
  ]

  on_write-buffered :
      (s : Session) (remote_id local_id : ℕ) (payload : Bytes)
      → on_write (buffered more s) remote_id local_id payload
        ≡ buffered more (on_write s remote_id local_id payload)
  unfolding on_write
  on_write-buffered s remote_id local_id payload = ground arith

  on_close-buffered :
      (s : Session) (local_id : ℕ)
      → on_close (buffered more s) local_id ≡ buffered more (on_close s local_id)
  unfolding on_close
  on_close-buffered s local_id = ground arith

  on_connect-buffered :
      (s : Session) (p : Packet)
      → on_connect (buffered more s) p ≡ buffered_step more (on_connect s p)
  unfolding on_connect set_verify_checksum
  on_connect-buffered s p = elim (Bool-cases (s.config.max_payload == 0)) [
    | inl empty ↦ rw empty
    | inr room ↦ rw room
  ]

  on_token-buffered :
      (s : Session) (p : Packet) → on_token (buffered more s) p ≡ buffered_step more (on_token s p)
  unfolding on_token
  on_token-buffered s p = ground arith

  dispatch-buffered :
      (state : State) (command : Command) (s : Session) (p : Packet)
      → dispatch state command (buffered more s) p ≡ buffered_step more (dispatch state command s p)
  unfolding dispatch
  dispatch-buffered handshaking cnxn s p = on_connect-buffered s p
  dispatch-buffered handshaking auth s p = ground (arith, on_token-buffered s p)
  dispatch-buffered connected okay s p = ground (arith, on_okay-buffered s p.arg0 p.arg1)
  dispatch-buffered connected wrte s p = ground (arith, on_write-buffered s p.arg0 p.arg1 p.payload)
  dispatch-buffered connected clse s p = ground (arith, on_close-buffered s p.arg1)
  dispatch-buffered state command s p = refl

  pub handle_packet-buffered :
      (s : Session) (p : Packet)
      → handle_packet (buffered more s) p ≡ buffered_step more (handle_packet s p)
  unfolding handle_packet
  handle_packet-buffered s p = dispatch-buffered s.state p.command s p

-- What handling a packet leaves alone: the input that waits, the limit and the configuration.
pub record Keeps (s s' : Session) : Type 0 where
  pub buf : s'.decoder.buf ≡ s.decoder.buf
  pub header : s'.decoder.header ≡ s.decoder.header
  pub max_payload : s'.decoder.max_payload ≡ s.decoder.max_payload
  pub config : s'.config ≡ s.config

flush-Keeps : (s : Session) (local_id : ℕ) → Keeps s (flush s local_id)
unfolding flush
flush-Keeps s local_id = ground arith

on_okay-Keeps : (s : Session) (remote_id local_id : ℕ) → Keeps s (on_okay s remote_id local_id)
on_okay-Keeps s remote_id local_id =
    on_okay_cases (Keeps s) s remote_id local_id (λ e. ground arith)
      (λ stream e fresh.
        let s' = set_stream s local_id (record stream { remote_id = some remote_id }) in
        ground (arith, flush-Keeps (queue_event s' (stream_opened local_id)) local_id))
      (λ stream known e opened.
        let s' = set_stream s local_id (record stream { write_in_flight = false }) in
        ground (arith, flush-Keeps s' local_id))

dispatch-Keeps :
    (state : State) (command : Command) (s : Session) (p : Packet)
    → Keeps s (dispatch state command s p).0
unfolding dispatch on_write set_verify_checksum
dispatch-Keeps handshaking cnxn s p = ground arith
dispatch-Keeps connected okay s p = on_okay-Keeps s p.arg0 p.arg1
dispatch-Keeps state command s p = ground arith

pub handle_packet-Keeps : (s : Session) (p : Packet) → Keeps s (handle_packet s p).0
unfolding handle_packet
handle_packet-Keeps s p = dispatch-Keeps s.state p.command s p

pub handle_packet-size :
    (s : Session) (p : Packet) → size (handle_packet s p).0.decoder ≡ size s.decoder
handle_packet-size s p = let k = handle_packet-Keeps s p in ground (arith, k.header, k.buf)
