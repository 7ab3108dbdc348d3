-- ===== src/Proto/Session/Window.antt =====
-- Flow control: a WRTE goes out on a stream only for an OKAY that has come in for it.
use adb_client.Base.{
  ℕ, ◌+◌, ◌≤◌, ◌≡◌, inl, inr, arith, List, [], ◌∷◌, ◌++◌, some, ◌==◌, Option-cases, Bool-cases,
  ==_iff, if_either,
}
use adb_client.Base.Outcome.{Result, ok, err}
use adb_client.Base.Bytes.{Bytes}
use adb_client.Base.NatMap.{lookup, lookup-insert, lookup-remove}
use adb_client.Proto.Kinds.{open_stream, ProtoError, protocol, not_connected}
use adb_client.Proto.Message.{Packet}
use adb_client.Proto.Session.{
  Session, Stream, set_stream, packet, new_stream, start, open_connected, is_connected,
  open_service, write, ack, close, poll_transmit, poll_event,
}
use adb_client.Proto.Session.Receive.{handle_packet}
use adb_client.Proto.Session.Claims.{
  is_write_on, writes_on, writes_on-append, claimed, flush-claimed, dispatch-claimed, okay_on,
}
use adb_client.Proto.Session.Trace.{
  Call, starts, polls, polls_event, opens, writes, acks, closes, receives, after, taken, polled,
  History, step, run,
}

-- The call takes in an OKAY for the stream.
abbrev pub okays_by : ℕ → Call → ℕ
okays_by local_id (receives p) = okay_on local_id p.command p
okays_by local_id _ = 0

grown-claimed :
    (s : Session) (j local_id : ℕ) (stream : Stream) (more : Bytes)
    → lookup j s.streams ≡ some stream
    → claimed local_id (set_stream s j (record stream { outbox = stream.outbox ++ more }))
      ≤ claimed local_id s
unfolding claimed
grown-claimed s j local_id stream more found =
    rw (lookup-insert j local_id (record stream { outbox = stream.outbox ++ more }) s.streams)
      (elim (Bool-cases (j == local_id)) [
        | inl hit ↦
            let same : j ≡ local_id = (==_iff j local_id).0 hit in
            rw (hit, ← same, found) (omega arith)
        | inr miss ↦ rw miss (omega arith)
      ])

start-claimed : (s : Session) (local_id : ℕ) → claimed local_id (start s) ≤ claimed local_id s
unfolding start claimed writes_on is_write_on
start-claimed s local_id = grind (arith, writes_on-append)

poll_event-claimed :
    (s : Session) (local_id : ℕ) → claimed local_id (poll_event s).0 ≤ claimed local_id s
unfolding poll_event claimed
poll_event-claimed s local_id = ground arith

poll-claimed :
    (s : Session) (ps : List Packet) (local_id : ℕ)
    → let t = record s { transmit = ps } in
      writes_on local_id (polled (poll_transmit t).1) + claimed local_id (poll_transmit t).0
      ≤ claimed local_id t + 0
unfolding poll_transmit claimed writes_on
poll-claimed s [] local_id = omega arith
poll-claimed s (p ∷ ps) local_id = omega arith

open_connected-claimed :
    (s : Session) (service : Bytes) (local_id : ℕ)
    → claimed local_id (open_connected s service) ≤ claimed local_id s
unfolding open_connected claimed writes_on is_write_on
open_connected-claimed s service local_id =
    let p = packet open_stream s.next_local_id 0 (service ++ 0 ∷ []) in
    ground (
      arith,
      writes_on-append local_id s.transmit (p ∷ []),
      lookup-insert s.next_local_id local_id new_stream s.streams,
    )

open-claimed :
    (s : Session) (service : Bytes) (local_id : ℕ)
    → claimed local_id (open_service s service).0 ≤ claimed local_id s
unfolding open_service
open-claimed s service local_id =
    if_either (λ (x : Session × Result ProtoError ℕ). claimed local_id x.0 ≤ claimed local_id s)
      (is_connected s) (open_connected s service, ok s.next_local_id)
      (s, err (protocol not_connected)) (open_connected-claimed s service local_id) (omega arith)

write-claimed :
    (s : Session) (j : ℕ) (more : Bytes) (local_id : ℕ)
    → claimed local_id (write s j more).0 ≤ claimed local_id s
unfolding write
write-claimed s j more local_id = elim (Option-cases (lookup j s.streams)) [
  | inl e ↦ rw (write, e) (omega arith)
  | inr (stream, e) ↦
      let new : Stream = record stream { outbox = stream.outbox ++ more } in
      rw (write, e)
        (omega (
          arith,
          flush-claimed (set_stream s j new) j local_id,
          grown-claimed s j local_id stream more e,
        ))
]

ack-claimed : (s : Session) (j local_id : ℕ) → claimed local_id (ack s j) ≤ claimed local_id s
unfolding ack claimed writes_on is_write_on
ack-claimed s j local_id = grind (arith, writes_on-append)

close-claimed : (s : Session) (j local_id : ℕ) → claimed local_id (close s j) ≤ claimed local_id s
unfolding close claimed writes_on is_write_on
close-claimed s j local_id = grind (arith, writes_on-append, lookup-remove)

-- No call claims a WRTE beyond the OKAYs that it takes in.
call-claimed :
    (local_id : ℕ) (s : Session) (c : Call)
    → writes_on local_id (taken s c) + claimed local_id (after s c)
      ≤ claimed local_id s + okays_by local_id c
unfolding handle_packet writes_on
call-claimed local_id s starts = omega (arith, start-claimed s local_id)
call-claimed local_id s polls = poll-claimed s s.transmit local_id
call-claimed local_id s polls_event = omega (arith, poll_event-claimed s local_id)
call-claimed local_id s (opens service) = omega (arith, open-claimed s service local_id)
call-claimed local_id s (writes j more) = omega (arith, write-claimed s j more local_id)
call-claimed local_id s (acks j) = omega (arith, ack-claimed s j local_id)
call-claimed local_id s (closes j) = omega (arith, close-claimed s j local_id)
call-claimed local_id s (receives p) =
    omega (arith, dispatch-claimed s.state p.command s p local_id)

-- The OKAYs that the calls take in for the stream.
unfoldable pub okays : ℕ → List Call → ℕ
okays local_id [] = 0
okays local_id (c ∷ cs) = okays_by local_id c + okays local_id cs

run-claimed :
    (local_id : ℕ) (h : History) (cs : List Call)
    → writes_on local_id (run h cs).log + claimed local_id (run h cs).session
      ≤ writes_on local_id h.log + (claimed local_id h.session + okays local_id cs)
unfolding run okays step
run-claimed local_id h [] = omega arith
run-claimed local_id h (c ∷ cs) = omega (
  arith,
  run-claimed local_id (step h c) cs,
  call-claimed local_id h.session c,
  writes_on-append local_id h.log (taken h.session c),
)

-- From a session in which the stream has sent nothing and is not open at the device, after any calls
-- in any order, the WRTE packets that have gone out on the stream or are queued for it are no more
-- than the OKAYs that have come in for it.
pub run_window :
    (local_id : ℕ) (s : Session) (cs : List Call)
    → claimed local_id s ≡ 0
    → let h = run (record { session = s; log = [] }) cs in
      writes_on local_id h.log + writes_on local_id h.session.transmit ≤ okays local_id cs
unfolding claimed writes_on
run_window local_id s cs idle_yet =
    omega (arith, run-claimed local_id (record { session = s; log = [] }) cs)
