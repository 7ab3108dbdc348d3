-- ===== src/Proto/Session/Claims.antt =====
-- The WRTE packets that a stream has queued or may queue at once, and what handling a packet adds.
use adb_client.Base.{
  ℕ, ◌+◌, ◌≤◌, ◌≡◌, inl, inr, arith, List, [], ◌∷◌, ◌++◌, Option, none, some, Bool, true, false,
  ◌==◌, if◌then◌else◌, Bool-cases, ==_iff, if_either,
}
use adb_client.Base.Bytes.{Bytes}
use adb_client.Base.NatMap.{lookup, lookup-insert, lookup-remove}
use adb_client.Proto.Kinds.{Command, cnxn, clse, auth, wrte, okay, State, handshaking, connected}
use adb_client.Proto.Message.{Packet}
use adb_client.Proto.Session.{
  Session, Stream, set_stream, queue_event, stream_opened, send_chunk, flush,
}
use adb_client.Proto.Session.Receive.{
  Step, on_okay, on_write, on_close, on_connect, offer_key, sign, on_token, dispatch,
}
use adb_client.Proto.Session.Cases.{flush_cases, on_okay_cases}

abbrev pub one_if : Bool → ℕ
one_if true = 1
one_if false = 0

-- A WRTE packet of the stream, and how many of them there are.
unfoldable pub is_write_on : ℕ → Packet → Bool
is_write_on local_id p = elim p.command [ wrte ↦ p.arg0 == local_id | _ ↦ false ]

unfoldable pub writes_on : ℕ → List Packet → ℕ
writes_on local_id [] = 0
writes_on local_id (p ∷ ps) = one_if (is_write_on local_id p) + writes_on local_id ps

pub writes_on-append :
    (local_id : ℕ) (ps qs : List Packet)
    → writes_on local_id (ps ++ qs) ≡ writes_on local_id ps + writes_on local_id qs
unfolding writes_on
writes_on-append local_id [] qs = omega arith
writes_on-append local_id (p ∷ ps) qs = omega (arith, writes_on-append local_id ps qs)

-- Whether the stream could send at once: it is open at the device, and nothing is in flight.
abbrev pub ready_of : Option Stream → ℕ
ready_of none = 0
ready_of (some stream) = elim stream.remote_id [
  | none ↦ 0
  | some remote_id ↦ if stream.write_in_flight then 0 else 1
]

-- The WRTE packets queued, and the one that may go out at once.
unfoldable pub claimed : ℕ → Session → ℕ
claimed local_id s = writes_on local_id s.transmit + ready_of (lookup local_id s.streams)

pub send_chunk-claimed :
    (s : Session) (j local_id : ℕ) (stream : Stream) (remote_id : ℕ)
    → lookup j s.streams ≡ some stream
    → stream.remote_id ≡ some remote_id
    → stream.write_in_flight ≡ false
    → claimed local_id (send_chunk s j stream remote_id) ≤ claimed local_id s
unfolding send_chunk claimed writes_on is_write_on
send_chunk-claimed s j local_id stream remote_id found opened quiet =
    rw (writes_on-append local_id s.transmit _, lookup-insert j local_id _ s.streams)
      (elim (Bool-cases (j == local_id)) [
        | inl hit ↦
            let same : j ≡ local_id = (==_iff j local_id).0 hit in
            rw (hit, ← same, found, opened, quiet) (omega arith)
        | inr miss ↦ rw miss (omega arith)
      ])

pub flush-claimed :
    (s : Session) (j local_id : ℕ) → claimed local_id (flush s j) ≤ claimed local_id s
flush-claimed s j local_id =
    flush_cases (λ s'. claimed local_id s' ≤ claimed local_id s) s j (omega arith)
      (λ stream remote_id found opened quiet more.
        send_chunk-claimed s j local_id stream remote_id found opened quiet)

pub set_stream-claimed :
    (s : Session) (j local_id : ℕ) (new : Stream)
    → claimed local_id (set_stream s j new) ≤ claimed local_id s + one_if (j == local_id)
unfolding claimed
set_stream-claimed s j local_id new = ground (arith, lookup-insert j local_id new s.streams)

on_okay-claimed :
    (s : Session) (remote_id j local_id : ℕ)
    → claimed local_id (on_okay s remote_id j) ≤ claimed local_id s + one_if (j == local_id)
unfolding claimed
on_okay-claimed s remote_id j local_id =
    on_okay_cases (λ s'. claimed local_id s' ≤ claimed local_id s + one_if (j == local_id)) s
      remote_id j (λ e. omega arith)
      (λ stream found fresh.
        let new : Stream = record stream { remote_id = some remote_id } in
        let opened = queue_event (set_stream s j new) (stream_opened j) in
        omega (arith, set_stream-claimed s j local_id new, flush-claimed opened j local_id))
      (λ stream known found opened.
        let new : Stream = record stream { write_in_flight = false } in
        omega (
          arith,
          set_stream-claimed s j local_id new,
          flush-claimed (set_stream s j new) j local_id,
        ))

-- The packet is an OKAY for the stream.
unfoldable pub okay_on : ℕ → Command → Packet → ℕ
okay_on local_id okay p = one_if (p.arg1 == local_id)
okay_on local_id _ p = 0

on_connect-claimed :
    (s : Session) (p : Packet) (local_id : ℕ)
    → claimed local_id (on_connect s p).0 ≤ claimed local_id s
unfolding on_connect claimed
on_connect-claimed s p local_id = ground arith

offer_key-claimed :
    (s : Session) (local_id : ℕ) → claimed local_id (offer_key s).0 ≤ claimed local_id s
unfolding offer_key claimed writes_on is_write_on
offer_key-claimed s local_id = grind (arith, writes_on-append)

sign-claimed :
    (s : Session) (p : Packet) (local_id : ℕ) → claimed local_id (sign s p).0 ≤ claimed local_id s
unfolding sign claimed writes_on is_write_on
sign-claimed s p local_id = grind (arith, writes_on-append)

on_token-claimed :
    (s : Session) (p : Packet) (local_id : ℕ)
    → claimed local_id (on_token s p).0 ≤ claimed local_id s
unfolding on_token
on_token-claimed s p local_id =
    if_either (λ (x : Step). claimed local_id x.0 ≤ claimed local_id s) s.send_public_key_next
      (offer_key s) (sign s p) (offer_key-claimed s local_id) (sign-claimed s p local_id)

on_write-claimed :
    (s : Session) (remote_id j : ℕ) (payload : Bytes) (local_id : ℕ)
    → claimed local_id (on_write s remote_id j payload) ≤ claimed local_id s
unfolding on_write claimed writes_on is_write_on
on_write-claimed s remote_id j payload local_id = grind (arith, writes_on-append)

on_close-claimed :
    (s : Session) (j local_id : ℕ) → claimed local_id (on_close s j) ≤ claimed local_id s
unfolding on_close claimed
on_close-claimed s j local_id = ground (arith, lookup-remove j local_id s.streams)

pub dispatch-claimed :
    (state : State) (command : Command) (s : Session) (p : Packet) (local_id : ℕ)
    → claimed local_id (dispatch state command s p).0
      ≤ claimed local_id s + okay_on local_id command p
unfolding dispatch okay_on
dispatch-claimed handshaking cnxn s p local_id = omega (arith, on_connect-claimed s p local_id)
dispatch-claimed handshaking auth s p local_id = ground (arith, on_token-claimed s p local_id)
dispatch-claimed connected okay s p local_id = on_okay-claimed s p.arg0 p.arg1 local_id
dispatch-claimed connected wrte s p local_id =
    omega (arith, on_write-claimed s p.arg0 p.arg1 p.payload local_id)
dispatch-claimed connected clse s p local_id = omega (arith, on_close-claimed s p.arg1 local_id)
dispatch-claimed state command s p local_id = omega arith
