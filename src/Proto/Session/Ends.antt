-- ===== src/Proto/Session/Ends.antt =====
-- How the methods of a session can end: never out of fuel, and without a panic where the
-- configuration has room for a payload.
use adb_client.Base.{ℕ, zero, suc, ◌<◌, ◌≡◌, ◌≢◌, inl, inr, arith}
use adb_client.Base.Outcome.{Result, ok, err}
use adb_client.Base.Bytes.{Bytes}
use adb_client.Proto.Kinds.{Command, cnxn, State, handshaking}
use adb_client.Proto.Message.{Packet, push, size, next_packet}
use adb_client.Proto.Message.Shrink.{Answer-cases}
use adb_client.Proto.Session.{Session, Fault, panic, stuck}
use adb_client.Proto.Session.Receive.{dispatch, handle_packet, handle_loop, handle_input}
use adb_client.Proto.Session.Buffered.{Keeps, handle_packet-Keeps}
use adb_client.Proto.Session.Fragments.{
  decoded, Step-cases, loop_error, loop_waits, loop_stops, loop_goes_on, round_shrinks,
}

-- The end is a success or an error of the protocol.
abbrev pub IsReturned : Result Fault (Unit {0}) → Type 0
IsReturned r = (r ≢ err stuck) × (r ≢ err panic)

dispatch-IsReturned :
    (state : State) (command : Command) (s : Session) (p : Packet)
    → 0 < s.config.max_payload
    → IsReturned (dispatch state command s p).1
unfolding dispatch
dispatch-IsReturned handshaking cnxn s p room = ground arith
dispatch-IsReturned state command s p room = ground arith

handle_packet-IsReturned :
    (s s' : Session) (p : Packet) (r : Result Fault (Unit {0}))
    → 0 < s.config.max_payload
    → handle_packet s p ≡ (s', r)
    → IsReturned r × (0 < s'.config.max_payload)
unfolding handle_packet
handle_packet-IsReturned s s' p r room e =
    let kept : Keeps s s' = rw e at (handle_packet-Keeps s p) in
    let ends : IsReturned r = rw e at (dispatch-IsReturned s.state p.command s p room) in
    (ends, rw kept.config room)

handle_loop-IsReturned :
    (fuel : ℕ) (s : Session)
    → size s.decoder < fuel
    → 0 < s.config.max_payload
    → IsReturned (handle_loop fuel s).1
handle_loop-IsReturned zero s enough room = absurd (omega arith)
handle_loop-IsReturned (suc fuel) s enough room = elim (Answer-cases (next_packet s.decoder)) [
  | inl (d, e, a) ↦ rw (loop_error fuel s a) (λ x. cc, λ x. cc)
  | inr (inl (d, a)) ↦ rw (loop_waits fuel s a) (λ x. cc, λ x. cc)
  | inr (inr (d, p, a)) ↦ elim (Step-cases (handle_packet (decoded s d) p)) [
    | inl (s', e, k) ↦
        rw (loop_stops fuel s a k) (handle_packet-IsReturned (decoded s d) s' p (err e) room k).0
    | inr (s', k) ↦
        let less = round_shrinks s s' d p (ok tt) a k in
        rw (loop_goes_on fuel s a k) (
          handle_loop-IsReturned fuel s' (omega arith)
            (handle_packet-IsReturned (decoded s d) s' p (ok tt) room k).1)
  ]
]

-- On any input, in any state, `handle_input` comes to an end with success or an error of the protocol,
-- if the configured payload limit is not zero: the loop has fuel enough, and `clamp` does not panic.
pub handle_input-IsReturned :
    (s : Session) (more : Bytes) → 0 < s.config.max_payload → IsReturned (handle_input s more).1
unfolding handle_input
handle_input-IsReturned s more room =
    handle_loop-IsReturned (suc (size (push s.decoder more)))
      (record s { decoder = push s.decoder more }) (omega arith) room
