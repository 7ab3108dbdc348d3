-- ===== src/Proto/Session/Wire.antt =====
-- `handle_input` on what a peer puts on the wire.
use adb_client.Base.{
  ℕ, suc, Bool, ◌<◌, ◌≡◌, inl, inr, refl, sym, ap, ◌∙◌, arith, List, [], ◌∷◌, ◌++◌, All, append-nil,
  Option, none, some,
}
use adb_client.Base.Outcome.{Result, ok, err}
use adb_client.Base.Bytes.{Bytes}
use adb_client.Proto.Message.{Packet, PendingHeader, push, size, next_packet, start_packet}
use adb_client.Proto.Message.Words.{Fits, length-header_bytes}
use adb_client.Proto.Message.RoundTrip.{waiting, wire, next_packet-wire}
use adb_client.Proto.Session.{Session, Fault}
use adb_client.Proto.Session.Receive.{Step, handle_packet, handle_loop, handle_input}
use adb_client.Proto.Session.Buffered.{buffered, buffered_step, Keeps, handle_packet-Keeps}
use adb_client.Proto.Session.Fragments.{
  decoded, Step-cases, loop_waits, loop_stops, loop_goes_on, handle_loop-fuel, resume_input,
  handle_input-append,
}
use mathlib.Core.Path.{ap₂}

-- Nothing is left in the decoder.
pub record IsSettled (s : Session) : Type 0 where
  pub buf_empty : s.decoder.buf ≡ []
  pub no_header : s.decoder.header ≡ none

abbrev pub limit : Session → ℕ
limit s = s.decoder.max_payload

push-waiting :
    (s : Session) (input : Bytes)
    → IsSettled s
    → push s.decoder input ≡ waiting input s.decoder.max_payload s.decoder.verify_checksum
push-waiting s input settled =
    ap₂
      (λ (b : Bytes) (h : Option PendingHeader). record s.decoder { buf = b ++ input; header = h })
      settled.buf_empty settled.no_header

decoded-waiting :
    (s : Session)
    → IsSettled s
    → decoded s (waiting [] s.decoder.max_payload s.decoder.verify_checksum) ≡ s
decoded-waiting s settled = sym (
    ap₂
      (λ (b : Bytes) (h : Option PendingHeader).
        decoded s (record s.decoder { buf = b; header = h }))
      settled.buf_empty settled.no_header)

size-settled : (s : Session) → IsSettled s → size s.decoder ≡ 0
size-settled s settled = ground (arith, settled.buf_empty, settled.no_header)

-- With nothing left there is nothing to do.
nothing_waits :
    (max_payload : ℕ) (verify : Bool)
    → next_packet (waiting [] max_payload verify) ≡ (waiting [] max_payload verify, ok none)
unfolding next_packet start_packet
nothing_waits max_payload verify = refl

handle_loop-settled : (fuel : ℕ) (s : Session) → IsSettled s → handle_loop (suc fuel) s ≡ (s, ok tt)
handle_loop-settled fuel s settled =
    let d = waiting [] s.decoder.max_payload s.decoder.verify_checksum in
    let at_rest : s ≡ decoded s d = sym (decoded-waiting s settled) in
    ap (handle_loop (suc fuel)) at_rest
    ∙ loop_waits fuel (decoded s d) (nothing_waits _ _)
    ∙ ap (λ (t : Session). (t, ok tt)) (sym at_rest)

buffered-nil : (s : Session) → buffered [] s ≡ s
buffered-nil s =
    ap (λ (b : Bytes). decoded s (record s.decoder { buf = b })) (append-nil s.decoder.buf)

handle_input-nil : (s : Session) → IsSettled s → handle_input s [] ≡ (s, ok tt)
unfolding handle_input
handle_input-nil s settled =
    rw (buffered-nil s) (handle_loop-settled (size (push s.decoder [])) s settled)

handle_packet-IsSettled :
    (s s' : Session) (p : Packet) (r : Result Fault (Unit {0}))
    → IsSettled s
    → handle_packet s p ≡ (s', r)
    → IsSettled s'
handle_packet-IsSettled s s' p r settled e =
    let kept : Keeps s s' = rw e at (handle_packet-Keeps s p) in
    record { buf_empty = kept.buf ∙ settled.buf_empty; no_header = kept.header ∙ settled.no_header }

wire_arrives :
    (s : Session) (p : Packet)
    → IsSettled s
    → Fits (limit s) p
    → next_packet (push s.decoder (wire p))
      ≡ (waiting [] s.decoder.max_payload s.decoder.verify_checksum, ok (some p))
wire_arrives s p settled fits =
    ap next_packet (push-waiting s (wire p) settled)
    ∙ rw append-nil at (next_packet-wire s.decoder.max_payload s.decoder.verify_checksum p [] fits)

wire_takes_room : (s : Session) (p : Packet) → IsSettled s → 0 < size (push s.decoder (wire p))
wire_takes_room s p settled =
    omega (arith, ap size (push-waiting s (wire p) settled), length-header_bytes p p.payload)

-- One packet on the wire is that packet handled.
handle_input-wire :
    (s : Session) (p : Packet)
    → IsSettled s
    → Fits (limit s) p
    → handle_input s (wire p) ≡ handle_packet s p
unfolding handle_input
handle_input-wire s p settled fits = elim (Step-cases (handle_packet s p)) [
  | inl (s', e, k) ↦
      loop_stops (size (push s.decoder (wire p))) (buffered (wire p) s) arrives (same ∙ k) ∙ sym k
  | inr (s', k) ↦
      let rest = handle_packet-IsSettled s s' p (ok tt) settled k in
      loop_goes_on (size (push s.decoder (wire p))) (buffered (wire p) s) arrives (same ∙ k)
      ∙ handle_loop-fuel (size (push s.decoder (wire p))) 1 s'
          (omega (arith, size-settled s' rest, wire_takes_room s p settled))
          (omega (arith, size-settled s' rest))
      ∙ handle_loop-settled 0 s' rest
      ∙ sym k
]
  where
    arrives :
        next_packet (push s.decoder (wire p))
        ≡ (waiting [] s.decoder.max_payload s.decoder.verify_checksum, ok (some p))
    arrives = wire_arrives s p settled fits

    same :
        handle_packet (decoded s (waiting [] s.decoder.max_payload s.decoder.verify_checksum)) p
        ≡ handle_packet s p
    same = ap (λ (t : Session). handle_packet t p) (decoded-waiting s settled)

abbrev pub wires : List Packet → Bytes
wires [] = []
wires (p ∷ ps) = wire p ++ wires ps

-- The packets handled in turn, up to the first error, and the packets behind the one that is refused.
pub handle_packets : Session → List Packet → Step × List Packet
handle_packets s [] = ((s, ok tt), [])
handle_packets s (p ∷ ps) =
    let (s', r) = handle_packet s p in
    elim r [ ok _ ↦ handle_packets s' ps | err e ↦ ((s', err e), ps) ]

handle_packets-nil : (s : Session) → handle_packets s [] ≡ ((s, ok tt), [])
unfolding handle_packets
handle_packets-nil s = refl

handle_packets_next :
    (s s' : Session) (p : Packet) (ps : List Packet)
    → handle_packet s p ≡ (s', ok tt)
    → handle_packets s (p ∷ ps) ≡ handle_packets s' ps
unfolding handle_packets
handle_packets_next s s' p ps k = ground arith

handle_packets_stop :
    (s s' : Session) (e : Fault) (p : Packet) (ps : List Packet)
    → handle_packet s p ≡ (s', err e)
    → handle_packets s (p ∷ ps) ≡ ((s', err e), ps)
unfolding handle_packets
handle_packets_stop s s' e p ps k = ground arith

Fits-kept :
    (s s' : Session) (p : Packet) (r : Result Fault (Unit {0})) (ps : List Packet)
    → handle_packet s p ≡ (s', r)
    → All (Fits (limit s)) ps
    → All (Fits (limit s')) ps
Fits-kept s s' p r ps e all =
    let kept : Keeps s s' = rw e at (handle_packet-Keeps s p) in rw kept.max_payload all

-- The end of a run, with the wire form of the packets that it has not handled in the decoder.
abbrev pub left_behind : Step × List Packet → Step
left_behind (step, ps) = buffered_step (wires ps) step

-- A session that has nothing left in its decoder, and is given the wire form of packets that all fit,
-- handles exactly these packets, in order. Where one of them is refused, it stops there with the same
-- error in the same state, and the wire form of the packets behind that one lies in the decoder, no
-- more and no less.
pub handle_input-wires :
    (s : Session) (ps : List Packet)
    → IsSettled s
    → All (Fits (limit s)) ps
    → handle_input s (wires ps) ≡ left_behind (handle_packets s ps)
handle_input-wires s [] settled fits =
    handle_input-nil s settled
    ∙ ap (λ (t : Session). (t, ok tt)) (sym (buffered-nil s))
    ∙ ap left_behind (sym (handle_packets-nil s))
handle_input-wires s (p ∷ ps) settled (fit, fits) = elim (Step-cases (handle_packet s p)) [
  | inl (s', e, k) ↦
      first
      ∙ ap (resume_input (wires ps)) k
      ∙ ap left_behind (sym (handle_packets_stop s s' e p ps k))
  | inr (s', k) ↦
      first
      ∙ ap (resume_input (wires ps)) k
      ∙ handle_input-wires s' ps (handle_packet-IsSettled s s' p (ok tt) settled k)
          (Fits-kept s s' p (ok tt) ps k fits)
      ∙ ap left_behind (sym (handle_packets_next s s' p ps k))
]
  where
    first : handle_input s (wires (p ∷ ps)) ≡ resume_input (wires ps) (handle_packet s p)
    first =
        handle_input-append s (wire p) (wires ps)
        ∙ ap (resume_input (wires ps)) (handle_input-wire s p settled fit)
