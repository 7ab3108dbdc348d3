-- ===== src/Client/Forwards/Connection/Ordered.antt =====
-- What the socket gave goes to the service in its order, with one WRTE under way.
use adb_client.Base.{
  All, ℕ, ◌+◌, ◌≤◌, ◌≡◌, refl, ap, Option, none, some, List, [], ◌∷◌, ◌++◌, arith,
}
use adb_client.Base.Outcome.{Result, ok, err}
use adb_client.Base.Bytes.{Bytes}
use adb_client.Client.Kinds.{MessageCommand, cnxn, clse, write, okay, RustAdbError}
use adb_client.Client.Message.{Message}
use adb_client.Client.Message.Codec.{message_of}
use adb_client.Client.Session.{AdbSession}
use adb_client.Client.Dispatched.{acknowledge}
use adb_client.Client.Forwards.Connection.{
  Forward, Round, Flow, continues, returns, on_continue, take_event, acknowledged, on_socket,
  on_packet, on_received, forward_round, forward_rounds,
}
use adb_client.Client.Forwards.Connection.Sending.{
  write_bytes, writes, channel_bytes, IsShort, forward_of, At, written-new, Ended, Fits, At-Ended,
  quiet, close_ack-Ended, take_event-Fits,
}

-- The OKAY messages that the service receives.
abbrev pub one_if_okay : MessageCommand → ℕ
one_if_okay okay = 1
one_if_okay _ = 0

abbrev pub okays_of : Result RustAdbError (Option Message) → ℕ
okays_of (ok (some m)) = one_if_okay m.header.command
okays_of _ = 0

abbrev pub okays : List Round → ℕ
okays [] = 0
okays (round ∷ rounds) = okays_of round.received + okays rounds

more_okays : (total : Bytes) (n m : ℕ) (flow : Flow) → n ≤ m → Fits total n flow → Fits total m flow
more_okays total n m (continues f) h at = record {
  ordered = at.ordered;
  window = omega (arith, at.window);
  short = at.short;
}
more_okays total n m (returns f r) h at = record {
  ordered = at.ordered;
  window = omega (arith, at.window);
}

acknowledged-Fits :
    (total : Bytes) (n : ℕ) (f : Forward) (sent : AdbSession × Result RustAdbError (Unit {0}))
    → At total n (record f { session = sent.0 })
    → Fits total n (acknowledged f sent)
unfolding acknowledged
acknowledged-Fits total n f (s, ok x) at = at
acknowledged-Fits total n f (s, err e) at = At-Ended total n _ at

on_socket-Fits :
    (total : Bytes) (n : ℕ) (payload : Bytes) (f : Forward) (r : Result RustAdbError (Unit {0}))
    → At total n f
    → Fits total n (on_socket payload f r)
unfolding on_socket acknowledge
on_socket-Fits total n payload f (err e) at = At-Ended total n f at
on_socket-Fits total n payload f (ok x) at =
    acknowledged-Fits total n (record f { socket = f.socket ++ payload }) (acknowledge f.session)
      (quiet total n (record f { socket = f.socket ++ payload }) _
        (message_of okay f.session.local_id f.session.remote_id [])
        (written-new f.session okay [] (omega arith)) refl refl
        (record { ordered = at.ordered; window = at.window; short = at.short }))

on_packet-Fits :
    (total : Bytes) (n : ℕ) (r : Result RustAdbError (Unit {0})) (f : Forward) (c : MessageCommand)
    (payload : Bytes)
    → At total n f
    → Fits total (n + one_if_okay c) (on_packet r f c payload)
unfolding on_packet
on_packet-Fits total n r f write payload at =
    more_okays total n (n + 0) _ (omega arith) (on_socket-Fits total n payload f r at)
on_packet-Fits total n r f okay payload at = record {
  ordered = at.ordered;
  window = ground (arith, at.window);
  short = at.short;
}
on_packet-Fits total n r f clse payload at =
    more_okays total n (n + 0) (on_packet r f clse payload) (omega arith)
      (close_ack-Ended total n f at)
on_packet-Fits total n r f cnxn payload at =
    more_okays total n (n + 0) (on_packet r f cnxn payload) (omega arith) (At-Ended total n f at)
on_packet-Fits total n r f c payload at =
    more_okays total n (n + 0) (on_packet r f c payload) (omega arith) (At-Ended total n f at)

on_received-Fits :
    (total : Bytes) (n : ℕ) (round : Round) (f : Forward) (r : Result RustAdbError (Option Message))
    → At total n f
    → Fits total (n + okays_of r) (on_received round f r)
unfolding on_received
on_received-Fits total n round f (ok none) at =
    more_okays total n (n + 0) (continues f) (omega arith) at
on_received-Fits total n round f (ok (some m)) at =
    on_packet-Fits total n round.socket_write f m.header.command m.payload at
on_received-Fits total n round f (err e) at =
    more_okays total n (n + 0) (returns f (err e)) (omega arith) (At-Ended total n f at)

-- A flow that goes on with a step that adds OKAYs.
on_continue-Fits :
    (total : Bytes) (n m : ℕ) (flow : Flow) (next : Forward → Flow)
    → Fits total n flow
    → ((f : Forward) → At total n f → Fits total (n + m) (next f))
    → Fits total (n + m) (on_continue flow next)
on_continue-Fits total n m (continues f) next at step = step f at
on_continue-Fits total n m (returns f r) next at step =
    more_okays total n (n + m) (returns f r) (omega arith) at

forward_rounds-Fits :
    (total : Bytes) (n : ℕ) (rounds : List Round) (f : Forward)
    → At total n f
    → Fits total (n + okays rounds) (forward_rounds rounds f)
unfolding forward_rounds forward_round
forward_rounds-Fits total n [] f at = more_okays total n (n + 0) (continues f) (omega arith) at
forward_rounds-Fits total n (round ∷ rounds) f at =
    let first =
      on_continue-Fits total n (okays_of round.received) (take_event round.ready f)
        (λ f'. on_received round f' round.received) (take_event-Fits total n round.ready f at)
        (λ f' at'. on_received-Fits total n round f' round.received at') in
    more_okays total (n + okays_of round.received + okays rounds) _ _ (omega arith) (
      on_continue-Fits total (n + okays_of round.received) (okays rounds) (forward_round round f)
        (forward_rounds rounds) first
        (λ f' at'. forward_rounds-Fits total (n + okays_of round.received) rounds f' at'))

Fits-ends :
    (total : Bytes) (n : ℕ) (flow : Flow) → Fits total n flow → Ended total n (forward_of flow)
Fits-ends total n (continues f) at = At-Ended total n f at
Fits-ends total n (returns f r) at = at

-- On a service on which nothing has been written, with buffers of the socket's reader below 2^32
-- bytes: after any rounds, whatever the service receives, whichever calls fail and whether or not the
-- loop has returned, the bytes of the WRTE messages and those that still wait in the channel are
-- together what the socket gave, in its order; and at most one WRTE more has been sent than OKAYs
-- were received.
pub forward_rounds-ordered :
    (rounds : List Round) (f : Forward)
    → f.session.transport.written ≡ []
    → All IsShort f.channel
    → let g = forward_of (forward_rounds rounds f) in
      (write_bytes g.session.transport.written ++ channel_bytes g.channel ≡ channel_bytes f.channel)
      × (writes g.session.transport.written ≤ okays rounds + 1)
forward_rounds-ordered rounds f unused short =
    let before : At (channel_bytes f.channel) 0 f = record {
      ordered = ap (λ ms. write_bytes ms ++ channel_bytes f.channel) unused;
      window = omega (arith, ap writes unused);
      short = short;
    } in
    let after =
      Fits-ends (channel_bytes f.channel) (0 + okays rounds) (forward_rounds rounds f)
        (forward_rounds-Fits (channel_bytes f.channel) 0 rounds f before) in
    (after.ordered, omega (arith, after.window))
