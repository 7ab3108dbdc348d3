-- ===== src/Client/Forwards/Connection/Sending.antt =====
-- The part of a round that sends what the socket gave.
use adb_client.Base.{
  lt→ltb, length, All, ℕ, ◌+◌, ◌^◌, ◌≤◌, ◌<◌, ◌≡◌, refl, sym, ap, ◌∙◌, Bool, true, false, not, ◌||◌,
  List, [], ◌∷◌, ◌++◌, append-nil, append_assoc, arith,
}
use mathlib.Core.Path.{subst}
use adb_client.Base.Outcome.{Result, ok, err}
use adb_client.Base.Bytes.{Bytes}
use adb_client.Client.Kinds.{MessageCommand, clse, write, RustAdbError}
use adb_client.Client.Message.{Message, try_new, try_new_header}
use adb_client.Client.Message.Codec.{message_of}
use adb_client.Client.Session.{AdbSession, write_new}
use adb_client.Client.Dispatched.{close_ack}
use adb_client.Client.Forwards.Connection.{
  Event, buffer, end_of_input, Forward, Flow, continues, returns, sent_buffer, on_event,
  unless_busy, take_event,
}

-- The bytes and the number of the WRTE messages.
abbrev pub carried : MessageCommand → Bytes → Bytes
carried write payload = payload
carried _ payload = []

abbrev pub write_bytes : List Message → Bytes
write_bytes [] = []
write_bytes (m ∷ ms) = carried m.header.command m.payload ++ write_bytes ms

abbrev pub one_if_write : MessageCommand → ℕ
one_if_write write = 1
one_if_write _ = 0

abbrev pub writes : List Message → ℕ
writes [] = 0
writes (m ∷ ms) = one_if_write m.header.command + writes ms

abbrev pub channel_bytes : List Event → Bytes
channel_bytes [] = []
channel_bytes (buffer payload ∷ events) = payload ++ channel_bytes events
channel_bytes (end_of_input ∷ events) = channel_bytes events

abbrev pub IsShort : Event → Type 0
IsShort (buffer payload) = length payload < 2 ^ 32
IsShort end_of_input = Unit

abbrev pub forward_of : Flow → Forward
forward_of (continues f) = f
forward_of (returns f r) = f

abbrev pub one_if : Bool → ℕ
one_if true = 1
one_if false = 0

write_bytes-snoc :
    (ms : List Message) (m : Message)
    → write_bytes (ms ++ m ∷ []) ≡ write_bytes ms ++ carried m.header.command m.payload
write_bytes-snoc [] m = append-nil _
write_bytes-snoc (n ∷ ms) m =
    ap (λ rest. carried n.header.command n.payload ++ rest) (write_bytes-snoc ms m)
    ∙ sym (append_assoc (carried n.header.command n.payload) (write_bytes ms) _)

writes-snoc :
    (ms : List Message) (m : Message)
    → writes (ms ++ m ∷ []) ≡ writes ms + one_if_write m.header.command
writes-snoc [] m = omega arith
writes-snoc (n ∷ ms) m = omega (arith, writes-snoc ms m)

-- The bytes of the socket, and how many OKAY there were, up to some moment.
pub record At (total : Bytes) (okays : ℕ) (f : Forward) : Type 0 where
  pub ordered : write_bytes f.session.transport.written ++ channel_bytes f.channel ≡ total
  pub window : writes f.session.transport.written ≤ okays + one_if f.pending
  pub short : All IsShort f.channel

pub written-new :
    (s : AdbSession) (command : MessageCommand) (payload : Bytes)
    → length payload < 2 ^ 32
    → (write_new s command payload).0.transport.written
      ≡ s.transport.written ++ message_of command s.local_id s.remote_id payload ∷ []
unfolding write_new try_new try_new_header
written-new s command payload h = rw (lt→ltb (length payload) (2 ^ 32) h) refl

-- The same for a loop that has returned, perhaps for a WRTE that could not be sent.
pub record Ended (total : Bytes) (okays : ℕ) (f : Forward) : Type 0 where
  pub ordered : write_bytes f.session.transport.written ++ channel_bytes f.channel ≡ total
  pub window : writes f.session.transport.written ≤ okays + 1

abbrev pub Fits : Bytes → ℕ → Flow → Type 0
Fits total okays (continues f) = At total okays f
Fits total okays (returns f r) = Ended total okays f

pub At-Ended : (total : Bytes) (n : ℕ) (f : Forward) → At total n f → Ended total n f
At-Ended total n f at = record { ordered = at.ordered; window = ground (arith, at.window) }

-- A message that carries no bytes.
pub quiet :
    (total : Bytes) (n : ℕ) (f : Forward) (s : AdbSession) (m : Message)
    → s.transport.written ≡ f.session.transport.written ++ m ∷ []
    → carried m.header.command m.payload ≡ []
    → one_if_write m.header.command ≡ 0
    → At total n f
    → At total n (record f { session = s })
quiet total n f s m e none_carried none_counted at = record {
  ordered =
      ap (λ ms. write_bytes ms ++ channel_bytes f.channel) e
      ∙ ap (λ bs. bs ++ channel_bytes f.channel)
          (write_bytes-snoc f.session.transport.written m
            ∙ ap (λ bs. write_bytes f.session.transport.written ++ bs) none_carried
            ∙ append-nil _)
      ∙ at.ordered;
  window =
      omega
        (arith, ap writes e, writes-snoc f.session.transport.written m, none_counted, at.window);
  short = at.short;
}

pub close_ack-Ended :
    (total : Bytes) (n : ℕ) (f : Forward)
    → At total n f
    → Ended total n (record f { session = (close_ack f.session).0 })
unfolding close_ack
close_ack-Ended total n f at = At-Ended total n _ (
    quiet total n f _ (message_of clse f.session.local_id f.session.remote_id [])
      (written-new f.session clse [] (omega arith)) refl refl at)

sent_buffer-Fits :
    (total : Bytes) (n : ℕ) (f : Forward) (sent : AdbSession × Result RustAdbError (Unit {0}))
    → write_bytes sent.0.transport.written ++ channel_bytes f.channel ≡ total
    → writes sent.0.transport.written ≤ n + 1
    → All IsShort f.channel
    → Fits total n (sent_buffer f sent)
unfolding sent_buffer
sent_buffer-Fits total n f (s, ok x) e w short = record { ordered = e; window = w; short = short }
sent_buffer-Fits total n f (s, err r) e w short = record { ordered = e; window = w }

on_event-Fits :
    (total : Bytes) (n : ℕ) (f : Forward) (events : List Event)
    → f.channel ≡ events
    → f.pending ≡ false
    → At total n f
    → Fits total n (on_event f events)
unfolding on_event
on_event-Fits total n f [] e idle at = at
on_event-Fits total n f (end_of_input ∷ events) e idle at =
    close_ack-Ended total n (record f { channel = events })
      (record {
        ordered =
            ap (λ c. write_bytes f.session.transport.written ++ channel_bytes c) (sym e)
            ∙ at.ordered;
        window = at.window;
        short = (subst (All IsShort) e at.short).1;
      })
on_event-Fits total n f (buffer payload ∷ events) e idle at =
    let (fits, later) = subst (All IsShort) e at.short in
    let sent = message_of write f.session.local_id f.session.remote_id payload in
    let grown = written-new f.session write payload fits in
    sent_buffer-Fits total n (record f { channel = events }) (write_new f.session write payload)
      (ap (λ ms. write_bytes ms ++ channel_bytes events) grown
        ∙ ap (λ bs. bs ++ channel_bytes events) (write_bytes-snoc f.session.transport.written sent)
        ∙ append_assoc (write_bytes f.session.transport.written) payload (channel_bytes events)
        ∙ ap (λ c. write_bytes f.session.transport.written ++ channel_bytes c) (sym e)
        ∙ at.ordered)
      (omega (
        arith,
        ap writes grown,
        writes-snoc f.session.transport.written sent,
        at.window,
        ap one_if idle,
      ))
      later

unless_busy-Fits :
    (total : Bytes) (n : ℕ) (busy : Bool) (f : Forward)
    → (busy ≡ false → f.pending ≡ false)
    → At total n f
    → Fits total n (unless_busy busy f)
unfolding unless_busy
unless_busy-Fits total n true f idle at = at
unless_busy-Fits total n false f idle at = on_event-Fits total n f f.channel refl (idle refl) at

or_false : (a b : Bool) → (a || b) ≡ false → a ≡ false
or_false true b h = cc
or_false false b h = refl

pub take_event-Fits :
    (total : Bytes) (n : ℕ) (ready : Bool) (f : Forward)
    → At total n f
    → Fits total n (take_event ready f)
unfolding take_event
take_event-Fits total n ready f at =
    unless_busy-Fits total n (f.pending || not ready) f (or_false f.pending (not ready)) at
