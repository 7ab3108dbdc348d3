-- ===== src/Proto/Session/Delivery.antt =====
-- What is written on a stream goes out on it: in order, each byte once.
use adb_client.Base.{
  ℕ, ◌+◌, ◌≤◌, ◌<◌, ◌^◌, ◌≡◌, ◌≢◌, inl, inr, refl, sym, ap, ◌∙◌, arith, List, [], ◌∷◌, ◌++◌, All,
  append_assoc, append-nil, none, some, ◌==◌, if◌then◌else◌, Option-cases, Bool-cases, if_either,
  ==_iff,
}
use adb_client.Base.Outcome.{Result, ok, err}
use adb_client.Base.Bytes.{Bytes}
use adb_client.Base.NatMap.{lookup, remove, lookup-insert}
use adb_client.Proto.Kinds.{cnxn, clse, open_stream, okay, ProtoError, protocol, not_connected}
use adb_client.Proto.Message.{Packet}
use adb_client.Proto.Session.{
  Session, Stream, set_stream, queue_packet, packet, new_stream, flush, start, open_connected,
  is_connected, open_service, write, ack, close, poll_transmit, poll_event, remote_or_zero,
}
use adb_client.Proto.Session.Receive.{handle_packet}
use adb_client.Proto.Session.Carries.{
  payload_on, sent, sent-append, sent-quiet, queued, Carries, Carries-refl, Carries-trans,
  flush-Carries, queue_packet-Carries, insert-open, remove-Carries,
}
use adb_client.Proto.Session.Handled.{like, dispatch-Carries}
use adb_client.Proto.Session.Trace.{
  Call, starts, polls, polls_event, opens, writes, acks, closes, receives, after, taken, polled,
  History, step, run,
}

-- The call does not close the stream, and no CLSE for it arrives.
abbrev pub Spares : ℕ → Call → Type 0
Spares local_id (closes j) = j ≢ local_id
Spares local_id (receives p) = p.command ≡ clse → p.arg1 ≢ local_id
Spares local_id _ = Unit

-- What the call writes on the stream.
abbrev pub written_by : ℕ → Call → Bytes
written_by local_id (writes j more) = if j == local_id then more else []
written_by local_id _ = []

abbrev pub opened_by : Call → ℕ
opened_by (opens service) = 1
opened_by _ = 0

-- The stream is open, and its id will not be handed out again before the ids wrap.
pub record IsLive (local_id : ℕ) (s : Session) : Type 0 where
  pub is_open : lookup local_id s.streams ≢ none
  pub is_old : local_id < s.next_local_id

-- From `s` to `s'` the packets `out` were taken and `more` was written on the stream.
pub record Moves (local_id : ℕ) (s s' : Session) (out : List Packet) (more : Bytes) (opened : ℕ)
    : Type 0 where
  pub bytes_move : sent local_id out ++ queued local_id s' ≡ queued local_id s ++ more
  pub live : IsLive local_id s'
  pub next_bound : s'.next_local_id ≤ s.next_local_id + opened

Carries-Moves :
    (local_id : ℕ) (s s' : Session)
    → Carries local_id s s'
    → IsLive local_id s
    → Moves local_id s s' [] [] 0
unfolding sent
Carries-Moves local_id s s' c v = record {
  bytes_move = c.bytes_kept ∙ sym (append-nil (queued local_id s));
  live = record { is_open = c.stays_open v.is_open; is_old = rw c.same_next v.is_old };
  next_bound = omega (arith, c.same_next);
}

-- The outbox grows by what is written.
grown-queued :
    (local_id : ℕ) (s : Session) (j : ℕ) (stream : Stream) (more : Bytes)
    → lookup j s.streams ≡ some stream
    → queued local_id (set_stream s j (record stream { outbox = stream.outbox ++ more }))
      ≡ queued local_id s ++ (if j == local_id then more else [])
unfolding queued
grown-queued local_id s j stream more found =
    rw (lookup-insert j local_id (record stream { outbox = stream.outbox ++ more }) s.streams)
      (elim (Bool-cases (j == local_id)) [
        | inl hit ↦
            let same : j ≡ local_id = (==_iff j local_id).0 hit in
            rw (hit, ← same, found) (sym (append_assoc (sent j s.transmit) stream.outbox more))
        | inr miss ↦ rw miss (sym (append-nil _))
      ])

write-Moves :
    (local_id : ℕ) (s : Session) (j : ℕ) (more : Bytes)
    → IsLive local_id s
    → Moves local_id s (write s j more).0 [] (if j == local_id then more else []) 0
unfolding write sent
write-Moves local_id s j more v = elim (Option-cases (lookup j s.streams)) [
  | inl e ↦
      let quiet : (if j == local_id then more else []) ≡ [] = ground (arith, v.is_open) in
      rw (write, e, quiet) (Carries-Moves local_id s s (Carries-refl local_id s) v)
  | inr (stream, e) ↦
      let s₁ = set_stream s j (record stream { outbox = stream.outbox ++ more }) in
      let c = flush-Carries s₁ j local_id in
      let live₁ : IsLive local_id s₁ = record {
        is_open = insert-open s j local_id _ v.is_open;
        is_old = v.is_old;
      } in
      let moved = Carries-Moves local_id s₁ (flush s₁ j) c live₁ in
      rw (write, e)
        (record {
          bytes_move = c.bytes_kept ∙ grown-queued local_id s j stream more e;
          live = moved.live;
          next_bound = moved.next_bound;
        })
]

open_connected-Moves :
    (local_id : ℕ) (s : Session) (service : Bytes)
    → IsLive local_id s
    → s.next_local_id + 1 < 2 ^ 32
    → Moves local_id s (open_connected s service) [] [] 1
unfolding open_connected sent queued payload_on
open_connected-Moves local_id s service v room = record {
  bytes_move =
      let p = packet open_stream s.next_local_id 0 (service ++ 0 ∷ []) in
      rw
        (
          lookup-insert s.next_local_id local_id new_stream s.streams,
          sent-quiet local_id s.transmit p refl,
        )
        (ground (arith, v.is_old, append-nil (queued local_id s)));
  live = record {
    is_open = insert-open s s.next_local_id local_id new_stream v.is_open;
    is_old = omega (arith, v.is_old);
  };
  next_bound = omega arith;
}

open-Moves :
    (local_id : ℕ) (s : Session) (service : Bytes)
    → IsLive local_id s
    → s.next_local_id + 1 < 2 ^ 32
    → Moves local_id s (open_service s service).0 [] [] 1
unfolding open_service
open-Moves local_id s service v room =
    let still = Carries-Moves local_id s s (Carries-refl local_id s) v in
    if_either (λ (x : Session × Result ProtoError ℕ). Moves local_id s x.0 [] [] 1) (is_connected s)
      (open_connected s service, ok s.next_local_id) (s, err (protocol not_connected))
      (open_connected-Moves local_id s service v room)
      (record { bytes_move = still.bytes_move; live = v; next_bound = omega arith })

poll-Moves :
    (local_id : ℕ) (s : Session)
    → IsLive local_id s
    → Moves local_id s (poll_transmit s).0 (polled (poll_transmit s).1) [] 0
unfolding poll_transmit sent queued
poll-Moves local_id s v = poll_cases s.transmit
  where
    poll_cases :
        (ps : List Packet)
        → let t = record s { transmit = ps } in
          Moves local_id t (poll_transmit t).0 (polled (poll_transmit t).1) [] 0
    poll_cases [] = record {
      bytes_move = sym (append-nil _);
      live = record { is_open = v.is_open; is_old = v.is_old };
      next_bound = omega arith;
    }
    poll_cases (p ∷ ps) = record {
      bytes_move = simp (append-nil, append_assoc);
      live = record { is_open = v.is_open; is_old = v.is_old };
      next_bound = omega arith;
    }

ack-Carries : (s : Session) (j local_id : ℕ) → Carries local_id s (ack s j)
unfolding ack payload_on
ack-Carries s j local_id = elim (Option-cases (lookup j s.streams)) [
  | inl e ↦ rw (ack, e) (Carries-refl local_id s)
  | inr (stream, e) ↦ elim (Option-cases stream.remote_id) [
    | inl fresh ↦ rw (ack, e, fresh) (Carries-refl local_id s)
    | inr (remote_id, opened) ↦
        rw (ack, e, opened) (queue_packet-Carries s local_id (packet okay j remote_id []) refl)
  ]
]

close-Carries : (s : Session) (j local_id : ℕ) → j ≢ local_id → Carries local_id s (close s j)
unfolding close payload_on
close-Carries s j local_id other = elim (Option-cases (lookup j s.streams)) [
  | inl e ↦ rw (close, e) (Carries-refl local_id s)
  | inr (stream, e) ↦
      let removed = record s { streams = remove j s.streams } in
      rw (close, e)
        (Carries-trans (remove-Carries s j local_id other) (
          queue_packet-Carries removed local_id (packet clse j (remote_or_zero stream.remote_id) [])
            refl))
]

start-Carries : (s : Session) (local_id : ℕ) → Carries local_id s (start s)
unfolding start payload_on
start-Carries s local_id =
    let hello =
      packet cnxn s.config.version s.config.max_payload (s.config.system_identity ++ 0 ∷ []) in
    like local_id s (queue_packet s hello) (start s) (queue_packet-Carries s local_id hello refl)
      refl refl refl

poll_event-Carries : (s : Session) (local_id : ℕ) → Carries local_id s (poll_event s).0
unfolding poll_event
poll_event-Carries s local_id =
    like local_id s s _ (Carries-refl local_id s) (ground arith) (ground arith) (ground arith)

-- Each call moves the bytes of a stream that it spares.
call-Moves :
    (local_id : ℕ) (s : Session) (c : Call)
    → IsLive local_id s
    → Spares local_id c
    → s.next_local_id + opened_by c < 2 ^ 32
    → Moves local_id s (after s c) (taken s c) (written_by local_id c) (opened_by c)
unfolding handle_packet
call-Moves local_id s starts v spared room = Carries-Moves local_id s _ (start-Carries s local_id) v
call-Moves local_id s polls v spared room = poll-Moves local_id s v
call-Moves local_id s polls_event v spared room =
    Carries-Moves local_id s _ (poll_event-Carries s local_id) v
call-Moves local_id s (opens service) v spared room = open-Moves local_id s service v room
call-Moves local_id s (writes j more) v spared room = write-Moves local_id s j more v
call-Moves local_id s (acks j) v spared room =
    Carries-Moves local_id s _ (ack-Carries s j local_id) v
call-Moves local_id s (closes j) v spared room =
    Carries-Moves local_id s _ (close-Carries s j local_id spared) v
call-Moves local_id s (receives p) v spared room =
    Carries-Moves local_id s _ (dispatch-Carries s.state p.command s p local_id spared) v

-- What the calls write on the stream, in order.
unfoldable pub written : ℕ → List Call → Bytes
written local_id [] = []
written local_id (c ∷ cs) = written_by local_id c ++ written local_id cs

unfoldable pub opened : List Call → ℕ
opened [] = 0
opened (c ∷ cs) = opened_by c + opened cs

regroup :
    (gone out rest before more later : Bytes)
    → out ++ rest ≡ before ++ more
    → (gone ++ out) ++ (rest ++ later) ≡ gone ++ (before ++ (more ++ later))
regroup gone out rest before more later e =
    append_assoc gone out (rest ++ later)
    ∙ ap (λ (bs : Bytes). gone ++ bs)
        (sym (append_assoc out rest later)
          ∙ ap (λ (bs : Bytes). bs ++ later) e
          ∙ append_assoc before more later)

-- Whatever is called in whatever order while an open stream is neither closed nor receives a CLSE, and
-- as long as the ids of new streams do not reach 2^32: the data that has gone out on it in WRTE packets,
-- then that of the packets still queued, then its outbox, are together what went out or was queued
-- before, followed by everything that was written on it since.
pub run_delivers :
    (local_id : ℕ) (h : History) (cs : List Call)
    → IsLive local_id h.session
    → All (Spares local_id) cs
    → h.session.next_local_id + opened cs < 2 ^ 32
    → sent local_id (run h cs).log ++ queued local_id (run h cs).session
      ≡ sent local_id h.log ++ (queued local_id h.session ++ written local_id cs)
unfolding run written opened step
run_delivers local_id h [] v spared room =
    ap (λ (bs : Bytes). sent local_id h.log ++ bs) (sym (append-nil (queued local_id h.session)))
run_delivers local_id h (c ∷ cs) v (spare, spared) room =
    let m = call-Moves local_id h.session c v spare (omega arith) in
    run_delivers local_id (step h c) cs m.live spared (omega (arith, m.next_bound))
    ∙ ap (λ (bs : Bytes). bs ++ (queued local_id (after h.session c) ++ written local_id cs))
        (sent-append local_id h.log (taken h.session c))
    ∙ regroup (sent local_id h.log) (sent local_id (taken h.session c))
        (queued local_id (after h.session c)) (queued local_id h.session) (written_by local_id c)
        (written local_id cs) m.bytes_move
