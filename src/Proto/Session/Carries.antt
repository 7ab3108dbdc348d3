-- ===== src/Proto/Session/Carries.antt =====
-- What is queued for a stream, in WRTE packets and in its outbox, and the steps that carry it on.
use adb_client.Base.{
  ℕ, ◌≡◌, ◌≢◌, inl, inr, refl, sym, ap, ◌∙◌, arith, List, [], ◌∷◌, ◌++◌, length, min,
  take-append-drop, append_assoc, append-nil, Option, none, some, false, ◌==◌, if◌then◌else◌,
  Bool-cases, ==_iff,
}
use adb_client.Base.Bytes.{Bytes}
use adb_client.Base.NatMap.{lookup, insert, remove, lookup-insert, lookup-remove}
use adb_client.Proto.Kinds.{wrte}
use adb_client.Proto.Message.{Packet}
use adb_client.Proto.Session.{
  Session, Stream, set_stream, queue_event, queue_packet, stream_opened, send_chunk, flush,
}
use adb_client.Proto.Session.Receive.{on_okay, on_close}
use adb_client.Proto.Session.Cases.{flush_cases, on_okay_cases}

-- The payload of a WRTE packet of the stream.
unfoldable pub payload_on : ℕ → Packet → Bytes
payload_on local_id p = elim p.command [
  | wrte ↦ if p.arg0 == local_id then p.payload else []
  | _ ↦ []
]

-- What the WRTE packets of the stream carry, in order.
unfoldable pub sent : ℕ → List Packet → Bytes
sent local_id [] = []
sent local_id (p ∷ ps) = payload_on local_id p ++ sent local_id ps

pub sent-append :
    (local_id : ℕ) (ps qs : List Packet)
    → sent local_id (ps ++ qs) ≡ sent local_id ps ++ sent local_id qs
unfolding sent
sent-append local_id [] qs = refl
sent-append local_id (p ∷ ps) qs =
    rw (sent-append local_id ps qs) (sym (append_assoc (payload_on local_id p) _ _))

abbrev pub outbox_of : Option Stream → Bytes
outbox_of none = []
outbox_of (some stream) = stream.outbox

-- What is queued for the stream: in packets, and in its outbox.
unfoldable pub queued : ℕ → Session → Bytes
queued local_id s = sent local_id s.transmit ++ outbox_of (lookup local_id s.streams)

-- A packet with no stream data leaves `sent` alone.
pub sent-quiet :
    (local_id : ℕ) (ps : List Packet) (p : Packet)
    → payload_on local_id p ≡ []
    → sent local_id (ps ++ p ∷ []) ≡ sent local_id ps
unfolding sent
sent-quiet local_id ps p h =
    rw (sent-append local_id ps (p ∷ []), h) (append-nil (sent local_id ps))

send_chunk-queued :
    (s : Session) (j local_id : ℕ) (stream : Stream) (remote_id : ℕ)
    → lookup j s.streams ≡ some stream
    → queued local_id (send_chunk s j stream remote_id) ≡ queued local_id s
unfolding send_chunk queued payload_on sent
send_chunk-queued s j local_id stream remote_id found =
    let len = min (length stream.outbox) s.peer_max_payload in
    let out = sent local_id s.transmit in
    rw (sent-append local_id s.transmit _, lookup-insert j local_id _ s.streams)
      (elim (Bool-cases (j == local_id)) [
        | inl hit ↦
            let same : j ≡ local_id = (==_iff j local_id).0 hit in
            rw (hit, ← same, found) (simp (append-nil, append_assoc, take-append-drop))
        | inr miss ↦ rw miss (simp append-nil)
      ])

-- From `s` to `s'` the stream stays open, what is queued for it stays, and no id is handed out.
pub record Carries (local_id : ℕ) (s s' : Session) : Type 0 where
  pub bytes_kept : queued local_id s' ≡ queued local_id s
  pub stays_open : lookup local_id s.streams ≢ none → lookup local_id s'.streams ≢ none
  pub same_next : s'.next_local_id ≡ s.next_local_id

pub Carries-refl : (local_id : ℕ) (s : Session) → Carries local_id s s
Carries-refl local_id s = record { bytes_kept = refl; stays_open = λ h. h; same_next = refl }

pub Carries-trans :
    {local_id : ℕ} {s t u : Session}
    → Carries local_id s t
    → Carries local_id t u
    → Carries local_id s u
Carries-trans f g = record {
  bytes_kept = g.bytes_kept ∙ f.bytes_kept;
  stays_open = λ h. g.stays_open (f.stays_open h);
  same_next = g.same_next ∙ f.same_next;
}

-- A replaced stream stays open.
pub insert-open :
    (s : Session) (j local_id : ℕ) (stream : Stream)
    → lookup local_id s.streams ≢ none
    → lookup local_id (insert j stream s.streams) ≢ none
insert-open s j local_id stream h e = ground (arith, lookup-insert j local_id stream s.streams)

pub flush-Carries : (s : Session) (j local_id : ℕ) → Carries local_id s (flush s j)
unfolding send_chunk
flush-Carries s j local_id =
    flush_cases (Carries local_id s) s j (Carries-refl local_id s)
      (λ stream remote_id found opened quiet more. record {
        bytes_kept = send_chunk-queued s j local_id stream remote_id found;
        stays_open = insert-open s j local_id _;
        same_next = refl;
      })

-- A stream that is replaced by one with the same outbox.
pub set_stream-Carries :
    (s : Session) (j local_id : ℕ) (old new : Stream)
    → lookup j s.streams ≡ some old
    → new.outbox ≡ old.outbox
    → Carries local_id s (set_stream s j new)
unfolding queued
set_stream-Carries s j local_id old new found same = record {
  bytes_kept = ground (arith, lookup-insert j local_id new s.streams);
  stays_open = insert-open s j local_id new;
  same_next = refl;
}

pub on_okay-Carries :
    (s : Session) (remote_id j local_id : ℕ) → Carries local_id s (on_okay s remote_id j)
unfolding queued
on_okay-Carries s remote_id j local_id =
    on_okay_cases (Carries local_id s) s remote_id j (λ e. Carries-refl local_id s)
      (λ stream found fresh.
        let new : Stream = record stream { remote_id = some remote_id } in
        let opened = queue_event (set_stream s j new) (stream_opened j) in
        let kept = set_stream-Carries s j local_id stream new found refl in
        Carries-trans
          (record {
            bytes_kept = kept.bytes_kept;
            stays_open = kept.stays_open;
            same_next = kept.same_next;
          })
          (flush-Carries opened j local_id))
      (λ stream known found opened.
        let new : Stream = record stream { write_in_flight = false } in
        Carries-trans (set_stream-Carries s j local_id stream new found refl)
          (flush-Carries (set_stream s j new) j local_id))

-- A packet that carries no stream data may be queued.
pub queue_packet-Carries :
    (s : Session) (local_id : ℕ) (p : Packet)
    → payload_on local_id p ≡ []
    → Carries local_id s (queue_packet s p)
unfolding queued
queue_packet-Carries s local_id p quiet = record {
  bytes_kept =
      ap (λ (bs : Bytes). bs ++ outbox_of (lookup local_id s.streams))
        (sent-quiet local_id s.transmit p quiet);
  stays_open = λ h. h;
  same_next = refl;
}

pub remove-Carries :
    (s : Session) (j local_id : ℕ)
    → j ≢ local_id
    → Carries local_id s (record s { streams = remove j s.streams })
unfolding queued
remove-Carries s j local_id other = record {
  bytes_kept = ground (arith, lookup-remove j local_id s.streams);
  stays_open = λ h e. ground (arith, lookup-remove j local_id s.streams);
  same_next = refl;
}

pub on_close-Carries :
    (s : Session) (j local_id : ℕ) → j ≢ local_id → Carries local_id s (on_close s j)
unfolding on_close queued
on_close-Carries s j local_id other = record {
  bytes_kept = ground (arith, lookup-remove j local_id s.streams);
  stays_open = λ h e. ground (arith, lookup-remove j local_id s.streams);
  same_next = ground arith;
}
