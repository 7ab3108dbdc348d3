-- ===== src/Proto/Session/Cases.antt =====
-- Case splits on the methods that look a stream up.
use adb_client.Base.{
  ℕ, ◌≡◌, ◌≢◌, inl, inr, arith, [], none, some, false, Option-cases, Bool-cases, ◌||◌,
}
use adb_client.Base.NatMap.{lookup}
use adb_client.Proto.Session.{
  Session, Stream, set_stream, queue_event, stream_opened, is_empty, send_chunk, flush,
  flush_stream,
}
use adb_client.Proto.Session.Receive.{on_okay}

-- `flush` sends a chunk of an open stream with nothing in flight and something in its outbox, and
-- does nothing otherwise.
pub flush_cases {ℓ} :
    (P : Session → Type ℓ) (s : Session) (local_id : ℕ)
    → P s
    → ((stream : Stream) (remote_id : ℕ)
        → lookup local_id s.streams ≡ some stream
        → stream.remote_id ≡ some remote_id
        → stream.write_in_flight ≡ false
        → stream.outbox ≢ []
        → P (send_chunk s local_id stream remote_id))
    → P (flush s local_id)
unfolding flush flush_stream is_empty
flush_cases P s local_id quiet send = elim (Option-cases (lookup local_id s.streams)) [
  | inl e ↦ rw (e, flush) quiet
  | inr (stream, e) ↦ elim (Option-cases stream.remote_id) [
    | inl fresh ↦ rw (e, flush, flush_stream, fresh) quiet
    | inr (remote_id, opened) ↦
        elim (Bool-cases (stream.write_in_flight || is_empty stream.outbox)) [
          | inl wait ↦ rw (e, flush, flush_stream, opened, wait) quiet
          | inr go ↦
              rw (e, flush, flush_stream, opened, go)
                (send stream remote_id e opened (ground arith) (ground arith))
        ]
  ]
]

pub on_okay_cases {ℓ} :
    (P : Session → Type ℓ) (s : Session) (remote_id local_id : ℕ)
    → (lookup local_id s.streams ≡ none → P s)
    → ((stream : Stream)
        → lookup local_id s.streams ≡ some stream
        → stream.remote_id ≡ none
        → P (
            flush
              (queue_event
                (set_stream s local_id (record stream { remote_id = some remote_id }))
                (stream_opened local_id))
              local_id))
    → ((stream : Stream) (known : ℕ)
        → lookup local_id s.streams ≡ some stream
        → stream.remote_id ≡ some known
        → P (flush (set_stream s local_id (record stream { write_in_flight = false })) local_id))
    → P (on_okay s remote_id local_id)
unfolding on_okay
on_okay_cases P s remote_id local_id unknown opens acknowledges =
    elim (Option-cases (lookup local_id s.streams)) [
      | inl e ↦ rw (e, on_okay) (unknown e)
      | inr (stream, e) ↦ elim (Option-cases stream.remote_id) [
        | inl fresh ↦ rw (e, on_okay, fresh) (opens stream e fresh)
        | inr (known, opened) ↦ rw (e, on_okay, opened) (acknowledges stream known e opened)
      ]
    ]
