-- ===== src/Proto/Sync/Push.antt =====
-- Replies may arrive in any pieces: what `push` adds behind the buffer of a `SyncReader` does not change
-- what `next_event` found before it.
use adb_client.Base.{
  ◌≤◌, ◌≡◌, inl, inr, refl, ap, ◌∙◌, sym, arith, Bool, true, false, Bool-cases, ◌++◌, Option, none,
  some, length, ltb, le→ltb, ltb→le, length-append, drop-append,
}
use adb_client.Base.Outcome.{Result, ok, err}
use adb_client.Base.Bytes.{Bytes}
use adb_client.Proto.Kinds.{ProtoError}
use adb_client.Proto.Sync.Reader.{
  SyncKind, SyncEvent, SyncReader, push, Reply, read_reply, next_event,
}
use adb_client.Proto.Sync.Replies.{reading, next_event_takes}
use adb_client.Proto.Sync.Stays.{Within, Stays, read_reply-Stays}

-- The answer once `more` has arrived too: an event or an error stands, and where the reader had to
-- wait it is asked again.
abbrev pub resume :
    Bytes
    → SyncReader × Result ProtoError (Option SyncEvent)
    → SyncReader × Result ProtoError (Option SyncEvent)
resume more (r, ok none) = next_event (push r more)
resume more (r, ok (some event)) = (record r { buf = r.buf ++ more }, ok (some event))
resume more (r, err e) = (record r { buf = r.buf ++ more }, err e)

next_event_refuses :
    (kind : SyncKind) (buf : Bytes) (e : ProtoError)
    → 4 ≤ length buf
    → read_reply kind buf ≡ err e
    → next_event (reading kind buf) ≡ (reading kind buf, err e)
unfolding next_event
next_event_refuses kind buf e enough refused = rw (le→ltb (length buf) 4 enough, refused)

next_event_waits :
    (kind : SyncKind) (buf : Bytes)
    → 4 ≤ length buf
    → read_reply kind buf ≡ ok none
    → next_event (reading kind buf) ≡ (reading kind buf, ok none)
unfolding next_event
next_event_waits kind buf enough waits = rw (le→ltb (length buf) 4 enough, waits)

next_event_short :
    (kind : SyncKind) (buf : Bytes)
    → ltb (length buf) 4 ≡ true
    → next_event (reading kind buf) ≡ (reading kind buf, ok none)
unfolding next_event
next_event_short kind buf short = rw short

module _ (kind : SyncKind) (buf more : Bytes) where
  next_event_stays :
      (x : Reply)
      → 4 ≤ length buf
      → read_reply kind buf ≡ x
      → read_reply kind (buf ++ more) ≡ x
      → Within buf x
      → next_event (reading kind (buf ++ more)) ≡ resume more (next_event (reading kind buf))
  unfolding Within push
  next_event_stays (err e) enough now later within =
      next_event_refuses kind (buf ++ more) e (omega (arith, length-append buf more)) later
      ∙ ap (resume more) (sym (next_event_refuses kind buf e enough now))
  next_event_stays (ok none) enough now later within =
      ap (resume more) (sym (next_event_waits kind buf enough now))
  next_event_stays (ok (some (len, event, terminal))) enough now later within =
      next_event_takes kind (buf ++ more) len event terminal (omega (arith, length-append buf more))
        later
      ∙ ap (λ left. (record (reading kind left) { complete = terminal }, ok (some event)))
          (drop-append len buf more within)
      ∙ ap (resume more) (sym (next_event_takes kind buf len event terminal enough now))

  next_event_resumes :
      (complete : Bool)
      → next_event (push (record (reading kind buf) { complete = complete }) more)
        ≡ resume more (next_event (record (reading kind buf) { complete = complete }))
  unfolding next_event push Stays
  next_event_resumes true = refl
  next_event_resumes false = elim (Bool-cases (ltb (length buf) 4)) [
    | inl short ↦ ap (resume more) (sym (next_event_short kind buf short))
    | inr long ↦
        let enough : 4 ≤ length buf = ltb→le _ _ long in
        elim (read_reply-Stays buf more kind enough) [
          | inl waits ↦ ap (resume more) (sym (next_event_waits kind buf enough waits))
          | inr (same, within) ↦ next_event_stays (read_reply kind buf) enough refl same within
        ]
  ]

-- `next_event` after a `push` is `next_event` before it, resumed: an event or an error that was found
-- stays, and only a reader that had to wait can find more.
pub next_event-push :
    (r : SyncReader) (more : Bytes) → next_event (push r more) ≡ resume more (next_event r)
next_event-push r more = next_event_resumes r.kind r.buf more r.complete
