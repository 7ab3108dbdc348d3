-- ===== src/Proto/Sync/Transfer.antt =====
-- A file on its way through the sync service: `data_frames` and `done` of adb_proto/src/sync.rs at
-- one end, `SyncReader` at the other.
use adb_client.Base.{
  ℕ, zero, suc, ◌+◌, ◌<◌, ◌≤◌, ◌≡◌, refl, ap, ◌∙◌, arith, true, List, [], ◌∷◌, ◌++◌, Option, none,
  some, All, length, drop, concat, le→ltb, append_assoc,
}
use adb_client.Base.Outcome.{Result, ok, err}
use adb_client.Base.Bytes.{Bytes, bytes, bytes_eq}
use adb_client.Proto.Kinds.{ProtoError}
use adb_client.Proto.Sync.Request
use adb_client.Proto.Sync.Request.{frame, max_data_chunk, chunks, data_frames, frames_of}
use adb_client.Proto.Sync.Reader.{
  recv, SyncEvent, data_chunk, done, SyncReader, new, push, next_event, read_reply, read_done,
}
use adb_client.Proto.Sync.Frames.{chunks-concat, chunks-sizes, framed, frames_of-framed}
use adb_client.Proto.Sync.Replies.{reading, next_event-data, next_event_takes}

abbrev cons_event :
    SyncEvent
    → SyncReader × Result ProtoError (List SyncEvent)
    → SyncReader × Result ProtoError (List SyncEvent)
cons_event event (r, ok events) = (r, ok (event ∷ events))
cons_event event (r, err e) = (r, err e)

-- What is done with an answer of `next_event`, and with the reader it leaves.
abbrev go_on :
    (SyncReader → SyncReader × Result ProtoError (List SyncEvent))
    → SyncReader × Result ProtoError (Option SyncEvent)
    → SyncReader × Result ProtoError (List SyncEvent)
go_on more (r, ok none) = (r, ok [])
go_on more (r, ok (some event)) = cons_event event (more r)
go_on more (r, err e) = (r, err e)

-- A driver that asks `next_event` until it has nothing more, at most `fuel` times.
unfoldable pub read_all : ℕ → SyncReader → SyncReader × Result ProtoError (List SyncEvent)
read_all zero r = (r, ok [])
read_all (suc fuel) r = go_on (read_all fuel) (next_event r)

-- The file that a run of events carries: what DATA brought, once DONE has come.
unfoldable pub file_of : List SyncEvent → Option Bytes
file_of (data_chunk body ∷ events) = elim (file_of events) [
  | some rest ↦ some (body ++ rest)
  | none ↦ none
]
file_of (done ∷ events) = some []
file_of _ = none

abbrev data_events : List Bytes → List SyncEvent
data_events [] = done ∷ []
data_events (c ∷ cs) = data_chunk c ∷ data_events cs

file_of-data_events : (cs : List Bytes) → file_of (data_events cs) ≡ some (concat cs)
unfolding file_of
file_of-data_events [] = refl
file_of-data_events (c ∷ cs) = rw (file_of-data_events cs)

abbrev pub ended : Bytes → SyncReader
ended rest = record (reading recv rest) { complete = true }

read_reply-done :
    (mtime : ℕ) (rest : Bytes)
    → read_reply recv (Request.done mtime ++ rest) ≡ ok (some (8, done, true))
unfolding read_reply read_done Request.done frame bytes_eq
read_reply-done mtime rest = rw (le→ltb (length (Request.done mtime ++ rest)) 8 (omega arith)) refl

next_event-done :
    (mtime : ℕ) (rest : Bytes)
    → next_event (reading recv (Request.done mtime ++ rest)) ≡ (ended rest, ok (some done))
unfolding Request.done frame
next_event-done mtime rest =
    next_event_takes recv (Request.done mtime ++ rest) 8 done true (omega arith)
      (read_reply-done mtime rest)

abbrev pub with_done : ℕ → Bytes → Bytes
with_done mtime rest = Request.done mtime ++ rest

read_all-event :
    (fuel : ℕ) (r r' : SyncReader) (event : SyncEvent)
    → next_event r ≡ (r', ok (some event))
    → read_all (suc fuel) r ≡ cons_event event (read_all fuel r')
unfolding read_all
read_all-event fuel r r' event e = ap (go_on (read_all fuel)) e

read_all-ended : (fuel : ℕ) (rest : Bytes) → read_all (suc fuel) (ended rest) ≡ (ended rest, ok [])
unfolding read_all next_event
read_all-ended fuel rest = refl

read_all-framed :
    (cs : List Bytes) (mtime fuel : ℕ) (rest : Bytes)
    → All (λ c. (0 < length c) × (length c ≤ max_data_chunk)) cs
    → length cs + 2 ≤ fuel
    → read_all fuel (reading recv (framed cs ++ with_done mtime rest))
      ≡ (ended rest, ok (data_events cs))
read_all-framed cs mtime zero rest sizes enough = absurd (omega arith)
read_all-framed [] mtime (suc zero) rest sizes enough = absurd (omega arith)
read_all-framed [] mtime (suc (suc fuel)) rest sizes enough =
    read_all-event (suc fuel) (reading recv (with_done mtime rest)) (ended rest) done
      (next_event-done mtime rest)
    ∙ ap (cons_event done) (read_all-ended fuel rest)
read_all-framed (c ∷ cs) mtime (suc fuel) rest ((_, short), sizes) enough =
    let behind : Bytes = framed cs ++ with_done mtime rest in
    let first : Bytes = frame (bytes "DATA") (length c) c in
    ap (λ sent. read_all (suc fuel) (reading recv sent))
      (append_assoc first (framed cs) (with_done mtime rest))
    ∙ read_all-event fuel (reading recv (first ++ behind)) (reading recv behind) (data_chunk c)
        (next_event-data c behind short)
    ∙ ap (cons_event (data_chunk c)) (read_all-framed cs mtime fuel rest sizes (omega arith))

length-chunks : (fuel size : ℕ) (file : Bytes) → length (chunks fuel size file) ≤ fuel
unfolding chunks
length-chunks fuel size [] = omega arith
length-chunks zero size (b ∷ bs) = omega arith
length-chunks (suc fuel) size (b ∷ bs) = omega (arith, length-chunks fuel size (drop size (b ∷ bs)))

-- A file sent as DATA frames and DONE and read by `SyncReader` arrives whole: the reader ends
-- complete, keeps exactly the bytes that follow DONE, and its events carry the bytes of the file.
pub read_all-data_frames :
    (file rest : Bytes) (mtime : ℕ)
    → (events : List SyncEvent) × (read_all
          (length file + 2)
          (push (new recv) (concat (data_frames file) ++ with_done mtime rest))
        ≡ (ended rest, ok events))
      × (file_of events ≡ some file)
unfolding push new data_frames
read_all-data_frames file rest mtime =
    let cs = chunks (length file) max_data_chunk file in
    (
      data_events cs,
      ap (λ sent. read_all (length file + 2) (reading recv (sent ++ with_done mtime rest)))
            (frames_of-framed cs)
          ∙ read_all-framed cs mtime (length file + 2) rest
              (chunks-sizes (length file) max_data_chunk file (omega arith))
              (omega (arith, length-chunks (length file) max_data_chunk file)),
      file_of-data_events cs
          ∙ ap some (chunks-concat (length file) max_data_chunk file (omega arith) (omega arith)),
    )
