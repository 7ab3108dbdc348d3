-- ===== src/Proto/Sync/Replies.antt =====
-- The replies of the service (AOSP file_sync_protocol.h), and what `next_event` makes of them.
use adb_client.Base.{
  ℕ, suc, ◌+◌, ◌-◌, ◌≤◌, ◌≡◌, refl, ap, ◌∙◌, arith, Bool, true, false, ◌++◌, some, length, drop,
  length-append, take-length-append, drop-length-append, le→ltb,
}
use adb_client.Base.Outcome.{ok}
use adb_client.Base.Bytes.{Bytes, bytes, bytes_eq}
use adb_client.Base.Words.{to_le_bytes, from_le_bytes-to_le_bytes, IsU32}
use adb_client.Proto.Sync.Request.{frame, max_data_chunk}
use adb_client.Proto.Sync.Reader.{
  SyncKind, list, recv, stat2, list2, SyncEvent, data_chunk, SyncReader, word, read_data, read_dent,
  read_dent2, read_stat, read_stat2, read_fail, read_reply, next_event,
}

-- A reader in the middle of a reply stream.
abbrev pub reading : SyncKind → Bytes → SyncReader
reading kind buf = record { kind = kind; buf = buf; complete = false }

-- A reply that has arrived whole is taken off the front.
pub next_event_takes :
    (kind : SyncKind) (buf : Bytes) (len : ℕ) (event : SyncEvent) (terminal : Bool)
    → 4 ≤ length buf
    → read_reply kind buf ≡ ok (some (len, event, terminal))
    → next_event (reading kind buf)
      ≡ (record (reading kind (drop len buf)) { complete = terminal }, ok (some event))
unfolding next_event
next_event_takes kind buf len event true enough e = rw (le→ltb (length buf) 4 enough, e)
next_event_takes kind buf len event false enough e = rw (le→ltb (length buf) 4 enough, e)

-- The ids, in front of any bytes.
read_reply_data :
    (tail : Bytes) → read_reply recv (bytes "DATA" ++ tail) ≡ read_data (bytes "DATA" ++ tail)
unfolding read_reply bytes_eq
read_reply_data tail = refl

read_reply_dent :
    (tail : Bytes) → read_reply list (bytes "DENT" ++ tail) ≡ read_dent (bytes "DENT" ++ tail)
unfolding read_reply bytes_eq
read_reply_dent tail = refl

read_reply_dnt2 :
    (tail : Bytes) → read_reply list2 (bytes "DNT2" ++ tail) ≡ read_dent2 (bytes "DNT2" ++ tail)
unfolding read_reply bytes_eq
read_reply_dnt2 tail = refl

read_reply_stat :
    (tail : Bytes)
    → read_reply SyncKind.stat (bytes "STAT" ++ tail) ≡ read_stat (bytes "STAT" ++ tail)
unfolding read_reply bytes_eq
read_reply_stat tail = refl

read_reply_sta2 :
    (tail : Bytes) → read_reply stat2 (bytes "STA2" ++ tail) ≡ read_stat2 (bytes "STA2" ++ tail)
unfolding read_reply bytes_eq
read_reply_sta2 tail = refl

read_reply_fail :
    (kind : SyncKind) (tail : Bytes)
    → read_reply kind (bytes "FAIL" ++ tail) ≡ read_fail (bytes "FAIL" ++ tail)
unfolding read_reply bytes_eq
read_reply_fail kind tail = refl

-- The bytes behind a header of 8 bytes.
body_length : (k : ℕ) → 8 + k - 8 ≡ k
body_length k = omega arith

from_8 : (k : ℕ) → 8 + k ≡ suc (suc (suc (suc (suc (suc (suc (suc k)))))))
from_8 k = omega arith

read_data-frame :
    (body rest : Bytes)
    → length body ≤ max_data_chunk
    → read_data (frame (bytes "DATA") (length body) body ++ rest)
      ≡ ok (some (8 + length body, data_chunk body, false))
unfolding read_data frame word
read_data-frame body rest fits =
    let n = length body in
    let tail : Bytes = body ++ rest in
    let small : IsU32 n = omega arith in
    rw (
      from_le_bytes-to_le_bytes n small,
      le→ltb max_data_chunk n fits,
      body_length n,
      take-length-append body rest,
      le→ltb (length (frame (bytes "DATA") n tail)) 8 (omega arith),
      le→ltb (length (frame (bytes "DATA") n tail)) (8 + n)
          (omega (arith, length-append body rest)),
    )

drop-frame :
    (body rest : Bytes)
    → drop (8 + length body) (frame (bytes "DATA") (length body) body ++ rest) ≡ rest
unfolding frame
drop-frame body rest = rw (from_8 (length body)) (drop-length-append body rest)

-- DATA: the length and that many bytes.
pub next_event-data :
    (body rest : Bytes)
    → length body ≤ max_data_chunk
    → next_event (reading recv (frame (bytes "DATA") (length body) body ++ rest))
      ≡ (reading recv rest, ok (some (data_chunk body)))
unfolding frame
next_event-data body rest fits =
    let n = length body in
    let sent : Bytes = frame (bytes "DATA") n body ++ rest in
    next_event_takes recv sent (8 + n) (data_chunk body) false (omega arith)
      (read_reply_data (to_le_bytes n ++ (body ++ rest)) ∙ read_data-frame body rest fits)
    ∙ ap (λ left. (reading recv left, ok (some (data_chunk body)))) (drop-frame body rest)
