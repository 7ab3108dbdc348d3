-- ===== src/Proto/Sync/Reader.antt =====
-- adb_proto/src/sync.rs: `SyncReader`, the incremental parser of the replies.
use adb_client.Base.{
  ℕ, ◌+◌, Bool, true, false, not, ◌&&◌, ◌||◌, [], ◌++◌, Option, none, some, length, take, drop,
  slice, ltb, ◌==◌, if◌then◌else◌,
}
use adb_client.Base.Outcome.{Result, ok, err}
use adb_client.Base.Bytes.{Bytes, bytes, bytes_eq}
use adb_client.Base.Utf8.{from_utf8_lossy}
use adb_client.Base.Words.{from_le_bytes, ℤ, pos, signed64}
use adb_client.Proto.Kinds.{
  ProtoError, protocol, name_too_long, data_too_long, fail_too_long, unexpected_reply,
}
use adb_client.Proto.Sync.Request.{max_data_chunk}

pub data SyncKind : Type 0 where
  stat list recv stat2 list2 : SyncKind

-- `data_chunk` is `Data`.
pub data SyncEvent : Type 0 where
  stat : (mode size : ℕ) (mtime : ℤ) (error : ℕ) → SyncEvent
  dent : (mode size : ℕ) (mtime : ℤ) (error : ℕ) (name : Bytes) → SyncEvent
  data_chunk : Bytes → SyncEvent
  done : SyncEvent
  fail : Bytes → SyncEvent

pub record SyncReader : Type 0 where
  pub kind : SyncKind
  pub buf : Bytes
  pub complete : Bool

-- `SyncReader::new`
unfoldable pub new : SyncKind → SyncReader
new kind = record { kind = kind; buf = []; complete = false }

-- `SyncReader::push`
unfoldable pub push : SyncReader → Bytes → SyncReader
push r more = if r.complete then r else record r { buf = r.buf ++ more }

abbrev pub stat_v2_len : ℕ
stat_v2_len = 72

abbrev pub dent_v2_len : ℕ
dent_v2_len = 76

-- `word` of the four bytes at an offset.
unfoldable pub word : Bytes → ℕ → ℕ
word buf i = from_le_bytes (slice i (i + 4) buf)

-- `stat_v2`
unfoldable pub stat_v2 : Bytes → Option Bytes → SyncEvent
stat_v2 buf name =
    let error = word buf 4 in
    let mode = word buf 24 in
    let size = from_le_bytes (slice 40 48 buf) in
    let mtime = signed64 (from_le_bytes (slice 56 64 buf)) in
    elim name [
      | some text ↦ SyncEvent.dent mode size mtime error text
      | none ↦ SyncEvent.stat mode size mtime error
    ]

-- What the branches of `next_event` come to: an error, a wait for more bytes, or the length of the
-- reply, its event, and whether it is the last.
abbrev pub Reply : Type 0
Reply = Result ProtoError (Option (ℕ × SyncEvent × Bool))

abbrev pub kind_code : SyncKind → ℕ
kind_code SyncKind.stat = 0
kind_code list = 1
kind_code recv = 2
kind_code stat2 = 3
kind_code list2 = 4

abbrev pub is_kind : SyncKind → SyncKind → Bool
is_kind a b = kind_code a == kind_code b

unfoldable pub read_stat : Bytes → Reply
read_stat buf =
    if ltb (length buf) 16
    then ok none
    else ok (some (16, SyncEvent.stat (word buf 4) (word buf 8) (pos (word buf 12)) 0, true))

unfoldable pub read_stat2 : Bytes → Reply
read_stat2 buf =
    if ltb (length buf) stat_v2_len
    then ok none
    else ok (some (stat_v2_len, stat_v2 buf none, true))

unfoldable pub read_dent : Bytes → Reply
read_dent buf =
    let name_len = word buf 16 in
    let name = from_utf8_lossy (slice 20 (20 + name_len) buf) in
    if ltb (length buf) 20
    then ok none
    else if ltb 1024 name_len
    then err (protocol name_too_long)
    else if ltb (length buf) (20 + name_len)
    then ok none
    else ok (
        some (
          20 + name_len,
          SyncEvent.dent (word buf 4) (word buf 8) (pos (word buf 12)) 0 name,
          false,
        ))

unfoldable pub read_dent2 : Bytes → Reply
read_dent2 buf =
    let name_len = word buf stat_v2_len in
    let name = from_utf8_lossy (slice dent_v2_len (dent_v2_len + name_len) buf) in
    if ltb (length buf) dent_v2_len
    then ok none
    else if ltb 1024 name_len
    then err (protocol name_too_long)
    else if ltb (length buf) (dent_v2_len + name_len)
    then ok none
    else ok (some (dent_v2_len + name_len, stat_v2 buf (some name), false))

unfoldable pub read_data : Bytes → Reply
read_data buf =
    let size = word buf 4 in
    if ltb (length buf) 8
    then ok none
    else if ltb max_data_chunk size
    then err (protocol data_too_long)
    else if ltb (length buf) (8 + size)
    then ok none
    else ok (some (8 + size, data_chunk (slice 8 (8 + size) buf), false))

-- LIST and LIS2 end with a whole dirent.
abbrev pub done_len : SyncKind → ℕ
done_len list = 20
done_len list2 = dent_v2_len
done_len _ = 8

unfoldable pub read_done : SyncKind → Bytes → Reply
read_done kind buf =
    if ltb (length buf) (done_len kind) then ok none else ok (some (done_len kind, done, true))

unfoldable pub read_fail : Bytes → Reply
read_fail buf =
    let size = word buf 4 in
    if ltb (length buf) 8
    then ok none
    else if ltb 4096 size
    then err (protocol fail_too_long)
    else if ltb (length buf) (8 + size)
    then ok none
    else ok (some (8 + size, fail (from_utf8_lossy (slice 8 (8 + size) buf)), true))

-- The chain of tests on the id and the kind.
unfoldable pub read_reply : SyncKind → Bytes → Reply
unfolding read_stat read_stat2 read_dent read_dent2 read_data read_done read_fail
read_reply kind buf =
    let id = take 4 buf in
    if bytes_eq id (bytes "STAT") && is_kind kind SyncKind.stat
    then read_stat buf
    else if bytes_eq id (bytes "STA2") && is_kind kind stat2
    then read_stat2 buf
    else if bytes_eq id (bytes "DENT") && is_kind kind list
    then read_dent buf
    else if bytes_eq id (bytes "DNT2") && is_kind kind list2
    then read_dent2 buf
    else if bytes_eq id (bytes "DATA") && is_kind kind recv
    then read_data buf
    else if bytes_eq id (bytes "DONE") && not (is_kind kind SyncKind.stat || is_kind kind stat2)
    then read_done kind buf
    else if bytes_eq id (bytes "FAIL")
    then read_fail buf
    else err (protocol (unexpected_reply (from_utf8_lossy id)))

-- `SyncReader::next_event`
unfoldable pub next_event : SyncReader → SyncReader × Result ProtoError (Option SyncEvent)
next_event r =
    if r.complete || ltb (length r.buf) 4 then (r, ok none) else elim (read_reply r.kind r.buf) [
      | err e ↦ (r, err e)
      | ok none ↦ (r, ok none)
      | ok (some (len, event, terminal)) ↦ (
        record r { buf = drop len r.buf; complete = if terminal then true else r.complete },
        ok (some event),
      )
    ]
