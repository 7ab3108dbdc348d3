-- ===== src/Cli/Daemon/Stream.antt =====
-- The output of a long request in adb_cli/src/direct_daemon.rs: a status line, frames with their
-- length in front, an empty frame, and a terminal line. A connection is the bytes that the peer
-- sent until it closed its end.
pub mod RoundTrip
use adb_client.Base.{
  ltb, ◌==◌, if◌then◌else◌, length, take, drop, concat, ℕ, zero, suc, ◌+◌, ◌*◌, min, ap, Bool, not,
  List, [], ◌∷◌, ◌++◌, map,
}
use adb_client.Base.Bytes.{Bytes, bytes, bytes_eq}
use adb_client.Base.Outcome.{Result, ok, err}
use adb_client.Base.Utf8.{from_utf8_lossy, is_utf8}
use adb_client.Base.Words.{to_be_bytes, from_be_bytes}

-- What an operation returns and the text it fails with.
abbrev pub Done : Type 0
Done = Result Bytes (Unit {0})

pub data StreamError : Type 0 where
  refused : Bytes → StreamError
  not_utf8 truncated oversized : StreamError

unfoldable pub framed : Bytes → Bytes
framed chunk = to_be_bytes (length chunk) ++ chunk

-- `bytes.chunks_of(size)`; there are not more chunks_of than bytes.
unfoldable pub chunks_of : ℕ → ℕ → Bytes → List Bytes
chunks_of size zero bs = []
chunks_of size (suc fuel) [] = []
chunks_of size (suc fuel) (b ∷ bs) = take size (b ∷ bs) ∷ chunks_of size fuel (drop size (b ∷ bs))

-- `FramedWriter::write`
unfoldable pub write : Bytes → Bytes
write bs = concat (map framed (chunks_of (64 * 1024) (length bs) bs))

unfoldable pub terminal : Done → Bytes
terminal (ok _) = bytes "OK\n"
terminal (err message) = bytes "ERR\t" ++ message ++ bytes "\n"

-- `stream_operation`, for an operation that makes these writes and ends this way.
unfoldable pub stream_operation : List Bytes → Done → Bytes
stream_operation writes result =
    bytes "OK\n" ++ (concat (map write writes) ++ (to_be_bytes 0 ++ terminal result))

-- `BufRead::read_line`: the line with its end, and what is behind.
unfoldable pub read_line : Bytes → Bytes × Bytes
read_line [] = ([], [])
read_line (b ∷ bs) =
    let (line, rest) = read_line bs in if b == b'\n' then (b ∷ [], bs) else (b ∷ line, rest)

-- The loop over the frames: what it writes, and the bytes behind the empty frame.
unfoldable pub decode_frames : ℕ → Bytes → Bytes × Result StreamError Bytes
decode_frames zero bs = ([], err truncated)
decode_frames (suc fuel) bs =
    let size = from_be_bytes (take 4 bs) in
    let body = drop 4 bs in
    let rest = decode_frames fuel (drop size body) in
    if ltb (length bs) 4
    then ([], err truncated)
    else if size == 0
    then ([], ok body)
    else if ltb (1024 * 1024) size
    then ([], err oversized)
    else if ltb (length body) size
    then ([], err truncated)
    else (take size body ++ rest.0, rest.1)

unfoldable pub read_terminal : Bytes → Result StreamError (Unit {0})
read_terminal result =
    if not (is_utf8 result)
    then err not_utf8
    else if bytes_eq result (bytes "OK\n")
    then ok tt
    else err (refused result)

unfoldable pub end_stream : Bytes × Result StreamError Bytes → Bytes × Result StreamError (Unit {0})
end_stream (output, ok rest) = (output, read_terminal rest)
end_stream (output, err e) = (output, err e)

-- A frame is four bytes at least, so that the length of the input is enough fuel.
unfoldable pub decode_stream : Bytes → Bytes × Result StreamError (Unit {0})
decode_stream input =
    let (status, rest) = read_line input in
    if not (is_utf8 status)
    then ([], err not_utf8)
    else if bytes_eq status (bytes "OK\n")
    then end_stream (decode_frames (length rest) rest)
    else ([], err (refused status))
