-- ===== src/Cli/Daemon/Input.antt =====
-- `FramedReader` of adb_cli/src/direct_daemon.rs: the file that a client sends to the daemon, as a
-- reader of frames. After an error the reader is not used again.
pub mod Refill
pub mod Reading
use adb_client.Base.{
  ltb, ◌==◌, if◌then◌else◌, length, take, drop, slice, ℕ, ◌+◌, ◌-◌, ◌*◌, min, Bool, true, false,
  not, ◌&&◌, List, [], ◌∷◌, ◌++◌,
}
use adb_client.Base.Bytes.{Bytes, bytes}
use adb_client.Base.Outcome.{Result, ok, err, ◌>>=◌}
use adb_client.Base.Words.{to_be_bytes, from_be_bytes}
use adb_client.Cli.Daemon.Stream.{StreamError, truncated, oversized, Done, terminal}

pub record FramedReader : Type 0 where
  pub stream : Bytes
  pub frame : Bytes
  pub offset : ℕ
  pub finished : Bool

unfoldable pub new : Bytes → FramedReader
new stream = record { stream = stream; frame = []; offset = 0; finished = false }

-- `read_exact`: the bytes, and what is behind them in the stream.
unfoldable pub read_exact : ℕ → Bytes → Result StreamError (Bytes × Bytes)
read_exact n stream =
    if ltb (length stream) n then err truncated else ok (take n stream, drop n stream)

-- The next frame of `size` bytes, where none ends the input.
unfoldable pub next_frame : FramedReader → ℕ → Bytes → Result StreamError FramedReader
next_frame r size stream =
    if size == 0
    then ok (record r { stream = stream; finished = true })
    else if ltb (1024 * 1024) size
    then err oversized
    else (do
      (frame, rest) ← read_exact size stream
      ok (record r { stream = rest; frame = frame; offset = 0 }))

-- `read_exact` of the length, and the frame behind it.
unfoldable pub take_frame : FramedReader → Bytes → Result StreamError FramedReader
take_frame r input = do
  (size, stream) ← read_exact 4 input
  next_frame r (from_be_bytes size) stream

unfoldable pub refill : FramedReader → Result StreamError FramedReader
refill r = if r.offset == length r.frame && not r.finished then take_frame r r.stream else ok r

-- What is left of the frame, at most `n` bytes.
unfoldable pub hand_over : ℕ → FramedReader → Bytes × FramedReader
hand_over n r =
    let count = min n (length r.frame - r.offset) in
    if r.finished
    then ([], r)
    else (slice r.offset (r.offset + count) r.frame, record r { offset = r.offset + count })

-- `read` into a buffer of `n` bytes.
unfoldable pub read_input : ℕ → FramedReader → Result StreamError (Bytes × FramedReader)
read_input n r = if n == 0 then ok ([], r) else (do filled ← refill r; ok (hand_over n filled))

-- The reads of an operation, into buffers of these sizes.
unfoldable pub read_many : List ℕ → FramedReader → Result StreamError (Bytes × FramedReader)
read_many [] r = ok ([], r)
read_many (n ∷ ns) r = do (got, s) ← read_input n r; (more, t) ← read_many ns s; ok (got ++ more, t)

-- `input_stream_operation`: what it writes to the client, for an operation that ends this way.
unfoldable pub input_stream_operation : Done → Bytes
input_stream_operation result = bytes "OK\n" ++ terminal result
