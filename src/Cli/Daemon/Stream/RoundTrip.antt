-- ===== src/Cli/Daemon/Stream/RoundTrip.antt =====
-- The client gets from a stream what the operation in the daemon wrote and how it ended.
use adb_client.Base.{
  ltb, ◌==◌, le→ltb, length, take, drop, All, concat, length-append, take-append-drop, length-take,
  length-drop, take-length-append, drop-length-append, All-append, ℕ, zero, suc, ◌+◌, ◌*◌, ◌≤◌, ◌<◌,
  ◌≡◌, refl, sym, ap, ◌∙◌, true, false, List, [], ◌∷◌, ◌++◌, map, append_assoc, arith,
}
use mathlib.Core.Path.{ap₂}
use adb_client.Base.Bytes.{Bytes, bytes, bytes_eq}
use adb_client.Base.Outcome.{Result, ok, err}
use adb_client.Base.Utf8.{from_utf8_lossy, is_utf8}
use adb_client.Base.Words.{to_be_bytes, from_be_bytes, from_be_bytes-to_be_bytes}
use adb_client.Cli.Daemon.Stream.{
  Done, StreamError, refused, framed, chunks_of, write, terminal, stream_operation, read_line,
  decode_frames, read_terminal, end_stream, decode_stream,
}

-- A chunk that the decoder takes.
abbrev pub IsFrame : Bytes → Type 0
IsFrame chunk = (0 < length chunk) × (length chunk ≤ 1024 * 1024)

chunks_of-IsFrame :
    (size fuel : ℕ) (bs : Bytes)
    → 0 < size
    → size ≤ 1024 * 1024
    → All IsFrame (chunks_of size fuel bs)
unfolding chunks_of
chunks_of-IsFrame size zero bs p q = tt
chunks_of-IsFrame size (suc fuel) [] p q = tt
chunks_of-IsFrame size (suc fuel) (b ∷ bs) p q =
    let count = length-take size (b ∷ bs) in
    ((omega (arith, count), omega (arith, count)), chunks_of-IsFrame size fuel _ p q)

concat-chunks_of :
    (size fuel : ℕ) (bs : Bytes)
    → 0 < size
    → length bs ≤ fuel
    → concat (chunks_of size fuel bs) ≡ bs
unfolding chunks_of
concat-chunks_of size zero [] p h = refl
concat-chunks_of size zero (b ∷ bs) p h = absurd (omega arith)
concat-chunks_of size (suc fuel) [] p h = refl
concat-chunks_of size (suc fuel) (b ∷ bs) p h =
    let left = length-drop size (b ∷ bs) in
    let below = concat-chunks_of size fuel (drop size (b ∷ bs)) p (omega (arith, left)) in
    ap (λ rest. take size (b ∷ bs) ++ rest) below ∙ take-append-drop size (b ∷ bs)

decode_frames-step :
    (fuel size : ℕ) (bs body : Bytes)
    → ltb (length bs) 4 ≡ false
    → from_be_bytes (take 4 bs) ≡ size
    → drop 4 bs ≡ body
    → (size == 0) ≡ false
    → ltb (1024 * 1024) size ≡ false
    → ltb (length body) size ≡ false
    → decode_frames (suc fuel) bs ≡ (
      take size body ++ (decode_frames fuel (drop size body)).0,
      (decode_frames fuel (drop size body)).1,
    )
unfolding decode_frames
decode_frames-step fuel size bs body header e d positive fits whole =
    rw (header, e, d, positive, fits, whole) refl

decode_frames-framed :
    (fuel : ℕ) (chunk rest : Bytes)
    → IsFrame chunk
    → decode_frames (suc fuel) (framed chunk ++ rest)
      ≡ (chunk ++ (decode_frames fuel rest).0, (decode_frames fuel rest).1)
unfolding framed
decode_frames-framed fuel chunk rest (positive, fits) =
    let n = length chunk in
    let all = length-append chunk rest in
    let step =
      decode_frames-step fuel n (to_be_bytes n ++ (chunk ++ rest)) (chunk ++ rest)
        (le→ltb _ 4 (omega arith)) (from_be_bytes-to_be_bytes n (omega arith)) refl (ground arith)
        (le→ltb (1024 * 1024) n fits) (le→ltb (length (chunk ++ rest)) n (omega (arith, all))) in
    step
    ∙ ap₂ (λ got left. (got ++ (decode_frames fuel left).0, (decode_frames fuel left).1))
        (take-length-append chunk rest) (drop-length-append chunk rest)

decode_frames_end :
    (fuel : ℕ) (tail : Bytes)
    → length (to_be_bytes 0 ++ tail) ≤ fuel
    → decode_frames fuel (to_be_bytes 0 ++ tail) ≡ ([], ok tail)
unfolding decode_frames
decode_frames_end zero tail h = absurd (omega arith)
decode_frames_end (suc fuel) tail h =
    rw (le→ltb (length (to_be_bytes 0 ++ tail)) 4 (omega arith)) refl

length-framed :
    (chunk rest : Bytes) → length (framed chunk ++ rest) ≡ 4 + length chunk + length rest
unfolding framed
length-framed chunk rest = omega (arith, length-append chunk rest)

decode_frames-frames :
    (cs : List Bytes) (fuel : ℕ) (tail : Bytes)
    → All IsFrame cs
    → length (concat (map framed cs) ++ (to_be_bytes 0 ++ tail)) ≤ fuel
    → decode_frames fuel (concat (map framed cs) ++ (to_be_bytes 0 ++ tail)) ≡ (concat cs, ok tail)
decode_frames-frames [] fuel tail h enough = decode_frames_end fuel tail enough
decode_frames-frames (c ∷ cs) zero tail h enough = absurd (
    omega
      (arith, length-append (framed c ++ concat (map framed cs)) (to_be_bytes 0 ++ tail), enough))
decode_frames-frames (c ∷ cs) (suc fuel) tail (p, ps) enough =
    let behind = concat (map framed cs) ++ (to_be_bytes 0 ++ tail) in
    let join = append_assoc (framed c) (concat (map framed cs)) (to_be_bytes 0 ++ tail) in
    ap (decode_frames (suc fuel)) join
    ∙ decode_frames-framed fuel c behind p
    ∙ ap (λ r. (c ++ r.0, r.1))
        (decode_frames-frames cs fuel tail ps
          (omega (arith, ap length join, length-framed c behind, enough)))

-- All frames that an operation makes.
abbrev pieces : List Bytes → List Bytes
pieces [] = []
pieces (w ∷ ws) = chunks_of (64 * 1024) (length w) w ++ pieces ws

pieces-IsFrame : (writes : List Bytes) → All IsFrame (pieces writes)
pieces-IsFrame [] = tt
pieces-IsFrame (w ∷ ws) =
    All-append IsFrame _ _ (chunks_of-IsFrame (64 * 1024) (length w) w (omega arith) (omega arith))
      (pieces-IsFrame ws)

concat-append : (xs ys : List Bytes) → concat (xs ++ ys) ≡ concat xs ++ concat ys
concat-append [] ys = refl
concat-append (x ∷ xs) ys =
    ap (λ rest. x ++ rest) (concat-append xs ys) ∙ sym (append_assoc x (concat xs) (concat ys))

map-append : (xs ys : List Bytes) → map framed (xs ++ ys) ≡ map framed xs ++ map framed ys
map-append [] ys = refl
map-append (x ∷ xs) ys = ap (λ rest. framed x ∷ rest) (map-append xs ys)

writes-pieces :
    (writes : List Bytes) → concat (map write writes) ≡ concat (map framed (pieces writes))
unfolding write
writes-pieces [] = refl
writes-pieces (w ∷ ws) =
    let cs = chunks_of (64 * 1024) (length w) w in
    ap (λ rest. concat (map framed cs) ++ rest) (writes-pieces ws)
    ∙ sym (ap concat (map-append cs (pieces ws)) ∙ concat-append (map framed cs) _)

concat-pieces : (writes : List Bytes) → concat (pieces writes) ≡ concat writes
concat-pieces [] = refl
concat-pieces (w ∷ ws) =
    concat-append (chunks_of (64 * 1024) (length w) w) (pieces ws)
    ∙ ap₂ (λ x y. x ++ y) (concat-chunks_of (64 * 1024) (length w) w (omega arith) (omega arith))
        (concat-pieces ws)

-- How the client sees the end of an operation.
abbrev pub seen : Done → Result StreamError (Unit {0})
seen (ok _) = ok tt
seen (err message) = err (refused (terminal (err message)))

read_terminal-terminal :
    (result : Done)
    → is_utf8 (terminal result) ≡ true
    → read_terminal (terminal result) ≡ seen result
unfolding read_terminal terminal bytes_eq
read_terminal-terminal (ok x) h = rw h refl
read_terminal-terminal (err message) h = rw h refl

decode_ok :
    (rest : Bytes)
    → decode_stream (bytes "OK\n" ++ rest) ≡ end_stream (decode_frames (length rest) rest)
unfolding decode_stream read_line is_utf8 from_utf8_lossy bytes_eq
decode_ok rest = refl

-- The client writes exactly the bytes that the operation wrote, in their order and whatever they
-- are, and it succeeds exactly if the operation did; else its error is the terminal line. The text
-- of the operation's error is UTF-8, as every text of the program is.
pub decode_stream-stream_operation :
    (writes : List Bytes) (result : Done)
    → is_utf8 (terminal result) ≡ true
    → decode_stream (stream_operation writes result) ≡ (concat writes, seen result)
unfolding decode_stream stream_operation
decode_stream-stream_operation writes result h =
    let frames = concat (map framed (pieces writes)) in
    let rest = frames ++ (to_be_bytes 0 ++ terminal result) in
    ap (λ w. decode_stream (bytes "OK\n" ++ (w ++ (to_be_bytes 0 ++ terminal result))))
      (writes-pieces writes)
    ∙ decode_ok rest
    ∙ ap end_stream (
        decode_frames-frames (pieces writes) (length rest) (terminal result) (pieces-IsFrame writes)
          (omega arith))
    ∙ (unfold end_stream in
        ap₂ (λ x y. (x, y)) (concat-pieces writes) (read_terminal-terminal result h))
