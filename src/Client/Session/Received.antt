-- ===== src/Client/Session/Received.antt =====
-- What `copy_sync_file` makes of a file that adb_proto frames, and of any other input.
use adb_client.Base.{
  ℕ, zero, suc, ◌≤◌, ◌<◌, ◌≡◌, ◌≢◌, refl, ap, ◌∙◌, arith, inl, inr, Bool-cases, Option-cases, List,
  [], ◌∷◌, ◌++◌, All, length, drop, concat, ltb, le→ltb, ltb→le, append_assoc, length-append,
  length-drop, take-length-append, drop-length-append, if_either,
}
use adb_client.Base.Bytes.{Bytes, bytes}
use adb_client.Base.Words.{IsU32, from_le_bytes-to_le_bytes}
use adb_client.Proto.Sync.Request.{frame, max_data_chunk, chunks, data_frames}
use adb_client.Proto.Sync.Request
use adb_client.Proto.Sync.Frames.{framed, frames_of-framed, chunks-concat, chunks-sizes}
use adb_client.Proto.Sync.Transfer.{with_done}
use adb_client.Client.Kinds.{MessageSubcommand, fail, done, sync_data, subcommand_of}
use adb_client.Client.Message.{read_u32}
use adb_client.Client.Session.Copy.{
  finished, stuck, Frame, max_sync_error_length, copied, ended, on_subcommand, read_frame, go_on,
  copy_from, copy_sync_file,
}

on_subcommand-sync_data :
    (body rest : Bytes) → on_subcommand sync_data (length body) (body ++ rest) ≡ copied body rest
unfolding on_subcommand
on_subcommand-sync_data body rest = rw (
  le→ltb (length (body ++ rest)) (length body) (omega (arith, length-append body rest)),
  take-length-append body rest,
  drop-length-append body rest,
)

read_frame-frame :
    (body rest : Bytes)
    → length body ≤ max_data_chunk
    → read_frame (frame (bytes "DATA") (length body) body ++ rest) ≡ copied body rest
unfolding read_frame read_u32 frame subcommand_of
read_frame-frame body rest short =
    let n = length body in
    let small : IsU32 n = omega arith in
    rw
      (
        from_le_bytes-to_le_bytes n small,
        le→ltb (length (frame (bytes "DATA") n body ++ rest)) 8 (omega arith),
      )
      (on_subcommand-sync_data body rest)

read_frame-done :
    (mtime : ℕ) (rest : Bytes) → read_frame (Request.done mtime ++ rest) ≡ ended [] rest finished
unfolding read_frame read_u32 Request.done frame subcommand_of on_subcommand
read_frame-done mtime rest = rw (le→ltb (length (Request.done mtime ++ rest)) 8 (omega arith)) refl

pub copy_from-framed :
    (cs : List Bytes) (mtime fuel : ℕ) (rest output : Bytes)
    → All (λ c. length c ≤ max_data_chunk) cs
    → length cs < fuel
    → copy_from fuel (framed cs ++ with_done mtime rest) output
      ≡ (rest, output ++ concat cs, finished)
unfolding copy_from
copy_from-framed cs mtime zero rest output sizes enough = absurd (omega arith)
copy_from-framed [] mtime (suc fuel) rest output sizes enough =
    ap (go_on (copy_from fuel) output) (read_frame-done mtime rest)
copy_from-framed (c ∷ cs) mtime (suc fuel) rest output (short, sizes) enough =
    let behind : Bytes = framed cs ++ with_done mtime rest in
    let first : Bytes = frame (bytes "DATA") (length c) c in
    ap (λ sent. go_on (copy_from fuel) output (read_frame sent))
      (append_assoc first (framed cs) (with_done mtime rest))
    ∙ ap (go_on (copy_from fuel) output) (read_frame-frame c behind short)
    ∙ copy_from-framed cs mtime fuel rest (output ++ c) sizes (omega arith)
    ∙ ap (λ bs. (rest, bs, finished)) (append_assoc output c (concat cs))

pub length-framed : (cs : List Bytes) (rest : Bytes) → length cs ≤ length (framed cs ++ rest)
unfolding frame
length-framed [] rest = omega arith
length-framed (c ∷ cs) rest = omega (
  arith,
  length-framed cs rest,
  length-append (c ++ framed cs) rest,
  length-append c (framed cs),
  length-append (framed cs) rest,
  length-append ((c ++ framed cs) ++ rest) rest,
)

pub short_chunks :
    (cs : List Bytes)
    → All (λ c. (0 < length c) × (length c ≤ max_data_chunk)) cs
    → All (λ c. length c ≤ max_data_chunk) cs
short_chunks [] sizes = tt
short_chunks (c ∷ cs) ((_, short), sizes) = (short, short_chunks cs sizes)

-- What adb_proto sends for a file, `data_frames` and `done`, is received by `copy_sync_file` as exactly
-- the bytes of the file, and what follows DONE is left unread.
pub copy_sync_file-data_frames :
    (file rest : Bytes) (mtime : ℕ)
    → copy_sync_file (concat (data_frames file) ++ with_done mtime rest) ≡ (rest, file, finished)
unfolding copy_sync_file data_frames
copy_sync_file-data_frames file rest mtime =
    let cs = chunks (length file) max_data_chunk file in
    let sent : Bytes = framed cs ++ with_done mtime rest in
    ap (λ input. copy_sync_file (input ++ with_done mtime rest)) (frames_of-framed cs)
    ∙ copy_from-framed cs mtime (suc (length sent)) rest []
        (short_chunks cs (chunks-sizes (length file) max_data_chunk file (omega arith)))
        (omega (arith, length-framed cs (with_done mtime rest)))
    ∙ ap (λ bs. (rest, bs, finished))
        (chunks-concat (length file) max_data_chunk file (omega arith) (omega arith))

-- A frame that is copied takes its header off the input.
Shorter : ℕ → Frame → Type 0
Shorter n (copied body left) = length left < n
Shorter n (ended body left end) = end ≢ stuck

on_subcommand-Shorter :
    (c : MessageSubcommand) (len : ℕ) (input : Bytes)
    → Shorter (suc (length input)) (on_subcommand c len input)
unfolding on_subcommand Shorter
on_subcommand-Shorter sync_data len input =
    if_either (Shorter (suc (length input))) (ltb (length input) len) _ _ (λ e. cc)
      (omega (arith, length-drop len input))
on_subcommand-Shorter fail len input =
    if_either (Shorter (suc (length input))) (ltb max_sync_error_length len) _ _ (λ e. cc)
      (if_either (Shorter (suc (length input))) (ltb (length input) len) _ _ (λ e. cc) (λ e. cc))
on_subcommand-Shorter done len input = λ e. cc
on_subcommand-Shorter _ len input = λ e. cc

Shorter-le : (m n : ℕ) (f : Frame) → m ≤ n → Shorter m f → Shorter n f
unfolding Shorter
Shorter-le m n (copied body left) le less = omega arith
Shorter-le m n (ended body left end) le ends = ends

read_frame-Shorter : (input : Bytes) → Shorter (length input) (read_frame input)
unfolding read_frame Shorter
read_frame-Shorter input = elim (Bool-cases (ltb (length input) 8)) [
  | inl few ↦ rw (few, read_frame) (λ e. cc)
  | inr enough ↦ elim (Option-cases (subcommand_of (read_u32 input 0))) [
    | inl unknown ↦ rw (enough, unknown, read_frame) (λ e. cc)
    | inr (c, known) ↦
        let room : 8 ≤ length input = ltb→le _ _ enough in
        rw (enough, known, read_frame)
          (Shorter-le (suc (length (drop 8 input))) (length input) _
            (omega (arith, length-drop 8 input))
            (on_subcommand-Shorter c (read_u32 input 4) (drop 8 input)))
  ]
]

go_on-ends :
    (fuel n : ℕ) (output : Bytes) (f : Frame)
    → ((input more : Bytes) → length input < fuel → (copy_from fuel input more).2 ≢ stuck)
    → Shorter n f
    → n ≤ fuel
    → (go_on (copy_from fuel) output f).2 ≢ stuck
unfolding Shorter
go_on-ends fuel n output (copied body left) ends less le = ends left (output ++ body) (omega arith)
go_on-ends fuel n output (ended body left end) ends other le = other

copy_from-ends :
    (fuel : ℕ) (input output : Bytes)
    → length input < fuel
    → (copy_from fuel input output).2 ≢ stuck
unfolding copy_from
copy_from-ends zero input output enough = absurd (omega arith)
copy_from-ends (suc fuel) input output enough =
    go_on-ends fuel (length input) output (read_frame input) (copy_from-ends fuel)
      (read_frame-Shorter input) (omega arith)

-- On any input, `copy_sync_file` comes to an end: with DONE, or with an error.
pub copy_sync_file-ends : (input : Bytes) → (copy_sync_file input).2 ≢ stuck
unfolding copy_sync_file
copy_sync_file-ends input = copy_from-ends (suc (length input)) input [] (omega arith)
