-- ===== src/Client/Dispatched/Shell/Download.antt =====
-- What `pull` makes of a file that adb_proto frames, however the device cuts its stream into packets.
use adb_client.Base.{
  leb, lt→ltb, length, All, concat, length-append, take-length-append, drop-length-append, ℕ, zero,
  suc, ◌+◌, ◌*◌, ◌^◌, ◌≤◌, ◌<◌, ◌≡◌, refl, sym, ap, ◌∙◌, true, List, [], ◌∷◌, ◌++◌, append-nil,
  append_assoc, arith,
}
use mathlib.Core.Path.{subst}
use adb_client.Base.Outcome.{Result, ok}
use adb_client.Base.Bytes.{Bytes, bytes, bytes_eq}
use adb_client.Base.Words.{to_le_bytes, from_le_bytes-to_le_bytes}
use adb_client.Client.Kinds.{okay, RustAdbError}
use adb_client.Client.Message.{Message, try_new, try_new_header}
use adb_client.Client.Session.{AdbSession, write_new}
use adb_client.Client.Session.Pushed.{session, IsCommand, write_of}
use adb_client.Client.Session.Received.{length-framed, short_chunks}
use adb_client.Client.Dispatched.{close_ack, send_expect_okay, expect_acknowledged}
use adb_client.Client.Dispatched.Source.{IsData, received, bytes_of, Source, read_bytes-Source}
use adb_client.Client.Dispatched.Shell.{
  ended, total_bytes, pull_loop, close_after, after_request, pull,
}
use adb_client.Client.Dispatched.Shell.Output.{length-bytes_of}
use adb_client.Proto.Sync.Frames.{framed, frames_of-framed, chunks-concat, chunks-sizes}
use adb_client.Proto.Sync.Request
use adb_client.Proto.Sync.Request.{frame, max_data_chunk, chunks, data_frames}
use adb_client.Proto.Sync.Transfer.{with_done}

-- A round that takes a frame of the file.
abbrev Round : ℕ → AdbSession → Bytes → Bytes → Bytes → Bytes → Type 0
Round fuel s buffered output body rest =
    (t : AdbSession) × ((left : Bytes) × ((pull_loop (suc fuel) s buffered output
          ≡ pull_loop fuel t left (output ++ body))
        × Source t left rest))

loop_data :
    (fuel : ℕ) (s : AdbSession) (buffered output body rest : Bytes)
    → length body ≤ max_data_chunk
    → Source s buffered (frame (bytes "DATA") (length body) body ++ rest)
    → Round fuel s buffered output body rest
unfolding pull_loop frame bytes_eq
loop_data fuel s buffered output body rest fits source =
    let n = length body in
    let all = length-append body rest in
    let (s1, (left1, (e1, source1))) = read_bytes-Source s buffered 8 _ source (omega arith) in
    let (t, (left, (e2, source2))) =
      read_bytes-Source s1 left1 n (body ++ rest) source1 (omega (arith, all)) in
    let got = e2 ∙ ap (λ x. (t, ok (x, left))) (take-length-append body rest) in
    let size = from_le_bytes-to_le_bytes n (omega arith) in
    let small : leb n (64 * 1024) ≡ true = ground (arith, fits) in
    (
      t,
      (
        left,
        (
          rw (e1, size, small, got) refl,
          subst (Source t left) (drop-length-append body rest) source2,
        ),
      ),
    )

loop_done :
    (fuel : ℕ) (s : AdbSession) (buffered output rest : Bytes) (mtime : ℕ)
    → Source s buffered (Request.done mtime ++ rest)
    → (t : AdbSession) × (pull_loop (suc fuel) s buffered output ≡ (t, output, ended (ok tt)))
unfolding pull_loop frame bytes_eq Request.done
loop_done fuel s buffered output rest mtime source =
    let (t, (left, (e, _))) = read_bytes-Source s buffered 8 _ source (omega arith) in
    (t, rw e refl)

pull_loop-framed :
    (cs : List Bytes) (fuel : ℕ) (s : AdbSession) (buffered output rest : Bytes) (mtime : ℕ)
    → All (λ c. length c ≤ max_data_chunk) cs
    → length cs < fuel
    → Source s buffered (framed cs ++ with_done mtime rest)
    → (t : AdbSession) × (pull_loop fuel s buffered output
        ≡ (t, output ++ concat cs, ended (ok tt)))
pull_loop-framed cs zero s buffered output rest mtime h enough source = absurd (omega arith)
pull_loop-framed [] (suc fuel) s buffered output rest mtime h enough source =
    let (t, e) = loop_done fuel s buffered output rest mtime source in
    (t, e ∙ ap (λ o. (t, o, ended (ok tt))) (sym (append-nil output)))
pull_loop-framed (c ∷ cs) (suc fuel) s buffered output rest mtime (p, h) enough source =
    let behind = framed cs ++ with_done mtime rest in
    let join =
      append_assoc (frame (bytes "DATA") (length c) c) (framed cs) (with_done mtime rest) in
    let (t, (left, (e, later))) =
      loop_data fuel s buffered output c behind p (subst (Source s buffered) join source) in
    let (u, below) =
      pull_loop-framed cs fuel t left (output ++ c) rest mtime h (omega arith) later in
    (u, e ∙ below ∙ ap (λ o. (u, o, ended (ok tt))) (append_assoc output c (concat cs)))

-- The request and the OKAY to it.
send_expect_okay-okay :
    (local_id remote_id : ℕ) (a : Message) (reads : List (Result RustAdbError Message))
    (sent : List Message) (payload : Bytes)
    → length payload < 2 ^ 32
    → IsCommand okay a
    → send_expect_okay (session local_id remote_id (ok a ∷ reads) sent) payload
      ≡ (session local_id remote_id reads (sent ++ write_of local_id remote_id payload ∷ []), ok tt)
unfolding send_expect_okay write_new try_new try_new_header expect_acknowledged
send_expect_okay-okay local_id remote_id a reads sent payload short okayed =
    rw (lt→ltb (length payload) (2 ^ 32) short, okayed) refl

-- The path has at most 2^32 - 9 bytes, the device answers the request with an OKAY and then sends
-- a file as adb_proto frames it, and the caller's sends succeed. However the device cuts that
-- stream into WRTE packets, with OKAY packets between them, the download succeeds, and its output
-- is exactly the bytes of the file.
pub pull-data_frames :
    (path file rest : Bytes) (mtime local_id remote_id : ℕ) (a : Message)
    (packets sent : List Message)
    → length path + 8 < 2 ^ 32
    → IsCommand okay a
    → All IsData packets
    → bytes_of packets ≡ concat (data_frames file) ++ with_done mtime rest
    → (u : AdbSession) × (pull path (session local_id remote_id (ok a ∷ received packets) sent)
        ≡ (u, file, ended (ok tt)))
unfolding pull data_frames
pull-data_frames path file rest mtime local_id remote_id a packets sent short okayed carry e =
    let cs = chunks (length file) max_data_chunk file in
    let request = bytes "RECV" ++ (to_le_bytes (length path) ++ path) in
    let whole = e ∙ ap (λ x. x ++ with_done mtime rest) (frames_of-framed cs) in
    let s =
      session local_id remote_id (received packets)
        (sent ++ write_of local_id remote_id request ∷ []) in
    let source : Source s [] (framed cs ++ with_done mtime rest) = record {
      local_id = local_id;
      remote_id = remote_id;
      packets = packets;
      sent = sent ++ write_of local_id remote_id request ∷ [];
      is = refl;
      carry = carry;
      bytes_left = sym whole;
    } in
    let (t, ran) =
      pull_loop-framed cs (suc (total_bytes (received packets))) s [] [] rest mtime
        (short_chunks cs (chunks-sizes (length file) max_data_chunk file (omega arith)))
        (omega (
          arith,
          length-framed cs (with_done mtime rest),
          ap length whole,
          length-bytes_of packets,
        ))
        source in
    let file_is = chunks-concat (length file) max_data_chunk file (omega arith) (omega arith) in
    let asked =
      send_expect_okay-okay local_id remote_id a (received packets) sent request (omega arith)
        okayed in
    (
      (close_ack t).0,
      rw (lt→ltb (length path) (2 ^ 32) (omega arith)) (
          ap after_request asked
          ∙ ap close_after ran
          ∙ ap (λ o. ((close_ack t).0, o, ended (ok tt))) file_is),
    )
