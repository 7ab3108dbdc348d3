-- ===== src/Client/Session/Pushed.antt =====
-- What `push_file` sends, and what the receiving end makes of it.
use adb_client.Base.{
  ℕ, suc, ◌^◌, ◌≤◌, ◌<◌, ◌≡◌, refl, ap, ◌∙◌, sym, arith, List, [], ◌∷◌, ◌++◌, All, length, concat,
  append_assoc, lt→ltb, ◌==◌, if◌then◌else◌,
}
use adb_client.Base.Outcome.{Result, ok, err}
use adb_client.Base.Bytes.{Bytes, bytes}
use adb_client.Proto.Sync.Request.{frame, max_data_chunk}
use adb_client.Proto.Sync.Request
use adb_client.Proto.Sync.Frames.{framed}
use adb_client.Client.Kinds.{
  MessageCommand, write, okay, RustAdbError, command_code, wrong_response_received,
  wrong_command_received,
}
use adb_client.Client.Message.{
  Message, try_new, try_new_header, header_of, encode_subcommand, assert_command,
}
use adb_client.Client.Session.{
  AdbSession, send_and_expect_okay, send_piece, finish, expect_write, expect_okay, write_new,
  push_pieces, push_file, then_with, read_message,
}
use adb_client.Client.Session.Copy.{copy_sync_file, finished}
use adb_client.Client.Session.Received.{copy_from-framed, length-framed}

-- The replies of the device, each an OKAY.
abbrev pub acked :
    List Message → List (Result RustAdbError Message) → List (Result RustAdbError Message)
acked [] later = later
acked (a ∷ acks) later = ok a ∷ acked acks later

abbrev pub IsCommand : MessageCommand → Message → Type 0
IsCommand c m = m.header.command ≡ c

assert_command-okay : (m : Message) → IsCommand okay m → assert_command m okay ≡ ok tt
unfolding assert_command
assert_command-okay m okayed =
    ap
      (λ (c : MessageCommand).
        if command_code okay == command_code c then ok tt else err (wrong_response_received c okay))
      okayed

expect_okay-okay : (s : AdbSession) (m : Message) → IsCommand okay m → expect_okay s m ≡ (s, ok m)
unfolding expect_okay
expect_okay-okay s m okayed = rw (assert_command-okay m okayed, expect_okay) refl

expect_write-write :
    (s : AdbSession) (m : Message) → IsCommand write m → expect_write s m ≡ (s, ok tt)
unfolding expect_write
expect_write-write s m last =
    ap
      (λ (c : MessageCommand). elim c as (λ _. AdbSession × Result RustAdbError (Unit {0})) [
        | write ↦ (s, ok tt)
        | _ ↦ (s, err (wrong_command_received c))
      ])
      last

module _ (local_id remote_id : ℕ) where
  -- A session whose writes all succeed.
  abbrev pub session : List (Result RustAdbError Message) → List Message → AdbSession
  session reads written = record {
    transport = record { reads = reads; written = written; write_ends = λ n. ok tt };
    local_id = local_id;
    remote_id = remote_id;
  }

  abbrev pub write_of : Bytes → Message
  write_of payload = record {
    header = header_of write local_id remote_id payload;
    payload = payload;
  }

  pub send_and_expect_okay-acked :
      (payload : Bytes) (a : Message) (later : List (Result RustAdbError Message))
      (written : List Message)
      → length payload < 2 ^ 32
      → IsCommand okay a
      → send_and_expect_okay (session (ok a ∷ later) written) write payload
        ≡ (session later (written ++ write_of payload ∷ []), ok a)
  unfolding send_and_expect_okay write_new try_new try_new_header
  send_and_expect_okay-acked payload a later written short okayed =
      let sent : List Message = written ++ write_of payload ∷ [] in
      rw (lt→ltb (length payload) (2 ^ 32) short) (expect_okay-okay (session later sent) a okayed)

  -- The frame of a piece, and the last frame.
  abbrev data_write : Bytes → Message
  data_write piece = write_of (frame (bytes "DATA") (length piece) piece)

  abbrev done_write : Message
  done_write = write_of (Request.done 0)

  -- The messages for a file.
  abbrev pub file_writes : List Bytes → List Message
  file_writes [] = done_write ∷ []
  file_writes (p ∷ ps) = data_write p ∷ file_writes ps

  send_piece-acked :
      (piece : Bytes) (a : Message) (later : List (Result RustAdbError Message))
      (written : List Message)
      → length piece ≤ max_data_chunk
      → IsCommand okay a
      → send_piece (session (ok a ∷ later) written) piece
        ≡ (session later (written ++ data_write piece ∷ []), ok a)
  unfolding send_piece encode_subcommand frame
  send_piece-acked piece a later written short okayed =
      send_and_expect_okay-acked (frame (bytes "DATA") (length piece) piece) a later written
        (omega arith) okayed

  finish-acked :
      (a final : Message) (later : List (Result RustAdbError Message)) (written : List Message)
      → IsCommand okay a
      → IsCommand write final
      → finish (session (ok a ∷ ok final ∷ later) written)
        ≡ (session later (written ++ done_write ∷ []), ok tt)
  unfolding finish encode_subcommand Request.done frame
  finish-acked a final later written okayed last =
      let sent : List Message = written ++ done_write ∷ [] in
      ap (then_with (λ s' _. then_with expect_write (read_message s'))) (
        send_and_expect_okay-acked (Request.done 0) a (ok final ∷ later) written (omega arith)
          okayed)
      ∙ expect_write-write (session later sent) final last

  -- The pieces that a reader brings before the end of the file.
  abbrev pub IsPiece : Bytes → Type 0
  IsPiece p = (0 < length p) × (length p ≤ max_data_chunk)

  push_pieces-acked :
      (ps : List Bytes) (a : Message) (acks : List Message) (final : Message)
      (later : List (Result RustAdbError Message)) (written : List Message)
      → All IsPiece ps
      → length acks ≡ length ps
      → All (IsCommand okay) (a ∷ acks)
      → IsCommand write final
      → push_pieces ps (session (acked (a ∷ acks) (ok final ∷ later)) written)
        ≡ (session later (written ++ file_writes ps), ok tt)
  unfolding push_pieces
  push_pieces-acked [] a [] final later written pieces same (okayed, _) last =
      finish-acked a final later written okayed last
  push_pieces-acked [] a (b ∷ acks) final later written pieces same okays last =
      absurd (omega arith)
  push_pieces-acked (p ∷ ps) a [] final later written pieces same okays last = absurd (omega arith)
  push_pieces-acked ([] ∷ ps) a (b ∷ acks) final later written (piece, pieces) same okays last =
      absurd (omega arith)
  push_pieces-acked ((x ∷ xs) ∷ ps) a (b ∷ acks) final later written (piece, pieces) same
        (okayed, okays) last =
      let p : Bytes = x ∷ xs in
      ap (then_with (λ s' _. push_pieces ps s'))
        (send_piece-acked p a (acked (b ∷ acks) (ok final ∷ later)) written (omega arith) okayed)
      ∙ push_pieces-acked ps b acks final later (written ++ data_write p ∷ []) pieces (omega arith)
          okays last
      ∙ ap (λ ms. (session later ms, ok tt))
          (append_assoc written (data_write p ∷ []) (file_writes ps))

  -- The payloads of messages, one behind the other.
  abbrev pub payloads : List Message → Bytes
  payloads [] = []
  payloads (m ∷ ms) = m.payload ++ payloads ms

  payloads-file_writes :
      (ps : List Bytes) → payloads (file_writes ps) ≡ framed ps ++ (Request.done 0 ++ [])
  payloads-file_writes [] = refl
  payloads-file_writes (p ∷ ps) =
      ap (λ bs. frame (bytes "DATA") (length p) p ++ bs) (payloads-file_writes ps)
      ∙ sym (append_assoc (frame (bytes "DATA") (length p) p) (framed ps) (Request.done 0 ++ []))

  short_pieces : (ps : List Bytes) → All IsPiece ps → All (λ p. length p ≤ max_data_chunk) ps
  short_pieces [] pieces = tt
  short_pieces (p ∷ ps) ((_, short), pieces) = (short, short_pieces ps pieces)

  copy_sync_file-file_writes :
      (ps : List Bytes)
      → All (λ p. length p ≤ max_data_chunk) ps
      → copy_sync_file (payloads (file_writes ps)) ≡ ([], concat ps, finished)
  unfolding copy_sync_file
  copy_sync_file-file_writes ps short =
      let sent : Bytes = framed ps ++ (Request.done 0 ++ []) in
      ap copy_sync_file (payloads-file_writes ps)
      ∙ copy_from-framed ps 0 (suc (length sent)) [] [] short
          (omega (arith, length-framed ps (Request.done 0 ++ [])))

  -- On a transport whose writes succeed, where the device answers each frame of the file and DONE with
  -- an OKAY, and then with a WRTE: `push_file` succeeds, whatever the payload of that WRTE is; it has
  -- read just these replies, and the messages that it has written carry, for the receiving end
  -- `copy_sync_file`, exactly the bytes that were read from the file. A piece of the file has at most
  -- 64 KiB, and only the first may be empty.
  pub push_file-copy_sync_file :
      (first : Bytes) (ps : List Bytes) (a b : Message) (acks : List Message) (final : Message)
      (later : List (Result RustAdbError Message))
      → length first ≤ max_data_chunk
      → All IsPiece ps
      → length acks ≡ length ps
      → All (IsCommand okay) (a ∷ b ∷ acks)
      → IsCommand write final
      → (push_file (session (acked (a ∷ b ∷ acks) (ok final ∷ later)) []) (first ∷ ps)
          ≡ (session later (file_writes (first ∷ ps)), ok tt))
        × (copy_sync_file (payloads (file_writes (first ∷ ps)))
            ≡ ([], first ++ concat ps, finished))
  unfolding push_file
  push_file-copy_sync_file first ps a b acks final later short pieces same (okayed, okays) last = (
    ap (then_with (λ s' _. push_pieces ps s'))
          (send_piece-acked first a (acked (b ∷ acks) (ok final ∷ later)) [] short okayed)
        ∙ push_pieces-acked ps b acks final later (data_write first ∷ []) pieces same okays last,
    copy_sync_file-file_writes (first ∷ ps) (short, short_pieces ps pieces),
  )
