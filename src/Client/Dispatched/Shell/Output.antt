-- ===== src/Client/Dispatched/Shell/Output.antt =====
-- What a caller of `shell_command` gets from a device that speaks the protocol, however the device
-- cuts its stream into packets.
use adb_client.Base.{
  ltb, le→ltb, ltb→le, Bool-cases, length, take, All, slice, length-append, length-take,
  take-length-append, drop-length-append, ℕ, zero, suc, ◌-◌, ◌*◌, ◌≤◌, ◌<◌, ◌≡◌, refl, sym, ap, ◌∙◌,
  ◌⊎◌, inl, inr, List, [], ◌∷◌, ◌++◌, append-nil, append_assoc, arith,
}
use mathlib.Core.Path.{subst}
use adb_client.Base.Outcome.{Result, ok, err}
use adb_client.Base.Decimal.{to_decimal}
use adb_client.Base.Utf8.{from_utf8_lossy}
use adb_client.Base.Bytes.{Bytes, bytes}
use adb_client.Base.Words.{to_le_bytes, from_le_bytes, from_le_bytes-to_le_bytes}
use adb_client.Client.Kinds.{MessageCommand, write, RustAdbError, request_failed}
use adb_client.Client.Message.{Message, try_new, try_new_header}
use adb_client.Client.Session.{AdbSession, write_new}
use adb_client.Client.Session.Pushed.{session}
use adb_client.Client.Dispatched.{close_ack, read_bytes}
use adb_client.Client.Dispatched.Source.{
  IsData, received, bytes_of, carried, Source, read_bytes-Source,
}
use adb_client.Client.Dispatched.Shell.{
  Ran, ended, first_byte, with_bytes, add_errors, exit_result, on_exit, closed, on_shell_packet,
  on_sized, shell_loop, total_bytes, shell_command,
}

-- A part of the output or of the diagnostics of a command, of at most 1 MiB.
pub data Part : Type 0 where
  out_part error_part : Bytes → Part

abbrev pub part_id : Part → ℕ
part_id (out_part bs) = 1
part_id (error_part bs) = 2

abbrev pub part_bytes : Part → Bytes
part_bytes (out_part bs) = bs
part_bytes (error_part bs) = bs

abbrev pub IsPart : Part → Type 0
IsPart p = length (part_bytes p) ≤ 1024 * 1024

-- What the device sends: parts, then the exit code, then anything.
abbrev pub shell_packet : ℕ → Bytes → Bytes
shell_packet id bs = id ∷ (to_le_bytes (length bs) ++ bs)

abbrev pub shell_stream : List Part → ℕ → Bytes → Bytes
shell_stream [] code tail = shell_packet 3 (code ∷ []) ++ tail
shell_stream (p ∷ ps) code tail =
    shell_packet (part_id p) (part_bytes p) ++ shell_stream ps code tail

-- The output and the diagnostics, and the diagnostics that are kept behind `errors`.
abbrev pub output_of : List Part → Bytes
output_of [] = []
output_of (out_part bs ∷ ps) = bs ++ output_of ps
output_of (error_part bs ∷ ps) = output_of ps

abbrev pub diagnostics_of : List Part → Bytes
diagnostics_of [] = []
diagnostics_of (out_part bs ∷ ps) = diagnostics_of ps
diagnostics_of (error_part bs ∷ ps) = bs ++ diagnostics_of ps

abbrev errors_of : Bytes → List Part → Bytes
errors_of errors [] = errors
errors_of errors (out_part bs ∷ ps) = errors_of errors ps
errors_of errors (error_part bs ∷ ps) = errors_of (add_errors errors bs) ps

take_nil : (n : ℕ) → take {A = ℕ} n [] ≡ []
take_nil zero = refl
take_nil (suc n) = refl

take_more :
    (n : ℕ) (front back : Bytes)
    → length front ≤ n
    → take n (front ++ back) ≡ front ++ take (n - length front) back
take_more n [] back h = ap (λ k. take k back) (omega arith)
take_more zero (b ∷ front) back h = absurd (omega arith)
take_more (suc n) (b ∷ front) back h =
    let same : suc n - suc (length front) ≡ n - length front = omega arith in
    ap (λ bs. b ∷ bs) (take_more n front back (omega arith))
    ∙ ap (λ k. b ∷ (front ++ take k back)) (sym same)

take-take-append : (n : ℕ) (xs ys : Bytes) → take n (take n xs ++ ys) ≡ take n (xs ++ ys)
take-take-append zero xs ys = refl
take-take-append (suc n) [] ys = refl
take-take-append (suc n) (x ∷ xs) ys = ap (λ bs. x ∷ bs) (take-take-append n xs ys)

add_errors-take :
    (errors more : Bytes)
    → length errors ≤ 64 * 1024
    → add_errors errors more ≡ take (64 * 1024) (errors ++ more)
unfolding add_errors
add_errors-take errors more h =
    let all = take_more (64 * 1024) errors more h in
    elim (Bool-cases (ltb (length errors) (64 * 1024))) [
      | inl room ↦ rw room (sym all)
      | inr full ↦
          let none_left : 64 * 1024 - length errors ≡ 0 =
            omega (arith, ltb→le (length errors) (64 * 1024) full) in
          rw full (sym (all ∙ ap (λ k. errors ++ take k more) none_left ∙ append-nil errors))
    ]

errors_of-take :
    (ps : List Part) (errors : Bytes)
    → length errors ≤ 64 * 1024
    → errors_of errors ps ≡ take (64 * 1024) (errors ++ diagnostics_of ps)
errors_of-take [] errors h = sym (
    take_more (64 * 1024) errors [] h
    ∙ ap (λ bs. errors ++ bs) (take_nil (64 * 1024 - length errors))
    ∙ append-nil errors)
errors_of-take (out_part bs ∷ ps) errors h = errors_of-take ps errors h
errors_of-take (error_part bs ∷ ps) errors h =
    let e = add_errors-take errors bs h in
    let size = length-take (64 * 1024) (errors ++ bs) in
    errors_of-take ps (add_errors errors bs) (omega (arith, ap length e, size))
    ∙ ap (λ now. take (64 * 1024) (now ++ diagnostics_of ps)) e
    ∙ take-take-append (64 * 1024) (errors ++ bs) (diagnostics_of ps)
    ∙ ap (take (64 * 1024)) (append_assoc errors bs (diagnostics_of ps))

-- A round of the loop, and the service behind it.
abbrev Round : ℕ → AdbSession → Bytes → Bytes → Bytes → ℕ → Bytes → Bytes → Type 0
Round fuel s buffered output errors id payload rest =
    (t : AdbSession) × ((left : Bytes) × ((shell_loop (suc fuel) s buffered output errors
          ≡ on_shell_packet (shell_loop fuel t left) id payload t output errors)
        × Source t left rest))

on_sized_fits :
    (more : AdbSession → Bytes → Bytes → Bytes → Ran) (id size : ℕ) (output errors : Bytes)
    (s t : AdbSession) (left payload rest : Bytes)
    → size ≤ 1024 * 1024
    → read_bytes s left size ≡ (t, ok (payload, rest))
    → on_sized more id size output errors s left
      ≡ on_shell_packet (more t rest) id payload t output errors
unfolding on_sized
on_sized_fits more id size output errors s t left payload rest fits e =
    rw (le→ltb (1024 * 1024) size fits, e) refl

loop_packet :
    (fuel : ℕ) (s : AdbSession) (buffered output errors : Bytes) (id : ℕ) (payload rest : Bytes)
    → length payload ≤ 1024 * 1024
    → Source s buffered (shell_packet id payload ++ rest)
    → Round fuel s buffered output errors id payload rest
unfolding shell_loop
loop_packet fuel s buffered output errors id payload rest fits source =
    let n = length payload in
    let all = length-append payload rest in
    let (s1, (left1, (e1, source1))) = read_bytes-Source s buffered 5 _ source (omega arith) in
    let (t, (left, (e2, source2))) =
      read_bytes-Source s1 left1 n (payload ++ rest) source1 (omega (arith, all)) in
    let got = e2 ∙ ap (λ x. (t, ok (x, left))) (take-length-append payload rest) in
    let size = from_le_bytes-to_le_bytes n (omega arith) in
    let step =
      ap
        (with_bytes output (λ s' header left.
          on_sized (shell_loop fuel) (first_byte header) (from_le_bytes (slice 1 5 header)) output
            errors s' left))
        e1
      ∙ ap (λ k. on_sized (shell_loop fuel) id k output errors s1 left1) size
      ∙ on_sized_fits (shell_loop fuel) id n output errors s1 t left1 payload left fits got in
    (t, (left, (step, subst (Source t left) (drop-length-append payload rest) source2)))

close_ack-session :
    (local_id remote_id : ℕ) (reads : List (Result RustAdbError Message)) (sent : List Message)
    → (u : AdbSession) × (close_ack (session local_id remote_id reads sent) ≡ (u, ok tt))
unfolding close_ack write_new try_new try_new_header
close_ack-session local_id remote_id reads sent = (_, refl)

close_ack-Source :
    (t : AdbSession) (left rest : Bytes)
    → Source t left rest
    → (u : AdbSession) × (close_ack t ≡ (u, ok tt))
close_ack-Source t left rest source =
    let (u, e) =
      close_ack-session source.local_id source.remote_id (received source.packets) source.sent in
    (u, ap close_ack source.is ∙ e)

shell_loop-exit :
    (fuel : ℕ) (s : AdbSession) (buffered output errors : Bytes) (code : ℕ) (tail : Bytes)
    → Source s buffered (shell_stream [] code tail)
    → (u : AdbSession) × (shell_loop (suc fuel) s buffered output errors
        ≡ (u, output, ended (exit_result code errors)))
unfolding on_shell_packet on_exit
shell_loop-exit fuel s buffered output errors code tail source =
    let (t, (left, (e, later))) =
      loop_packet fuel s buffered output errors 3 (code ∷ []) tail (omega arith) source in
    let (u, acked) = close_ack-Source t left tail later in
    (u, e ∙ ap (closed output (exit_result code errors)) acked)

shell_loop-stream :
    (ps : List Part) (fuel : ℕ) (s : AdbSession) (buffered output errors : Bytes) (code : ℕ)
    (tail : Bytes)
    → All IsPart ps
    → length ps < fuel
    → Source s buffered (shell_stream ps code tail)
    → (u : AdbSession) × (shell_loop fuel s buffered output errors
        ≡ (u, output ++ output_of ps, ended (exit_result code (errors_of errors ps))))
unfolding on_shell_packet
shell_loop-stream ps zero s buffered output errors code tail h enough source = absurd (omega arith)
shell_loop-stream [] (suc fuel) s buffered output errors code tail h enough source =
    let (u, e) = shell_loop-exit fuel s buffered output errors code tail source in
    (u, e ∙ ap (λ o. (u, o, ended (exit_result code errors))) (sym (append-nil output)))
shell_loop-stream (out_part bs ∷ ps) (suc fuel) s buffered output errors code tail (p, h) enough
      source =
    let rest = shell_stream ps code tail in
    let (t, (left, (e, later))) = loop_packet fuel s buffered output errors 1 bs rest p source in
    let (u, below) =
      shell_loop-stream ps fuel t left (output ++ bs) errors code tail h (omega arith) later in
    (
      u,
      e
          ∙ below
          ∙ ap (λ o. (u, o, ended (exit_result code (errors_of errors ps))))
              (append_assoc output bs (output_of ps)),
    )
shell_loop-stream (error_part bs ∷ ps) (suc fuel) s buffered output errors code tail (p, h) enough
      source =
    let rest = shell_stream ps code tail in
    let (t, (left, (e, later))) = loop_packet fuel s buffered output errors 2 bs rest p source in
    let (u, below) =
      shell_loop-stream ps fuel t left output (add_errors errors bs) code tail h (omega arith)
        later in
    (u, e ∙ below)

length-shell_stream :
    (ps : List Part) (code : ℕ) (tail : Bytes) → length ps < length (shell_stream ps code tail)
length-shell_stream [] code tail = omega arith
length-shell_stream (p ∷ ps) code tail = omega (
  arith,
  length-shell_stream ps code tail,
  length-append (part_bytes p) (shell_stream ps code tail),
)

length-carried :
    (c : MessageCommand) (payload : Bytes) → length (carried c payload) ≤ length payload
length-carried write payload = omega arith
length-carried _ payload = omega arith

pub length-bytes_of : (ms : List Message) → length (bytes_of ms) ≤ total_bytes (received ms)
unfolding total_bytes
length-bytes_of [] = omega arith
length-bytes_of (m ∷ ms) = omega (
  arith,
  length-bytes_of ms,
  length-carried m.header.command m.payload,
  length-append (carried m.header.command m.payload) (bytes_of ms),
)

-- What the caller is told about the exit code and the diagnostics of a command.
abbrev pub IsExit : ℕ → Bytes → Result RustAdbError (Unit {0}) → Type 0
IsExit code diagnostics result =
    ((code ≡ 0) × (result ≡ ok tt))
    ⊎ ((0 < code)
        × (result
            ≡ err (
                request_failed (
                  bytes "remote command exited "
                  ++ (to_decimal code
                      ++ (bytes ": " ++ from_utf8_lossy (take (64 * 1024) diagnostics)))))))

exit_result-IsExit :
    (code : ℕ) (diagnostics : Bytes)
    → IsExit code diagnostics (exit_result code (take (64 * 1024) diagnostics))
unfolding exit_result
exit_result-IsExit zero diagnostics = inl (refl, refl)
exit_result-IsExit (suc n) diagnostics = inr (omega arith, ground arith)

-- The device sends parts of at most 1 MiB, then the exit code, and the caller's sends succeed.
-- However the device cuts that stream into WRTE packets, with OKAY packets between them, the
-- command runs to its end: the output is the bytes of the output parts in their order, without
-- any of the diagnostics; it succeeds if the code is 0, and else fails with an error whose text has
-- the code and the first 64 KiB of the diagnostics.
pub shell_command-shell_stream :
    (ps : List Part) (code : ℕ) (tail : Bytes) (local_id remote_id : ℕ)
    (packets sent : List Message)
    → All IsPart ps
    → All IsData packets
    → bytes_of packets ≡ shell_stream ps code tail
    → (u : AdbSession) × ((result : Result RustAdbError (Unit {0})) × ((shell_command
              (session local_id remote_id (received packets) sent)
            ≡ (u, output_of ps, ended result))
          × IsExit code (diagnostics_of ps) result))
unfolding shell_command
shell_command-shell_stream ps code tail local_id remote_id packets sent parts carry e =
    let s = session local_id remote_id (received packets) sent in
    let source : Source s [] (shell_stream ps code tail) = record {
      local_id = local_id;
      remote_id = remote_id;
      packets = packets;
      sent = sent;
      is = refl;
      carry = carry;
      bytes_left = sym e;
    } in
    let (u, ran) =
      shell_loop-stream ps (suc (total_bytes (received packets))) s [] [] [] code tail parts
        (omega (arith, length-shell_stream ps code tail, ap length e, length-bytes_of packets))
        source in
    (
      u,
      (
        exit_result code (take (64 * 1024) (diagnostics_of ps)),
        (
          ran
              ∙ ap (λ errors. (u, output_of ps, ended (exit_result code errors)))
                  (errors_of-take ps [] (omega arith)),
          exit_result-IsExit code (diagnostics_of ps),
        ),
      ),
    )
