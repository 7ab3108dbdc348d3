-- ===== src/Cli/Daemon/Handle/Answers.antt =====
-- What a client gets for its requests, and what the requests do to the device.
use adb_client.Base.{
  if◌then◌else◌, Bool-cases, le→ltb, length, ◌*◌, ◌≤◌, ◌≡◌, refl, sym, ap, ◌∙◌, inl, inr, true,
  false, ◌||◌, [], ◌++◌, arith,
}
use adb_client.Base.Utf8.{is_utf8}
use adb_client.Base.Bytes.{Bytes, bytes, strip_prefix}
use adb_client.Base.Outcome.{Result, ok, err}
use adb_client.Base.Words.{to_be_bytes, from_be_bytes-to_be_bytes}
use adb_client.Cli.Daemon.Input.Refill.{read_exact-append, read_exact_all}
use adb_client.Cli.Daemon.Request.{Operation, Refusal, parse_request}
use adb_client.Cli.Daemon.Handle.{
  Device, Host, World, Answer, streamed, output, failed, perform, is_shut_down, refusal_text,
  run_request, handle_sized, handle, reply_bytes, request_bytes, read_text, read_answer, ask,
}

module _ {σ : Type 0} (host : Host) (d : Device σ) where
  handle_sized-request :
      (request : Bytes) (w : World σ)
      → length request ≤ 1024 * 1024
      → is_utf8 request ≡ true
      → handle_sized host d (length request) request w ≡ run_request host d request [] w
  unfolding handle_sized
  handle_sized-request request w fits text =
      rw (le→ltb (1024 * 1024) (length request) fits, read_exact_all request, text) refl

  -- A request that fits is what `handle` runs.
  handle-request_bytes :
      (request : Bytes) (w : World σ)
      → length request ≤ 1024 * 1024
      → is_utf8 request ≡ true
      → handle host d (request_bytes request) w ≡ run_request host d request [] w
  unfolding handle request_bytes
  handle-request_bytes request w fits text =
      let n = length request in
      let size = from_be_bytes-to_be_bytes n (omega arith) in
      rw (read_exact-append 4 (to_be_bytes n) request refl, handle)
        (ap (λ k. handle_sized host d k request w) size ∙ handle_sized-request request w fits text)

  -- A reply of the daemon that is no stream, as the client reads it.
  abbrev pub seen : Answer → Result Bytes Bytes
  seen (streamed reply) = read_text reply
  seen (output reply) = ok reply
  seen (failed message) = err (bytes "direct USB daemon: " ++ (message ++ bytes "\n"))

  read_answer-reply_bytes :
      (reply : Answer)
      → is_utf8 (reply_bytes reply) ≡ true
      → read_answer host.not_text (reply_bytes reply) ≡ seen reply
  unfolding read_answer reply_bytes read_text strip_prefix
  read_answer-reply_bytes (streamed reply) h = rw h refl
  read_answer-reply_bytes (output reply) h = rw h refl
  read_answer-reply_bytes (failed message) h = rw h refl

  -- What the client gets for a reply: one that is not UTF-8 is an error.
  abbrev pub received : Answer → Result Bytes Bytes
  received reply = if is_utf8 (reply_bytes reply) then seen reply else err host.not_text

  read_answer_not_text :
      (response : Bytes)
      → is_utf8 response ≡ false
      → read_answer host.not_text response ≡ err host.not_text
  unfolding read_answer
  read_answer_not_text response other = rw other refl

  read_answer-received :
      (reply : Answer) → read_answer host.not_text (reply_bytes reply) ≡ received reply
  read_answer-received reply = elim (Bool-cases (is_utf8 (reply_bytes reply))) [
    | inl text ↦ read_answer-reply_bytes reply text ∙ sym (rw text refl)
    | inr other ↦ read_answer_not_text (reply_bytes reply) other ∙ sym (rw other refl)
  ]

  -- One request and its reply, from what `run_request` does.
  ask-run_request :
      (request : Bytes) (w v : World σ) (reply : Answer)
      → length request ≤ 1024 * 1024
      → is_utf8 request ≡ true
      → run_request host d request [] w ≡ (reply, v)
      → is_utf8 (reply_bytes reply) ≡ true
      → ask host d request w ≡ (seen reply, v)
  unfolding ask
  ask-run_request request w v reply fits text e shown =
      ap (λ done. (read_answer host.not_text (reply_bytes done.0), done.1))
        (handle-request_bytes request w fits text ∙ e)
      ∙ ap (λ answer. (answer, v)) (read_answer-reply_bytes reply shown)

  run_request-perform :
      (request : Bytes) (operation : Operation) (w : World σ)
      → parse_request request ≡ ok operation
      → run_request host d request [] w ≡ (
        (perform host d operation [] w.device).0,
        record {
          device = (perform host d operation [] w.device).1;
          shutdown_requested = is_shut_down host d operation || w.shutdown_requested;
        },
      )
  unfolding run_request
  run_request-perform request operation w e = rw (e, run_request) refl

  -- A request for an operation, one that fits and whose reply is text, has exactly the effects of
  -- that operation on the device, and the client gets its output, or its error behind a prefix.
  pub ask-perform :
      (request : Bytes) (operation : Operation) (w : World σ)
      → length request ≤ 1024 * 1024
      → is_utf8 request ≡ true
      → parse_request request ≡ ok operation
      → is_utf8 (reply_bytes (perform host d operation [] w.device).0) ≡ true
      → ask host d request w ≡ (
        seen (perform host d operation [] w.device).0,
        record {
          device = (perform host d operation [] w.device).1;
          shutdown_requested = is_shut_down host d operation || w.shutdown_requested;
        },
      )
  ask-perform request operation w fits text parsed shown =
      ask-run_request request w _ _ fits text (run_request-perform request operation w parsed) shown

  -- The same, whatever the bytes of the reply are.
  pub ask-received :
      (request : Bytes) (operation : Operation) (w : World σ)
      → length request ≤ 1024 * 1024
      → is_utf8 request ≡ true
      → parse_request request ≡ ok operation
      → ask host d request w ≡ (
        received (perform host d operation [] w.device).0,
        record {
          device = (perform host d operation [] w.device).1;
          shutdown_requested = is_shut_down host d operation || w.shutdown_requested;
        },
      )
  unfolding ask
  ask-received request operation w fits text parsed =
      let later : World σ = record {
        device = (perform host d operation [] w.device).1;
        shutdown_requested = is_shut_down host d operation || w.shutdown_requested;
      } in
      ap (λ done. (read_answer host.not_text (reply_bytes done.0), done.1))
        (handle-request_bytes request w fits text ∙ run_request-perform request operation w parsed)
      ∙ ap (λ answer. (answer, later))
          (read_answer-received (perform host d operation [] w.device).0)

  run_request_refused :
      (request : Bytes) (refusal : Refusal) (w : World σ)
      → parse_request request ≡ err refusal
      → run_request host d request [] w ≡ (failed (refusal_text host d refusal), w)
  unfolding run_request
  run_request_refused request refusal w e = rw (e, run_request) refl

  -- A request that is refused does nothing to the device, and the client gets the reason.
  pub ask_refused :
      (request : Bytes) (refusal : Refusal) (w : World σ)
      → length request ≤ 1024 * 1024
      → is_utf8 request ≡ true
      → parse_request request ≡ err refusal
      → is_utf8 (reply_bytes (failed (refusal_text host d refusal))) ≡ true
      → ask host d request w ≡ (seen (failed (refusal_text host d refusal)), w)
  ask_refused request refusal w fits text parsed shown =
      ask-run_request request w w _ fits text (run_request_refused request refusal w parsed) shown
