-- ===== src/Cli/Direct/Asked.antt =====
-- The commands of the program and the daemon together: what a command does to the device, and
-- what the program gets back.
use adb_client.Base.{
  length, concat, ℕ, ◌*◌, ◌≤◌, ◌≡◌, refl, ap, ◌∙◌, true, List, [], ◌∷◌, ◌++◌, map, arith,
}
use adb_client.Base.Bytes.{Bytes, bytes, bytes_eq, strip_prefix, split_once, cons_front}
use adb_client.Base.Options.{unwrap_or}
use adb_client.Base.Outcome.{ok, err}
use adb_client.Base.Split.{Lacks, split-cons, split-append}
use adb_client.Base.Utf8.{from_utf8_lossy, is_utf8}
use adb_client.Base.Words.{to_be_bytes}
use adb_client.Cli.Daemon.Handle.Answers.{seen, received, ask-received, ask-perform, ask_refused}
use adb_client.Cli.Daemon.Handle.{
  Device, Host, World, failed, install_apk, perform, is_shut_down, refusal_text, reply_bytes,
  read_text, ask,
}
use adb_client.Cli.Daemon.Request.{
  shell, because, behind_tab, next_field, reject_extra_fields, parse_two, parse_command,
  parse_request,
}
use adb_client.Cli.Daemon.Stream.{stream_operation, terminal, write}
use adb_client.Cli.Direct.Sent.{
  parse_request-fields, parse_request-install_text, parse_request-tcpip_text,
}
use adb_client.Cli.Direct.{join, install_text, tcpip_text}
use adb_client.Cli.Requests.{InstallRequest, parse_install_request}

-- What the daemon says to a request with too many fields.
abbrev pub extra_fields : Bytes
extra_fields = bytes "invalid request: unexpected extra fields (paths must not contain tabs)"

push_extra :
    (source destination extra : Bytes)
    → Lacks b'\t' source
    → Lacks b'\t' destination
    → parse_request (bytes "PUSH\t" ++ (source ++ b'\t' ∷ (destination ++ b'\t' ∷ extra)))
      ≡ err (because extra_fields)
unfolding parse_command parse_two next_field reject_extra_fields bytes_eq
push_extra source destination extra s t =
    let (part, (parts, e)) = split-cons b'\t' extra in
    let fields =
      split-append b'\t' (bytes "PUSH") _ (omega arith)
      ∙ ap (λ fs. bytes "PUSH" ∷ fs)
          (split-append b'\t' source _ s
            ∙ ap (λ fs. source ∷ fs)
                (split-append b'\t' destination extra t ∙ ap (λ fs. destination ∷ fs) e)) in
    parse_request-fields (bytes "PUSH") _ _ fields

parse_request-shell :
    (command : Bytes) → parse_request (bytes "SHELL\t" ++ command) ≡ ok (shell command)
unfolding parse_command behind_tab split_once strip_prefix cons_front bytes_eq
parse_request-shell command =
    parse_request-fields (bytes "SHELL") (bytes "SHELL\t" ++ command) _
      (split-append b'\t' (bytes "SHELL") command (omega arith))

module _ {σ : Type 0} (host : Host) (d : Device σ) where
  -- An install request that the client accepts, and that is text of at most 1 MiB, reaches the
  -- device as one run of the install with the caller's source, flags and user. The client gets
  -- that run's reply, and an error in its place where the reply is not UTF-8.
  pub ask-install_text :
      (args : List Bytes) (r : InstallRequest) (w : World σ)
      → parse_install_request args ≡ ok r
      → length (install_text r) ≤ 1024 * 1024
      → is_utf8 (install_text r) ≡ true
      → let run = install_apk host d r.source (join r.flags) (unwrap_or [] r.user) w.device in
        ask host d (install_text r) w ≡ (
          received host d run.0,
          record { device = run.1; shutdown_requested = w.shutdown_requested },
        )
  unfolding perform is_shut_down
  ask-install_text args r w e fits text =
      ask-received host d (install_text r) _ w fits text (parse_request-install_text args r e).0

  -- The client is told that every command for a TCP port is unsupported, and the device is left
  -- as it is.
  pub ask-tcpip_text :
      (port : ℕ) (w : World σ)
      → length (tcpip_text port) ≤ 1024 * 1024
      → is_utf8 (tcpip_text port) ≡ true
      → let reason = bytes "unsupported daemon request: " ++ tcpip_text port in
        is_utf8 (reply_bytes (failed reason)) ≡ true
        → ask host d (tcpip_text port) w ≡ (seen host d (failed reason), w)
  unfolding refusal_text
  ask-tcpip_text port w fits text shown =
      ask_refused host d (tcpip_text port) _ w fits text (parse_request-tcpip_text port) shown

  -- A request to push that has a further tab is refused before the device does anything.
  pub ask-push_extra :
      (source destination extra : Bytes) (w : World σ)
      → Lacks b'\t' source
      → Lacks b'\t' destination
      → let request = bytes "PUSH\t" ++ (source ++ b'\t' ∷ (destination ++ b'\t' ∷ extra)) in
        length request ≤ 1024 * 1024
        → is_utf8 request ≡ true
        → ask host d request w
          ≡ (err (bytes "direct USB daemon: " ++ (extra_fields ++ bytes "\n")), w)
  unfolding refusal_text reply_bytes is_utf8 from_utf8_lossy bytes_eq
  ask-push_extra source destination extra w s t fits text =
      ask_refused host d _ _ w fits text (push_extra source destination extra s t) refl

  -- Where a shell command is asked for without the stream decoder, as for a reboot, the client
  -- gets a good reply also when the command fails: the error is at the end of the text.
  pub ask-shell :
      (command : Bytes) (w : World σ)
      → let request = bytes "SHELL\t" ++ command in
        length request ≤ 1024 * 1024
        → is_utf8 request ≡ true
        → let (writes, result, s) = d.shell_command command w.device in
          is_utf8 (stream_operation writes result) ≡ true
          → ask host d request w ≡ (
            ok (concat (map write writes) ++ (to_be_bytes 0 ++ terminal result)),
            record { device = s; shutdown_requested = w.shutdown_requested },
          )
  unfolding perform is_shut_down reply_bytes read_text stream_operation strip_prefix
  ask-shell command w fits text shown =
      ask-perform host d _ _ w fits text (parse_request-shell command) shown
