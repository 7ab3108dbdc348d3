-- ===== src/Cli/Daemon/Handle.antt =====
-- `handle` of adb_cli/src/direct_daemon.rs: the answer to one connection. The operations of the
-- device, which adb_client has, and the local files are parameters of the model.
pub mod Answers
use adb_client.Base.{
  ltb, if◌then◌else◌, length, concat, ℕ, suc, ◌+◌, ◌-◌, ◌*◌, ap, Bool, true, false, not, ◌&&◌, ◌||◌,
  none, some, List, [], ◌∷◌, ◌++◌,
}
use adb_client.Base.Bytes.{Bytes, bytes, bytes_eq, strip_prefix}
use adb_client.Base.Outcome.{Result, ok, err, ◌>>=◌}
use adb_client.Base.Utf8.{from_utf8_lossy, is_utf8}
use adb_client.Base.White.{trim, lines}
use adb_client.Base.Words.{to_be_bytes, from_be_bytes}
use adb_client.Cli.Daemon.Input.{FramedReader, new, read_exact, input_stream_operation}
use adb_client.Cli.Daemon.Request.{
  Operation, shell, exec, pull, install, uninstall, ping, shut_down, push, push_stream, reverse,
  reverse_remove, reverse_list, reverse_remove_all, forward, forward_list, forward_remove,
  forward_remove_all, root, remount, tcpip, device_info, Refusal, because, bad_port, parse_request,
}
use adb_client.Cli.Daemon.Stream.{Done, StreamError, stream_operation}

-- The dispatched device in a state: what each operation returns, and the state behind it. The
-- operations with output return the pieces that they write.
pub record Device (σ : Type 0) : Type 0 where
  pub shell_command : Bytes → σ → List Bytes × Done × σ
  pub exec_out : Bytes → σ → List Bytes × Done × σ
  pub pull_file : Bytes → σ → List Bytes × Done × σ
  pub push_content : Bytes → Bytes → σ → Done × σ
  pub push_input : FramedReader → Bytes → σ → Done × σ
  pub reverse_forward : Bytes → Bytes → σ → Done × σ
  pub remove_reverse_forward : Bytes → σ → Done × σ
  pub reverse_routes : σ → Result Bytes (List (Bytes × Bytes))
  pub remove_all_reverse_routes : σ → Done × σ
  pub serve_forward_ready : Bytes → Bytes → σ → Done × σ
  pub forward_routes : σ → List (Bytes × Bytes)
  pub remove_forward : Bytes → σ → Bool × σ
  pub remove_all_forwards : σ → σ
  pub restart_as_root : σ → Done × σ
  pub remount_partitions : σ → Done × σ
  pub listen_on_port : ℕ → σ → Done × σ

-- The local files by path, the name of the temporary file on the device, and the texts of Rust's
-- own errors: for a short read, for a text that is not UTF-8, for a port.
pub record Host : Type 0 where
  pub open_file : Bytes → Result Bytes Bytes
  pub remote : Bytes
  pub short_input : Bytes
  pub not_text : Bytes
  pub no_port : Bytes

pub record World (σ : Type 0) : Type 0 where
  pub device : σ
  pub shutdown_requested : Bool

-- A reply that `handle` has written itself, an output for a good reply, or an error.
pub data Answer : Type 0 where
  streamed output failed : Bytes → Answer

unfoldable pub answer : Done → Bytes → Answer
answer (ok _) text = output text
answer (err message) text = failed message

-- `String::from_utf8_lossy(&output).lines().any(|line| line.trim() == "Success")`
unfoldable pub any_success : List Bytes → Bool
any_success [] = false
any_success (line ∷ rest) = bytes_eq (trim line) (bytes "Success") || any_success rest

unfoldable pub has_success : Bytes → Bool
has_success text = any_success (lines (from_utf8_lossy text))

unfoldable pub answer_success : Done → Bytes → Answer
answer_success (err message) text = failed message
answer_success (ok _) text = if has_success text then output text else failed (from_utf8_lossy text)

unfoldable pub user_flag : Bytes → Bytes
user_flag user = if bytes_eq user [] then [] else bytes " --user " ++ user

unfoldable pub route_lines : List (Bytes × Bytes) → Bytes
route_lines [] = []
route_lines ((from, to) ∷ routes) = from ++ b' ' ∷ (to ++ b'\n' ∷ route_lines routes)

unfoldable pub pm_install : Bytes → Bytes → Bytes → Bytes
pm_install flags user remote = bytes "pm install " ++ (flags ++ (user_flag user ++ b' ' ∷ remote))

unfoldable pub pm_uninstall : Bytes → Bytes → Bytes → Bytes
pm_uninstall keep user name = bytes "pm uninstall " ++ (keep ++ (user_flag user ++ b' ' ∷ name))

abbrev pub info_properties : List Bytes
info_properties = bytes "ro.serialno" ∷ bytes "ro.product.model" ∷ bytes "ro.build.product" ∷ []

module _ {σ : Type 0} (host : Host) (d : Device σ) where
  -- The closure of `INSTALL`: the output of the package manager, how it ended, the state.
  unfoldable pub push_and_install : Bytes → Bytes → Bytes → σ → Bytes × Done × σ
  push_and_install source flags user s = elim (host.open_file source) [
    | err e ↦ ([], err e, s)
    | ok content ↦
        let (pushed, s1) = d.push_content content host.remote s in
        let (writes, result, s2) = d.shell_command (pm_install flags user host.remote) s1 in
        elim pushed [ err e ↦ ([], err e, s1) | ok _ ↦ (concat writes, result, s2) ]
  ]

  unfoldable pub install_apk : Bytes → Bytes → Bytes → σ → Answer × σ
  install_apk source flags user s =
      let (text, result, s1) = push_and_install source flags user s in
      let (_, _, s2) = d.shell_command (bytes "rm -f " ++ host.remote) s1 in
      (answer_success result text, s2)

  -- `DEVICE_INFO`, for the info_properties that are left; `text` is the output so far.
  unfoldable pub read_properties : List Bytes → Bytes → σ → Answer × σ
  read_properties [] text s = (output text, s)
  read_properties (property ∷ rest) text s =
      let (writes, result, s1) = d.shell_command (bytes "getprop " ++ property) s in
      let value = concat writes in
      let others = read_properties rest (text ++ (trim value ++ b'\n' ∷ [])) s1 in
      elim result [
        | err e ↦ (failed e, s1)
        | ok _ ↦ if is_utf8 value then others else (failed host.not_text, s1)
      ]

  unfoldable pub push_local : Bytes → Bytes → σ → Answer × σ
  push_local source destination s = elim (host.open_file source) [
    | err e ↦ (failed e, s)
    | ok content ↦ let (result, s1) = d.push_content content destination s in (answer result [], s1)
  ]

  abbrev pub stream_of : List Bytes × Done × σ → Answer × σ
  stream_of (writes, result, s) = (streamed (stream_operation writes result), s)

  abbrev pub answer_of : Done × σ → Answer × σ
  answer_of (result, s) = (answer result [], s)

  abbrev pub list_of : Result Bytes (List (Bytes × Bytes)) → σ → Answer × σ
  list_of (ok routes) s = (output (route_lines routes), s)
  list_of (err e) s = (failed e, s)

  -- One operation on the device. `input` is what the client sends behind its request.
  unfoldable pub perform : Operation → Bytes → σ → Answer × σ
  perform (shell command) input s = stream_of (d.shell_command command s)
  perform (exec command) input s = stream_of (d.exec_out command s)
  perform (pull path) input s = stream_of (d.pull_file path s)
  perform (install source flags user) input s = install_apk source flags user s
  perform (uninstall keep user name) input s =
      let (writes, result, s1) = d.shell_command (pm_uninstall keep user name) s in
      (answer_success result (concat writes), s1)
  perform ping input s = (output [], s)
  perform shut_down input s = (output [], s)
  perform (push source destination) input s = push_local source destination s
  perform (push_stream destination) input s =
      let (result, s1) = d.push_input (new input) destination s in
      (streamed (input_stream_operation result), s1)
  perform (reverse remote near) input s = answer_of (d.reverse_forward remote near s)
  perform (reverse_remove remote) input s = answer_of (d.remove_reverse_forward remote s)
  perform reverse_list input s = list_of (d.reverse_routes s) s
  perform reverse_remove_all input s = answer_of (d.remove_all_reverse_routes s)
  perform (forward near remote) input s = answer_of (d.serve_forward_ready near remote s)
  perform forward_list input s = (output (route_lines (d.forward_routes s)), s)
  perform (forward_remove near) input s =
      let (there, s1) = d.remove_forward near s in
      (if there then output [] else failed (bytes "forward rule not found"), s1)
  perform forward_remove_all input s = (output [], d.remove_all_forwards s)
  perform root input s = answer_of (d.restart_as_root s)
  perform remount input s = answer_of (d.remount_partitions s)
  perform (tcpip port) input s = answer_of (d.listen_on_port port s)
  perform device_info input s = read_properties info_properties [] s

  unfoldable pub is_shut_down : Operation → Bool
  is_shut_down shut_down = true
  is_shut_down _ = false

  unfoldable pub refusal_text : Refusal → Bytes
  refusal_text (because message) = message
  refusal_text bad_port = host.no_port

  unfoldable pub run_request : Bytes → Bytes → World σ → Answer × World σ
  run_request request input w = elim (parse_request request) [
    | err refusal ↦ (failed (refusal_text refusal), w)
    | ok operation ↦
        let (reply, s) = perform operation input w.device in
        (
          reply,
          record {
            device = s;
            shutdown_requested = is_shut_down operation || w.shutdown_requested;
          },
        )
  ]

  unfoldable pub handle_sized : ℕ → Bytes → World σ → Answer × World σ
  handle_sized size input w =
      if ltb (1024 * 1024) size
      then (failed (bytes "request exceeds 1 MiB"), w)
      else (elim (read_exact size input) [
        | err e ↦ (failed host.short_input, w)
        | ok (request, rest) ↦
            let done = run_request request rest w in
            if is_utf8 request then done else (failed host.not_text, w)
      ])

  unfoldable pub handle : Bytes → World σ → Answer × World σ
  handle input w = elim (read_exact 4 input) [
    | err e ↦ (failed host.short_input, w)
    | ok (size, rest) ↦ handle_sized (from_be_bytes size) rest w
  ]

-- What stands on the connection at the end: `run` writes the error of `handle`.
unfoldable pub reply_bytes : Answer → Bytes
reply_bytes (streamed text) = text
reply_bytes (output text) = bytes "OK\n" ++ text
reply_bytes (failed message) = bytes "ERR\t" ++ (message ++ bytes "\n")

-- `daemon_should_continue`
unfoldable pub daemon_should_continue : Bool → Bool → Bool
daemon_should_continue device_alive shutdown_requested = device_alive && not shutdown_requested

-- `request_existing`: what the client sends, and how it reads the reply. `not_text` is Rust's error
-- for a reply that is not UTF-8.
unfoldable pub request_bytes : Bytes → Bytes
request_bytes request = to_be_bytes (length request) ++ request

unfoldable pub read_text : Bytes → Result Bytes Bytes
read_text response = elim (strip_prefix (bytes "OK\n") response) [
  | some text ↦ ok text
  | none ↦ elim (strip_prefix (bytes "ERR\t") response) [
    | some message ↦ err (bytes "direct USB daemon: " ++ message)
    | none ↦ err (bytes "invalid daemon response: " ++ response)
  ]
]

unfoldable pub read_answer : Bytes → Bytes → Result Bytes Bytes
read_answer not_text response = if is_utf8 response then read_text response else err not_text

-- One request from the client to the daemon and back.
unfoldable pub ask : {σ : Type 0} → Host → Device σ → Bytes → World σ → Result Bytes Bytes × World σ
ask host d request w =
    let (reply, v) = handle host d (request_bytes request) w in
    (read_answer host.not_text (reply_bytes reply), v)
