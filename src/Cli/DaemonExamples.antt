-- ===== src/Cli/DaemonExamples.antt =====
-- The theorems about the daemon and its requests at concrete inputs.
use adb_client.Base.{
  length, concat, suc, ◌+◌, ◌-◌, ◌*◌, ◌/◌, ◌≤◌, min, ◌≡◌, refl, ap, false, not, Option, some, List,
  [], ◌∷◌, ◌++◌, arith,
}
use adb_client.Base.Bytes.{Bytes, bytes, bytes_eq}
use adb_client.Base.Outcome.{ok, err}
use adb_client.Base.Split.{contains, contains_any}
use adb_client.Base.Utf8.{from_utf8_lossy, is_utf8}
use adb_client.Base.White.{trim, trim_front, trim_back, white_len, lines}
use adb_client.Cli.Daemon.Handle.Answers.{received}
use adb_client.Cli.Daemon.Handle.{
  Device, Host, World, answer_success, any_success, has_success, user_flag, pm_install,
  push_and_install, install_apk, reply_bytes, ask,
}
use adb_client.Cli.Daemon.Input.{FramedReader, new, read_many}
use adb_client.Cli.Daemon.Input.Reading.{read_many-sent}
use adb_client.Cli.Daemon.Input.Refill.{sent}
use adb_client.Cli.Daemon.Stream.{refused, decode_stream, stream_operation, terminal}
use adb_client.Cli.Daemon.Stream.RoundTrip.{decode_stream-stream_operation}
use adb_client.Cli.Direct.Asked.{ask-install_text}
use adb_client.Cli.Direct.{join, install_text}
use adb_client.Cli.Requests.Installs.{install_arguments}
use adb_client.Cli.Requests.{
  starts_with_dash, all_digits, bad_user, InstallRequest, install_kind, check_install, install_loop,
  parse_install_request,
}

abbrev request : InstallRequest
request = record {
  flags = bytes "-r" ∷ bytes "-g" ∷ [];
  user = some (bytes "10");
  source = bytes "/a b.apk";
}

abbrev outputs : List Bytes
outputs = bytes "ab" ∷ [] ∷ (0 ∷ 255 ∷ []) ∷ []

decode_stream-stream_operation_example :
    decode_stream (stream_operation outputs (err (bytes "gone")))
    ≡ (b'a' ∷ b'b' ∷ 0 ∷ 255 ∷ [], err (refused (bytes "ERR\tgone\n")))
unfolding is_utf8 from_utf8_lossy terminal bytes_eq
decode_stream-stream_operation_example =
    decode_stream-stream_operation outputs (err (bytes "gone")) refl

abbrev upload : List Bytes
upload = bytes "first" ∷ (0 ∷ 255 ∷ 42 ∷ []) ∷ []

read_many-sent_example :
    (got : Bytes × FramedReader) × ((later : Bytes) × ((read_many
            (3 ∷ 0 ∷ 100 ∷ 1 ∷ [])
            (new (sent upload []))
          ≡ ok got)
        × ((concat upload ≡ got.0 ++ later)
            × (length (concat upload) ≤ 3 → got.0 ≡ concat upload))))
read_many-sent_example = read_many-sent upload [] (3 ∷ 0 ∷ 100 ∷ 1 ∷ []) (omega arith)

-- A device whose state is the commands that it got, and whose package manager has success.
abbrev test_device : Device (List Bytes)
test_device = record {
  shell_command = λ command s. (bytes "Success\n" ∷ [], ok tt, s ++ command ∷ []);
  exec_out = λ command s. ([], err (bytes "closed"), s ++ command ∷ []);
  pull_file = λ path s. (path ∷ [], ok tt, s);
  push_content = λ content path s. (ok tt, s ++ path ∷ []);
  push_input = λ input path s. (ok tt, s ++ path ∷ []);
  reverse_forward = λ remote near s. (ok tt, s);
  remove_reverse_forward = λ remote s. (err (bytes "no route"), s);
  reverse_routes = λ s. ok [];
  remove_all_reverse_routes = λ s. (ok tt, s);
  serve_forward_ready = λ near remote s. (ok tt, s);
  forward_routes = λ s. [];
  remove_forward = λ near s. (false, s);
  remove_all_forwards = λ s. s;
  restart_as_root = λ s. (ok tt, s);
  remount_partitions = λ s. (ok tt, s);
  listen_on_port = λ port s. (ok tt, s);
}

-- The same device, where every shell command fails.
abbrev failing_device : Device (List Bytes)
failing_device = record test_device {
  shell_command = λ command s. ([], err (bytes "exit 1"), s ++ command ∷ []);
}

abbrev test_host : Host
test_host = record {
  open_file = λ path. ok (bytes "apk");
  remote = bytes "/data/local/tmp/x.apk";
  short_input = bytes "short";
  not_text = bytes "not text";
  no_port = bytes "no port";
}

abbrev idle : World (List Bytes)
idle = record { device = []; shutdown_requested = false }

ask-install_text_example :
    let run =
      install_apk test_host test_device (bytes "/a b.apk") (bytes "-r -g") (bytes "10") [] in
    ask test_host test_device (install_text request) idle
    ≡ (received test_host test_device run.0, record { device = run.1; shutdown_requested = false })
unfolding parse_install_request install_loop install_kind check_install starts_with_dash bad_user
    all_digits contains_any contains install_text join install_apk push_and_install pm_install
    user_flag answer_success has_success any_success trim trim_front trim_back white_len lines
    adb_client.Base.White.whole_lines adb_client.Base.Bytes.split adb_client.Base.Bytes.cons_head
    adb_client.Base.White.strip_return adb_client.Base.White.is_empty reply_bytes is_utf8
    from_utf8_lossy bytes_eq
ask-install_text_example =
    ask-install_text test_host test_device (install_arguments request) request idle refl
      (omega arith) refl
