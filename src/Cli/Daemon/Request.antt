-- ===== src/Cli/Daemon/Request.antt =====
-- The requests of adb_cli/src/direct_daemon.rs as texts: tab-separated fields, the first of which
-- is the command. `parse_request` is the part of `handle` that reads the fields and their checks.
use adb_client.Base.{
  ◌==◌, if◌then◌else◌, ℕ, Bool, true, not, ◌&&◌, ◌||◌, none, some, List, [], ◌∷◌, ◌++◌,
}
use adb_client.Base.Bytes.{Bytes, bytes, bytes_eq, split, split_once}
use adb_client.Base.Decimal.{parse_unsigned}
use adb_client.Base.Outcome.{Result, ok, err, ◌>>=◌}
use adb_client.Base.White.{split_whitespace}
use adb_client.Cli.Requests.{all_digits, is_package, is_one_of}

-- What a request asks for.
pub data Operation : Type 0 where
  shell exec pull : Bytes → Operation
  install : Bytes → Bytes → Bytes → Operation
  uninstall : Bytes → Bytes → Bytes → Operation
  ping shut_down : Operation
  push : Bytes → Bytes → Operation
  push_stream : Bytes → Operation
  reverse : Bytes → Bytes → Operation
  reverse_remove : Bytes → Operation
  reverse_list reverse_remove_all : Operation
  forward : Bytes → Bytes → Operation
  forward_list : Operation
  forward_remove : Bytes → Operation
  forward_remove_all root remount : Operation
  tcpip : ℕ → Operation
  device_info : Operation

-- Why there is no operation: the program's own text, or the error of `parse` on a port.
pub data Refusal : Type 0 where
  because : Bytes → Refusal
  bad_port : Refusal

-- The text behind the first tab.
unfoldable pub behind_tab : Bytes → Bytes → Result Refusal Bytes
behind_tab request message = elim (split_once (bytes "\t") request) [
  | none ↦ err (because message)
  | some (front, back) ↦ ok back
]

-- `fields.next().ok_or(message)?`
unfoldable pub next_field : List Bytes → Bytes → Result Refusal (Bytes × List Bytes)
next_field [] message = err (because message)
next_field (field ∷ fields) message = ok (field, fields)

-- `fields.next().unwrap_or("")`
unfoldable pub next_or_empty : List Bytes → Bytes × List Bytes
next_or_empty [] = ([], [])
next_or_empty (field ∷ fields) = (field, fields)

unfoldable pub reject_extra_fields : List Bytes → Operation → Result Refusal Operation
reject_extra_fields [] operation = ok operation
reject_extra_fields (field ∷ fields) operation =
    err (because (bytes "invalid request: unexpected extra fields (paths must not contain tabs)"))

unfoldable pub all_flags : List Bytes → Bool
all_flags [] = true
all_flags (flag ∷ flags) =
    is_one_of flag (bytes "-r" ∷ bytes "-g" ∷ bytes "-d" ∷ []) && all_flags flags

-- A user may be left out.
unfoldable pub good_user : Bytes → Bool
good_user user = bytes_eq user [] || all_digits user

unfoldable pub check_install : Bytes → Bytes → Bytes → Result Refusal Operation
check_install source flags user =
    if not (all_flags (split_whitespace flags))
    then err (because (bytes "unsupported install options"))
    else if not (good_user user)
    then err (because (bytes "invalid install user"))
    else ok (install source flags user)

unfoldable pub parse_install : List Bytes → Result Refusal Operation
parse_install fields = do
  (source, behind) ← next_field fields (bytes "missing APK")
  (let (flags, behind_flags) = next_or_empty behind in
      let (user, extra) = next_or_empty behind_flags in
      reject_extra_fields extra ping >>= λ _. check_install source flags user)

unfoldable pub check_uninstall : Bytes → Bytes → Bytes → Result Refusal Operation
check_uninstall keep user name =
    if not (is_one_of keep ([] ∷ bytes "-k" ∷ [])) || bytes_eq name [] || not (is_package name)
    then err (because (bytes "invalid uninstall request"))
    else if not (good_user user)
    then err (because (bytes "invalid uninstall user"))
    else ok (uninstall keep user name)

unfoldable pub parse_uninstall : List Bytes → Result Refusal Operation
parse_uninstall fields = do
  (keep, behind) ← next_field fields (bytes "missing uninstall option")
  (user, behind_user) ← next_field behind (bytes "missing uninstall user")
  (name, extra) ← next_field behind_user (bytes "missing package")
  _ ← reject_extra_fields extra ping
  check_uninstall keep user name

unfoldable pub parse_one : Bytes → (Bytes → Operation) → List Bytes → Result Refusal Operation
parse_one message make fields = do
  (only, extra) ← next_field fields message
  reject_extra_fields extra (make only)

unfoldable pub parse_two :
    Bytes → Bytes → (Bytes → Bytes → Operation) → List Bytes → Result Refusal Operation
parse_two message message' make fields = do
  (first, behind) ← next_field fields message
  (second, extra) ← next_field behind message'
  reject_extra_fields extra (make first second)

unfoldable pub parse_tcpip : List Bytes → Result Refusal Operation
parse_tcpip fields = do
  (text, extra) ← next_field fields (bytes "missing TCP port")
  elim (parse_unsigned 16 text) [
    | none ↦ err bad_port
    | some port ↦ reject_extra_fields extra ping >>= λ _.
        if port == 0
        then err (because (bytes "TCP port must be between 1 and 65535"))
        else ok (tcpip port)
  ]

unfoldable pub parse_command : Bytes → List Bytes → Bytes → Result Refusal Operation
parse_command command fields request =
    if bytes_eq command (bytes "SHELL")
    then behind_tab request (bytes "missing shell command") >>= (λ text. ok (shell text))
    else if bytes_eq command (bytes "EXEC")
    then behind_tab request (bytes "missing exec command") >>= (λ text. ok (exec text))
    else if bytes_eq command (bytes "PULL")
    then behind_tab request (bytes "missing pull path") >>= (λ text. ok (pull text))
    else if bytes_eq command (bytes "INSTALL")
    then parse_install fields
    else if bytes_eq command (bytes "UNINSTALL")
    then parse_uninstall fields
    else if bytes_eq command (bytes "PING")
    then ok ping
    else if bytes_eq command (bytes "SHUTDOWN")
    then ok shut_down
    else if bytes_eq command (bytes "PUSH")
    then parse_two (bytes "missing push source") (bytes "missing push destination") push fields
    else if bytes_eq command (bytes "PUSH_STREAM")
    then parse_one (bytes "missing push destination") push_stream fields
    else if bytes_eq command (bytes "REVERSE")
    then parse_two (bytes "missing reverse remote") (bytes "missing reverse local") reverse fields
    else if bytes_eq command (bytes "REVERSE_REMOVE")
    then parse_one (bytes "missing reverse remote") reverse_remove fields
    else if bytes_eq command (bytes "REVERSE_LIST")
    then ok reverse_list
    else if bytes_eq command (bytes "REVERSE_REMOVE_ALL")
    then ok reverse_remove_all
    else if bytes_eq command (bytes "FORWARD")
    then parse_two (bytes "missing local forward endpoint")
        (bytes "missing remote forward endpoint") forward fields
    else if bytes_eq command (bytes "FORWARD_LIST")
    then ok forward_list
    else if bytes_eq command (bytes "FORWARD_REMOVE")
    then parse_one (bytes "missing local forward endpoint") forward_remove fields
    else if bytes_eq command (bytes "FORWARD_REMOVE_ALL")
    then ok forward_remove_all
    else if bytes_eq command (bytes "ROOT")
    then ok root
    else if bytes_eq command (bytes "REMOUNT")
    then ok remount
    else if bytes_eq command (bytes "TCPIP")
    then parse_tcpip fields
    else if bytes_eq command (bytes "DEVICE_INFO")
    then ok device_info
    else err (because (bytes "unsupported daemon request: " ++ command))

unfoldable pub parse_fields : List Bytes → Bytes → Result Refusal Operation
parse_fields [] request = err (because (bytes "empty daemon request"))
parse_fields (command ∷ fields) request = parse_command command fields request

unfoldable pub parse_request : Bytes → Result Refusal Operation
parse_request request = parse_fields (split b'\t' request) request
