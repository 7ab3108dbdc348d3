-- ===== src/Cli/Direct.antt =====
-- The commands for a USB device in adb_cli/src/compat.rs, behind the choice of the device: each
-- becomes a request to the daemon of that device.
pub mod Sent
pub mod Asked
pub mod Installed
use adb_client.Base.{
  ◌==◌, if◌then◌else◌, ℕ, ◌+◌, ◌-◌, ◌*◌, ◌%◌, ap, Option, none, some, List, [], ◌∷◌, ◌++◌,
}
use adb_client.Base.Bytes.{Bytes, bytes, bytes_eq}
use adb_client.Base.Decimal.{to_decimal, parse_unsigned}
use adb_client.Base.Hex.{to_hex}
use adb_client.Base.Options.{unwrap_or}
use adb_client.Base.Outcome.{Result, ok, err, ◌>>=◌}
use adb_client.Cli.Requests.{
  is_one_of, starts_with_dash, InstallRequest, UninstallRequest, TransferRequest,
  parse_install_request, parse_uninstall_request, transfer_paths,
}
use adb_client.Cli.Selector.{AdbDeviceInfo}
use adb_client.Cli.Shell.{escape_quotes}

-- `args.join(" ")`
unfoldable pub join : List Bytes → Bytes
join [] = []
join (arg ∷ []) = arg
join (arg ∷ next ∷ args) = arg ++ b' ' ∷ join (next ∷ args)

pub data ForwardRequest : Type 0 where
  add : Bytes → Bytes → ForwardRequest
  list : ForwardRequest
  remove : Bytes → ForwardRequest
  remove_all : ForwardRequest

-- What the program does for a command: a request whose answer is printed or is not, a request
-- whose output is streamed, a line that it prints itself, or a copy of files.
pub data Call : Type 0 where
  ask ask_and_print stream print : Bytes → Call
  print_serial : Call
  pull_files push_files : TransferRequest → Call
  sync_files : List Bytes → Call

unfoldable pub forward_usage : Bytes
forward_usage = bytes "usage: adb forward [--list|--remove LOCAL|--remove-all|LOCAL REMOTE]"

-- The arguments behind `forward`.
unfoldable pub parse_forward_arguments : List Bytes → Result Bytes ForwardRequest
parse_forward_arguments (option ∷ []) =
    if bytes_eq option (bytes "--list")
    then ok list
    else if bytes_eq option (bytes "--remove-all")
    then ok remove_all
    else err forward_usage
parse_forward_arguments (first ∷ second ∷ []) =
    if bytes_eq first (bytes "--remove")
    then ok (remove second)
    else if starts_with_dash first
    then err forward_usage
    else ok (add first second)
parse_forward_arguments args = err forward_usage

unfoldable pub forward_text : ForwardRequest → Bytes
forward_text (add near far) = bytes "FORWARD\t" ++ (near ++ b'\t' ∷ far)
forward_text list = bytes "FORWARD_LIST"
forward_text (remove near) = bytes "FORWARD_REMOVE\t" ++ near
forward_text remove_all = bytes "FORWARD_REMOVE_ALL"

unfoldable pub forward_call : ForwardRequest → Call
forward_call list = ask_and_print (forward_text list)
forward_call request = ask (forward_text request)

unfoldable pub install_text : InstallRequest → Bytes
install_text request =
    bytes "INSTALL\t"
    ++ (request.source ++ b'\t' ∷ (join request.flags ++ b'\t' ∷ unwrap_or [] request.user))

unfoldable pub uninstall_text : UninstallRequest → Bytes
uninstall_text request =
    bytes "UNINSTALL\t"
    ++ ((if request.keep_data then bytes "-k" else [])
        ++ b'\t' ∷ (unwrap_or [] request.user ++ b'\t' ∷ request.package_name))

-- The backslash is doubled in the source, so that no tab stands in the text.
unfoldable pub tcpip_text : ℕ → Bytes
tcpip_text port = bytes "TCPIP\\t" ++ to_decimal port

-- The options of a terminal, which are accepted and left out.
unfoldable pub skip_options : List Bytes → List Bytes
skip_options [] = []
skip_options (option ∷ args) =
    let rest = skip_options args in
    if is_one_of option
      (bytes "-T" ∷ bytes "-t" ∷ bytes "-tt" ∷ bytes "-x" ∷ bytes "--" ∷ bytes "-n" ∷ [])
    then rest
    else option ∷ args

unfoldable pub unsupported_command : List Bytes → Result Bytes Call
unsupported_command args = err (bytes "unsupported direct-USB command: " ++ join args)

unfoldable pub reverse_command : List Bytes → Result Bytes Call
reverse_command (option ∷ []) =
    if bytes_eq option (bytes "--list")
    then ok (ask_and_print (bytes "REVERSE_LIST"))
    else if bytes_eq option (bytes "--remove-all")
    then ok (ask (bytes "REVERSE_REMOVE_ALL"))
    else unsupported_command (bytes "reverse" ∷ option ∷ [])
reverse_command (first ∷ second ∷ []) =
    if bytes_eq first (bytes "--remove")
    then ok (ask (bytes "REVERSE_REMOVE\t" ++ second))
    else ok (ask (bytes "REVERSE\t" ++ (first ++ b'\t' ∷ second)))
reverse_command args = unsupported_command (bytes "reverse" ∷ args)

-- The port, or the error of `parse`, whose text is Rust's.
unfoldable pub tcpip_command : Bytes → Bytes → Result Bytes Call
tcpip_command parse_error text = elim (parse_unsigned 16 text) [
  | none ↦ err parse_error
  | some port ↦
      if port == 0
      then err (bytes "tcpip port must be between 1 and 65535")
      else ok (ask (tcpip_text port))
]

unfoldable pub reboot_command : List Bytes → Result Bytes Call
reboot_command [] = ok (ask (bytes "SHELL\treboot "))
reboot_command (mode ∷ []) =
    if is_one_of mode ([] ∷ bytes "bootloader" ∷ bytes "recovery" ∷ bytes "sideload" ∷ [])
    then ok (ask (bytes "SHELL\treboot " ++ mode))
    else err (bytes "unsupported reboot mode")
reboot_command (mode ∷ next ∷ args) = err (bytes "unsupported reboot mode")

unfoldable pub logcat_command : List Bytes → Bytes
logcat_command [] = bytes "SHELL\tlogcat"
logcat_command (arg ∷ args) = bytes "SHELL\tlogcat " ++ join (arg ∷ args)

unfoldable pub stat_text : Bytes → Bytes
stat_text path = bytes "SHELL\tstat -c '%n %s %a %Y' -- '" ++ (escape_quotes path ++ b'\'' ∷ [])

-- Commands with exactly one argument behind their name.
unfoldable pub one_argument_command : Bytes → Bytes → Bytes → Result Bytes Call
one_argument_command parse_error name arg =
    if bytes_eq name (bytes "tcpip")
    then tcpip_command parse_error arg
    else if is_one_of name (bytes "stat" ∷ bytes "stat2" ∷ [])
    then ok (stream (stat_text arg))
    else if bytes_eq name (bytes "pull-stream")
    then ok (stream (bytes "PULL\t" ++ arg))
    else unsupported_command (name ∷ arg ∷ [])

unfoldable pub short_command : Bytes → Bytes → List Bytes → Result Bytes Call
short_command parse_error name [] =
    if bytes_eq name (bytes "root")
    then ok (ask (bytes "ROOT"))
    else if bytes_eq name (bytes "remount")
    then ok (ask (bytes "REMOUNT"))
    else unsupported_command (name ∷ [])
short_command parse_error name (arg ∷ []) = one_argument_command parse_error name arg
short_command parse_error name (arg ∷ next ∷ args) = unsupported_command (name ∷ arg ∷ next ∷ args)

unfoldable pub devpath : AdbDeviceInfo → Bytes
devpath device =
    bytes "usb:"
    ++ (to_hex 4 device.vendor_id
        ++ b':' ∷ (to_hex 4 device.product_id ++ b':' ∷ to_hex 16 (unwrap_or 0 device.location_id)))

unfoldable pub named_command : AdbDeviceInfo → Bytes → Bytes → List Bytes → Result Bytes Call
named_command device parse_error name args =
    if bytes_eq name (bytes "forward")
    then parse_forward_arguments args >>= (λ request. ok (forward_call request))
    else if bytes_eq name (bytes "get-state")
    then ok (print (bytes "device"))
    else if bytes_eq name (bytes "get-serialno")
    then ok print_serial
    else if bytes_eq name (bytes "get-devpath")
    then ok (print (devpath device))
    else if bytes_eq name (bytes "logcat")
    then ok (stream (logcat_command args))
    else if bytes_eq name (bytes "shell")
    then ok (stream (bytes "SHELL\t" ++ join (skip_options args)))
    else if bytes_eq name (bytes "exec-out")
    then ok (stream (bytes "EXEC\t" ++ join (skip_options args)))
    else if bytes_eq name (bytes "pull")
    then transfer_paths (name ∷ args) (bytes "pull") >>= (λ request. ok (pull_files request))
    else if bytes_eq name (bytes "install")
    then parse_install_request (name ∷ args)
      >>= (λ request. ok (ask_and_print (install_text request)))
    else if bytes_eq name (bytes "uninstall")
    then parse_uninstall_request (name ∷ args)
      >>= (λ request. ok (ask_and_print (uninstall_text request)))
    else if bytes_eq name (bytes "reboot")
    then reboot_command args
    else if bytes_eq name (bytes "push")
    then transfer_paths (name ∷ args) (bytes "push") >>= (λ request. ok (push_files request))
    else if bytes_eq name (bytes "sync")
    then ok (sync_files (name ∷ args))
    else if bytes_eq name (bytes "reverse")
    then reverse_command args
    else short_command parse_error name args

unfoldable pub direct_command : AdbDeviceInfo → Bytes → List Bytes → Result Bytes Call
direct_command device parse_error [] = unsupported_command []
direct_command device parse_error (name ∷ args) = named_command device parse_error name args
