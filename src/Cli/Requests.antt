-- ===== src/Cli/Requests.antt =====
-- The requests of adb_cli/src/compat.rs: what the arguments of `install`, `uninstall`, `pull` and
-- `push` say. Each loop over the arguments is a recursion, where `waits` is set between `--user`
-- and the name behind it; the first argument is the command itself.
pub mod Installs
use adb_client.Base.{
  leb, ◌==◌, if◌then◌else◌, ℕ, ◌+◌, ◌-◌, ◌*◌, Bool, true, false, not, ◌&&◌, ◌||◌, Option, none,
  some, List, [], ◌∷◌, ◌++◌,
}
use adb_client.Base.Bytes.{Bytes, bytes, strip_prefix, bytes_eq}
use adb_client.Base.Outcome.{Result, ok, err}
use adb_client.Base.Split.{contains_any}

abbrev pub is_one_of : Bytes → List Bytes → Bool
is_one_of value [] = false
is_one_of value (name ∷ names) = bytes_eq value name || is_one_of value names

unfoldable pub starts_with_dash : Bytes → Bool
starts_with_dash [] = false
starts_with_dash (b ∷ bs) = b == b'-'

unfoldable pub all_digits : Bytes → Bool
all_digits [] = true
all_digits (b ∷ bs) = leb b'0' b && leb b b'9' && all_digits bs

-- `user.as_ref().is_some_and(|value| !value.bytes().all(|b| b.is_ascii_digit()))`
unfoldable pub bad_user : Option Bytes → Bool
bad_user none = false
bad_user (some value) = not (all_digits value)

pub data Kind : Type 0 where
  flag user_option unsupported plain : Kind

pub record InstallRequest : Type 0 where
  pub flags : List Bytes
  pub user : Option Bytes
  pub source : Bytes

unfoldable pub install_kind : Bytes → Kind
install_kind arg =
    if is_one_of arg (bytes "-r" ∷ bytes "-g" ∷ bytes "-d" ∷ [])
    then flag
    else if is_one_of arg (bytes "--user" ∷ bytes "-u" ∷ [])
    then user_option
    else if starts_with_dash arg
    then unsupported
    else plain

unfoldable pub check_install :
    List Bytes → Option Bytes → Option Bytes → Result Bytes InstallRequest
check_install flags user none = err (bytes "missing APK path")
check_install flags user (some source) =
    if contains_any (b'\n' ∷ b'\r' ∷ b'\t' ∷ []) source || bad_user user
    then err (bytes "invalid install request")
    else ok (record { flags = flags; user = user; source = source })

unfoldable pub install_loop :
    List Bytes → Bool → List Bytes → Option Bytes → Option Bytes → Result Bytes InstallRequest
install_loop [] true flags user source = err (bytes "missing install user")
install_loop (name ∷ args) true flags user source = install_loop args false flags (some name) source
install_loop [] false flags user source = check_install flags user source
install_loop (arg ∷ args) false flags user source = elim (install_kind arg) [
  | flag ↦ install_loop args false (flags ++ arg ∷ []) user source
  | user_option ↦ install_loop args true flags user source
  | unsupported ↦ err (bytes "unsupported install option")
  | plain ↦ elim source [
    | none ↦ install_loop args false flags user (some arg)
    | some earlier ↦ err (bytes "install accepts exactly one APK path")
  ]
]

unfoldable pub parse_install_request : List Bytes → Result Bytes InstallRequest
parse_install_request [] = check_install [] none none
parse_install_request (command ∷ args) = install_loop args false [] none none

pub record UninstallRequest : Type 0 where
  pub keep_data : Bool
  pub user : Option Bytes
  pub package_name : Bytes

unfoldable pub uninstall_kind : Bytes → Kind
uninstall_kind arg =
    if bytes_eq arg (bytes "-k")
    then flag
    else if is_one_of arg (bytes "--user" ∷ bytes "-u" ∷ [])
    then user_option
    else if starts_with_dash arg
    then unsupported
    else plain

-- `b.is_ascii_alphanumeric() || b == b'.' || b == b'_'`
unfoldable pub is_package_byte : ℕ → Bool
is_package_byte b =
    (leb b'0' b && leb b b'9')
    || (leb b'A' b && leb b b'Z')
    || (leb b'a' b && leb b b'z')
    || b == b'.'
    || b == b'_'

unfoldable pub is_package : Bytes → Bool
is_package [] = true
is_package (b ∷ bs) = is_package_byte b && is_package bs

unfoldable pub check_uninstall : Bool → Option Bytes → Option Bytes → Result Bytes UninstallRequest
check_uninstall keep_data user none = err (bytes "missing package name")
check_uninstall keep_data user (some package_name) =
    if not (is_package package_name) || bad_user user
    then err (bytes "invalid uninstall request")
    else ok (record { keep_data = keep_data; user = user; package_name = package_name })

unfoldable pub uninstall_loop :
    List Bytes → Bool → Bool → Option Bytes → Option Bytes → Result Bytes UninstallRequest
uninstall_loop [] true keep_data user package_name = err (bytes "missing uninstall user")
uninstall_loop (name ∷ args) true keep_data user package_name =
    uninstall_loop args false keep_data (some name) package_name
uninstall_loop [] false keep_data user package_name = check_uninstall keep_data user package_name
uninstall_loop (arg ∷ args) false keep_data user package_name = elim (uninstall_kind arg) [
  | flag ↦ uninstall_loop args false true user package_name
  | user_option ↦ uninstall_loop args true keep_data user package_name
  | unsupported ↦ err (bytes "unsupported uninstall option")
  | plain ↦ elim package_name [
    | none ↦ uninstall_loop args false keep_data user (some arg)
    | some earlier ↦ err (bytes "uninstall accepts exactly one package name")
  ]
]

unfoldable pub parse_uninstall_request : List Bytes → Result Bytes UninstallRequest
parse_uninstall_request [] = check_uninstall false none none
parse_uninstall_request (command ∷ args) = uninstall_loop args false false none none

pub record TransferOptions : Type 0 where
  pub archive : Bool
  pub dry_run : Bool
  pub quiet : Bool
  pub sync : Bool

abbrev pub default_options : TransferOptions
default_options = record { archive = false; dry_run = false; quiet = false; sync = false }

pub record TransferRequest : Type 0 where
  pub options : TransferOptions
  pub paths : List Bytes

pub data TransferKind : Type 0 where
  archive_flag sync_flag dry_flag quiet_flag squeeze squeeze_with unknown path : TransferKind

unfoldable pub transfer_kind : Bytes → Bytes → TransferKind
transfer_kind arg operation =
    if bytes_eq arg (bytes "-a") && bytes_eq operation (bytes "pull")
    then archive_flag
    else if bytes_eq arg (bytes "--sync") && bytes_eq operation (bytes "push")
    then sync_flag
    else if bytes_eq arg (bytes "-n") && bytes_eq operation (bytes "push")
    then dry_flag
    else if bytes_eq arg (bytes "-q")
    then quiet_flag
    else if bytes_eq arg (bytes "-Z")
    then squeeze
    else if bytes_eq arg (bytes "-z")
    then squeeze_with
    else if starts_with_dash arg
    then unknown
    else path

unfoldable pub no_compression : Bytes → Result Bytes TransferRequest
no_compression operation =
    err (operation ++ bytes " compression options are not supported by the bundled adb client")

unfoldable pub transfer_loop : List Bytes → Bytes → TransferRequest → Result Bytes TransferRequest
transfer_loop [] operation r = ok r
transfer_loop (arg ∷ args) operation r = elim (transfer_kind arg operation) [
  | archive_flag ↦
      transfer_loop args operation (record r { options = record r.options { archive = true } })
  | sync_flag ↦
      transfer_loop args operation (record r { options = record r.options { sync = true } })
  | dry_flag ↦
      transfer_loop args operation (record r { options = record r.options { dry_run = true } })
  | quiet_flag ↦
      transfer_loop args operation (record r { options = record r.options { quiet = true } })
  | squeeze ↦ no_compression operation
  | squeeze_with ↦ elim args [
    | [] ↦ err (bytes "missing compression algorithm")
    | algorithm ∷ rest ↦ no_compression operation
  ]
  | unknown ↦ err (bytes "unsupported " ++ operation ++ bytes " option: " ++ arg)
  | path ↦ transfer_loop args operation (record r { paths = r.paths ++ arg ∷ [] })
]

unfoldable pub transfer_paths : List Bytes → Bytes → Result Bytes TransferRequest
transfer_paths [] operation = ok (record { options = default_options; paths = [] })
transfer_paths (command ∷ args) operation =
    transfer_loop args operation (record { options = default_options; paths = [] })
