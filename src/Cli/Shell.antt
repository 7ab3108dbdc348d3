-- ===== src/Cli/Shell.antt =====
-- The commands that adb_cli/src/compat.rs sends to the shell of a device, around the paths and
-- names of the caller.
pub mod Reader
pub mod Quoting
pub mod Unquoted
use adb_client.Base.{
  ◌==◌, if◌then◌else◌, ◌+◌, ◌-◌, ◌*◌, ◌%◌, ap, Bool, ◌&&◌, Option, none, some, [], ◌∷◌, ◌++◌,
}
use adb_client.Base.Bytes.{Bytes, bytes}
use adb_client.Cli.Requests.{UninstallRequest}

-- `value.replace('\'', "'\\''")`
unfoldable pub escape_quotes : Bytes → Bytes
escape_quotes [] = []
escape_quotes (b ∷ bs) =
    let rest = escape_quotes bs in if b == b'\'' then bytes "'\\''" ++ rest else b ∷ rest

unfoldable pub shell_quote : Bytes → Bytes
shell_quote value = b'\'' ∷ (escape_quotes value ++ b'\'' ∷ [])

-- The commands of `push_compatible` for a directory and for a symbolic link.
unfoldable pub mkdir_command : Bytes → Bytes
mkdir_command remote = bytes "mkdir -p -- " ++ shell_quote remote

unfoldable pub link_command : Bytes → Bytes → Bytes → Bytes
link_command parent remote target =
    bytes "mkdir -p -- "
    ++ (shell_quote parent
        ++ (bytes " && rm -f -- "
            ++ (shell_quote remote
                ++ (bytes " && ln -s -- "
                    ++ (shell_quote target ++ (bytes " " ++ shell_quote remote))))))

unfoldable pub stat_command : Bytes → Bytes
stat_command remote = bytes "stat -c '%s %Y' -- " ++ shell_quote remote

unfoldable pub readlink_command : Bytes → Bytes
readlink_command path = bytes "readlink -- " ++ shell_quote path

unfoldable pub user_words : Option Bytes → Bytes
user_words none = []
user_words (some user) = bytes " --user " ++ shell_quote user

-- `pm uninstall` of `run_server_device_command`.
unfoldable pub pm_uninstall : Bool → Option Bytes → Bytes → Bytes
pm_uninstall keep_data user package_name =
    bytes "pm uninstall"
    ++ ((if keep_data then bytes " -k" else [])
        ++ (user_words user ++ (bytes " " ++ shell_quote package_name)))

unfoldable pub uninstall_command : UninstallRequest → Bytes
uninstall_command request = pm_uninstall request.keep_data request.user request.package_name

unfoldable pub user_flag : Option Bytes → Bytes
user_flag none = []
user_flag (some user) = bytes "--user " ++ (user ++ bytes " ")

-- `pm uninstall` of `uninstall_wireless`, which puts the texts in as they are.
unfoldable pub wireless_uninstall_command : UninstallRequest → Bytes
wireless_uninstall_command request =
    bytes "pm uninstall "
    ++ ((if request.keep_data then bytes "-k " else [])
        ++ (user_flag request.user ++ request.package_name))
