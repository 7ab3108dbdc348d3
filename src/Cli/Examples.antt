-- ===== src/Cli/Examples.antt =====
-- The theorems about the command line program at concrete inputs, and tests.
use adb_client.Base.{◌≡◌, ◌↔◌, refl, true, some, List, [], ◌∷◌, ◌++◌, arith}
use adb_client.Base.Bytes.{Bytes, bytes, bytes_eq}
use adb_client.Base.Outcome.{ok}
use adb_client.Cli.Requests.Installs.{
  install_arguments, IsInstall, parse_install_request-install_arguments,
}
use adb_client.Cli.Requests.{
  starts_with_dash, all_digits, bad_user, InstallRequest, parse_install_request, UninstallRequest,
  uninstall_kind, is_package, is_package_byte, check_uninstall, uninstall_loop,
  parse_uninstall_request,
}
use adb_client.Cli.Selector.RoundTrip.{IsWellFormed, parse_usb_selector-usb_selector}
use adb_client.Cli.Selector.{AdbDeviceInfo, usb_selector, usb_context, parse_usb_selector}
use adb_client.Cli.Shell.Quoting.{tokens_commands}
use adb_client.Cli.Shell.Reader.{and_if, tokens, words, uninstall_words}
use adb_client.Cli.Shell.Unquoted.{tokens-wireless_uninstall_command}
use adb_client.Cli.Shell.{
  mkdir_command, link_command, stat_command, readlink_command, uninstall_command,
  wireless_uninstall_command,
}

abbrev phone : AdbDeviceInfo
phone = record {
  vendor_id = 0x18d1;
  serial = some (bytes "6DRG");
  product_id = 0x4ee7;
  location_id = some 0x14100000;
  registry_id = some 0x1000004a2;
  device_description = bytes "Phone";
}

phone-IsWellFormed : IsWellFormed phone
phone-IsWellFormed = record {
  vendor_fits = omega arith;
  product_fits = omega arith;
  location_fits = omega arith;
  registry_fits = omega arith;
}

parse_usb_selector-usb_selector_example :
    parse_usb_selector (usb_selector phone) ≡ some (0x18d1, 0x4ee7, 0x14100000, 0x1000004a2)
unfolding usb_context
parse_usb_selector-usb_selector_example =
    parse_usb_selector-usb_selector (bytes "key") phone phone-IsWellFormed (omega arith)
      (omega arith)

abbrev request : InstallRequest
request = record {
  flags = bytes "-r" ∷ bytes "-g" ∷ [];
  user = some (bytes "10");
  source = bytes "/a b.apk";
}

parse_install_request-install_arguments_example :
    (((args : List Bytes) × (parse_install_request args ≡ ok request)) ↔ IsInstall request)
    × (IsInstall request ↔ (parse_install_request (install_arguments request) ≡ ok request))
parse_install_request-install_arguments_example = parse_install_request-install_arguments request

abbrev removal : UninstallRequest
removal = record { keep_data = true; user = some (bytes "0"); package_name = bytes "com.app" }

tokens_commands_example :
    (tokens (mkdir_command (bytes "/d/it's"))
      ≡ some (words (bytes "mkdir" ∷ bytes "-p" ∷ bytes "--" ∷ bytes "/d/it's" ∷ [])))
    × ((tokens (link_command (bytes "/d") (bytes "/d/it's") (bytes "$(id) &"))
          ≡ some (
              words (bytes "mkdir" ∷ bytes "-p" ∷ bytes "--" ∷ bytes "/d" ∷ [])
              ++ (and_if ∷ words (bytes "rm" ∷ bytes "-f" ∷ bytes "--" ∷ bytes "/d/it's" ∷ []))
              ++ (and_if
                  ∷ words (
                      bytes "ln"
                      ∷ bytes "-s"
                      ∷ bytes "--"
                      ∷ bytes "$(id) &"
                      ∷ bytes "/d/it's"
                      ∷ []))))
        × ((tokens (stat_command (bytes "/d/it's"))
              ≡ some (
                  words (
                    bytes "stat" ∷ bytes "-c" ∷ bytes "%s %Y" ∷ bytes "--" ∷ bytes "/d/it's" ∷ [])))
            × ((tokens (readlink_command (bytes "/d/it's"))
                  ≡ some (words (bytes "readlink" ∷ bytes "--" ∷ bytes "/d/it's" ∷ [])))
                × (tokens (uninstall_command removal)
                    ≡ some (words (uninstall_words true (some (bytes "0")) (bytes "com.app")))))))
tokens_commands_example = tokens_commands (bytes "/d") (bytes "/d/it's") (bytes "$(id) &") removal

tokens-wireless_uninstall_command_example :
    (tokens (wireless_uninstall_command removal)
      ≡ some (words (uninstall_words true (some (bytes "0")) (bytes "com.app"))))
    × (tokens (wireless_uninstall_command removal) ≡ tokens (uninstall_command removal))
unfolding parse_uninstall_request uninstall_loop uninstall_kind starts_with_dash check_uninstall
    is_package is_package_byte bad_user all_digits bytes_eq
tokens-wireless_uninstall_command_example =
    tokens-wireless_uninstall_command
      (bytes "uninstall" ∷ bytes "-k" ∷ bytes "--user" ∷ bytes "0" ∷ bytes "com.app" ∷ []) removal
      refl (cc) (cc)
