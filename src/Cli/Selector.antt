-- ===== src/Cli/Selector.antt =====
-- The names of devices in adb_cli/src/compat.rs: transport ids, and the selectors of USB devices
-- and of devices behind an ADB server. A name is kept by the App and parsed in a later run.
pub mod RoundTrip
use adb_client.Base.{
  ltb, ◌==◌, if◌then◌else◌, ℕ, suc, ◌+◌, ◌-◌, ◌*◌, ◌%◌, ◌^◌, max, bit_xor, ap, ◌||◌, Option, none,
  some, List, [], ◌∷◌, ◌++◌,
}
use adb_client.Base.Bytes.{Bytes, bytes, strip_prefix, split_once, bytes_eq}
use adb_client.Base.Options.{◌>>=◌, unwrap_or}
use adb_client.Base.Split.{contains, rsplit_once}
use adb_client.Base.Decimal.{parse_unsigned}
use adb_client.Base.Hex.{to_hex, from_str_radix_16}

pub record AdbDeviceInfo : Type 0 where
  pub vendor_id : ℕ
  pub serial : Option Bytes
  pub product_id : ℕ
  pub location_id : Option ℕ
  pub registry_id : Option ℕ
  pub device_description : Bytes

pub record Context : Type 0 where
  pub key : Bytes
  pub vendor : ℕ
  pub product : ℕ
  pub location : ℕ
  pub registry_id : ℕ

-- One step of the hash: the multiplication wraps at 64 bits.
unfoldable pub hash_byte : ℕ → ℕ → ℕ
hash_byte value byte = bit_xor value byte * 0x000001000001b3 % 2 ^ 64

unfoldable pub hash_bytes : ℕ → Bytes → ℕ
hash_bytes value [] = value
hash_bytes value (b ∷ bs) = hash_bytes (hash_byte value b) bs

unfoldable pub stable_transport_id : Bytes → Bytes → ℕ
stable_transport_id kind identity = max 1 (hash_bytes 0xcbf29ce484222325 (kind ++ 0 ∷ identity))

-- `{:04x}:{:04x}`
unfoldable pub usb_ids : AdbDeviceInfo → Bytes
usb_ids device = to_hex 4 device.vendor_id ++ b':' ∷ to_hex 4 device.product_id

-- `{:016x}#{:016x}`
unfoldable pub place : ℕ → ℕ → Bytes
place location registry_id = to_hex 16 location ++ b'#' ∷ to_hex 16 registry_id

unfoldable pub usb_identity : AdbDeviceInfo → Bytes
usb_identity device = elim device.location_id [
  | some location ↦ place location (unwrap_or 0 device.registry_id)
  | none ↦ unwrap_or (usb_ids device) device.serial
]

unfoldable pub usb_transport_id : AdbDeviceInfo → ℕ
usb_transport_id device = stable_transport_id (bytes "usb") (usb_identity device)

unfoldable pub usb_context : Bytes → AdbDeviceInfo → Context
usb_context key device = record {
  key = key;
  vendor = device.vendor_id;
  product = device.product_id;
  location = unwrap_or 0 device.location_id;
  registry_id = unwrap_or 0 device.registry_id;
}

unfoldable pub usb_selector : AdbDeviceInfo → Bytes
usb_selector device =
    bytes "usb-"
    ++ usb_ids device
    ++ b'@' ∷ place (unwrap_or 0 device.location_id) (unwrap_or 0 device.registry_id)

unfoldable pub parse_usb_ids : Bytes → Bytes → ℕ → ℕ → Option (ℕ × ℕ × ℕ × ℕ)
parse_usb_ids vendor product location registry_id = do
  vendor_number ← from_str_radix_16 16 vendor
  product_number ← from_str_radix_16 16 product
  some (vendor_number, product_number, location, registry_id)

-- The four numbers, where the place of the device must be known.
unfoldable pub parse_usb_numbers : Bytes → Bytes → Bytes → Bytes → Option (ℕ × ℕ × ℕ × ℕ)
parse_usb_numbers vendor product location registry_id = do
  place_number ← from_str_radix_16 64 location
  registry_number ← from_str_radix_16 64 registry_id
  (if place_number == 0 || registry_number == 0
      then none
      else parse_usb_ids vendor product place_number registry_number)

unfoldable pub parse_usb_selector : Bytes → Option (ℕ × ℕ × ℕ × ℕ)
parse_usb_selector value = do
  rest ← strip_prefix (bytes "usb-") value
  (ids, where_it_is) ← split_once (bytes "@") rest
  (location, registry_id) ← split_once (bytes "#") where_it_is
  (vendor, product) ← split_once (bytes ":") ids
  parse_usb_numbers vendor product location registry_id

-- `DeviceLong` of adb_client/src/server/models/device_long.rs; its state is a name.
pub record DeviceLong : Type 0 where
  pub identifier : Bytes
  pub state : Bytes
  pub usb : Bytes
  pub product : Bytes
  pub model : Bytes
  pub device : Bytes
  pub transport_id : ℕ

unfoldable pub server_usb_path : DeviceLong → Option Bytes
server_usb_path device =
    if bytes_eq device.usb [] || bytes_eq device.usb (bytes "Unk") || contains b':' device.usb
    then none
    else some device.usb

-- `devices.iter().filter(|other| other.identifier == identifier).count()`
unfoldable pub count_serial : Bytes → List DeviceLong → ℕ
count_serial identifier [] = 0
count_serial identifier (other ∷ rest) =
    let n = count_serial identifier rest in
    if bytes_eq other.identifier identifier then suc n else n

unfoldable pub server_selector : DeviceLong → List DeviceLong → Bytes
server_selector device devices = elim (server_usb_path device) [
  | some usb ↦
      if ltb 1 (count_serial device.identifier devices)
      then bytes "androconnect-server:" ++ (device.identifier ++ (bytes "#usb:" ++ usb))
      else bytes "androconnect-server:" ++ device.identifier
  | none ↦ bytes "androconnect-server:" ++ device.identifier
]

unfoldable pub server_transport_id : DeviceLong → Option ℕ
server_transport_id device = if device.transport_id == 0 then none else some device.transport_id

pub record ServerSelector : Type 0 where
  pub serial : Bytes
  pub usb : Option Bytes

unfoldable pub named : Bytes → Option Bytes → Option ServerSelector
named serial usb = if bytes_eq serial [] then none else some (record { serial = serial; usb = usb })

-- `androconnect-server-N:SERIAL`, where N is a number of 64 bits.
unfoldable pub parse_legacy : Bytes → Option ServerSelector
parse_legacy rest = do
  behind ← strip_prefix (bytes "-") rest
  (id, serial) ← split_once (bytes ":") behind
  number ← parse_unsigned 64 id
  named serial none

unfoldable pub parse_current : Bytes → Option ServerSelector
parse_current rest = elim (rsplit_once (bytes "#usb:") rest) [
  | none ↦ named rest none
  | some (serial, usb) ↦ if bytes_eq usb [] then none else named serial (some usb)
]

unfoldable pub parse_server_name : Bytes → Option ServerSelector
parse_server_name rest = elim (strip_prefix (bytes ":") rest) [
  | none ↦ parse_legacy rest
  | some current ↦ parse_current current
]

unfoldable pub parse_server_selector : Bytes → Option ServerSelector
parse_server_selector value = do
  rest ← strip_prefix (bytes "androconnect-server") value
  parse_server_name rest
