-- ===== src/Cli/Selector/RoundTrip.antt =====
-- A name that the program gives to a device is parsed as that device.
use adb_client.Base.{
  ltb, if◌then◌else◌, Bool-cases, Option-cases, if_either, All-append, All-weaken, ℕ, ◌^◌, ◌<◌, ◌≡◌,
  refl, sym, ap, ◌∙◌, ◌≢◌, ◌⊎◌, inl, inr, false, Option, none, some, List, [], ◌∷◌, ◌++◌,
  append-nil, arith,
}
use adb_client.Base.Bytes.{Bytes, bytes, strip_prefix, split_once, bytes_eq}
use mathlib.Core.Path.{subst}
use adb_client.Base.Hex.{to_hex, from_str_radix_16-to_hex, IsHexDigit, to_hex-IsHexDigit}
use adb_client.Base.Options.{unwrap_or}
use adb_client.Base.Split.{
  Lacks, rsplit_once, split_once-append, strip_prefix-append, rsplit_once-append, rsplit_once-Lacks,
}
use adb_client.Cli.Selector.{
  AdbDeviceInfo, usb_ids, place, usb_context, usb_selector, parse_usb_numbers, parse_usb_ids,
  parse_usb_selector, DeviceLong, server_usb_path, count_serial, server_selector, named,
  parse_current, parse_server_name, parse_server_selector,
}

-- The fields of the program's integer types.
pub record IsWellFormed (device : AdbDeviceInfo) : Type 0 where
  pub vendor_fits : device.vendor_id < 2 ^ 16
  pub product_fits : device.product_id < 2 ^ 16
  pub location_fits : unwrap_or 0 device.location_id < 2 ^ 64
  pub registry_fits : unwrap_or 0 device.registry_id < 2 ^ 64

-- A byte below `0` is no digit, and neither is one between `9` and `a`.
to_hex-Lacks : (c width n : ℕ) → ((b : ℕ) → IsHexDigit b → b ≢ c) → Lacks c (to_hex width n)
to_hex-Lacks c width n h = All-weaken IsHexDigit (λ b. b ≢ c) h _ (to_hex-IsHexDigit width n)

usb_ids-Lacks : (device : AdbDeviceInfo) → Lacks b'@' (usb_ids device)
unfolding usb_ids
usb_ids-Lacks device =
    All-append (λ b. b ≢ b'@') _ _ (to_hex-Lacks b'@' 4 device.vendor_id (λ b d. omega (arith, d)))
      (omega arith, to_hex-Lacks b'@' 4 device.product_id (λ b d. omega (arith, d)))

parse_usb_numbers-to_hex :
    (vendor product location registry_id : ℕ)
    → vendor < 2 ^ 16
    → product < 2 ^ 16
    → location < 2 ^ 64
    → registry_id < 2 ^ 64
    → location ≢ 0
    → registry_id ≢ 0
    → parse_usb_numbers
        (to_hex 4 vendor)
        (to_hex 4 product)
        (to_hex 16 location)
        (to_hex 16 registry_id)
      ≡ some (vendor, product, location, registry_id)
unfolding parse_usb_numbers parse_usb_ids
parse_usb_numbers-to_hex vendor product location registry_id v p l r ln rn =
    let vendor_read = from_str_radix_16-to_hex 16 3 vendor v v in
    let product_read = from_str_radix_16-to_hex 16 3 product p p in
    let location_read = from_str_radix_16-to_hex 64 15 location l l in
    let registry_read = from_str_radix_16-to_hex 64 15 registry_id r r in
    ground (arith, vendor_read, product_read, location_read, registry_read)

-- The name that the program gives to a USB device whose place is known is parsed as the numbers
-- by which the device is opened.
pub parse_usb_selector-usb_selector :
    (key : Bytes) (device : AdbDeviceInfo)
    → IsWellFormed device
    → (usb_context key device).location ≢ 0
    → (usb_context key device).registry_id ≢ 0
    → let context = usb_context key device in
      parse_usb_selector (usb_selector device)
      ≡ some (context.vendor, context.product, context.location, context.registry_id)
unfolding parse_usb_selector usb_selector usb_context place usb_ids split_once
parse_usb_selector-usb_selector key device w located attached =
    rw
      (
        strip_prefix-append (bytes "usb-") _,
        split_once-append b'@' (usb_ids device) _ (usb_ids-Lacks device),
        split_once-append b'#' (to_hex 16 (unwrap_or 0 device.location_id)) _
            (to_hex-Lacks b'#' 16 _ (λ b d. omega (arith, d))),
        split_once-append b':' (to_hex 4 device.vendor_id) _
            (to_hex-Lacks b':' 4 _ (λ b d. omega (arith, d))),
      )
      (parse_usb_numbers-to_hex device.vendor_id device.product_id _ _ w.vendor_fits w.product_fits
        w.location_fits w.registry_fits located attached)

-- The USB path is a part of the name when the serial is the serial of more than one device.
abbrev pub shown_usb : DeviceLong → List DeviceLong → Option Bytes
shown_usb device devices =
    if ltb 1 (count_serial device.identifier devices) then server_usb_path device else none

server_usb_path-some :
    (device : DeviceLong) (usb : Bytes)
    → server_usb_path device ≡ some usb
    → (usb ≡ device.usb) × (bytes_eq usb [] ≡ false)
unfolding server_usb_path
server_usb_path-some device usb e = ground (arith, e)

named-some :
    (serial : Bytes) (usb : Option Bytes)
    → serial ≢ []
    → named serial usb ≡ some (record { serial = serial; usb = usb })
unfolding named bytes_eq
named-some [] usb ne = absurd (ne refl)
named-some (b ∷ bs) usb ne = refl

parse_current-plain :
    (serial : Bytes)
    → serial ≢ []
    → Lacks b'#' serial
    → parse_current serial ≡ some (record { serial = serial; usb = none })
unfolding parse_current
parse_current-plain serial ne lacks =
    rw (rsplit_once-Lacks b'#' (bytes "usb:") serial lacks, parse_current)
      (named-some serial none ne)

rsplit_once-usb :
    (usb : Bytes)
    → Lacks b'#' usb
    → rsplit_once (bytes "#usb:") (bytes "#usb:" ++ usb) ≡ some ([], usb)
unfolding rsplit_once strip_prefix
rsplit_once-usb usb lacks = rw (rsplit_once-Lacks b'#' (bytes "usb:") usb lacks, strip_prefix) refl

parse_current-usb :
    (serial usb : Bytes)
    → serial ≢ []
    → bytes_eq usb [] ≡ false
    → Lacks b'#' usb
    → parse_current (serial ++ (bytes "#usb:" ++ usb))
      ≡ some (record { serial = serial; usb = some usb })
unfolding parse_current
parse_current-usb serial usb ne given lacks =
    let found : rsplit_once (bytes "#usb:") (serial ++ (bytes "#usb:" ++ usb))
        ≡ some (serial, usb) =
      rsplit_once-append (bytes "#usb:") serial _ [] usb (rsplit_once-usb usb lacks)
      ∙ ap (λ front. some (front, usb)) (append-nil serial) in
    rw (found, parse_current, given) (named-some serial (some usb) ne)

abbrev server_name : Bytes → Option Bytes → Bytes
server_name serial none = serial
server_name serial (some usb) = serial ++ (bytes "#usb:" ++ usb)

server_selector-shown_usb :
    (device : DeviceLong) (devices : List DeviceLong)
    → server_selector device devices
      ≡ bytes "androconnect-server:" ++ server_name device.identifier (shown_usb device devices)
unfolding server_selector
server_selector-shown_usb device devices = elim (Option-cases (server_usb_path device)) [
  | inl e ↦ elim (Bool-cases (ltb 1 (count_serial device.identifier devices))) [
    | inl many ↦ rw (e, server_selector, many) refl
    | inr one ↦ rw (e, server_selector, one) refl
  ]
  | inr (usb, e) ↦ elim (Bool-cases (ltb 1 (count_serial device.identifier devices))) [
    | inl many ↦ rw (e, server_selector, many) refl
    | inr one ↦ rw (e, server_selector, one) refl
  ]
]

parse_server_selector-current :
    (current : Bytes)
    → parse_server_selector (bytes "androconnect-server:" ++ current) ≡ parse_current current
unfolding parse_server_selector parse_server_name strip_prefix
parse_server_selector-current current = refl

parse_current-server_name :
    (device : DeviceLong) (shown : Option Bytes)
    → device.identifier ≢ []
    → Lacks b'#' device.identifier
    → Lacks b'#' device.usb
    → (shown ≡ none) ⊎ (shown ≡ server_usb_path device)
    → parse_current (server_name device.identifier shown)
      ≡ some (record { serial = device.identifier; usb = shown })
parse_current-server_name device none ne plain path from =
    parse_current-plain device.identifier ne plain
parse_current-server_name device (some usb) ne plain path (inl e) = cc
parse_current-server_name device (some usb) ne plain path (inr e) =
    let (same, given) = server_usb_path-some device usb (sym e) in
    parse_current-usb device.identifier usb ne given (subst (Lacks b'#') (sym same) path)

-- The name that the program gives to a device behind a server is parsed as its serial, and as its
-- USB path where the serial is not its own. The serial is not empty, and neither has a `#`.
pub parse_server_selector-server_selector :
    (device : DeviceLong) (devices : List DeviceLong)
    → device.identifier ≢ []
    → Lacks b'#' device.identifier
    → Lacks b'#' device.usb
    → parse_server_selector (server_selector device devices)
      ≡ some (record { serial = device.identifier; usb = shown_usb device devices })
parse_server_selector-server_selector device devices ne plain path =
    let from =
      if_either (λ shown. (shown ≡ none) ⊎ (shown ≡ server_usb_path device))
        (ltb 1 (count_serial device.identifier devices)) (server_usb_path device) none (inr refl)
        (inl refl) in
    ap parse_server_selector (server_selector-shown_usb device devices)
    ∙ parse_server_selector-current _
    ∙ parse_current-server_name device _ ne plain path from
