-- ===== src/Proto/Session/Banner.antt =====
-- adb_proto/src/session.rs: `DeviceBanner` and its parser.
use adb_client.Base.{List, [], ◌∷◌, Option, none, some, if◌then◌else◌}
use adb_client.Base.Bytes.{Bytes, bytes, bytes_eq, trim_end, split_once, split}

pub record DeviceBanner : Type 0 where
  pub product : Option Bytes
  pub model : Option Bytes
  pub device : Option Bytes
  pub features : List Bytes

-- `DeviceBanner::default`
abbrev pub default : DeviceBanner
default = record { product = none; model = none; device = none; features = [] }

-- The body of the loop of `parse`, on one `key=value`.
unfoldable pub set_property : DeviceBanner → Bytes → Bytes → DeviceBanner
set_property out key value =
    if bytes_eq key (bytes "ro.product.name")
    then record out { product = some value }
    else if bytes_eq key (bytes "ro.product.model")
    then record out { model = some value }
    else if bytes_eq key (bytes "ro.product.device")
    then record out { device = some value }
    else if bytes_eq key (bytes "features")
    then record out { features = split b',' value }
    else out

-- The loop of `parse`; a part with no `=` is passed over.
unfoldable pub set_properties : DeviceBanner → List Bytes → DeviceBanner
unfolding set_property
set_properties out [] = out
set_properties out (part ∷ parts) =
    set_properties
      (elim (split_once (b'=' ∷ []) part) [
        | none ↦ out
        | some (key, value) ↦ set_property out key value
      ])
      parts

-- The text behind the first `::`, or nothing.
unfoldable pub properties : Bytes → Bytes
properties banner = elim (split_once (b':' ∷ b':' ∷ []) (trim_end 0 banner)) [
  | none ↦ []
  | some (_, props) ↦ props
]

-- `DeviceBanner::parse`
unfoldable pub parse : Bytes → DeviceBanner
unfolding set_properties properties
parse banner = set_properties default (split b';' (properties banner))
