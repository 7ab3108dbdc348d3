-- ===== src/Client/Wireless.antt =====
-- adb_client/src/wireless.rs: pairing with a device over the network. A connection is the bytes that
-- the peer sent until it closed its end, and takes everything that is written to it.
pub mod Scalars
pub mod Packets
pub mod Spake
mod Examples
use adb_client.Base.{
  ltb, leb, ◌==◌, if◌then◌else◌, length, take, drop, ℕ, zero, suc, ◌+◌, ◌*◌, max, Bool, true, false,
  not, ◌&&◌, ◌||◌, Option, none, some, [], ◌∷◌, ◌++◌,
}
use adb_client.Base.Bytes.{Bytes, bytes_eq}
use adb_client.Base.Outcome.{Result, ok, err, ◌>>=◌}
use adb_client.Base.Utf8.{from_utf8_lossy, is_utf8}
use adb_client.Base.Words.{to_be_bytes, from_be_bytes}

-- The texts that `failure` is given, the end of a connection, and a text that is not UTF-8.
pub data PairingError : Type 0 where
  invalid_code invalid_password invalid_length unexpected_packet rejected invalid_identifier :
      PairingError
  invalid_message invalid_point : PairingError
  unexpected_eof not_utf8 : PairingError

abbrev pub peer_info_size : ℕ
peer_info_size = 8192

abbrev pub max_pairing_payload : ℕ
max_pairing_payload = peer_info_size * 2

unfoldable pub all_bytes : (ℕ → Bool) → Bytes → Bool
all_bytes p [] = true
all_bytes p (b ∷ bs) = p b && all_bytes p bs

-- The check of `pair`.
unfoldable pub check_pairing_code : Bytes → Result PairingError (Unit {0})
check_pairing_code code =
    if not (length code == 6) || not (all_bytes (λ b. leb b'0' b && leb b b'9') code)
    then err invalid_code
    else ok tt

-- `read_pairing_password`, of a pipe with these bytes.
unfoldable pub read_pairing_password : Bytes → Result PairingError Bytes
read_pairing_password input =
    let password = take 65 input in
    if not (is_utf8 password)
    then err not_utf8
    else if length password == 0
        || ltb 64 (length password)
        || not (all_bytes (λ b. leb 33 b && leb b 126) password)
    then err invalid_password
    else ok password

-- What is written to the stream.
unfoldable pub write_packet : ℕ → Bytes → Result PairingError Bytes
write_packet kind payload =
    if length payload == 0 || ltb max_pairing_payload (length payload)
    then err invalid_length
    else ok (1 ∷ kind ∷ (to_be_bytes (length payload) ++ payload))

-- `read_exact`: the bytes, and what is behind them.
unfoldable pub read_exact : ℕ → Bytes → Result PairingError (Bytes × Bytes)
read_exact n stream =
    if ltb (length stream) n then err unexpected_eof else ok (take n stream, drop n stream)

unfoldable pub check_header : ℕ → Bytes → Result PairingError ℕ
check_header expected_kind (version ∷ kind ∷ length_bytes) =
    let size = from_be_bytes length_bytes in
    if not (version == 1) || not (kind == expected_kind)
    then err unexpected_packet
    else if size == 0 || ltb max_pairing_payload size
    then err invalid_length
    else ok size
check_header expected_kind _ = err unexpected_eof

unfoldable pub read_packet : ℕ → Bytes → Result PairingError (Bytes × Bytes)
read_packet expected_kind stream = read_exact 6 stream >>= λ (header, rest).
    check_header expected_kind header >>= λ size. read_exact size rest

unfoldable pub add_front : ℕ → Option Bytes → Option Bytes
add_front b none = none
add_front b (some bs) = some (b ∷ bs)

-- `position` of the first zero byte, with the bytes in front of it.
unfoldable pub before_zero : Bytes → Option Bytes
before_zero [] = none
before_zero (b ∷ bs) = let rest = before_zero bs in if b == 0 then some [] else add_front b rest

-- `char::is_control` on a text: those of ASCII, and U+0080 to U+009F, whose UTF-8 starts with 0xC2.
unfoldable pub has_control : Bytes → Bool
has_control [] = false
has_control (b ∷ []) = ltb b 32 || b == 127
has_control (b ∷ c ∷ bs) = ltb b 32 || b == 127 || (b == 0xC2 && ltb c 0xA0) || has_control (c ∷ bs)

unfoldable pub check_guid : Option Bytes → Result PairingError Bytes
check_guid none = err invalid_identifier
check_guid (some guid) =
    if not (is_utf8 guid)
    then err not_utf8
    else if length guid == 0 || ltb 255 (length guid) || has_control guid
    then err invalid_identifier
    else ok guid

unfoldable pub parse_device_guid : Bytes → Result PairingError Bytes
parse_device_guid [] = err rejected
parse_device_guid (kind ∷ body) =
    if not (suc (length body) == peer_info_size) || not (kind == 1)
    then err rejected
    else check_guid (before_zero body)
