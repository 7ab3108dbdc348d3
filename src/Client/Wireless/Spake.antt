-- ===== src/Client/Wireless/Spake.antt =====
-- The key exchange of adb_client/src/wireless.rs, in which both sides mask their point with a
-- multiple for the password.
pub mod Agrees
use adb_client.Base.{
  ◌==◌, if◌then◌else◌, length, ℕ, zero, suc, ◌+◌, ◌*◌, ◌/◌, ◌%◌, not, Option, none, some, List, [],
  ◌∷◌, ◌++◌,
}
use adb_client.Base.Bytes.{Bytes, bytes}
use adb_client.Base.Outcome.{Result, ok, err, ◌>>=◌}
use adb_client.Client.Wireless.{PairingError, invalid_message, invalid_point}
use adb_client.Client.Wireless.Scalars.{shift_left_three, clear_cofactor_bits, multiply_raw}

-- What the program uses of the libraries curve25519_dalek and sha2. `reduce` takes a wide number to
-- its remainder by the order of the group, in 32 bytes.
pub record Library : Type 1 where
  pub Point : Type 0
  pub identity : Point
  pub add : Point → Point → Point
  pub sub : Point → Point → Point
  pub base_point : Point
  pub compress : Point → Bytes
  pub decompress : Bytes → Option Point
  pub reduce : Bytes → Bytes
  pub sha512 : Bytes → Bytes

pub record SpakeState : Type 0 where
  pub private_scalar : Bytes
  pub password_scalar : Bytes
  pub password_hash : Bytes
  pub message : Bytes

abbrev pub spake_m : Bytes
spake_m =
    0x5a ∷ 0xda ∷ 0x7e ∷ 0x4b ∷ 0xf6 ∷ 0xdd ∷ 0xd9 ∷ 0xad ∷ 0xb6 ∷ 0x62 ∷ 0x6d ∷ 0x32 ∷ 0x13 ∷ 0x1c
    ∷ 0x6b ∷ 0x5c ∷ 0x51 ∷ 0xa1 ∷ 0xe3 ∷ 0x47 ∷ 0xa3 ∷ 0x47 ∷ 0x8f ∷ 0x53 ∷ 0xcf ∷ 0xcf ∷ 0x44
    ∷ 0x1b ∷ 0x88 ∷ 0xee ∷ 0xd1 ∷ 0x2e ∷ []

abbrev pub spake_n : Bytes
spake_n =
    0x10 ∷ 0xe3 ∷ 0xdf ∷ 0x0a ∷ 0xe3 ∷ 0x7d ∷ 0x8e ∷ 0x7a ∷ 0x99 ∷ 0xb5 ∷ 0xfe ∷ 0x74 ∷ 0xb4 ∷ 0x46
    ∷ 0x72 ∷ 0x10 ∷ 0x3d ∷ 0xbd ∷ 0xdc ∷ 0xbd ∷ 0x06 ∷ 0xaf ∷ 0x68 ∷ 0x0d ∷ 0x71 ∷ 0x32 ∷ 0x9a
    ∷ 0x11 ∷ 0x69 ∷ 0x3b ∷ 0xc7 ∷ 0x78 ∷ []

abbrev client_name : Bytes
client_name = bytes "adb pair client" ++ 0 ∷ []

abbrev server_name : Bytes
server_name = bytes "adb pair server" ++ 0 ∷ []

-- `u64::to_le_bytes` of a length, which fits.
unfoldable pub u64_le : ℕ → ℕ → Bytes
u64_le zero n = []
u64_le (suc size) n = (n % 256) ∷ u64_le size (n / 256)

-- What the loop over the values of the transcript hashes.
unfoldable pub transcript_of : List Bytes → Bytes
transcript_of [] = []
transcript_of (value ∷ values) = u64_le 8 (length value) ++ (value ++ transcript_of values)

unfoldable pub transcript : Bytes → Bytes → Bytes → Bytes → Bytes
transcript message peer_message shared password_hash =
    transcript_of (client_name ∷ server_name ∷ message ∷ peer_message ∷ shared ∷ password_hash ∷ [])

unfoldable pub point_of : {A : Type 0} → Option A → Result PairingError A
point_of none = err invalid_point
point_of (some p) = ok p

module _ (library : Library) where
  unfoldable pub decode_point : Bytes → Result PairingError library.Point
  decode_point value = point_of (library.decompress value)

  -- `start`, with the 64 bytes that the random number generator gives.
  unfoldable pub start : Bytes → Bytes → Result PairingError (SpakeState × Bytes)
  start random password =
      let private_scalar = shift_left_three (library.reduce random) in
      let password_hash = library.sha512 password in
      let password_scalar = clear_cofactor_bits (library.reduce password_hash) in
      decode_point spake_m >>= λ mask.
      let public = multiply_raw library.identity library.add library.base_point private_scalar in
      let message =
        library.compress
          (library.add public (multiply_raw library.identity library.add mask password_scalar)) in
      ok (
        record {
          private_scalar = private_scalar;
          password_scalar = password_scalar;
          password_hash = password_hash;
          message = message;
        },
        message,
      )

  unfoldable pub finish : SpakeState → Bytes → Result PairingError Bytes
  finish state peer_message =
      if not (length peer_message == 32)
      then err invalid_message
      else (decode_point peer_message >>= λ peer_masked. decode_point spake_n >>= λ mask.
          let peer_public =
            library.sub peer_masked
              (multiply_raw library.identity library.add mask state.password_scalar) in
          let shared =
            library.compress
              (multiply_raw library.identity library.add peer_public state.private_scalar) in
          ok (library.sha512 (transcript state.message peer_message shared state.password_hash)))
