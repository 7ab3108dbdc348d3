-- ===== src/Client/PublicKey.antt =====
-- The public key of the host in Android's format: adb_client/src/message_devices/models/adb_rsa_key.rs
-- and adb_proto/src/auth.rs. A big integer is a natural number.
pub mod Layout
mod Examples
use adb_client.Base.{
  ltb, leb, if◌then◌else◌, length, take, replicate, ℕ, ◌+◌, ◌-◌, ◌*◌, ◌%◌, ◌^◌, not, ◌||◌, Option,
  none, some, [], ◌∷◌, ◌++◌,
}
use adb_client.Base.Bytes.{Bytes, bytes}
use adb_client.Base.Outcome.{Result, ok, err, ◌>>=◌}
use adb_client.Base.Words.{to_le_bytes}

-- What the program uses of the libraries num_bigint and base64. `mod_inverse` includes the test that
-- the result is not negative, and `parse_binary` is `parse_bytes` in base 2.
pub record Numbers : Type 0 where
  pub to_bytes_le : ℕ → Bytes
  pub from_bytes_le : Bytes → ℕ
  pub modpow : ℕ → ℕ → ℕ → ℕ
  pub mod_inverse : ℕ → ℕ → Option ℕ
  pub parse_binary : Bytes → Option ℕ
  pub base64 : Bytes → Bytes

pub data EncodeError : Type 0 where
  conversion_error : EncodeError
  exponent_too_large modulus_not_invertible n0inv_too_large : EncodeError
  -- The assertion of `into_bytes`.
  assertion_failed : EncodeError

-- `Vec::resize` with zeros.
unfoldable pub resize : ℕ → Bytes → Bytes
resize n bs = take n bs ++ replicate (n - length bs) 0

-- `ADBRsaInternalPublicKey`, as `new` and `android_pubkey_encode` fill it.
pub record InternalPublicKey : Type 0 where
  pub modulus_size_words : ℕ
  pub n0inv : ℕ
  pub modulus : ℕ
  pub rr : Bytes
  pub exponent : ℕ

abbrev pub modulus_size_words_of_android : ℕ
modulus_size_words_of_android = 64

abbrev pub private_key_size : ℕ
private_key_size = 2048

-- `to_u32`
unfoldable pub to_u32 : EncodeError → ℕ → Result EncodeError ℕ
to_u32 refusal n = if ltb n (2 ^ 32) then ok n else err refusal

unfoldable pub ok_or : {A : Type 0} → EncodeError → Option A → Result EncodeError A
ok_or refusal none = err refusal
ok_or refusal (some a) = ok a

-- The five parts of the key, one behind the other.
unfoldable pub key_bytes : ℕ → ℕ → Bytes → Bytes → ℕ → Bytes
key_bytes words n0inv modulus rr exponent =
    to_le_bytes words
    ++ (to_le_bytes n0inv
        ++ (resize (words * 4) modulus ++ (resize (words * 4) rr ++ to_le_bytes exponent)))

module _ (numbers : Numbers) where
  open numbers use {to_bytes_le, from_bytes_le, modpow, mod_inverse, parse_binary, base64}

  -- `ADBRsaInternalPublicKey::into_bytes`
  unfoldable pub into_bytes : InternalPublicKey → Result EncodeError Bytes
  into_bytes key =
      let integer_size = key.modulus_size_words * 4 in
      let modulus = to_bytes_le key.modulus in
      if not (leb (length modulus) integer_size) || not (leb (length key.rr) integer_size)
      then err assertion_failed
      else ok (key_bytes key.modulus_size_words key.n0inv modulus key.rr key.exponent)

  unfoldable pub set_bit : ℕ → Result EncodeError ℕ
  set_bit n = ok_or conversion_error (parse_binary (b'1' ∷ replicate n b'0'))

  unfoldable pub encode_public_key : Bytes → Bytes → Bytes
  encode_public_key version pub_key = base64 pub_key ++ (bytes " adb_client@" ++ version)

  -- `ADBRsaKey::android_pubkey_encode`, of a key with this modulus and this exponent.
  unfoldable pub android_pubkey_encode : Bytes → ℕ → ℕ → Result EncodeError Bytes
  android_pubkey_encode version n e = do
    exponent ← to_u32 conversion_error e
    r ← set_bit private_key_size
    let rr = modpow r 2 n
    inverse ← ok_or conversion_error (mod_inverse (n % 2 ^ 32) (2 ^ 32))
    n0inv ← to_u32 conversion_error (2 ^ 32 - inverse)
    pub_key ← into_bytes (record {
      modulus_size_words = modulus_size_words_of_android;
      n0inv = n0inv;
      modulus = n;
      rr = to_bytes_le rr;
      exponent = exponent;
    })
    ok (encode_public_key version pub_key)

  -- `AdbKey::android_public_key` of adb_proto.
  unfoldable pub android_public_key : Bytes → ℕ → ℕ → Result EncodeError Bytes
  android_public_key comment n e = do
    let modulus = from_bytes_le (to_bytes_le n)
    exponent ← to_u32 exponent_too_large e
    let rr = modpow (2 ^ private_key_size) 2 modulus
    inverse ← ok_or modulus_not_invertible (mod_inverse (modulus % 2 ^ 32) (2 ^ 32))
    n0inv ← to_u32 n0inv_too_large (2 ^ 32 - inverse)
    let raw =
        key_bytes modulus_size_words_of_android n0inv (to_bytes_le modulus) (to_bytes_le rr)
          exponent
    ok (base64 raw ++ (b' ' ∷ (comment ++ 0 ∷ [])))
