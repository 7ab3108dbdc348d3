-- ===== src/Client/PublicKey/Layout.antt =====
-- What Android reads from the key, and that both crates make the same.
use adb_client.Base.{
  leb, lt→ltb, length, take, drop, replicate, slice, length-append, length-take, take-length-append,
  drop-length-append, ℕ, zero, suc, ◌+◌, ◌-◌, ◌*◌, ◌/◌, ◌%◌, ◌^◌, ◌≤◌, ◌<◌, ◌≡◌, refl, sym, ap, ◌∙◌,
  true, some, [], ◌∷◌, ◌++◌, append_assoc, arith,
}
use mathlib.Core.Path.{subst}
use adb_client.Base.Bytes.{Bytes, bytes}
use adb_client.Base.Outcome.{ok}
use adb_client.Base.Words.{to_le_bytes, from_le_bytes, from_le_bytes-to_le_bytes}
use adb_client.Client.PublicKey.{
  EncodeError, conversion_error, exponent_too_large, n0inv_too_large, Numbers, resize, to_u32,
  ok_or, key_bytes, into_bytes, set_bit, encode_public_key, android_pubkey_encode,
  android_public_key,
}

-- What the libraries promise. `mod_inverse` finds an inverse of each odd number modulo 2^32.
pub record IsFaithful (numbers : Numbers) : Type 0 where
  pub from_le_bytes-to_bytes_le : (n : ℕ) → from_le_bytes (numbers.to_bytes_le n) ≡ n
  pub length-to_bytes_le : (n : ℕ) → n < 2 ^ 2048 → length (numbers.to_bytes_le n) ≤ 256
  pub from_bytes_le-to_bytes_le : (n : ℕ) → numbers.from_bytes_le (numbers.to_bytes_le n) ≡ n
  pub modpow_lem :
      (base exponent modulus : ℕ)
      → 0 < modulus
      → numbers.modpow base exponent modulus ≡ base ^ exponent % modulus
  pub mod_inverse_odd :
      (n : ℕ)
      → n % 2 ≡ 1
      → (v : ℕ) × ((numbers.mod_inverse n (2 ^ 32) ≡ some v)
          × ((v < 2 ^ 32) × (n * v % 2 ^ 32 ≡ 1)))
  pub parse_binary_lem : (n : ℕ) → numbers.parse_binary (b'1' ∷ replicate n b'0') ≡ some (2 ^ n)

-- `RSAPublicKey` of Android, as its bytes are read: the modulus in words, -1/n mod 2^32, the modulus,
-- the square of 2^2048 mod n, and the exponent.
pub record IsAndroidKey (n e : ℕ) (raw : Bytes) : Type 0 where
  pub size : length raw ≡ 524
  pub words : from_le_bytes (slice 0 4 raw) ≡ 64
  pub n0inv : (from_le_bytes (slice 4 8 raw) * n + 1) % 2 ^ 32 ≡ 0
  pub modulus : from_le_bytes (slice 8 264 raw) ≡ n
  pub rr : from_le_bytes (slice 264 520 raw) ≡ 2 ^ 4096 % n
  pub exponent : from_le_bytes (slice 520 524 raw) ≡ e

take_exact : (n : ℕ) (xs ys : Bytes) → length xs ≡ n → take n (xs ++ ys) ≡ xs
take_exact n xs ys h = ap (λ k. take k (xs ++ ys)) (sym h) ∙ take-length-append xs ys

drop_exact : (n : ℕ) (xs ys : Bytes) → length xs ≡ n → drop n (xs ++ ys) ≡ ys
drop_exact n xs ys h = ap (λ k. drop k (xs ++ ys)) (sym h) ∙ drop-length-append xs ys

length-replicate : (n a : ℕ) → length (replicate n a) ≡ n
length-replicate zero a = refl
length-replicate (suc n) a = omega (arith, length-replicate n a)

from_le_bytes-zeros : (n : ℕ) → from_le_bytes (replicate n 0) ≡ 0
from_le_bytes-zeros zero = refl
from_le_bytes-zeros (suc n) = omega (arith, from_le_bytes-zeros n)

from_le_bytes-append_zeros :
    (bs : Bytes) (n : ℕ) → from_le_bytes (bs ++ replicate n 0) ≡ from_le_bytes bs
from_le_bytes-append_zeros [] n = from_le_bytes-zeros n
from_le_bytes-append_zeros (b ∷ bs) n = omega (arith, from_le_bytes-append_zeros bs n)

take_all : (n : ℕ) (bs : Bytes) → length bs ≤ n → take n bs ≡ bs
take_all zero [] h = refl
take_all zero (b ∷ bs) h = absurd (omega arith)
take_all (suc n) [] h = refl
take_all (suc n) (b ∷ bs) h = ap (λ rest. b ∷ rest) (take_all n bs (omega arith))

-- A number that fits keeps its value in the wider array.
resized :
    (n : ℕ) (bs : Bytes)
    → length bs ≤ n
    → (length (resize n bs) ≡ n) × (from_le_bytes (resize n bs) ≡ from_le_bytes bs)
unfolding resize
resized n bs h = (
  omega (
    arith,
    length-append (take n bs) (replicate (n - length bs) 0),
    length-replicate (n - length bs) 0,
    length-take n bs,
  ),
  ap (λ front. from_le_bytes (front ++ replicate (n - length bs) 0)) (take_all n bs h)
      ∙ from_le_bytes-append_zeros bs (n - length bs),
)

-- Behind the two words in front.
drop_words :
    (n a b : ℕ) (rest : Bytes)
    → drop
        (suc (suc (suc (suc (suc (suc (suc (suc n))))))))
        (to_le_bytes a ++ (to_le_bytes b ++ rest))
      ≡ drop n rest
drop_words n a b rest = refl

-- Two arrays of 256 bytes behind two words, and a word behind them.
module _ (a b e : ℕ) (m r : Bytes) (p : length m ≡ 256) (q : length r ≡ 256) where
  laid : Bytes
  laid = to_le_bytes a ++ (to_le_bytes b ++ (m ++ (r ++ to_le_bytes e)))

  first_array : slice 8 264 laid ≡ m
  unfolding laid
  first_array = take_exact 256 m (r ++ to_le_bytes e) p

  second_array : slice 264 520 laid ≡ r
  unfolding laid
  second_array =
      ap (take 256)
        (drop_words 256 a b (m ++ (r ++ to_le_bytes e)) ∙ drop_exact 256 m (r ++ to_le_bytes e) p)
      ∙ take_exact 256 r (to_le_bytes e) q

  last_word : slice 520 524 laid ≡ to_le_bytes e
  unfolding laid
  last_word =
      let both : length (m ++ r) ≡ 512 = omega (arith, length-append m r) in
      ap (take 4) (
        drop_words 512 a b (m ++ (r ++ to_le_bytes e))
        ∙ ap (drop 512) (sym (append_assoc m r (to_le_bytes e)))
        ∙ drop_exact 512 (m ++ r) (to_le_bytes e) both)

  length-laid : length laid ≡ 524
  unfolding laid
  length-laid = omega (arith, length-append m (r ++ to_le_bytes e), length-append r (to_le_bytes e))

negated_by : (n v w : ℕ) → w + v ≡ 2 ^ 32 → (n % 2 ^ 32 * v) % 2 ^ 32 ≡ 1 → (w * n + 1) % 2 ^ 32 ≡ 0
negated_by n v w h e =
    let both = ap (λ (t : ℕ). t * n) h in
    let high : n ≡ 2 ^ 32 * (n / 2 ^ 32) + n % 2 ^ 32 = omega arith in
    let split = ap (λ (t : ℕ). v * t) high in omega (arith, both, split, e)

-- The negative inverse of the lowest word of the modulus is that of the whole modulus.
negated :
    (n v : ℕ) → v < 2 ^ 32 → (n % 2 ^ 32 * v) % 2 ^ 32 ≡ 1 → ((2 ^ 32 - v) * n + 1) % 2 ^ 32 ≡ 0
negated n v h e = negated_by n v (2 ^ 32 - v) (omega arith) e

mod_below : (a n bound : ℕ) → 0 < n → n < bound → a % n < bound
mod_below a n bound p q = grind arith

inverse_positive : (n v : ℕ) → (n * v) % 2 ^ 32 ≡ 1 → 0 < v
inverse_positive n zero e = ground (arith, e)
inverse_positive n (suc v) e = omega arith

module _ (numbers : Numbers) (laws : IsFaithful numbers) where
  -- The bytes of the key, with `v` the inverse that the library finds.
  abbrev raw_key : ℕ → ℕ → ℕ → Bytes
  raw_key n e v =
      key_bytes 64 (2 ^ 32 - v) (numbers.to_bytes_le n)
        (numbers.to_bytes_le (numbers.modpow (2 ^ 2048) 2 n)) e

  raw_key-IsAndroidKey :
      (n e v : ℕ)
      → 0 < n
      → n < 2 ^ 2048
      → e < 2 ^ 32
      → v < 2 ^ 32
      → (n % 2 ^ 32 * v) % 2 ^ 32 ≡ 1
      → IsAndroidKey n e (raw_key n e v)
  unfolding key_bytes laid
  raw_key-IsAndroidKey n e v positive fits small below inverse =
      let m = resize 256 (numbers.to_bytes_le n) in
      let rr = numbers.modpow (2 ^ 2048) 2 n in
      let r = resize 256 (numbers.to_bytes_le rr) in
      let square = laws.modpow_lem (2 ^ 2048) 2 n positive in
      let rr_fits : rr < 2 ^ 2048 =
        subst (λ k. k < 2 ^ 2048) (sym square)
          (mod_below ((2 ^ 2048) ^ 2) n (2 ^ 2048) positive fits) in
      let (m_size, m_value) =
        resized 256 (numbers.to_bytes_le n) (laws.length-to_bytes_le n fits) in
      let (r_size, r_value) =
        resized 256 (numbers.to_bytes_le rr) (laws.length-to_bytes_le rr rr_fits) in
      let positive_v = inverse_positive (n % 2 ^ 32) v inverse in
      record {
        size = length-laid 64 (2 ^ 32 - v) e m r m_size r_size;
        words = refl;
        n0inv =
            ap (λ w. (w * n + 1) % 2 ^ 32) (from_le_bytes-to_le_bytes (2 ^ 32 - v) (omega arith))
            ∙ negated n v below inverse;
        modulus =
            ap from_le_bytes (first_array 64 (2 ^ 32 - v) e m r m_size r_size)
            ∙ m_value
            ∙ laws.from_le_bytes-to_bytes_le n;
        rr =
            ap from_le_bytes (second_array 64 (2 ^ 32 - v) e m r m_size r_size)
            ∙ r_value
            ∙ laws.from_le_bytes-to_bytes_le rr
            ∙ square;
        exponent =
            ap from_le_bytes (last_word 64 (2 ^ 32 - v) e m r m_size r_size)
            ∙ from_le_bytes-to_le_bytes e small;
      }

  to_u32_fits : (refusal : EncodeError) (n : ℕ) → n < 2 ^ 32 → to_u32 refusal n ≡ ok n
  unfolding to_u32
  to_u32_fits refusal n h = rw (lt→ltb n (2 ^ 32) h) refl

  set_bit_lem : (n : ℕ) → set_bit numbers n ≡ ok (2 ^ n)
  unfolding set_bit ok_or
  set_bit_lem n = ap (ok_or conversion_error) (laws.parse_binary_lem n)

  fits_array : (n : ℕ) → n < 2 ^ 2048 → leb (length (numbers.to_bytes_le n)) 256 ≡ true
  fits_array n h = let below = laws.length-to_bytes_le n h in ground arith

  encoded :
      (version comment : Bytes) (n e v : ℕ)
      → 0 < n
      → n < 2 ^ 2048
      → e < 2 ^ 32
      → numbers.mod_inverse (n % 2 ^ 32) (2 ^ 32) ≡ some v
      → 0 < v
      → (android_pubkey_encode numbers version n e
          ≡ ok (numbers.base64 (raw_key n e v) ++ (bytes " adb_client@" ++ version)))
        × (android_public_key numbers comment n e
            ≡ ok (numbers.base64 (raw_key n e v) ++ (b' ' ∷ (comment ++ 0 ∷ []))))
  unfolding android_pubkey_encode android_public_key encode_public_key into_bytes ok_or
  encoded version comment n e v positive fits small found positive_v =
      let square = laws.modpow_lem (2 ^ 2048) 2 n positive in
      let rr = numbers.modpow (2 ^ 2048) 2 n in
      let rr_fits : rr < 2 ^ 2048 =
        subst (λ k. k < 2 ^ 2048) (sym square)
          (mod_below ((2 ^ 2048) ^ 2) n (2 ^ 2048) positive fits) in
      (
        rw
            (
              to_u32_fits conversion_error e small,
              set_bit_lem 2048,
              found,
              to_u32_fits conversion_error (2 ^ 32 - v) (omega arith),
              fits_array n fits,
              fits_array rr rr_fits,
            )
            refl,
        rw
            (
              to_u32_fits exponent_too_large e small,
              laws.from_bytes_le-to_bytes_le n,
              found,
              to_u32_fits n0inv_too_large (2 ^ 32 - v) (omega arith),
            )
            refl,
      )

  -- The laws of the libraries hold. For each key with an odd modulus below 2^2048 and an exponent
  -- of 32 bits, both crates make the key as text from the same 524 bytes, which Android reads as
  -- that modulus and that exponent, with the negative inverse of the modulus and the square of
  -- 2^2048 that it computes with. adb_proto has the comment of its caller and a zero at the end.
  pub android_pubkey_encode-IsAndroidKey :
      (version comment : Bytes) (n e : ℕ)
      → n % 2 ≡ 1
      → n < 2 ^ 2048
      → e < 2 ^ 32
      → (raw : Bytes) × (IsAndroidKey n e raw
          × ((android_pubkey_encode numbers version n e
                ≡ ok (numbers.base64 raw ++ (bytes " adb_client@" ++ version)))
              × (android_public_key numbers comment n e
                  ≡ ok (numbers.base64 raw ++ (b' ' ∷ (comment ++ 0 ∷ []))))))
  unfolding android_pubkey_encode android_public_key encode_public_key
  android_pubkey_encode-IsAndroidKey version comment n e odd fits small =
      let (v, (found, (below, inverse))) = laws.mod_inverse_odd (n % 2 ^ 32) (omega arith) in
      let positive_v = inverse_positive (n % 2 ^ 32) v inverse in
      let key = raw_key-IsAndroidKey n e v (omega arith) fits small below inverse in
      (
        raw_key n e v,
        (key, encoded version comment n e v (omega arith) fits small found positive_v),
      )
