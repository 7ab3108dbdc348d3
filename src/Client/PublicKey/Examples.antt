-- ===== src/Client/PublicKey/Examples.antt =====
-- The theorem about the public key at a small modulus, with libraries that compute.
use adb_client.Base.{
  ◌==◌, if◌then◌else◌, Bool-cases, length, replicate, ℕ, zero, suc, ◌+◌, ◌-◌, ◌*◌, ◌/◌, ◌%◌, ◌^◌,
  ◌≤◌, ◌<◌, ◌≡◌, refl, ap, ◌∙◌, inl, inr, Option, none, some, [], ◌∷◌, ◌++◌, arith,
}
use Prim.Native.Nat.pow
use adb_client.Base.Bytes.{Bytes, bytes}
use adb_client.Base.Outcome.{ok}
use adb_client.Base.Words.{from_le_bytes}
use adb_client.Client.PublicKey.{Numbers, android_pubkey_encode, android_public_key}
use adb_client.Client.PublicKey.Layout.{
  IsFaithful, IsAndroidKey, android_pubkey_encode-IsAndroidKey,
}

digits : ℕ → ℕ → Bytes
digits zero n = []
digits (suc fuel) n = let rest = digits fuel (n / 256) in if n == 0 then [] else (n % 256) ∷ rest

from_le_bytes-digits : (fuel n : ℕ) → n ≤ fuel → from_le_bytes (digits fuel n) ≡ n
unfolding digits
from_le_bytes-digits zero n h = omega arith
from_le_bytes-digits (suc fuel) n h = ground (arith, from_le_bytes-digits fuel (n / 256))

length-digits : (k fuel n : ℕ) → n < 256 ^ k → length (digits fuel n) ≤ k
unfolding digits
length-digits k zero n h = omega arith
length-digits zero (suc fuel) n h = ground arith
length-digits (suc k) (suc fuel) n h = ground (arith, length-digits k fuel (n / 256))

binary : ℕ → Bytes → Option ℕ
binary acc [] = some acc
binary acc (b ∷ bs) = binary (2 * acc + (b - b'0')) bs

binary-zeros : (acc n : ℕ) → binary acc (replicate n b'0') ≡ some (acc * 2 ^ n)
unfolding binary
binary-zeros acc zero = ap some (omega arith)
binary-zeros acc (suc n) =
    let product = ap (λ (t : ℕ). acc * t) (pow.suc 2 n) in
    binary-zeros (2 * acc + 0) n ∙ ap some (omega (arith, product))

-- One bit more of an inverse `v`, where n * v is 1 + p * q.
lift : ℕ → ℕ → ℕ → ℕ × ℕ → ℕ × ℕ
lift n zero p state = state
lift n (suc k) p (v, q) =
    lift n k (2 * p) (if q % 2 == 0 then v else v + p, if q % 2 == 0 then q / 2 else (q + n) / 2)

abbrev doubled : ℕ → ℕ → ℕ
doubled zero p = p
doubled (suc k) p = doubled k (2 * p)

even_step : (n p v q r : ℕ) → q ≡ 2 * r → n * v ≡ 1 + p * q → n * v ≡ 1 + 2 * p * r
even_step n p v q r h e = let product = ap (λ (t : ℕ). p * t) h in omega (arith, e, product)

odd_step :
    (n p v q r a : ℕ)
    → q ≡ 2 * r + 1
    → n ≡ 2 * a + 1
    → n * v ≡ 1 + p * q
    → n * (v + p) ≡ 1 + 2 * p * (r + a + 1)
odd_step n p v q r a h k e =
    let product = ap (λ (t : ℕ). p * t) h in
    let other = ap (λ (t : ℕ). t * p) k in omega (arith, e, product, other)

lifted :
    (n k p v q : ℕ)
    → n % 2 ≡ 1
    → v < p
    → n * v ≡ 1 + p * q
    → ((lift n k p (v, q)).0 < doubled k p)
      × (n * (lift n k p (v, q)).0 ≡ 1 + doubled k p * (lift n k p (v, q)).1)
unfolding lift
lifted n zero p v q odd below e = (below, e)
lifted n (suc k) p v q odd below e = elim (Bool-cases (q % 2 == 0)) [
  | inl even ↦
      rw (even, lift)
        (lifted n k (2 * p) v (q / 2) odd (omega arith)
          (even_step n p v q (q / 2) (ground arith) e))
  | inr uneven ↦
      rw (uneven, lift)
        (lifted n k (2 * p) (v + p) ((q + n) / 2) odd (omega arith) (
          odd_step n p v q (q / 2) (n / 2) (ground arith) (omega arith) e
          ∙ ap (λ r. 1 + 2 * p * r) (ground arith)))
]

inverse : ℕ → ℕ
inverse n = (lift n 31 2 (1, n / 2)).0

inverse-lem : (n : ℕ) → n % 2 ≡ 1 → (inverse n < 2 ^ 32) × (n * inverse n % 2 ^ 32 ≡ 1)
unfolding inverse
inverse-lem n odd =
    let (below, e) = lifted n 31 2 1 (n / 2) odd (omega arith) (omega arith) in
    (omega (arith, below), omega (arith, e))

inverse_of : ℕ → ℕ → Option ℕ
inverse_of n m = if n % 2 == 1 then some (inverse n) else none

parse : Bytes → Option ℕ
unfolding binary
parse bs = binary 0 bs

abbrev computing : Numbers
computing = record {
  to_bytes_le = λ n. digits n n;
  from_bytes_le = from_le_bytes;
  modpow = λ base exponent modulus. base ^ exponent % modulus;
  mod_inverse = inverse_of;
  parse_binary = parse;
  base64 = λ bs. bs;
}

found : (n : ℕ) → n % 2 ≡ 1 → inverse_of n (2 ^ 32) ≡ some (inverse n)
unfolding inverse_of
found n odd = rw odd refl

parsed : (n : ℕ) → parse (b'1' ∷ replicate n b'0') ≡ some (2 ^ n)
unfolding parse
parsed n = binary-zeros 1 n ∙ ap some (omega arith)

computing-IsFaithful : IsFaithful computing
computing-IsFaithful = record {
  from_le_bytes-to_bytes_le = λ n. from_le_bytes-digits n n (omega arith);
  length-to_bytes_le = λ n h. length-digits 256 n n h;
  from_bytes_le-to_bytes_le = λ n. from_le_bytes-digits n n (omega arith);
  modpow_lem = λ base exponent modulus h. refl;
  mod_inverse_odd = λ n odd. (inverse n, (found n odd, inverse-lem n odd));
  parse_binary_lem = parsed;
}

android_pubkey_encode-IsAndroidKey_example :
    (raw : Bytes) × (IsAndroidKey 3233 17 raw
      × ((android_pubkey_encode computing (bytes "2.1.0") 3233 17
            ≡ ok (raw ++ (bytes " adb_client@" ++ bytes "2.1.0")))
          × (android_public_key computing (bytes "me") 3233 17
              ≡ ok (raw ++ (b' ' ∷ (bytes "me" ++ 0 ∷ []))))))
android_pubkey_encode-IsAndroidKey_example =
    android_pubkey_encode-IsAndroidKey computing computing-IsFaithful (bytes "2.1.0") (bytes "me")
      3233 17 refl (omega arith) (omega arith)
