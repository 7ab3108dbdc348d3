-- ===== src/Client/Wireless/Examples.antt =====
-- The theorems about pairing at concrete inputs.
use adb_client.Base.{
  if◌then◌else◌, length, replicate, ℕ, ◌+◌, ◌*◌, ◌%◌, ◌<◌, ◌≡◌, refl, ◌⊎◌, Bool, true, false, not,
  Option, none, some, ◌∷◌, ◌++◌, arith,
}
use adb_client.Base.Bytes.{Bytes, bytes, bytes_eq}
use adb_client.Base.Outcome.{ok, err}
use adb_client.Base.Utf8.{from_utf8_lossy, is_utf8}
use adb_client.Base.Words.{from_le_bytes}
use adb_client.Client.Wireless.{
  invalid_length, max_pairing_payload, write_packet, read_packet, invalid_code, invalid_password,
  check_pairing_code, all_bytes, read_pairing_password,
}
use adb_client.Client.Wireless.Packets.{read_packet-write_packet}
use adb_client.Client.Wireless.Scalars.{group_order, clear_cofactor_bits}
use adb_client.Client.Wireless.Scalars.Sums.{clear_cofactor_bits-residue}
use adb_client.Client.Wireless.Spake.{Library, SpakeState, spake_m, spake_n, start, finish}
use adb_client.Client.Wireless.Spake.Agrees.{
  IsLawful, device_message, device_key, password_number, finish-device_key,
}

codes :
    (check_pairing_code (bytes "12a456") ≡ err invalid_code)
    × (check_pairing_code (bytes "123456") ≡ ok tt)
unfolding check_pairing_code all_bytes
codes = (refl, refl)

passwords :
    (read_pairing_password (bytes "secret\n") ≡ err invalid_password)
    × (read_pairing_password (bytes "(Aq+v9>Cx>!/") ≡ ok (bytes "(Aq+v9>Cx>!/"))
unfolding read_pairing_password all_bytes is_utf8 from_utf8_lossy bytes_eq
passwords = (refl, refl)

abbrev odd_scalar : Bytes
odd_scalar = 7 ∷ replicate 31 1

clear_cofactor_bits-residue_example :
    (k : ℕ) × ((k < 8)
      × ((from_le_bytes (clear_cofactor_bits odd_scalar)
            ≡ from_le_bytes odd_scalar + k * from_le_bytes group_order)
          × (from_le_bytes (clear_cofactor_bits odd_scalar) % 8 ≡ 0)))
clear_cofactor_bits-residue_example = clear_cofactor_bits-residue odd_scalar refl (omega arith)

-- A group of two points, of which `true` is the base point.
abbrev sum : Bool → Bool → Bool
sum true q = not q
sum false q = q

abbrev packed : Bool → Bytes
packed true = spake_n
packed false = spake_m

unfoldable unpacked : Bytes → Option Bool
unpacked bs =
    if bytes_eq bs spake_n then some true else if bytes_eq bs spake_m then some false else none

abbrev two_points : Library
two_points = record {
  Point = Bool;
  identity = false;
  add = sum;
  sub = sum;
  base_point = true;
  compress = packed;
  decompress = unpacked;
  reduce = λ bs. (length bs % 256) ∷ replicate 31 0;
  sha512 = λ bs. bs;
}

packed-lem : (p : Bool) → unpacked (packed p) ≡ some p
unfolding unpacked bytes_eq
packed-lem true = refl
packed-lem false = refl

length-packed : (p : Bool) → length (packed p) ≡ 32
length-packed true = refl
length-packed false = refl

sum_identity : (p : Bool) → sum p false ≡ p
sum_identity true = refl
sum_identity false = refl

sum_assoc : (p q r : Bool) → sum (sum p q) r ≡ sum p (sum q r)
sum_assoc true true true = refl
sum_assoc true true false = refl
sum_assoc true false r = refl
sum_assoc false q r = refl

sum_back : (p q : Bool) → sum (sum p q) q ≡ p
sum_back true true = refl
sum_back true false = refl
sum_back false true = refl
sum_back false false = refl

two_points-IsLawful : IsLawful two_points
two_points-IsLawful = record {
  left_identity = λ p. refl;
  right_identity = sum_identity;
  associative = sum_assoc;
  sub-add = sum_back;
  decompress-compress = packed-lem;
  length-compress = length-packed;
  reduce-IsByte = λ bs. omega arith;
}

-- The client's secret is for 3 random bytes and the password for 6 digits, and the device's is 5.
finish-device_key_example :
    (state : SpakeState) × ((start two_points (bytes "abc") (bytes "123456")
        ≡ ok (state, state.message))
      × ((client_point : Bool) × ((unpacked state.message ≡ some client_point)
            × (finish two_points state
                  (device_message two_points true 5 (password_number two_points (bytes "123456")))
                ≡ ok (
                    device_key two_points false true 5
                      (bytes "123456")
                      state.message
                      client_point)))))
finish-device_key_example =
    finish-device_key two_points two_points-IsLawful (bytes "abc") (bytes "123456") 5 false true
      (packed-lem false) (packed-lem true)

read_packet-write_packet_example :
    (((length (bytes "hello") ≡ 0) ⊎ (max_pairing_payload < length (bytes "hello")))
      × (write_packet 1 (bytes "hello") ≡ err invalid_length))
    ⊎ ((sent : Bytes) × ((write_packet 1 (bytes "hello") ≡ ok sent)
          × (read_packet 1 (sent ++ bytes "more") ≡ ok (bytes "hello", bytes "more"))))
read_packet-write_packet_example = read_packet-write_packet 1 (bytes "hello") (bytes "more")
