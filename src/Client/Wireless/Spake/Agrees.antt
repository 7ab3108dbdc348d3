-- ===== src/Client/Wireless/Spake/Agrees.antt =====
-- The client and a device that know the same password get the same key.
use adb_client.Base.{length, All, ℕ, ◌≡◌, refl, ap, ◌∙◌, some, List, [], ◌∷◌, ◌++◌}
use adb_client.Base.Bytes.{Bytes}
use adb_client.Base.Outcome.{ok}
use adb_client.Base.Words.{IsByte, from_le_bytes}
use adb_client.Client.Wireless.Scalars.{shift_left_three, clear_cofactor_bits, multiply_raw}
use adb_client.Client.Wireless.Scalars.Sums.{shift_left_three-IsByte, clear_cofactor_bits-IsByte}
use adb_client.Client.Wireless.Scalars.Multiples.{multiple, times-swap, multiply_raw-multiple}
use adb_client.Client.Wireless.Spake.{
  Library, SpakeState, u64_le, client_name, server_name, transcript_of, spake_m, spake_n,
  transcript, decode_point, start, finish, point_of,
}

-- Values one behind the other, each behind its length as eight bytes.
abbrev pub sized : List Bytes → Bytes
sized [] = []
sized (value ∷ values) = u64_le 8 (length value) ++ (value ++ sized values)

transcript-sized :
    (message peer_message shared password_hash : Bytes)
    → transcript message peer_message shared password_hash
      ≡ sized (client_name ∷ server_name ∷ message ∷ peer_message ∷ shared ∷ password_hash ∷ [])
unfolding transcript transcript_of
transcript-sized message peer_message shared password_hash = refl

-- What the libraries promise: the points are a group, and each is read back from its 32 bytes.
pub record IsLawful (library : Library) : Type 0 where
  pub left_identity : (p : library.Point) → library.add library.identity p ≡ p
  pub right_identity : (p : library.Point) → library.add p library.identity ≡ p
  pub associative :
      (p q r : library.Point) → library.add (library.add p q) r ≡ library.add p (library.add q r)
  pub sub-add : (p q : library.Point) → library.sub (library.add p q) q ≡ p
  pub decompress-compress : (p : library.Point) → library.decompress (library.compress p) ≡ some p
  pub length-compress : (p : library.Point) → length (library.compress p) ≡ 32
  pub reduce-IsByte : (bs : Bytes) → All IsByte (library.reduce bs)

module _ (library : Library) where
  -- The device's side, in multiples: its secret is `y`, and the number for the password is `w`.
  abbrev pub sum_of : library.Point → ℕ → library.Point
  sum_of = multiple library.identity library.add

  abbrev pub device_message : library.Point → ℕ → ℕ → Bytes
  device_message mask_n y w =
      library.compress (library.add (sum_of library.base_point y) (sum_of mask_n w))

  abbrev pub device_shared : library.Point → ℕ → ℕ → library.Point → Bytes
  device_shared mask_m y w client_point =
      library.compress (sum_of (library.sub client_point (sum_of mask_m w)) y)

  abbrev pub password_number : Bytes → ℕ
  password_number password =
      from_le_bytes (clear_cofactor_bits (library.reduce (library.sha512 password)))

  -- The key that a device gets from the client's message: it subtracts the mask for the password.
  abbrev pub device_key : library.Point → library.Point → ℕ → Bytes → Bytes → library.Point → Bytes
  device_key mask_m mask_n y password message client_point =
      let w = password_number password in
      library.sha512 (
        sized (
          client_name
          ∷ server_name
          ∷ message
          ∷ device_message mask_n y w
          ∷ device_shared mask_m y w client_point
          ∷ library.sha512 password
          ∷ []))

module _ (library : Library) (laws : IsLawful library) where
  scaled :
      (p : library.Point) (scalar : Bytes)
      → All IsByte scalar
      → multiply_raw library.identity library.add p scalar ≡ sum_of library p (from_le_bytes scalar)
  scaled p scalar h =
      multiply_raw-multiple library.identity library.add laws.left_identity laws.right_identity
        laws.associative p scalar h

  decoded :
      (bs : Bytes) (p : library.Point)
      → library.decompress bs ≡ some p
      → decode_point library bs ≡ ok p
  unfolding decode_point point_of
  decoded bs p h = ap point_of h

  -- Without their masks, both points are the same multiple of the base point.
  shared_point :
      (a w : Bytes) (y : ℕ) (mask_m mask_n : library.Point)
      → All IsByte a
      → All IsByte w
      → multiply_raw library.identity library.add
          (library.sub
            (library.add
              (sum_of library library.base_point y)
              (sum_of library mask_n (from_le_bytes w)))
            (multiply_raw library.identity library.add mask_n w))
          a
        ≡ sum_of library
            (library.sub
              (library.add
                (multiply_raw library.identity library.add library.base_point a)
                (multiply_raw library.identity library.add mask_m w))
              (sum_of library mask_m (from_le_bytes w)))
            y
  shared_point a w y mask_m mask_n a_bytes w_bytes =
      rw
        (
          scaled mask_n w w_bytes,
          scaled mask_m w w_bytes,
          scaled library.base_point a a_bytes,
          laws.sub-add (sum_of library library.base_point y)
              (sum_of library mask_n (from_le_bytes w)),
          laws.sub-add (sum_of library library.base_point (from_le_bytes a))
              (sum_of library mask_m (from_le_bytes w)),
        )
        (scaled (sum_of library library.base_point y) a a_bytes
          ∙ times-swap library.identity library.add laws.left_identity laws.right_identity
              laws.associative library.base_point y (from_le_bytes a))

  -- Whatever the random numbers and the password are, and whatever the device's secret is: the
  -- client starts with a message that stands for a point, and from the message of a device with the
  -- same password it gets the key that the device gets: the hash of both names, the client's message,
  -- the device's, the shared point and the hash of the password, each behind its length. The
  -- libraries keep the laws of a group.
  pub finish-device_key :
      (random password : Bytes) (y : ℕ) (mask_m mask_n : library.Point)
      → library.decompress spake_m ≡ some mask_m
      → library.decompress spake_n ≡ some mask_n
      → (state : SpakeState) × ((start library random password ≡ ok (state, state.message))
          × ((client_point : library.Point) × ((library.decompress state.message
                  ≡ some client_point)
                × (finish library state
                      (device_message library mask_n y (password_number library password))
                    ≡ ok
                        (device_key library mask_m mask_n y password state.message client_point)))))
  unfolding start finish
  finish-device_key random password y mask_m mask_n m n =
      let a = shift_left_three (library.reduce random) in
      let w = clear_cofactor_bits (library.reduce (library.sha512 password)) in
      let a_bytes = shift_left_three-IsByte _ (laws.reduce-IsByte random) in
      let w_bytes = clear_cofactor_bits-IsByte _ (laws.reduce-IsByte (library.sha512 password)) in
      let device_point =
        library.add (sum_of library library.base_point y)
          (sum_of library mask_n (from_le_bytes w)) in
      let public = multiply_raw library.identity library.add library.base_point a in
      let masked = multiply_raw library.identity library.add mask_m w in
      let client_point = library.add public masked in
      let message = library.compress client_point in
      let state : SpakeState = record {
        private_scalar = a;
        password_scalar = w;
        password_hash = library.sha512 password;
        message = message;
      } in
      (
        state,
        (
          rw (decoded spake_m mask_m m) refl,
          (
            client_point,
            (
              laws.decompress-compress client_point,
              rw
                  (
                    laws.length-compress device_point,
                    decoded _ _ (laws.decompress-compress device_point),
                    decoded spake_n mask_n n,
                  )
                  (ap
                      (λ p. ok (
                        library.sha512 (
                          transcript message (library.compress device_point) (library.compress p)
                            (library.sha512 password))))
                      (shared_point a w y mask_m mask_n a_bytes w_bytes)
                    ∙ ap (λ bs. ok (library.sha512 bs))
                        (transcript-sized message (library.compress device_point)
                          (device_shared library mask_m y (from_le_bytes w) client_point)
                          (library.sha512 password))),
            ),
          ),
        ),
      )
