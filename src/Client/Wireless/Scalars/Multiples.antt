-- ===== src/Client/Wireless/Scalars/Multiples.antt =====
-- What `multiply_raw` computes: the sum of as many points as the scalar says.
use adb_client.Base.{
  ◌==◌, if◌then◌else◌, All, ℕ, zero, suc, ◌+◌, ◌*◌, ◌/◌, ◌%◌, ◌^◌, ◌<◌, ◌≡◌, refl, sym, ap, ◌∙◌,
  List, [], ◌∷◌, arith,
}
use mathlib.Core.Path.{ap₂, subst}
use adb_client.Base.Bytes.{Bytes}
use adb_client.Base.Words.{IsByte, from_le_bytes}
use adb_client.Client.Wireless.Scalars.{multiply_bit, multiply_bits, multiply_bytes, multiply_raw}

-- A point added to itself `n` times.
abbrev pub multiple {ℓ} : {Point : Type ℓ} → Point → (Point → Point → Point) → Point → ℕ → Point
multiple identity add p zero = identity
multiple identity add p (suc n) = add p (multiple identity add p n)

module _ {Point : Type 0} (identity : Point) (add : Point → Point → Point)
    (left_identity : (p : Point) → add identity p ≡ p)
    (right_identity : (p : Point) → add p identity ≡ p)
    (associative : (p q r : Point) → add (add p q) r ≡ add p (add q r)) where
  pub times-add :
      (p : Point) (m n : ℕ)
      → add (multiple identity add p m) (multiple identity add p n)
        ≡ multiple identity add p (m + n)
  times-add p zero n =
      left_identity (multiple identity add p n) ∙ ap (multiple identity add p) (omega arith)
  times-add p (suc m) n =
      associative p (multiple identity add p m) (multiple identity add p n)
      ∙ ap (add p) (times-add p m n)
      ∙ ap (multiple identity add p) {x = suc (m + n)} (omega arith)

  times-mul :
      (p : Point) (m n : ℕ)
      → multiple identity add (multiple identity add p m) n ≡ multiple identity add p (n * m)
  times-mul p m zero = ap (multiple identity add p) {x = 0} (omega arith)
  times-mul p m (suc n) =
      ap (add (multiple identity add p m)) (times-mul p m n)
      ∙ times-add p m (n * m)
      ∙ ap (multiple identity add p) (omega arith)

  -- It does not matter which of two numbers comes first.
  pub times-swap :
      (p : Point) (m n : ℕ)
      → multiple identity add (multiple identity add p m) n
        ≡ multiple identity add (multiple identity add p n) m
  times-swap p m n =
      times-mul p m n ∙ ap (multiple identity add p) (omega arith) ∙ sym (times-mul p n m)

  -- The two points of the loop as multiples of `p`.
  abbrev IsAt : Point → ℕ → ℕ → Point × Point → Type 0
  IsAt p r m (result, doubled) =
      (result ≡ multiple identity add p r) × (doubled ≡ multiple identity add p m)

  chosen :
      (p : Point) (d r m : ℕ) (result doubled : Point)
      → d < 2
      → IsAt p r m (result, doubled)
      → (if d == 1 then add result doubled else result) ≡ multiple identity add p (r + d * m)
  chosen p zero r m result doubled h (e, f) = e ∙ ap (multiple identity add p) (omega arith)
  chosen p (suc zero) r m result doubled h (e, f) =
      ap₂ add e f ∙ times-add p r m ∙ ap (multiple identity add p) (omega arith)
  chosen p (suc (suc d)) r m result doubled h at_state = absurd (omega arith)

  multiply_bit-IsAt :
      (p : Point) (byte bit r m : ℕ) (state : Point × Point)
      → IsAt p r m state
      → IsAt p (r + byte / 2 ^ bit % 2 * m) (2 * m) (multiply_bit identity add byte bit state)
  unfolding multiply_bit
  multiply_bit-IsAt p byte bit r m (result, doubled) (e, f) = (
    chosen p (byte / 2 ^ bit % 2) r m result doubled (omega arith) (e, f),
    ap₂ add f f ∙ times-add p m m ∙ ap (multiple identity add p) (omega arith),
  )

  -- The numbers that the points stand for after the bits.
  abbrev bits_at : ℕ → List ℕ → ℕ × ℕ → ℕ × ℕ
  bits_at byte [] state = state
  bits_at byte (bit ∷ bits) (r, m) = bits_at byte bits (r + byte / 2 ^ bit % 2 * m, 2 * m)

  multiply_bits-IsAt :
      (p : Point) (byte : ℕ) (bits : List ℕ) (r m : ℕ) (state : Point × Point)
      → IsAt p r m state
      → IsAt p
          (bits_at byte bits (r, m)).0
          (bits_at byte bits (r, m)).1
          (multiply_bits identity add byte bits state)
  unfolding multiply_bits
  multiply_bits-IsAt p byte [] r m state h = h
  multiply_bits-IsAt p byte (bit ∷ bits) r m state h =
      multiply_bits-IsAt p byte bits _ _ _ (multiply_bit-IsAt p byte bit r m state h)

  abbrev byte_of : ℕ → ℕ → ℕ
  byte_of byte m =
      byte / 2 ^ 0 % 2 * m
      + byte / 2 ^ 1 % 2 * (2 * m)
      + byte / 2 ^ 2 % 2 * (4 * m)
      + byte / 2 ^ 3 % 2 * (8 * m)
      + byte / 2 ^ 4 % 2 * (16 * m)
      + byte / 2 ^ 5 % 2 * (32 * m)
      + byte / 2 ^ 6 % 2 * (64 * m)
      + byte / 2 ^ 7 % 2 * (128 * m)

  byte_of-one : (byte : ℕ) → byte < 256 → byte_of byte 1 ≡ byte
  byte_of-one byte h = omega arith

  byte_bits :
      (byte r m : ℕ)
      → byte < 256
      → bits_at byte (0 ∷ 1 ∷ 2 ∷ 3 ∷ 4 ∷ 5 ∷ 6 ∷ 7 ∷ []) (r, m) ≡ (r + byte * m, 256 * m)
  byte_bits byte r m h =
      let whole = ap (λ n. n * m) (byte_of-one byte h) in
      ap₂ (λ x y. (x, y)) (omega (arith, whole)) (omega arith)

  multiply_bytes-multiple :
      (p : Point) (bs : Bytes) (r m : ℕ) (state : Point × Point)
      → All IsByte bs
      → IsAt p r m state
      → (multiply_bytes identity add bs state).0
        ≡ multiple identity add p (r + from_le_bytes bs * m)
  unfolding multiply_bytes
  multiply_bytes-multiple p [] r m state _ h = h.0 ∙ ap (multiple identity add p) (omega arith)
  multiply_bytes-multiple p (b ∷ bs) r m state (hb, hbs) h =
      let after = multiply_bits identity add b (0 ∷ 1 ∷ 2 ∷ 3 ∷ 4 ∷ 5 ∷ 6 ∷ 7 ∷ []) state in
      let at_next = multiply_bits-IsAt p b (0 ∷ 1 ∷ 2 ∷ 3 ∷ 4 ∷ 5 ∷ 6 ∷ 7 ∷ []) r m state h in
      multiply_bytes-multiple p bs (r + b * m) (256 * m) after hbs
        (subst (λ s. IsAt p s.0 s.1 after) (byte_bits b r m hb) at_next)
      ∙ ap (multiple identity add p) (omega arith)

  -- For points whose addition is that of a monoid, a multiple by a scalar of any length is the sum
  -- of as many points as the scalar says.
  pub multiply_raw-multiple :
      (p : Point) (scalar : Bytes)
      → All IsByte scalar
      → multiply_raw identity add p scalar ≡ multiple identity add p (from_le_bytes scalar)
  unfolding multiply_raw
  multiply_raw-multiple p scalar h =
      multiply_bytes-multiple p scalar 0 1 (identity, p) h (refl, sym (right_identity p))
      ∙ ap (multiple identity add p) (omega arith)
