-- ===== src/Client/Device/Listing/Reads.antt =====
-- A read over the ends of packets, from bytes that the device will still send.
use adb_client.Base.{
  leb, le→ltb, Bool-cases, length, take, drop, length-append, take-append, drop-append,
  take-length-append, drop-length-append, ℕ, zero, suc, ◌-◌, ◌≤◌, ◌≡◌, refl, ap, ◌∙◌, inl, inr,
  false, List, [], ◌∷◌, ◌++◌, arith,
}
use mathlib.Core.Path.{subst}
use adb_client.Base.Outcome.{Result, ok}
use adb_client.Base.Bytes.{Bytes}
use adb_client.Client.Kinds.{okay, RustAdbError}
use adb_client.Client.Message.{Message, try_new, try_new_header}
use adb_client.Client.Message.Codec.{message_of}
use adb_client.Client.Session.{AdbSession, write_new}
use adb_client.Client.Session.Pushed.{session}
use adb_client.Client.Dispatched.Source.{received}
use adb_client.Client.Device.Listing.{Outcome, gave, split_payload, read_bytes_from_transport}

abbrev pub payloads : List Message → Bytes
payloads [] = []
payloads (m ∷ ms) = m.payload ++ payloads ms

-- All packets but the last have `k` bytes at least.
abbrev pub IsWide : ℕ → List Message → Type 0
IsWide k [] = Unit
IsWide k (m ∷ []) = Unit
IsWide k (m ∷ n ∷ ms) = (k ≤ length m.payload) × IsWide k (n ∷ ms)

-- The device will still send the bytes `bs`, of which `left` are there.
pub record Source (k : ℕ) (s : AdbSession) (left bs : Bytes) : Type 0 where
  pub local_id : ℕ
  pub remote_id : ℕ
  pub packets : List Message
  pub written : List Message
  pub is : s ≡ session local_id remote_id (received packets) written
  pub wide : IsWide k packets
  pub rest : bs ≡ left ++ payloads packets

-- What a read of `n` bytes leads to.
abbrev IsRead : ℕ → ℕ → Outcome (Bytes × Bytes) → Bytes → Type 0
IsRead k n outcome bs =
    (s : AdbSession) × ((left : Bytes) × ((outcome ≡ gave s (take n bs, left))
        × Source k s left (drop n bs)))

take_beyond :
    (n : ℕ) (xs ys : Bytes) → length xs ≤ n → take n (xs ++ ys) ≡ xs ++ take (n - length xs) ys
take_beyond n [] ys h = ap (λ m. take m ys) (omega arith)
take_beyond zero (x ∷ xs) ys h = absurd (omega arith)
take_beyond (suc n) (x ∷ xs) ys h =
    ap (λ rest. x ∷ rest)
      (take_beyond n xs ys (omega arith) ∙ ap (λ m. xs ++ take m ys) (omega arith))

drop_beyond : (n : ℕ) (xs ys : Bytes) → length xs ≤ n → drop n (xs ++ ys) ≡ drop (n - length xs) ys
drop_beyond n [] ys h = ap (λ m. drop m ys) (omega arith)
drop_beyond zero (x ∷ xs) ys h = absurd (omega arith)
drop_beyond (suc n) (x ∷ xs) ys h =
    drop_beyond n xs ys (omega arith) ∙ ap (λ m. drop m ys) (omega arith)

-- The next packet has what is missing: it is wide, or it is the last.
enough_next :
    (k n : ℕ) (left : Bytes) (m : Message) (ms : List Message)
    → n ≤ k
    → IsWide k (m ∷ ms)
    → n ≤ length (left ++ payloads (m ∷ ms))
    → n - length left ≤ length m.payload
enough_next k n left m [] h wide enough =
    omega (arith, length-append left (m.payload ++ []), length-append m.payload [])
enough_next k n left m (next ∷ ms) h (wide, _) enough = omega arith

IsWide-later : (k : ℕ) (m : Message) (ms : List Message) → IsWide k (m ∷ ms) → IsWide k ms
IsWide-later k m [] wide = tt
IsWide-later k m (next ∷ ms) (wide, later) = later

module _ (k local_id remote_id : ℕ) (written : List Message) where
  acknowledged :
      (reads : List (Result RustAdbError Message))
      → write_new (session local_id remote_id reads written) okay [] ≡ (
        session local_id remote_id reads (written ++ message_of okay local_id remote_id [] ∷ []),
        ok tt,
      )
  unfolding write_new try_new try_new_header
  acknowledged reads = refl

  IsRead-next :
      (n : ℕ) (left : Bytes) (packets : List Message)
      → n ≤ k
      → IsWide k packets
      → n ≤ length (left ++ payloads packets)
      → leb n (length left) ≡ false
      → IsRead k n
          (read_bytes_from_transport n (session local_id remote_id (received packets) written) left)
          (left ++ payloads packets)
  unfolding read_bytes_from_transport split_payload
  IsRead-next n left [] small wide enough missing =
      absurd (ground (arith, missing, length-append left []))
  IsRead-next n left (m ∷ ms) small wide enough missing =
      let need = n - length left in
      let fits = enough_next k n left m ms small wide enough in
      let short : length left ≤ n = ground (arith, missing) in
      (
        session local_id remote_id (received ms)
            (written ++ message_of okay local_id remote_id [] ∷ []),
        (
          drop need m.payload,
          (
            rw
                (
                  missing,
                  acknowledged (received (m ∷ ms)),
                  le→ltb (length m.payload) need fits,
                  take_beyond n left (m.payload ++ payloads ms) short,
                  take-append need m.payload (payloads ms) fits,
                )
                refl,
            record {
              local_id = local_id;
              remote_id = remote_id;
              packets = ms;
              written = written ++ message_of okay local_id remote_id [] ∷ [];
              is = refl;
              wide = IsWide-later k m ms wide;
              rest =
                  drop_beyond n left (m.payload ++ payloads ms) short
                  ∙ drop-append need m.payload (payloads ms) fits;
            },
          ),
        ),
      )

  IsRead-from :
      (n : ℕ) (left : Bytes) (packets : List Message)
      → n ≤ k
      → IsWide k packets
      → n ≤ length (left ++ payloads packets)
      → IsRead k n
          (read_bytes_from_transport n (session local_id remote_id (received packets) written) left)
          (left ++ payloads packets)
  unfolding read_bytes_from_transport split_payload
  IsRead-from n left packets small wide enough = elim (Bool-cases (leb n (length left))) [
    | inl there ↦ (
      session local_id remote_id (received packets) written,
      (
        drop n left,
        (
          rw (there, take-append n left (payloads packets) (ground (arith, there))) refl,
          record {
            local_id = local_id;
            remote_id = remote_id;
            packets = packets;
            written = written;
            is = refl;
            wide = wide;
            rest = drop-append n left (payloads packets) (ground (arith, there));
          },
        ),
      ),
    )
    | inr missing ↦ IsRead-next n left packets small wide enough missing
  ]

-- A read that is not longer than `k` and than what will come.
IsRead-Source :
    (k n : ℕ) (s : AdbSession) (left bs : Bytes)
    → Source k s left bs
    → n ≤ k
    → n ≤ length bs
    → IsRead k n (read_bytes_from_transport n s left) bs
IsRead-Source k n s left bs source small enough =
    rw (source.is, source.rest)
      (IsRead-from k source.local_id source.remote_id source.written n left source.packets small
        source.wide (subst (λ b. n ≤ length b) source.rest enough))

-- What comes next is read as it was sent.
abbrev pub IsGiven : {A : Type 0} → ℕ → Outcome (A × Bytes) → A → Bytes → Type 0
IsGiven k outcome a rest =
    (s : AdbSession) × ((left : Bytes) × ((outcome ≡ gave s (a, left)) × Source k s left rest))

pub read_sent :
    (k : ℕ) (s : AdbSession) (left xs rest : Bytes)
    → length xs ≤ k
    → Source k s left (xs ++ rest)
    → IsGiven k (read_bytes_from_transport (length xs) s left) xs rest
read_sent k s left xs rest small source =
    let (s', (left', (got, source'))) =
      IsRead-Source k (length xs) s left (xs ++ rest) source small
        (omega (arith, length-append xs rest)) in
    (
      s',
      (
        left',
        (
          got ∙ ap (λ taken. gave s' (taken, left')) (take-length-append xs rest),
          subst (Source k s' left') (drop-length-append xs rest) source',
        ),
      ),
    )
