-- ===== src/Client/Wireless/Packets.antt =====
-- What is sent in a pairing packet arrives, whatever follows it.
use adb_client.Base.{
  ltb, ◌==◌, le→ltb, ltb→le, Bool-cases, length, replicate, length-append, take-length-append,
  drop-length-append, ℕ, zero, suc, ◌-◌, ◌≤◌, ◌<◌, ◌≡◌, refl, ap, ◌∙◌, ◌⊎◌, inl, inr, true, false,
  some, [], ◌∷◌, ◌++◌, arith,
}
use adb_client.Base.Utf8.{is_utf8}
use adb_client.Base.Bytes.{Bytes}
use adb_client.Base.Outcome.{ok, err, ◌>>=◌}
use adb_client.Base.Words.{to_be_bytes, from_be_bytes-to_be_bytes}
use adb_client.Client.Wireless.{
  check_guid, add_front, before_zero, has_control, parse_device_guid, peer_info_size,
  invalid_length, max_pairing_payload, write_packet, read_exact, check_header, read_packet,
}

read_exact-append : (bs rest : Bytes) → read_exact (length bs) (bs ++ rest) ≡ ok (bs, rest)
unfolding read_exact
read_exact-append bs rest =
    rw
      (
        le→ltb (length (bs ++ rest)) (length bs) (omega (arith, length-append bs rest)),
        take-length-append bs rest,
        drop-length-append bs rest,
      )
      refl

check_header-size :
    (kind size : ℕ)
    → 0 < size
    → size ≤ max_pairing_payload
    → check_header kind (1 ∷ kind ∷ to_be_bytes size) ≡ ok size
unfolding check_header
check_header-size kind size positive fits =
    let e = from_be_bytes-to_be_bytes size (omega arith) in ground (arith, e)

read_packet_sent :
    (kind : ℕ) (payload rest : Bytes)
    → 0 < length payload
    → length payload ≤ max_pairing_payload
    → read_packet kind (1 ∷ kind ∷ (to_be_bytes (length payload) ++ (payload ++ rest)))
      ≡ ok (payload, rest)
unfolding read_packet
read_packet_sent kind payload rest positive fits =
    let header = 1 ∷ kind ∷ to_be_bytes (length payload) in
    ap (λ r. r >>= λ (header, rest). check_header kind header >>= λ size. read_exact size rest)
      (read_exact-append header (payload ++ rest))
    ∙ ap (λ r. r >>= λ size. read_exact size (payload ++ rest))
        (check_header-size kind (length payload) positive fits)
    ∙ read_exact-append payload rest

-- A payload that is empty or longer than 16 KiB is refused before anything is written; any other is
-- read back whole behind its header, by a reader that expects its kind, whatever follows it.
pub read_packet-write_packet :
    (kind : ℕ) (payload rest : Bytes)
    → (((length payload ≡ 0) ⊎ (max_pairing_payload < length payload))
        × (write_packet kind payload ≡ err invalid_length))
      ⊎ ((sent : Bytes) × ((write_packet kind payload ≡ ok sent)
            × (read_packet kind (sent ++ rest) ≡ ok (payload, rest))))
unfolding write_packet
read_packet-write_packet kind payload rest = elim (Bool-cases (length payload == 0)) [
  | inl empty ↦ inl (inl (ground arith), rw empty refl)
  | inr some_bytes ↦ elim (Bool-cases (ltb max_pairing_payload (length payload))) [
    | inl long ↦ inl (inr (ground arith), rw (some_bytes, long) refl)
    | inr fits ↦ inr (
      1 ∷ kind ∷ (to_be_bytes (length payload) ++ payload),
      (
        rw (some_bytes, fits) refl,
        read_packet_sent kind payload rest (ground arith) (ltb→le _ _ fits),
      ),
    )
  ]
]

-- What an Android device sends: its identifier, and zeros up to the fixed size.
abbrev pub device_info : Bytes → Bytes
device_info guid = 1 ∷ (guid ++ replicate (peer_info_size - 1 - length guid) 0)

control_below :
    (b : ℕ) (bs : Bytes)
    → has_control (b ∷ bs) ≡ false
    → ((b == 0) ≡ false) × (has_control bs ≡ false)
unfolding has_control
control_below b [] h = ground arith
control_below b (c ∷ bs) h = ground arith

before_zero-append :
    (guid : Bytes) (n : ℕ)
    → has_control guid ≡ false
    → before_zero (guid ++ replicate (suc n) 0) ≡ some guid
unfolding before_zero add_front
before_zero-append [] n h = refl
before_zero-append (b ∷ bs) n h =
    let (visible, plain) = control_below b bs h in rw (visible, before_zero-append bs n plain) refl

length-replicate : (n : ℕ) (a : ℕ) → length (replicate n a) ≡ n
length-replicate zero a = refl
length-replicate (suc n) a = omega (arith, length-replicate n a)

accepted :
    (guid : Bytes)
    → is_utf8 guid ≡ true
    → 0 < length guid
    → length guid ≤ 255
    → has_control guid ≡ false
    → check_guid (some guid) ≡ ok guid
unfolding check_guid
accepted guid text positive fits plain = ground arith

-- Whatever an Android device is called: the client gets its identifier, and no other text, if the
-- text is UTF-8 of 1 to 255 bytes without control characters.
pub parse_device_guid-device_info :
    (guid : Bytes)
    → is_utf8 guid ≡ true
    → 0 < length guid
    → length guid ≤ 255
    → has_control guid ≡ false
    → parse_device_guid (device_info guid) ≡ ok guid
unfolding parse_device_guid
parse_device_guid-device_info guid text positive fits plain =
    let padding = 8190 - length guid in
    let size = length-append guid (replicate (8191 - length guid) 0) in
    let zeros = length-replicate (8191 - length guid) 0 in
    let end = before_zero-append guid padding plain in
    let split : before_zero (guid ++ replicate (8191 - length guid) 0) ≡ some guid =
      ap (λ n. before_zero (guid ++ replicate n 0)) {y = suc padding} (omega arith) ∙ end in
    let whole : (suc (length (guid ++ replicate (8191 - length guid) 0)) == 8192) ≡ true =
      ground (arith, size, zeros) in
    rw (whole, split) (accepted guid text positive fits plain)
