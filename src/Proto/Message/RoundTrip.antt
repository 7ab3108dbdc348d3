-- ===== src/Proto/Message/RoundTrip.antt =====
-- The decoder reads back what `encode_header` and the payload put on the wire.
use adb_client.Base.{
  ℕ, ◌≡◌, refl, ◌++◌, arith, length, drop, take-length-append, length-append, drop-length-append,
  le→ltb, lt→ltb, none, some, Bool, true, false, ==_refl,
}
use adb_client.Base.Outcome.{ok}
use adb_client.Base.Bytes.{Bytes}
use adb_client.Proto.Message.{
  Packet, PacketDecoder, checksum, header_bytes, encode_header, take_payload, start_packet,
  next_packet,
}
use adb_client.Proto.Message.Words.{Fits, pending, length-header_bytes, read_header-header_bytes}

-- A decoder between two packets.
abbrev pub waiting : Bytes → ℕ → Bool → PacketDecoder
waiting buf max_payload verify = record {
  buf = buf;
  header = none;
  max_payload = max_payload;
  verify_checksum = verify;
}

-- What a driver sends for a packet: the header and the payload.
abbrev pub wire : Packet → Bytes
wire p = header_bytes p ++ p.payload

pub encode_header-header_bytes :
    (max_payload : ℕ) (p : Packet) → Fits max_payload p → encode_header p ≡ some (header_bytes p)
unfolding encode_header
encode_header-header_bytes max_payload p fits = rw (lt→ltb _ _ fits.payload_fits)

drop-header_bytes : (p : Packet) (rest : Bytes) → drop 24 (header_bytes p ++ rest) ≡ rest
unfolding header_bytes
drop-header_bytes p rest = refl

take_payload-pending :
    (max_payload : ℕ) (verify : Bool) (p : Packet) (rest : Bytes)
    → take_payload
        (record (waiting (p.payload ++ rest) max_payload verify) { header = some (pending p) })
        (pending p)
      ≡ (waiting rest max_payload verify, ok (some p))
unfolding take_payload
take_payload-pending max_payload true p rest = rw (
  le→ltb (length (p.payload ++ rest)) (length p.payload)
      (omega (arith, length-append p.payload rest)),
  take-length-append p.payload rest,
  drop-length-append p.payload rest,
  ==_refl (checksum p.payload),
)
take_payload-pending max_payload false p rest = rw (
  le→ltb (length (p.payload ++ rest)) (length p.payload)
      (omega (arith, length-append p.payload rest)),
  take-length-append p.payload rest,
  drop-length-append p.payload rest,
)

pub next_packet-wire :
    (max_payload : ℕ) (verify : Bool) (p : Packet) (rest : Bytes)
    → Fits max_payload p
    → next_packet (waiting (header_bytes p ++ (p.payload ++ rest)) max_payload verify)
      ≡ (waiting rest max_payload verify, ok (some p))
unfolding next_packet
next_packet-wire max_payload verify p rest fits =
    let tail : Bytes = p.payload ++ rest in
    rw
      (
        start_packet,
        le→ltb (length (header_bytes p ++ tail)) 24 (omega (arith, length-header_bytes p tail)),
        read_header-header_bytes max_payload p tail fits,
        drop-header_bytes p tail,
      )
      (take_payload-pending max_payload verify p rest)

-- Behind any packet that fits, whatever follows it on the wire, `next_packet` returns that packet
-- and keeps exactly what follows; with checksums verified or not.
pub next_packet-encode_header :
    (max_payload : ℕ) (verify : Bool) (p : Packet) (h rest : Bytes)
    → Fits max_payload p
    → encode_header p ≡ some h
    → next_packet (waiting (h ++ (p.payload ++ rest)) max_payload verify)
      ≡ (waiting rest max_payload verify, ok (some p))
next_packet-encode_header max_payload verify p h rest fits e =
    let same : h ≡ header_bytes p = cc (encode_header-header_bytes max_payload p fits) in
    rw same (next_packet-wire max_payload verify p rest fits)
