-- ===== src/Proto/Message/Shrink.antt =====
-- Every packet that `next_packet` returns takes something out of the decoder, so that draining it ends.
use adb_client.Base.{
  ◌≤◌, ◌<◌, ◌≡◌, ◌⊎◌, inl, inr, refl, arith, length, drop, length-drop, Option, none, some, ltb,
  Bool-cases, Option-cases,
}
use adb_client.Base.Outcome.{Result, ok, err, Result-cases}
use adb_client.Proto.Kinds.{ProtoError}
use adb_client.Proto.Message.{
  Packet, PacketDecoder, PendingHeader, size, read_header, take_payload, start_packet, next_packet,
}

take_payload-shrinks :
    (d d' : PacketDecoder) (h : PendingHeader) (p : Packet)
    → take_payload d h ≡ (d', ok (some p))
    → size d' ≤ length d.buf
unfolding take_payload
take_payload-shrinks d d' h p e = ground (arith, length-drop h.len d.buf)

start_packet-shrinks :
    (d d' : PacketDecoder) (p : Packet)
    → start_packet d ≡ (d', ok (some p))
    → size d' < length d.buf
unfolding start_packet
start_packet-shrinks d d' p e = elim (Bool-cases (ltb (length d.buf) 24)) [
  | inl short ↦ ground arith
  | inr long ↦ elim (Result-cases (read_header d.buf d.max_payload)) [
    | inl (h, r) ↦ ground (
      arith,
      take_payload-shrinks (record d { buf = drop 24 d.buf; header = some h }) d' h p,
      length-drop 24 d.buf,
    )
    | inr (x, r) ↦ ground arith
  ]
]

-- A packet takes a pending header, or 24 bytes at least.
pub next_packet-shrinks :
    (d d' : PacketDecoder) (p : Packet) → next_packet d ≡ (d', ok (some p)) → size d' < size d
unfolding next_packet
next_packet-shrinks d d' p e = elim (Option-cases d.header) [
  | inl none_pending ↦ ground (arith, start_packet-shrinks d d' p)
  | inr (h, is_pending) ↦ ground (arith, take_payload-shrinks d d' h p)
]

-- How `next_packet` can answer.
abbrev pub Answer : Type 0
Answer = PacketDecoder × Result ProtoError (Option Packet)

pub Answer-cases :
    (x : Answer)
    → ((d : PacketDecoder) × (e : ProtoError) × (x ≡ (d, err e)))
      ⊎ ((d : PacketDecoder) × (x ≡ (d, ok none)))
      ⊎ ((d : PacketDecoder) × (p : Packet) × (x ≡ (d, ok (some p))))
Answer-cases (d, err e) = inl (d, e, refl)
Answer-cases (d, ok none) = inr (inl (d, refl))
Answer-cases (d, ok (some p)) = inr (inr (d, p, refl))
