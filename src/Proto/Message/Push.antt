-- ===== src/Proto/Message/Push.antt =====
-- Input may arrive in any pieces: what `push` adds behind the buffer does not change what
-- `next_packet` found before it.
use adb_client.Base.{
  ℕ, ◌≤◌, ◌≡◌, ◌++◌, arith, length, drop, take-append, drop-append, length-append, Option, none,
  some, Bool, ltb, le→ltb, ltb→le, Bool-cases, inl, inr,
}
use adb_client.Base.Outcome.{Result, ok, err, Result-cases}
use adb_client.Base.Bytes.{Bytes}
use adb_client.Proto.Kinds.{ProtoError}
use adb_client.Proto.Message.{
  Packet, PacketDecoder, PendingHeader, push, read_header, take_payload, start_packet, next_packet,
}
use adb_client.Proto.Message.Words.{read_header-append}

-- The answer once `more` has arrived too: a packet or an error stands, and where the decoder had to
-- wait it is asked again.
abbrev pub resume :
    Bytes
    → PacketDecoder × Result ProtoError (Option Packet)
    → PacketDecoder × Result ProtoError (Option Packet)
resume more (d, ok none) = next_packet (push d more)
resume more (d, ok (some p)) = (push d more, ok (some p))
resume more (d, err e) = (push d more, err e)

abbrev decoder : Bytes → ℕ → Bool → Option PendingHeader → PacketDecoder
decoder buf max_payload verify h = record {
  buf = buf;
  header = h;
  max_payload = max_payload;
  verify_checksum = verify;
}

module _ (buf : Bytes) (max_payload : ℕ) (verify : Bool) (more : Bytes) where
  take_payload-push :
      (h : PendingHeader)
      → take_payload (push (decoder buf max_payload verify (some h)) more) h
        ≡ resume more (take_payload (decoder buf max_payload verify (some h)) h)
  unfolding take_payload next_packet
  take_payload-push h = elim (Bool-cases (ltb (length buf) h.len)) [
    | inl short ↦ rw short
    | inr long ↦
        let fits : h.len ≤ length buf = ltb→le _ _ long in
        rw
          (
            long,
            le→ltb (length (buf ++ more)) h.len (omega (arith, length-append buf more)),
            take-append h.len buf more fits,
            drop-append h.len buf more fits,
          )
          (ground arith)
  ]

module _ (buf : Bytes) (max_payload : ℕ) (verify : Bool) (more : Bytes) where
  start_packet-push :
      start_packet (push (decoder buf max_payload verify none) more)
      ≡ resume more (start_packet (decoder buf max_payload verify none))
  unfolding start_packet next_packet
  start_packet-push = elim (Bool-cases (ltb (length buf) 24)) [
    | inl short ↦ rw short
    | inr long ↦
        let fits : 24 ≤ length buf = ltb→le _ _ long in
        let enough : 24 ≤ length (buf ++ more) = omega (arith, length-append buf more) in
        elim (Result-cases (read_header buf max_payload)) [
          | inl (h, e) ↦
              rw
                (
                  long,
                  le→ltb (length (buf ++ more)) 24 enough,
                  read_header-append buf more max_payload fits,
                  e,
                  drop-append 24 buf more fits,
                )
                (take_payload-push (drop 24 buf) max_payload verify more h)
          | inr (x, e) ↦ rw (
            long,
            le→ltb (length (buf ++ more)) 24 enough,
            read_header-append buf more max_payload fits,
            e,
          )
        ]
  ]

-- `next_packet` after a `push` is `next_packet` before it, resumed.
pub next_packet-push :
    (d : PacketDecoder) (more : Bytes) → next_packet (push d more) ≡ resume more (next_packet d)
unfolding next_packet
next_packet-push d more = go d.header
  where
    go :
        (h : Option PendingHeader)
        → next_packet (push (decoder d.buf d.max_payload d.verify_checksum h) more)
          ≡ resume more (next_packet (decoder d.buf d.max_payload d.verify_checksum h))
    go none = start_packet-push d.buf d.max_payload d.verify_checksum more
    go (some h) = take_payload-push d.buf d.max_payload d.verify_checksum more h
