-- ===== src/Client/Dispatched/Source.antt =====
-- A service whose device sends bytes, in packets of any size: what `read_bytes` returns.
use adb_client.Base.{
  ltb, le→ltb, ltb→le, Bool-cases, length, take, drop, All, length-append, take-append, drop-append,
  ℕ, zero, suc, ◌≤◌, ◌≡◌, refl, sym, ap, ◌∙◌, ◌⊎◌, inl, inr, true, false, List, [], ◌∷◌, ◌++◌,
  append_assoc, arith,
}
use mathlib.Core.Path.{subst₂}
use adb_client.Base.Outcome.{Result, ok}
use adb_client.Base.Bytes.{Bytes}
use adb_client.Client.Kinds.{MessageCommand, write, okay, RustAdbError}
use adb_client.Client.Message.{Message, try_new, try_new_header, header_of}
use adb_client.Client.Session.{AdbSession, then_with, write_new}
use adb_client.Client.Session.Pushed.{session}
use adb_client.Client.Dispatched.{acknowledge, on_packet, fill, read_bytes}

-- Packets that carry bytes or nothing.
abbrev pub IsData : Message → Type 0
IsData m = (m.header.command ≡ write) ⊎ (m.header.command ≡ okay)

abbrev pub received : List Message → List (Result RustAdbError Message)
received [] = []
received (m ∷ ms) = ok m ∷ received ms

-- What a packet adds to the bytes.
abbrev pub carried : MessageCommand → Bytes → Bytes
carried write payload = payload
carried _ payload = []

abbrev pub bytes_of : List Message → Bytes
bytes_of [] = []
bytes_of (m ∷ ms) = carried m.header.command m.payload ++ bytes_of ms

-- The service will still deliver the bytes `bs`, of which `buffered` are there; sends succeed.
pub record Source (s : AdbSession) (buffered bs : Bytes) : Type 0 where
  pub local_id : ℕ
  pub remote_id : ℕ
  pub packets : List Message
  pub sent : List Message
  pub is : s ≡ session local_id remote_id (received packets) sent
  pub carry : All IsData packets
  pub bytes_left : bs ≡ buffered ++ bytes_of packets

-- A step that goes on with a service of the same bytes, of which `n` are there.
abbrev Filled : AdbSession × Result RustAdbError Bytes → ℕ → Bytes → Type 0
Filled r n bs =
    (s : AdbSession) × ((b : Bytes) × ((r ≡ (s, ok b)) × (Source s b bs × (n ≤ length b))))

pub length-received : (ms : List Message) → length (received ms) ≡ length ms
length-received [] = refl
length-received (m ∷ ms) = omega (arith, length-received ms)

module _ (local_id remote_id : ℕ) where
  pub acknowledge-session :
      (reads : List (Result RustAdbError Message)) (sent : List Message)
      → (message : Message) × (acknowledge (session local_id remote_id reads sent)
          ≡ (session local_id remote_id reads (sent ++ message ∷ []), ok tt))
  unfolding acknowledge write_new try_new try_new_header
  acknowledge-session reads sent =
      (record { header = header_of okay local_id remote_id []; payload = [] }, refl)

  fill_enough :
      (fuel : ℕ) (s : AdbSession) (buffered : Bytes) (n : ℕ)
      → ltb (length buffered) n ≡ false
      → fill fuel s buffered n ≡ (s, ok buffered)
  unfolding fill
  fill_enough zero s buffered n e = rw e refl
  fill_enough (suc fuel) s buffered n e = rw e refl

  fill_step :
      (fuel : ℕ) (m : Message) (packets sent : _) (buffered : Bytes) (n : ℕ)
      → ltb (length buffered) n ≡ true
      → fill (suc fuel) (session local_id remote_id (received (m ∷ packets)) sent) buffered n
        ≡ on_packet
            (λ s b. fill fuel s b n)
            buffered
            m.payload
            (session local_id remote_id (received packets) sent)
            m.header.command
  unfolding fill
  fill_step fuel m packets sent buffered n e = rw (e, fill) refl

  -- What is there already is enough.
  fill_at_once :
      (fuel : ℕ) (packets sent : List Message) (buffered : Bytes) (n : ℕ)
      → All IsData packets
      → ltb (length buffered) n ≡ false
      → Filled
          (fill fuel (session local_id remote_id (received packets) sent) buffered n)
          n
          (buffered ++ bytes_of packets)
  fill_at_once fuel packets sent buffered n h e =
      let source : Source (session local_id remote_id (received packets) sent) buffered
          (buffered ++ bytes_of packets) =
        record {
          local_id = local_id;
          remote_id = remote_id;
          packets = packets;
          sent = sent;
          is = refl;
          carry = h;
          bytes_left = refl;
        } in
      (_, (buffered, (fill_enough fuel _ buffered n e, (source, ltb→le (length buffered) n e))))

  on_packet-write :
      (more : AdbSession → Bytes → AdbSession × Result RustAdbError Bytes)
      (buffered payload : Bytes) (reads : List (Result RustAdbError Message)) (sent : List Message)
      → (later : List Message) × (on_packet more buffered payload
            (session local_id remote_id reads sent)
            write
          ≡ more (session local_id remote_id reads later) (buffered ++ payload))
  unfolding on_packet
  on_packet-write more buffered payload reads sent =
      let (message, e) = acknowledge-session reads sent in
      (sent ++ message ∷ [], ap (then_with (λ s' _. more s' (buffered ++ payload))) e)

  fill-Source :
      (fuel : ℕ) (packets sent : List Message) (buffered : Bytes) (n : ℕ)
      → All IsData packets
      → n ≤ length (buffered ++ bytes_of packets)
      → length packets ≤ fuel
      → Filled
          (fill fuel (session local_id remote_id (received packets) sent) buffered n)
          n
          (buffered ++ bytes_of packets)
  unfolding on_packet
  fill-Source fuel [] sent buffered n h enough fits =
      fill_at_once fuel [] sent buffered n h
        (le→ltb (length buffered) n (omega (arith, enough, length-append buffered [])))
  fill-Source zero (m ∷ packets) sent buffered n h enough fits = absurd (omega arith)
  fill-Source (suc fuel) (m ∷ packets) sent buffered n (p, ps) enough fits =
      elim (Bool-cases (ltb (length buffered) n)) [
        | inr e ↦ fill_at_once (suc fuel) (m ∷ packets) sent buffered n (p, ps) e
        | inl e ↦ elim p [
          | inl is_write ↦
              let (later, acked) =
                on_packet-write (λ s b. fill fuel s b n) buffered m.payload (received packets)
                  sent in
              let step =
                fill_step fuel m packets sent buffered n e
                ∙ ap
                    (on_packet (λ s b. fill fuel s b n) buffered m.payload
                      (session local_id remote_id (received packets) sent))
                    is_write
                ∙ acked in
              let joined =
                append_assoc buffered m.payload (bytes_of packets)
                ∙ ap (λ c. buffered ++ (carried c m.payload ++ bytes_of packets)) (sym is_write) in
              let size = ap length joined in
              subst₂ (λ r bs. Filled r n bs) (sym step) joined
                (fill-Source fuel packets later (buffered ++ m.payload) n ps
                  (omega (arith, size, enough)) (omega arith))
          | inr is_okay ↦
              let step =
                fill_step fuel m packets sent buffered n e
                ∙ ap
                    (on_packet (λ s b. fill fuel s b n) buffered m.payload
                      (session local_id remote_id (received packets) sent))
                    is_okay in
              let joined : buffered ++ bytes_of packets ≡ buffered ++ bytes_of (m ∷ packets) =
                ap (λ c. buffered ++ (carried c m.payload ++ bytes_of packets)) (sym is_okay) in
              subst₂ (λ r bs. Filled r n bs) (sym step) joined
                (fill-Source fuel packets sent buffered n ps
                  (omega (arith, ap length joined, enough)) (omega arith))
        ]
      ]

-- The result of reading `n` bytes: exactly the next bytes, and a service that has the rest.
abbrev pub ReadOf : AdbSession → Bytes → ℕ → Bytes → Type 0
ReadOf s buffered n bs =
    (t : AdbSession) × ((left : Bytes) × ((read_bytes s buffered n ≡ (t, ok (take n bs, left)))
        × Source t left (drop n bs)))

pub read_bytes-Source :
    (s : AdbSession) (buffered : Bytes) (n : ℕ) (bs : Bytes)
    → Source s buffered bs
    → n ≤ length bs
    → ReadOf s buffered n bs
unfolding read_bytes
read_bytes-Source s buffered n bs source enough =
    let all = source.bytes_left in
    let start = session source.local_id source.remote_id (received source.packets) source.sent in
    let (t, (b, (e, (later, there)))) =
      fill-Source source.local_id source.remote_id (length (received source.packets)) source.packets
        source.sent buffered n source.carry (omega (arith, ap length all, enough))
        (omega (arith, length-received source.packets)) in
    let begin = ap (λ x. fill (length x.transport.reads) x buffered n) source.is ∙ e in
    let next = ap (then_with (λ s' c. (s', ok (take n c, drop n c)))) begin in
    let whole : bs ≡ b ++ bytes_of later.packets = all ∙ later.bytes_left in
    let front : take n bs ≡ take n b =
      ap (take n) whole ∙ take-append n b (bytes_of later.packets) there in
    let back : drop n bs ≡ drop n b ++ bytes_of later.packets =
      ap (drop n) whole ∙ drop-append n b (bytes_of later.packets) there in
    let rest : Source t (drop n b) (drop n bs) = record {
      local_id = later.local_id;
      remote_id = later.remote_id;
      packets = later.packets;
      sent = later.sent;
      is = later.is;
      carry = later.carry;
      bytes_left = back;
    } in
    (t, (drop n b, (next ∙ ap (λ x. (t, ok (x, drop n b))) (sym front), rest)))
