-- ===== src/Proto/Session/Fragments.antt =====
-- `handle_input` on input that arrives in pieces.
use adb_client.Base.{
  ℕ, zero, suc, ◌<◌, ◌≡◌, ◌⊎◌, inl, inr, refl, sym, ap, ◌∙◌, arith, List, [], ◌∷◌, ◌++◌, concat,
  append_assoc, append-nil, Option, none, some,
}
use adb_client.Base.Outcome.{Result, ok, err}
use adb_client.Base.Bytes.{Bytes}
use adb_client.Proto.Kinds.{ProtoError}
use adb_client.Proto.Message.{Packet, PacketDecoder, push, size, next_packet}
use adb_client.Proto.Message.Push.{resume, next_packet-push}
use adb_client.Proto.Message.Shrink.{next_packet-shrinks, Answer-cases}
use adb_client.Proto.Session.{Session, Fault, proto}
use adb_client.Proto.Session.Receive.{Step, handle_packet, handle_loop, handle_input}
use adb_client.Proto.Session.Buffered.{
  buffered, buffered_step, handle_packet-buffered, handle_packet-size,
}

pub Step-cases :
    (x : Step)
    → ((s : Session) × (e : Fault) × (x ≡ (s, err e))) ⊎ ((s : Session) × (x ≡ (s, ok tt)))
Step-cases (s, err e) = inl (s, e, refl)
Step-cases (s, ok tt) = inr (s, refl)

abbrev pub decoded : Session → PacketDecoder → Session
decoded s d = record s { decoder = d }

-- One round of the loop, for each answer of `next_packet` and end of `handle_packet`.
module _ (fuel : ℕ) (s : Session) {d : PacketDecoder} where
  pub loop_error :
      {e : ProtoError}
      → next_packet s.decoder ≡ (d, err e)
      → handle_loop (suc fuel) s ≡ (decoded s d, err (proto e))
  unfolding handle_loop
  loop_error a = ground arith

  pub loop_waits :
      next_packet s.decoder ≡ (d, ok none) → handle_loop (suc fuel) s ≡ (decoded s d, ok tt)
  unfolding handle_loop
  loop_waits a = ground arith

  pub loop_stops :
      {p : Packet} {s' : Session} {e : Fault}
      → next_packet s.decoder ≡ (d, ok (some p))
      → handle_packet (decoded s d) p ≡ (s', err e)
      → handle_loop (suc fuel) s ≡ (s', err e)
  unfolding handle_loop
  loop_stops a h = ground arith

  pub loop_goes_on :
      {p : Packet} {s' : Session}
      → next_packet s.decoder ≡ (d, ok (some p))
      → handle_packet (decoded s d) p ≡ (s', ok tt)
      → handle_loop (suc fuel) s ≡ handle_loop fuel s'
  unfolding handle_loop
  loop_goes_on a h = ground arith

-- After a round the decoder holds less.
pub round_shrinks :
    (s s' : Session) (d : PacketDecoder) (p : Packet) (r : Result Fault (Unit {0}))
    → next_packet s.decoder ≡ (d, ok (some p))
    → handle_packet (decoded s d) p ≡ (s', r)
    → size s'.decoder < size s.decoder
round_shrinks s s' d p r a h =
    let same : size s'.decoder ≡ size d = rw h at (handle_packet-size (decoded s d) p) in
    omega (arith, same, next_packet-shrinks s.decoder d p a)

-- Any fuel above the size of the decoder gives the same.
pub handle_loop-fuel :
    (f g : ℕ) (s : Session)
    → size s.decoder < f
    → size s.decoder < g
    → handle_loop f s ≡ handle_loop g s
handle_loop-fuel zero g s hf hg = absurd (omega arith)
handle_loop-fuel (suc f) zero s hf hg = absurd (omega arith)
handle_loop-fuel (suc f) (suc g) s hf hg = elim (Answer-cases (next_packet s.decoder)) [
  | inl (d, e, a) ↦ loop_error f s a ∙ sym (loop_error g s a)
  | inr (inl (d, a)) ↦ loop_waits f s a ∙ sym (loop_waits g s a)
  | inr (inr (d, p, a)) ↦ elim (Step-cases (handle_packet (decoded s d) p)) [
    | inl (s', e, h) ↦ loop_stops f s a h ∙ sym (loop_stops g s a h)
    | inr (s', h) ↦
        let less = round_shrinks s s' d p (ok tt) a h in
        loop_goes_on f s a h
        ∙ handle_loop-fuel f g s' (omega arith) (omega arith)
        ∙ sym (loop_goes_on g s a h)
  ]
]

-- A session that has stopped with an error keeps what arrives later in the decoder.
abbrev pub resume_input : Bytes → Step → Step
resume_input more (s, ok _) = handle_input s more
resume_input more (s, err e) = (buffered more s, err e)

-- Two decoders with the same next answer give the same run.
loop_same :
    (g h : ℕ) (s : Session) (d₁ d₂ : PacketDecoder)
    → next_packet d₁ ≡ next_packet d₂
    → size d₁ < suc g
    → size d₂ < suc h
    → handle_loop (suc g) (decoded s d₁) ≡ handle_loop (suc h) (decoded s d₂)
loop_same g h s d₁ d₂ same hg hh = elim (Answer-cases (next_packet d₁)) [
  | inl (d, e, a) ↦ loop_error g (decoded s d₁) a ∙ sym (loop_error h (decoded s d₂) (sym same ∙ a))
  | inr (inl (d, a)) ↦
      loop_waits g (decoded s d₁) a ∙ sym (loop_waits h (decoded s d₂) (sym same ∙ a))
  | inr (inr (d, p, a)) ↦ elim (Step-cases (handle_packet (decoded s d) p)) [
    | inl (s', e, k) ↦
        loop_stops g (decoded s d₁) a k ∙ sym (loop_stops h (decoded s d₂) (sym same ∙ a) k)
    | inr (s', k) ↦
        let less₁ = round_shrinks (decoded s d₁) s' d p (ok tt) a k in
        let less₂ = round_shrinks (decoded s d₂) s' d p (ok tt) (sym same ∙ a) k in
        loop_goes_on g (decoded s d₁) a k
        ∙ handle_loop-fuel g h s' (omega arith) (omega arith)
        ∙ sym (loop_goes_on h (decoded s d₂) (sym same ∙ a) k)
  ]
]

-- The loop with `more` behind the buffer is the loop without, resumed.
handle_loop-buffered :
    (f g : ℕ) (s : Session) (more : Bytes)
    → size s.decoder < f
    → size (push s.decoder more) < g
    → handle_loop g (buffered more s) ≡ resume_input more (handle_loop f s)
unfolding handle_input
handle_loop-buffered zero g s more hf hg = absurd (omega arith)
handle_loop-buffered (suc f) zero s more hf hg = absurd (omega arith)
handle_loop-buffered (suc f) (suc g) s more hf hg = elim (Answer-cases (next_packet s.decoder)) [
  | inl (d, e, a) ↦
      loop_error g (buffered more s) (pushed a) ∙ sym (ap (resume_input more) (loop_error f s a))
  | inr (inl (d, a)) ↦
      loop_same g (size (push d more)) s (push s.decoder more) (push d more) (pushed a) hg
        (omega arith)
      ∙ sym (ap (resume_input more) (loop_waits f s a))
  | inr (inr (d, p, a)) ↦ elim (Step-cases (handle_packet (decoded s d) p)) [
    | inl (s', e, k) ↦
        loop_stops g (buffered more s) (pushed a) (handled d p k)
        ∙ sym (ap (resume_input more) (loop_stops f s a k))
    | inr (s', k) ↦
        let less₁ = round_shrinks s s' d p (ok tt) a k in
        let less₂ =
          round_shrinks (buffered more s) (buffered more s') (push d more) p (ok tt) (pushed a)
            (handled d p k) in
        loop_goes_on g (buffered more s) (pushed a) (handled d p k)
        ∙ handle_loop-buffered f g s' more (omega arith) (omega arith)
        ∙ sym (ap (resume_input more) (loop_goes_on f s a k))
  ]
]
  where
    pushed :
        {x : PacketDecoder × Result ProtoError (Option Packet)}
        → next_packet s.decoder ≡ x
        → next_packet (push s.decoder more) ≡ resume more x
    pushed a = next_packet-push s.decoder more ∙ ap (resume more) a

    handled :
        (d : PacketDecoder) (p : Packet) {x : Step}
        → handle_packet (decoded s d) p ≡ x
        → handle_packet (buffered more (decoded s d)) p ≡ buffered_step more x
    handled d p k = handle_packet-buffered more (decoded s d) p ∙ ap (buffered_step more) k

-- However the input is cut, the session ends in the same state with the same result: the packets
-- queued, the events, the streams and what is left in the decoder. Where the first piece fails, the
-- second stays in the decoder.
pub handle_input-append :
    (s : Session) (first second : Bytes)
    → handle_input s (first ++ second) ≡ resume_input second (handle_input s first)
unfolding handle_input
handle_input-append s first second = rw (← append_assoc s.decoder.buf first second) (
    handle_loop-buffered (suc (size (push s.decoder first)))
      (suc (size (push (push s.decoder first) second))) (buffered first s) second (omega arith)
      (omega arith))

-- A driver that feeds the pieces in turn, and stops at the first error.
unfoldable pub feed : Step → List Bytes → Step
feed step [] = step
feed (s, ok _) (c ∷ cs) = feed (handle_input s c) cs
feed (s, err e) (c ∷ cs) = (s, err e)

-- One piece, and the pieces behind it.
feed_next :
    (s t : Session) (c c' : Bytes) (cs : List Bytes)
    → handle_input s c ≡ (t, ok tt)
    → (feed (handle_input s c) (c' ∷ cs) ≡ feed (handle_input t c') cs)
      × (handle_input s (c ++ (c' ++ concat cs)) ≡ handle_input t (c' ++ concat cs))
unfolding feed
feed_next s t c c' cs k = (
  ap (λ x. feed x (c' ∷ cs)) k,
  handle_input-append s c (c' ++ concat cs) ∙ ap (resume_input (c' ++ concat cs)) k,
)

-- However the input is cut into pieces: where feeding the pieces in turn succeeds, handling them as one
-- input succeeds too, and ends in the same state.
pub feed-concat :
    (s s' : Session) (c : Bytes) (cs : List Bytes)
    → feed (handle_input s c) cs ≡ (s', ok tt)
    → handle_input s (c ++ concat cs) ≡ (s', ok tt)
unfolding feed
feed-concat s s' c [] h = rw append-nil h
feed-concat s s' c (c' ∷ cs) h = elim (Step-cases (handle_input s c)) [
  | inl (t, e, k) ↦ cc (sym (ap (λ x. feed x (c' ∷ cs)) k) ∙ h)
  | inr (t, k) ↦
      let (fed, whole) = feed_next s t c c' cs k in whole ∙ feed-concat t s' c' cs (sym fed ∙ h)
]

-- The pieces that the driver has not fed when it stops.
unfoldable pub unfed : Step → List Bytes → List Bytes
unfed step [] = []
unfed (s, ok _) (c ∷ cs) = unfed (handle_input s c) cs
unfed (s, err e) (c ∷ cs) = c ∷ cs

-- Where feeding the pieces in turn stops with an error, handling them as one input stops with the same
-- error in the same state, but that its decoder also holds, behind what the driver's decoder holds,
-- exactly the pieces that the driver has not fed.
pub feed-concat_err :
    (s s' : Session) (e : Fault) (c : Bytes) (cs : List Bytes)
    → feed (handle_input s c) cs ≡ (s', err e)
    → handle_input s (c ++ concat cs) ≡ (buffered (concat (unfed (handle_input s c) cs)) s', err e)
unfolding feed unfed
feed-concat_err s s' e c [] h =
    let refill : Bytes → Step =
      λ b. (record s' { decoder = record s'.decoder { buf = b } }, err e) in
    let whole : handle_input s (c ++ []) ≡ (s', err e) = rw append-nil h in
    whole ∙ ap refill (sym (append-nil s'.decoder.buf))
feed-concat_err s s' e c (c' ∷ cs) h = elim (Step-cases (handle_input s c)) [
  | inl (t, x, k) ↦
      let more = c' ++ concat cs in
      let stopped : (t, err x) ≡ (s', err e) = sym (ap (λ y. feed y (c' ∷ cs)) k) ∙ h in
      handle_input-append s c more
      ∙ ap (resume_input more) k
      ∙ ap (buffered_step more) stopped
      ∙ ap (λ y. (buffered (concat (unfed y (c' ∷ cs))) s', err e)) (sym k)
  | inr (t, k) ↦
      let (fed, whole) = feed_next s t c c' cs k in
      whole
      ∙ feed-concat_err t s' e c' cs (sym fed ∙ h)
      ∙ ap (λ y. (buffered (concat (unfed y (c' ∷ cs))) s', err e)) (sym k)
]
