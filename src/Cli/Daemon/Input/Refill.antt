-- ===== src/Cli/Daemon/Input/Refill.antt =====
-- A reader that is fed with frames takes the next one when its own is used up.
use adb_client.Base.{
  ◌==◌, le→ltb, ==_iff, Bool-cases, length, take, drop, All, concat, length-append,
  take-length-append, drop-length-append, ℕ, zero, suc, ◌+◌, ◌*◌, ◌≤◌, ◌<◌, ◌≡◌, refl, sym, ap, ◌∙◌,
  ◌⊎◌, inl, inr, true, false, List, [], ◌∷◌, ◌++◌, map, append-nil, append_assoc, arith,
}
use adb_client.Base.Bytes.{Bytes}
use adb_client.Base.Outcome.{ok, ◌>>=◌}
use adb_client.Base.Words.{to_be_bytes, from_be_bytes, from_be_bytes-to_be_bytes}
use adb_client.Cli.Daemon.Stream.{framed}
use adb_client.Cli.Daemon.Stream.RoundTrip.{IsFrame}
use adb_client.Cli.Daemon.Input.{FramedReader, read_exact, next_frame, take_frame, refill}

-- What the sender put into the stream: frames, the empty frame, and what it sends next.
abbrev pub sent : List Bytes → Bytes → Bytes
sent cs tail = concat (map framed cs) ++ (to_be_bytes 0 ++ tail)

-- The reader still has the bytes `bs` to give.
pub record Going (r : FramedReader) (bs tail : Bytes) : Type 0 where
  pub left : List Bytes
  pub frames : All IsFrame left
  pub stream : r.stream ≡ sent left tail
  pub rest : bs ≡ drop r.offset r.frame ++ concat left
  pub within : r.offset ≤ length r.frame
  pub unfinished : r.finished ≡ false

abbrev pub Feeds : FramedReader → Bytes → Bytes → Type 0
Feeds r bs tail = Going r bs tail ⊎ ((r.finished ≡ true) × (bs ≡ []))

-- Either there are bytes in the frame, or the input is over.
abbrev pub IsReady : FramedReader → Bytes → Type 0
IsReady r bs = (r.offset < length r.frame) ⊎ ((r.finished ≡ true) × (bs ≡ []))

pub read_exact-append :
    (n : ℕ) (front back : Bytes)
    → length front ≡ n
    → read_exact n (front ++ back) ≡ ok (front, back)
unfolding read_exact
read_exact-append n front back e =
    let enough = le→ltb (length (front ++ back)) n (omega (arith, length-append front back)) in
    let front_is = ap (λ k. take k (front ++ back)) (sym e) ∙ take-length-append front back in
    let back_is = ap (λ k. drop k (front ++ back)) (sym e) ∙ drop-length-append front back in
    rw (enough, front_is, back_is) refl

pub read_exact_all : (bs : Bytes) → read_exact (length bs) bs ≡ ok (bs, [])
read_exact_all bs =
    ap (read_exact (length bs)) (sym (append-nil bs)) ∙ read_exact-append (length bs) bs [] refl

drop-nil : (n : ℕ) → drop {A = ℕ} n [] ≡ []
drop-nil zero = refl
drop-nil (suc n) = refl

pub drop-drop : (n k : ℕ) (bs : Bytes) → drop (n + k) bs ≡ drop k (drop n bs)
drop-drop zero k bs = let same : 0 + k ≡ k = omega arith in ap (λ j. drop j bs) same
drop-drop (suc n) k [] = drop-nil (suc n + k) ∙ sym (drop-nil k)
drop-drop (suc n) k (b ∷ bs) =
    let same : suc n + k ≡ suc (n + k) = omega arith in
    ap (λ j. drop j (b ∷ bs)) same ∙ drop-drop n k bs

drop_all : (n : ℕ) (bs : Bytes) → length bs ≤ n → drop n bs ≡ []
drop_all zero [] h = refl
drop_all zero (b ∷ bs) h = absurd (omega arith)
drop_all (suc n) [] h = refl
drop_all (suc n) (b ∷ bs) h = drop_all n bs (omega arith)

next_frame-frame :
    (r : FramedReader) (c rest : Bytes)
    → IsFrame c
    → next_frame r (length c) (c ++ rest) ≡ ok (record r { stream = rest; frame = c; offset = 0 })
unfolding next_frame
next_frame-frame r c rest (p, q) =
    let positive : (length c == 0) ≡ false = ground arith in
    rw (positive, le→ltb (1024 * 1024) (length c) q, read_exact-append (length c) c rest refl) refl

take_frame-frame :
    (r : FramedReader) (c rest : Bytes)
    → IsFrame c
    → take_frame r (framed c ++ rest) ≡ ok (record r { stream = rest; frame = c; offset = 0 })
unfolding take_frame framed
take_frame-frame r c rest (p, q) =
    let header = read_exact-append 4 (to_be_bytes (length c)) (c ++ rest) refl in
    let size = from_be_bytes-to_be_bytes (length c) (omega arith) in
    ap (λ x. x >>= λ (size, stream). next_frame r (from_be_bytes size) stream) header
    ∙ ap (λ n. next_frame r n (c ++ rest)) size
    ∙ next_frame-frame r c rest (p, q)

take_frame_end :
    (r : FramedReader) (tail : Bytes)
    → take_frame r (to_be_bytes 0 ++ tail) ≡ ok (record r { stream = tail; finished = true })
unfolding take_frame next_frame
take_frame_end r tail = rw (read_exact-append 4 (to_be_bytes 0) tail refl) refl

refill_inside : (r : FramedReader) → (r.offset == length r.frame) ≡ false → refill r ≡ ok r
unfolding refill
refill_inside r inside = rw inside refl

refill_at_end :
    (r : FramedReader)
    → (r.offset == length r.frame) ≡ true
    → r.finished ≡ false
    → refill r ≡ take_frame r r.stream
unfolding refill
refill_at_end r done unfinished = rw (done, unfinished) refl

refill_finished : (r : FramedReader) → r.finished ≡ true → refill r ≡ ok r
unfolding refill
refill_finished r over = ground (arith, over)

-- The result of a refill.
abbrev pub Refilled : FramedReader → Bytes → Bytes → Type 0
Refilled r bs tail = (s : FramedReader) × ((refill r ≡ ok s) × (Feeds s bs tail × IsReady s bs))

refill-sent :
    (cs : List Bytes) (r : FramedReader) (bs tail : Bytes)
    → All IsFrame cs
    → refill r ≡ take_frame r (sent cs tail)
    → r.finished ≡ false
    → bs ≡ concat cs
    → Refilled r bs tail
refill-sent [] r bs tail _ e unfinished all = (
  record r { stream = tail; finished = true },
  (e ∙ take_frame_end r tail, (inr (refl, all), inr (refl, all))),
)
refill-sent (c ∷ cs) r bs tail (p, ps) e unfinished all =
    let next : FramedReader = record r { stream = sent cs tail; frame = c; offset = 0 } in
    let join = append_assoc (framed c) (concat (map framed cs)) (to_be_bytes 0 ++ tail) in
    let going : Going next bs tail = record {
      left = cs;
      frames = ps;
      stream = refl;
      rest = all;
      within = omega arith;
      unfinished = unfinished;
    } in
    (
      next,
      (e ∙ ap (take_frame r) join ∙ take_frame-frame r c (sent cs tail) p, (inl going, inl (p.0))),
    )

-- A reader at the end of its frame takes the next frame, or ends.
pub refill-Feeds : (r : FramedReader) (bs tail : Bytes) → Feeds r bs tail → Refilled r bs tail
refill-Feeds r bs tail (inr (over, none_left)) =
    (r, (refill_finished r over, (inr (over, none_left), inr (over, none_left))))
refill-Feeds r bs tail (inl g) = elim (Bool-cases (r.offset == length r.frame)) [
  | inr inside ↦ (r, (refill_inside r inside, (inl g, inl (ground (arith, inside, g.within)))))
  | inl done ↦
      let at_end : r.offset ≡ length r.frame = (==_iff r.offset (length r.frame)).0 done in
      refill-sent g.left r bs tail g.frames
        (refill_at_end r done g.unfinished ∙ ap (take_frame r) g.stream) g.unfinished
        (g.rest ∙ ap (λ front. front ++ concat g.left) (drop_all r.offset r.frame (omega arith)))
]
