-- ===== src/Cli/Daemon/Input/Reading.antt =====
-- However an operation reads, it gets the bytes of the frames in their order, and then the end.
use adb_client.Base.{
  ◌==◌, length, take, drop, All, slice, concat, length-append, take-append-drop, length-take,
  length-drop, ℕ, zero, suc, ◌+◌, ◌-◌, ◌≤◌, ◌<◌, min, ◌≡◌, refl, sym, ap, ◌∙◌, ◌≢◌, ◌⊎◌, inl, inr,
  true, false, List, [], ◌∷◌, ◌++◌, append-nil, append_assoc, arith,
}
use mathlib.Core.List.{cons-ne-nil}
use mathlib.Core.Path.{subst, ap₂}
use adb_client.Base.Bytes.{Bytes}
use adb_client.Base.Outcome.{ok}
use adb_client.Cli.Daemon.Stream.RoundTrip.{IsFrame}
use adb_client.Cli.Daemon.Input.Refill.{sent, Going, Feeds, drop-drop, refill-Feeds}
use adb_client.Cli.Daemon.Input.{FramedReader, new, hand_over, read_input, read_many}

-- The result of a delivery of at most `n` bytes: a part of what is left, and not nothing while
-- something is left.
abbrev Delivered : ℕ → Bytes × FramedReader → Bytes → Bytes → Type 0
Delivered n got bs tail =
    (later : Bytes) × ((bs ≡ got.0 ++ later)
      × (Feeds got.1 later tail × ((length got.0 ≤ n) × (bs ≢ [] → 0 < length got.0))))

deliver_unfinished :
    (n : ℕ) (r : FramedReader)
    → r.finished ≡ false
    → let count = min n (length r.frame - r.offset) in
      hand_over n r
      ≡ (slice r.offset (r.offset + count) r.frame, record r { offset = r.offset + count })
unfolding hand_over
deliver_unfinished n r unfinished = rw unfinished refl

-- A part of a list and the list behind it.
slice-drop :
    (i k : ℕ) (bs rest : Bytes)
    → slice i (i + k) bs ++ (drop (i + k) bs ++ rest) ≡ drop i bs ++ rest
slice-drop i k bs rest =
    let count : i + k - i ≡ k = omega arith in
    let front = ap (λ j. take j (drop i bs)) count in
    ap₂ (λ x y. x ++ (y ++ rest)) front (drop-drop i k bs)
    ∙ sym (append_assoc (take k (drop i bs)) (drop k (drop i bs)) rest)
    ∙ ap (λ all. all ++ rest) (take-append-drop k (drop i bs))

hand_over-Going :
    (n : ℕ) (r : FramedReader) (bs tail : Bytes)
    → 0 < n
    → Going r bs tail
    → r.offset < length r.frame
    → Delivered n (hand_over n r) bs tail
hand_over-Going n r bs tail positive g inside =
    let count = min n (length r.frame - r.offset) in
    let later = drop (r.offset + count) r.frame ++ concat g.left in
    let size = length-take (r.offset + count - r.offset) (drop r.offset r.frame) in
    let left = length-drop r.offset r.frame in
    let going : Going (record r { offset = r.offset + count }) later tail = record {
      left = g.left;
      frames = g.frames;
      stream = g.stream;
      rest = refl;
      within = omega arith;
      unfinished = g.unfinished;
    } in
    subst (λ got. Delivered n got bs tail) (sym (deliver_unfinished n r g.unfinished))
      (
        later,
        (
          g.rest ∙ sym (slice-drop r.offset count r.frame (concat g.left)),
          (inl going, (omega (arith, size, left), λ _. omega (arith, size, left))),
        ),
      )

deliver_finished : (n : ℕ) (r : FramedReader) → r.finished ≡ true → hand_over n r ≡ ([], r)
unfolding hand_over
deliver_finished n r over = rw over refl

deliver_over :
    (n : ℕ) (r : FramedReader) (bs tail : Bytes)
    → r.finished ≡ true
    → bs ≡ []
    → Delivered n (hand_over n r) bs tail
deliver_over n r bs tail over none_left =
    subst (λ got. Delivered n got bs tail) (sym (deliver_finished n r over))
      ([], (none_left, (inr (over, refl), (omega arith, λ more. absurd (more none_left)))))

-- The result of one read of at most `n` bytes.
abbrev Got : ℕ → FramedReader → Bytes → Bytes → Type 0
Got n r bs tail =
    (got : Bytes × FramedReader) × ((read_input n r ≡ ok got) × Delivered n got bs tail)

read_input-Feeds :
    (n : ℕ) (r : FramedReader) (bs tail : Bytes) → 0 < n → Feeds r bs tail → Got n r bs tail
unfolding read_input
read_input-Feeds n r bs tail positive feeds =
    let (s, (filled, (feeds_on, ready))) = refill-Feeds r bs tail feeds in
    let some_room : (n == 0) ≡ false = ground arith in
    let e : read_input n r ≡ ok (hand_over n s) = rw (some_room, filled) refl in
    let delivered : Delivered n (hand_over n s) bs tail = (elim ready [
      | inr (over, none_left) ↦ deliver_over n s bs tail over none_left
      | inl inside ↦ elim feeds_on [
        | inl g ↦ hand_over-Going n s bs tail positive g inside
        | inr (over, none_left) ↦ deliver_over n s bs tail over none_left
      ]
    ]) in
    (hand_over n s, (e, delivered))

empty_or_not : (bs : Bytes) → (bs ≡ []) ⊎ (bs ≢ [])
empty_or_not [] = inl refl
empty_or_not (b ∷ bs) = inr (cons-ne-nil b bs)

all_got : (bs got later : Bytes) → bs ≡ got ++ later → length later ≤ 0 → got ≡ bs
all_got bs got [] e h = sym (e ∙ append-nil got)
all_got bs got (b ∷ later) e h = absurd (omega arith)

-- The buffers that have room for a byte.
abbrev pub roomy : List ℕ → ℕ
roomy [] = 0
roomy (zero ∷ ns) = roomy ns
roomy (suc n ∷ ns) = suc (roomy ns)

-- The result of several reads, each of which takes at least one byte of what is left, if its buffer
-- has room for one.
abbrev GotMany : List ℕ → FramedReader → Bytes → Type 0
GotMany ns r bs =
    (got : Bytes × FramedReader) × ((later : Bytes) × ((read_many ns r ≡ ok got)
        × ((bs ≡ got.0 ++ later) × (length later ≤ length bs - roomy ns))))

read_many-Feeds :
    (ns : List ℕ) (r : FramedReader) (bs tail : Bytes) → Feeds r bs tail → GotMany ns r bs
unfolding read_many read_input
read_many-Feeds [] r bs tail feeds = (([], r), (bs, (refl, (refl, omega arith))))
read_many-Feeds (zero ∷ ns) r bs tail feeds =
    let ((more, t), (last, (e, (split, small)))) = read_many-Feeds ns r bs tail feeds in
    ((more, t), (last, (rw e refl, (split, small))))
read_many-Feeds (suc n ∷ ns) r bs tail feeds =
    let ((got, s), (e, (later, (split, (feeds_on, (_, progress)))))) =
      read_input-Feeds (suc n) r bs tail (omega arith) feeds in
    let ((more, t), (last, (e', (split', small)))) = read_many-Feeds ns s later tail feeds_on in
    let whole : read_many (suc n ∷ ns) r ≡ ok (got ++ more, t) = rw (e, e') refl in
    let cut : bs ≡ got ++ more ++ last =
      split ∙ ap (λ x. got ++ x) split' ∙ sym (append_assoc got more last) in
    let sizes = ap length split ∙ length-append got later in
    let less : length last ≤ length bs - suc (roomy ns) = (elim (empty_or_not bs) [
      | inl none_left ↦ omega (arith, ap length none_left, sizes, small)
      | inr some_left ↦ omega (arith, progress some_left, sizes, small)
    ]) in
    ((got ++ more, t), (last, (whole, (cut, less))))

-- A sender's frames are not empty and at most 1 MiB each. Whatever the sizes of the buffers are
-- that an operation reads into, empty ones included, no read fails, the operation gets the bytes of
-- the frames from the start and in their order, and it gets all of them by as many reads into
-- buffers that are not empty as there are bytes.
pub read_many-sent :
    (cs : List Bytes) (tail : Bytes) (ns : List ℕ)
    → All IsFrame cs
    → (got : Bytes × FramedReader) × ((later : Bytes) × ((read_many ns (new (sent cs tail))
            ≡ ok got)
          × ((concat cs ≡ got.0 ++ later) × (length (concat cs) ≤ roomy ns → got.0 ≡ concat cs))))
unfolding new
read_many-sent cs tail ns frames =
    let start : Going (new (sent cs tail)) (concat cs) tail = record {
      left = cs;
      frames = frames;
      stream = refl;
      rest = refl;
      within = omega arith;
      unfinished = refl;
    } in
    let (got, (later, (e, (cut, small)))) = read_many-Feeds ns _ (concat cs) tail (inl start) in
    (
      got,
      (
        later,
        (e, (cut, λ enough. all_got (concat cs) got.0 later cut (omega (arith, small, enough)))),
      ),
    )
