-- ===== src/Proto/Sync/Stays.antt =====
-- What `read_reply` finds stays the same when more bytes arrive.
use adb_client.Base.{
  ℕ, ◌+◌, ◌≤◌, ◌≡◌, ◌⊎◌, inl, inr, refl, ap, arith, Bool, true, false, Bool-cases, ◌++◌, Option,
  none, some, length, take, slice, ltb, le→ltb, ltb→le, length-append, take-append, slice-append,
  if◌then◌else◌, not, ◌&&◌, ◌||◌,
}
use adb_client.Base.Outcome.{ok, err}
use adb_client.Base.Bytes.{Bytes, bytes, bytes_eq}
use adb_client.Base.Utf8.{from_utf8_lossy}
use adb_client.Base.Words.{pos, from_le_bytes}
use adb_client.Proto.Kinds.{
  ProtoError, protocol, name_too_long, data_too_long, fail_too_long, unexpected_reply,
}
use adb_client.Proto.Sync.Request.{max_data_chunk}
use adb_client.Proto.Sync.Reader.{
  SyncKind, list, recv, stat2, list2, SyncEvent, data_chunk, done, fail, stat_v2_len, dent_v2_len,
  word, stat_v2, Reply, is_kind, read_stat, read_stat2, read_dent, read_dent2, read_data, done_len,
  read_done, read_fail, read_reply,
}

-- A reply that is found lies within the buffer.
unfoldable pub Within : Bytes → Reply → Type 0
Within buf (ok (some (len, _, _))) = len ≤ length buf
Within buf _ = Unit

-- The reader has to wait, or what it finds stays the same.
unfoldable pub Stays : Bytes → Reply → Reply → Type 0
Stays buf x x' = (x ≡ ok none) ⊎ ((x' ≡ x) × Within buf x)

module _ (buf more : Bytes) where
  word-append : (i : ℕ) → i + 4 ≤ length buf → word (buf ++ more) i ≡ word buf i
  unfolding word
  word-append i enough = ap from_le_bytes (slice-append i (i + 4) buf more (omega arith) enough)

  still_enough : (n : ℕ) → n ≤ length buf → ltb (length (buf ++ more)) n ≡ false
  still_enough n enough = le→ltb (length (buf ++ more)) n (omega (arith, length-append buf more))

  -- A reply of a fixed length.
  Stays-fixed :
      (n : ℕ) (event : Bytes → SyncEvent) (terminal : Bool)
      → (n ≤ length buf → event (buf ++ more) ≡ event buf)
      → Stays buf (if ltb (length buf) n then ok none else ok (some (n, event buf, terminal))) (
          if ltb (length (buf ++ more)) n
          then ok none
          else ok (some (n, event (buf ++ more), terminal)))
  unfolding Stays Within
  Stays-fixed n event terminal same = elim (Bool-cases (ltb (length buf) n)) [
    | inl short ↦ rw short (inl refl)
    | inr long ↦
        let enough : n ≤ length buf = ltb→le _ _ long in
        rw (long, still_enough n enough, same enough) (inr (refl, enough))
  ]

  -- A reply whose length stands in its first `n` bytes.
  Stays-sized :
      (n max : ℕ) (size : Bytes → ℕ) (event : Bytes → SyncEvent) (e : ProtoError) (terminal : Bool)
      → (n ≤ length buf → size (buf ++ more) ≡ size buf)
      → (n + size buf ≤ length buf → event (buf ++ more) ≡ event buf)
      → Stays buf
          (if ltb (length buf) n
            then ok none
            else if ltb max (size buf)
            then err e
            else if ltb (length buf) (n + size buf)
            then ok none
            else ok (some (n + size buf, event buf, terminal)))
          (if ltb (length (buf ++ more)) n
            then ok none
            else if ltb max (size (buf ++ more))
            then err e
            else if ltb (length (buf ++ more)) (n + size (buf ++ more))
            then ok none
            else ok (some (n + size (buf ++ more), event (buf ++ more), terminal)))
  unfolding Stays Within
  Stays-sized n max size event e terminal same_size same = elim (Bool-cases (ltb (length buf) n)) [
    | inl short ↦ rw short (inl refl)
    | inr long ↦
        let enough : n ≤ length buf = ltb→le _ _ long in
        rw (long, still_enough n enough, same_size enough)
          (elim (Bool-cases (ltb max (size buf))) [
            | inl too_long ↦ rw too_long (inr (refl, tt))
            | inr fits ↦ elim (Bool-cases (ltb (length buf) (n + size buf))) [
              | inl waits ↦ rw (fits, waits) (inl refl)
              | inr whole ↦
                  let all : n + size buf ≤ length buf = ltb→le _ _ whole in
                  rw (fits, whole, still_enough (n + size buf) all, same all) (inr (refl, all))
            ]
          ])
  ]

  stat_v2-append :
      (name : Option Bytes) → 72 ≤ length buf → stat_v2 (buf ++ more) name ≡ stat_v2 buf name
  unfolding stat_v2
  stat_v2-append none enough = rw (
    word-append 4 (omega arith),
    word-append 24 (omega arith),
    slice-append 40 48 buf more (omega arith) (omega arith),
    slice-append 56 64 buf more (omega arith) (omega arith),
  )
  stat_v2-append (some text) enough = rw (
    word-append 4 (omega arith),
    word-append 24 (omega arith),
    slice-append 40 48 buf more (omega arith) (omega arith),
    slice-append 56 64 buf more (omega arith) (omega arith),
  )

  read_stat-Stays : Stays buf (read_stat buf) (read_stat (buf ++ more))
  unfolding read_stat
  read_stat-Stays =
      Stays-fixed 16 (λ b. SyncEvent.stat (word b 4) (word b 8) (pos (word b 12)) 0) true
        (λ enough.
          rw (
            word-append 4 (omega arith),
            word-append 8 (omega arith),
            word-append 12 (omega arith),
          ))

  read_stat2-Stays : Stays buf (read_stat2 buf) (read_stat2 (buf ++ more))
  unfolding read_stat2
  read_stat2-Stays = Stays-fixed stat_v2_len (λ b. stat_v2 b none) true (stat_v2-append none)

  read_dent-Stays : Stays buf (read_dent buf) (read_dent (buf ++ more))
  unfolding read_dent
  read_dent-Stays =
      Stays-sized 20 1024 (λ b. word b 16)
        (λ b.
          SyncEvent.dent (word b 4) (word b 8) (pos (word b 12)) 0
            (from_utf8_lossy (slice 20 (20 + word b 16) b)))
        (protocol name_too_long) false (λ enough. word-append 16 (omega arith))
        (λ all. rw (
          word-append 4 (omega arith),
          word-append 8 (omega arith),
          word-append 12 (omega arith),
          word-append 16 (omega arith),
          slice-append 20 (20 + word buf 16) buf more (omega arith) all,
        ))

  read_dent2-Stays : Stays buf (read_dent2 buf) (read_dent2 (buf ++ more))
  unfolding read_dent2
  read_dent2-Stays =
      Stays-sized dent_v2_len 1024 (λ b. word b stat_v2_len)
        (λ b.
          stat_v2 b
            (some (from_utf8_lossy (slice dent_v2_len (dent_v2_len + word b stat_v2_len) b))))
        (protocol name_too_long) false (λ enough. word-append stat_v2_len (omega arith))
        (λ all.
          rw
            (
              word-append stat_v2_len (omega arith),
              slice-append dent_v2_len (dent_v2_len + word buf stat_v2_len) buf more (omega arith)
                  all,
            )
            (stat_v2-append _ (omega arith)))

  read_data-Stays : Stays buf (read_data buf) (read_data (buf ++ more))
  unfolding read_data
  read_data-Stays =
      Stays-sized 8 max_data_chunk (λ b. word b 4) (λ b. data_chunk (slice 8 (8 + word b 4) b))
        (protocol data_too_long) false (λ enough. word-append 4 (omega arith))
        (λ all.
          rw (
            word-append 4 (omega arith),
            slice-append 8 (8 + word buf 4) buf more (omega arith) all,
          ))

  read_fail-Stays : Stays buf (read_fail buf) (read_fail (buf ++ more))
  unfolding read_fail
  read_fail-Stays =
      Stays-sized 8 4096 (λ b. word b 4) (λ b. fail (from_utf8_lossy (slice 8 (8 + word b 4) b)))
        (protocol fail_too_long) true (λ enough. word-append 4 (omega arith))
        (λ all.
          rw (
            word-append 4 (omega arith),
            slice-append 8 (8 + word buf 4) buf more (omega arith) all,
          ))

  read_done-Stays :
      (kind : SyncKind) → Stays buf (read_done kind buf) (read_done kind (buf ++ more))
  unfolding read_done
  read_done-Stays kind = Stays-fixed (done_len kind) (λ b. done) true (λ enough. refl)

  Stays-if :
      (b : Bool) (x y x' y' : Reply)
      → Stays buf x x'
      → Stays buf y y'
      → Stays buf (if b then x else y) (if b then x' else y')
  Stays-if true x y x' y' p q = p
  Stays-if false x y x' y' p q = q

  pub read_reply-Stays :
      (kind : SyncKind)
      → 4 ≤ length buf
      → Stays buf (read_reply kind buf) (read_reply kind (buf ++ more))
  unfolding read_reply Stays Within
  read_reply-Stays kind enough =
      let id = take 4 buf in
      let unexpected : Reply = err (protocol (unexpected_reply (from_utf8_lossy id))) in
      let stays : Stays buf unexpected unexpected = inr (refl, tt) in
      let or_fail =
        Stays-if (bytes_eq id (bytes "FAIL")) (read_fail buf) unexpected (read_fail (buf ++ more))
          unexpected read_fail-Stays stays in
      let or_done =
        Stays-if
          (bytes_eq id (bytes "DONE") && not (is_kind kind SyncKind.stat || is_kind kind stat2))
          (read_done kind buf) _ (read_done kind (buf ++ more)) _ (read_done-Stays kind) or_fail in
      let or_data =
        Stays-if (bytes_eq id (bytes "DATA") && is_kind kind recv) (read_data buf) _
          (read_data (buf ++ more)) _ read_data-Stays or_done in
      let or_dent2 =
        Stays-if (bytes_eq id (bytes "DNT2") && is_kind kind list2) (read_dent2 buf) _
          (read_dent2 (buf ++ more)) _ read_dent2-Stays or_data in
      let or_dent =
        Stays-if (bytes_eq id (bytes "DENT") && is_kind kind list) (read_dent buf) _
          (read_dent (buf ++ more)) _ read_dent-Stays or_dent2 in
      let or_stat2 =
        Stays-if (bytes_eq id (bytes "STA2") && is_kind kind stat2) (read_stat2 buf) _
          (read_stat2 (buf ++ more)) _ read_stat2-Stays or_dent in
      rw (take-append 4 buf more enough) (
        Stays-if (bytes_eq id (bytes "STAT") && is_kind kind SyncKind.stat) (read_stat buf) _
          (read_stat (buf ++ more)) _ read_stat-Stays or_stat2)
