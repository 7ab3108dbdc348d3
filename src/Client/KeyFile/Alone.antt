-- ===== src/Client/KeyFile/Alone.antt =====
-- A call that goes on alone returns a key, wherever other calls have stopped.
use adb_client.Base.{
  Option-cases, length, length-append, ℕ, zero, suc, ◌+◌, ◌<◌, ◌≤◌, ◌≡◌, ◌≢◌, ◌⊎◌, refl, sym, ap,
  ◌∙◌, inl, inr, none, some, [], ◌∷◌, ◌++◌, append-nil, arith,
}
use mathlib.Core.List.{cons-ne-nil}
use mathlib.Core.Path.{subst}
use adb_client.Base.Bytes.{Bytes}
use adb_client.Base.Outcome.{ok, err}
use adb_client.Client.KeyFile.{
  KeyFormat, Store, advance, parsed, read_adb_private_key, Progress, reading, generating, naming,
  writing, linking, published, overtaken, rereading, returned, Move, found, absent, unreadable,
  generate, create_new, already_exists, write, synced, write_failed, hard_link, link_exists,
  link_failed, finish, yield, reread, lost, spoiled, fail,
}
use adb_client.Client.KeyFile.Effects.{IsWhole, Fits, Move-IsEffect, read_whole, read_there}

module _ (format : KeyFormat) where
  open format use {Key, to_pem, from_pem, from_pem-to_pem}

  -- No call of the system fails in the step; `write_all` takes a write of no bytes for a failure.
  abbrev pub IsFine :
      {pid : ℕ} {s t : Store} {p q : Progress format} → Move format pid s p t q → Type 0
  IsFine write_failed = ⊥
  IsFine link_failed = ⊥
  IsFine (fail running) = ⊥
  IsFine (write content front back e split) = front ≢ []
  IsFine _ = Unit

  -- The call ends with a key on every way on which no call of the system fails: it has a key, or it
  -- can go on, and wherever it goes on to, it ends with a key.
  pub data Returns (pid : ℕ) : Store → Progress format → Type 0 where
    has_key : {s : Store} (k : Key) → Returns pid s (returned (ok k))
    goes_on :
        {s t : Store} {p q : Progress format} (move : Move format pid s p t q)
        → IsFine move
        → ((u : Store) (r : Progress format) (other : Move format pid s p u r)
            → IsFine other
            → Returns pid u r)
        → Returns pid s p

  abbrev CanGo : ℕ → Store → Progress format → Type 0
  CanGo pid s p =
      (t : Store) × ((q : Progress format) × ((move : Move format pid s p t q) × IsFine move))

  read_whole_key :
      (content : Bytes)
      → IsWhole format (some content)
      → (k : Key) × (read_adb_private_key format (some content) ≡ ok (some k))
  unfolding read_adb_private_key parsed
  read_whole_key content (k, h) = (k, rw (h, from_pem-to_pem k) refl)

  read_missing : read_adb_private_key format none ≡ ok none
  unfolding read_adb_private_key
  read_missing = refl

  below_or_at : (m n : ℕ) → m ≤ n → (m < n) ⊎ (m ≡ n)
  below_or_at m n h = ground arith

  -- Each phase comes once, but naming and writing may take several steps.
  abbrev phase : Progress format → ℕ
  phase reading = 7
  phase generating = 6
  phase (naming k) = 5
  phase (writing k q m left) = 4
  phase (linking k q m) = 3
  phase (published k q m) = 2
  phase (overtaken q m) = 2
  phase rereading = 1
  phase (returned r) = 0

  module _ (pid : ℕ) where
    -- How many names are taken at most, or how many bytes are left; and the file is the call's own.
    abbrev Ready : Store → ℕ → Progress format → Type 0
    Ready s n reading = s.temporary pid (s.sequence pid + n) ≡ none
    Ready s n generating = s.temporary pid (s.sequence pid + n) ≡ none
    Ready s n (naming k) = s.temporary pid (s.sequence pid + n) ≡ none
    Ready s n (writing k q m left) = (q ≡ pid) × (length left ≤ n)
    Ready s n (linking k q m) = q ≡ pid
    Ready s n (published k q m) = q ≡ pid
    Ready s n (overtaken q m) = q ≡ pid
    Ready s n rereading = Unit
    Ready s n (returned (ok k)) = Unit
    Ready s n (returned (err e)) = ⊥

    -- A step comes to a later phase, or the number gets smaller.
    abbrev Advances : ℕ → Progress format → Store → Progress format → Type 0
    Advances n p t q =
        (m : ℕ) × (Ready t m q × ((phase q < phase p) ⊎ ((phase q ≡ phase p) × (m < n))))

    next_name :
        (n : ℕ) (s : Store) (k : Key) (content : Bytes)
        → s.temporary pid (s.sequence pid) ≡ some content
        → s.temporary pid (s.sequence pid + n) ≡ none
        → Advances n (naming k) (record s { sequence = advance pid s.sequence }) (naming k)
    unfolding advance
    next_name zero s k content taken free =
        let unused : s.temporary pid (s.sequence pid) ≡ none =
          ap (s.temporary pid) {y = s.sequence pid + 0} (omega arith) ∙ free in
        absurd (cc (taken, unused))
    next_name (suc n) s k content taken free = (
      n,
      (
        ap (s.temporary pid) {y = s.sequence pid + suc n} (ground arith) ∙ free,
        inr (refl, omega arith),
      ),
    )

    less_left :
        (front back left : Bytes) (n : ℕ)
        → left ≡ front ++ back
        → length left ≤ n
        → front ≢ []
        → length back < n
    less_left [] back left n split h some_front = absurd (some_front refl)
    less_left (b ∷ front) back left n split h some_front =
        omega (arith, h, ap length split, length-append front back)

    Move-Advances :
        {s t : Store} {p q : Progress format} (n : ℕ) (move : Move format pid s p t q)
        → IsFine move
        → IsWhole format s.shared
        → Fits format s p
        → Ready s n p
        → Advances n p t q
    Move-Advances n (found k e) fine w h r = (0, (tt, inl (omega arith)))
    Move-Advances n (absent e) fine w h r = (n, (r, inl (omega arith)))
    Move-Advances n (unreadable {s} x e) fine w h r = absurd (read_whole format s.shared x w e)
    Move-Advances n (generate k) fine w h r = (n, (r, inl (omega arith)))
    Move-Advances n (create_new {k} m at_next free) fine w h r =
        (length (to_pem k), ((refl, omega arith), inl (omega arith)))
    Move-Advances n (already_exists {s} {k} content taken) fine w h r =
        next_name n s k content taken r
    Move-Advances n (write {left} content front back e split) fine w h (own, few) =
        (length back, ((refl, omega arith), inr (refl, less_left front back left n split few fine)))
    Move-Advances n (synced ended) fine w h r = (0, (refl, inl (omega arith)))
    Move-Advances n write_failed fine w h r = absurd fine
    Move-Advances n (hard_link free) fine w h r = (0, (refl, inl (omega arith)))
    Move-Advances n (link_exists content e) fine w h r = (0, (refl, inl (omega arith)))
    Move-Advances n link_failed fine w h r = absurd fine
    Move-Advances n finish fine w h r = (0, (tt, inl (omega arith)))
    Move-Advances n yield fine w h r = (0, (tt, inl (omega arith)))
    Move-Advances n (reread k e) fine w h r = (0, (tt, inl (omega arith)))
    Move-Advances n (lost {s} e) fine w h r = absurd (read_there format s.shared h e)
    Move-Advances n (spoiled {s} x e) fine w h r = absurd (read_whole format s.shared x w e)
    Move-Advances n (fail running) fine w h r = absurd fine

    read_CanGo :
        (s : Store) (content : Bytes)
        → IsWhole format s.shared
        → s.shared ≡ some content
        → (k : Key) × (read_adb_private_key format s.shared ≡ ok (some k))
    read_CanGo s content whole there =
        let (k, e) = read_whole_key content (subst (IsWhole format) there whole) in
        (k, ap (read_adb_private_key format) there ∙ e)

    writing-CanGo :
        (s : Store) (k : Key) (n : ℕ) (left content : Bytes)
        → s.temporary pid n ≡ some content
        → CanGo pid s (writing k pid n left)
    writing-CanGo s k n [] content e = (_, (_, (synced refl, tt)))
    writing-CanGo s k n (b ∷ bs) content e =
        (_, (_, (write content (b ∷ bs) [] e (sym (append-nil (b ∷ bs))), cons-ne-nil b bs)))

    linking-CanGo : (s : Store) (k : Key) (n : ℕ) → CanGo pid s (linking k pid n)
    linking-CanGo s k n = elim (Option-cases s.shared) [
      | inl free ↦ (_, (_, (hard_link free, tt)))
      | inr (content, there) ↦ (_, (_, (link_exists content there, tt)))
    ]

    naming-CanGo : (s : Store) (k : Key) → CanGo pid s (naming k)
    naming-CanGo s k = elim (Option-cases (s.temporary pid (s.sequence pid))) [
      | inl free ↦ (_, (_, (create_new (s.sequence pid) refl free, tt)))
      | inr (content, taken) ↦ (_, (_, (already_exists content taken, tt)))
    ]

    reading-CanGo : (s : Store) → IsWhole format s.shared → CanGo pid s reading
    reading-CanGo s whole = elim (Option-cases s.shared) [
      | inl free ↦ (_, (_, (absent (ap (read_adb_private_key format) free ∙ read_missing), tt)))
      | inr (content, there) ↦
          let (k, e) = read_CanGo s content whole there in (_, (_, (found k e, tt)))
    ]

    -- A call that has no key can go on, if somebody can make a key.
    Ready-CanGo :
        (key : Key) (s : Store) (n : ℕ) (p : Progress format)
        → 0 < phase p
        → IsWhole format s.shared
        → Fits format s p
        → Ready s n p
        → CanGo pid s p
    Ready-CanGo key s n reading some_phase w h r = reading-CanGo s w
    Ready-CanGo key s n generating some_phase w h r = (_, (_, (generate key, tt)))
    Ready-CanGo key s n (naming k) some_phase w h r = naming-CanGo s k
    Ready-CanGo key s n (writing k q m left) some_phase w (c, (e, joined)) (own, few) =
        subst (λ q. CanGo pid s (writing k q m left)) (sym own)
          (writing-CanGo s k m left c (subst (λ q. s.temporary q m ≡ some c) own e))
    Ready-CanGo key s n (linking k q m) some_phase w h own =
        subst (λ q. CanGo pid s (linking k q m)) (sym own) (linking-CanGo s k m)
    Ready-CanGo key s n (published k q m) some_phase w h own =
        subst (λ q. CanGo pid s (published k q m)) (sym own) (_, (_, (finish, tt)))
    Ready-CanGo key s n (overtaken q m) some_phase w h own =
        subst (λ q. CanGo pid s (overtaken q m)) (sym own) (_, (_, (yield, tt)))
    Ready-CanGo key s n rereading some_phase w (content, there) r =
        let (k, e) = read_CanGo s content w there in (_, (_, (reread k e, tt)))
    Ready-CanGo key s n (returned x) some_phase w h r = absurd (omega arith)

    -- The calls in a phase before `a`, with any number.
    abbrev AllReturn : ℕ → Type 0
    AllReturn a =
        (s : Store) (n : ℕ) (p : Progress format)
        → phase p < a
        → IsWhole format s.shared
        → Fits format s p
        → Ready s n p
        → Returns pid s p

    over-Returns :
        (s : Store) (n : ℕ) (p : Progress format) → phase p ≡ 0 → Ready s n p → Returns pid s p
    over-Returns s n (returned (ok k)) e r = has_key k
    over-Returns s n (returned (err x)) e r = absurd r
    over-Returns s n p e r = absurd (omega (arith, e))

    -- The calls in phase `a`, by the number.
    phase-Returns :
        (key : Key) (a bound : ℕ)
        → AllReturn (suc a)
        → (s : Store) (n : ℕ) (p : Progress format) → n < bound
        → phase p ≡ suc a
        → IsWhole format s.shared
        → Fits format s p
        → Ready s n p
        → Returns pid s p
    phase-Returns key a zero before s n p small at w h r = absurd (omega arith)
    phase-Returns key a (suc bound) before s n p small at w h r =
        let (t, (q, (move, fine))) = Ready-CanGo key s n p (omega (arith, at)) w h r in
        goes_on move fine (λ u x other fine'.
          let effect = Move-IsEffect format pid other w h in
          let (m, (ready, why)) = Move-Advances n other fine' w h r in
          elim why [
            | inl lower ↦ before u m x (omega (arith, lower, at)) effect.whole effect.own ready
            | inr (same, less) ↦
                phase-Returns key a bound before u m x (omega (arith, less, small)) (same ∙ at)
                  effect.whole effect.own ready
          ])

    all-Return : (key : Key) (a : ℕ) → AllReturn a
    all-Return key zero s n p lower w h r = absurd (omega arith)
    all-Return key (suc zero) s n p lower w h r = over-Returns s n p (omega (arith, lower)) r
    all-Return key (suc (suc a)) s n p lower w h r =
        elim (below_or_at (phase p) (suc a) (omega (arith, lower))) [
          | inl less ↦ all-Return key (suc a) s n p less w h r
          | inr at ↦
              phase-Returns key a (suc n) (all-Return key (suc a)) s n p (omega arith) at w h r
        ]

    -- The shared file is missing or holds a key whole, and one of the names that the process tries
    -- for its temporary file is free. Whatever files other calls have left, and although they never
    -- go on: a call that starts and goes on alone, where no call of the system fails, is never stuck,
    -- never returns an error, and after finitely many steps returns a key, whichever keys it makes
    -- and however its writes are cut.
    pub reading-Returns :
        (tries : ℕ) (s : Store) (key : Key)
        → IsWhole format s.shared
        → s.temporary pid (s.sequence pid + tries) ≡ none
        → Returns pid s reading
    reading-Returns tries s key whole free =
        all-Return key 8 s tries reading (omega arith) whole tt free
