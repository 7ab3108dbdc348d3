-- ===== src/Client/KeyFile/Shared.antt =====
-- All calls that return a key return the one in the shared file, which is whole.
use adb_client.Base.{
  ◌==◌, ==_iff, Bool-cases, ℕ, ◌≡◌, refl, sym, ap, ◌∙◌, inl, inr, false, some, arith,
}
use mathlib.Core.Path.{subst}
use mathlib.Core.Option.{some-injective}
use adb_client.Base.Bytes.{Bytes}
use adb_client.Base.Outcome.{ok, err}
use adb_client.Client.KeyFile.{
  KeyFormat, KeyError, io_error, Store, Progress, reading, generating, naming, writing, linking,
  published, overtaken, rereading, returned, Move, System, update, pick, Reach, here, next,
}
use adb_client.Client.KeyFile.Effects.{IsWhole, Holds, Fits, IsEffect, Move-IsEffect}

module _ (format : KeyFormat) where
  open format use {Key, to_pem, from_pem, from_pem-to_pem}

  -- What a call relies on, it keeps while others make steps that leave its file alone.
  Fits-keep :
      (s t : Store) (p : Progress format)
      → Fits format s p
      → ((content : Bytes) → s.shared ≡ some content → t.shared ≡ some content)
      → ((q m : ℕ) (content : Bytes)
          → Holds format p q m
          → s.temporary q m ≡ some content
          → t.temporary q m ≡ some content)
      → Fits format t p
  Fits-keep s t reading h grows keeps = tt
  Fits-keep s t generating h grows keeps = tt
  Fits-keep s t (naming k) h grows keeps = tt
  Fits-keep s t (writing k pid n left) (c, (e, joined)) grows keeps =
      (c, (keeps pid n c (refl, refl) e, joined))
  Fits-keep s t (linking k pid n) h grows keeps = keeps pid n (to_pem k) (refl, refl) h
  Fits-keep s t (published k pid n) (shared, (c, e)) grows keeps =
      (grows (to_pem k) shared, (c, keeps pid n c (refl, refl) e))
  Fits-keep s t (overtaken pid n) ((c, e), (d, there)) grows keeps =
      ((c, keeps pid n c (refl, refl) e), (d, grows d there))
  Fits-keep s t rereading (d, there) grows keeps = (d, grows d there)
  Fits-keep s t (returned (ok k)) h grows keeps = grows (to_pem k) h
  Fits-keep s t (returned (err e)) h grows keeps = h

  held_exists :
      (s : Store) (p : Progress format) (q m : ℕ)
      → Fits format s p
      → Holds format p q m
      → (content : Bytes) × (s.temporary q m ≡ some content)
  held_exists s reading q m h x = absurd x
  held_exists s generating q m h x = absurd x
  held_exists s (naming k) q m h x = absurd x
  held_exists s (writing k pid n left) q m (c, (e, joined)) (a, b) = (c, rw (a, b) e)
  held_exists s (linking k pid n) q m h (a, b) = (to_pem k, rw (a, b) h)
  held_exists s (published k pid n) q m (shared, (c, e)) (a, b) = (c, rw (a, b) e)
  held_exists s (overtaken pid n) q m ((c, e), there) (a, b) = (c, rw (a, b) e)
  held_exists s rereading q m h x = absurd x
  held_exists s (returned r) q m h x = absurd x

  pub record Inv (s : System format) : Type 0 where
    pub whole : IsWhole format s.store.shared
    pub fits : (i : ℕ) → Fits format s.store (s.calls i)
    pub unique : (i j q m : ℕ) → Holds format (s.calls i) q m → Holds format (s.calls j) q m → i ≡ j

  module _ (pid : ℕ → ℕ) where
    update_self :
        (calls : ℕ → Progress format) (i : ℕ) (p : Progress format) → update format calls i p i ≡ p
    unfolding update
    update_self calls i p = ground arith

    update-ne :
        (calls : ℕ → Progress format) (i : ℕ) (p : Progress format) (j : ℕ)
        → (j == i) ≡ false
        → update format calls i p j ≡ calls j
    unfolding update
    update-ne calls i p j h = rw h refl

    -- The file that call `i` holds after its step is held by no other call.
    apart :
        (s : System format) (i j q m : ℕ) {p p' : Progress format} {t : Store}
        → Inv s
        → s.calls i ≡ p
        → IsEffect format s.store p t p'
        → (j == i) ≡ false
        → Holds format p' q m
        → Holds format (s.calls j) q m
        → ⊥
    apart s i j q m inv at effect other new held = elim (effect.creates q m new) [
      | inl old ↦
          let same = inv.unique i j q m (subst (λ p. Holds format p q m) (sym at) old) held in
          ground (arith, same, other)
      | inr free ↦
          let (c, e) = held_exists s.store (s.calls j) q m (inv.fits j) held in cc (free, e)
    ]

    pick-Inv :
        (s : System format) (i : ℕ) {p p' : Progress format} {t : Store}
        → Inv s
        → s.calls i ≡ p
        → Move format (pid i) s.store p t p'
        → Inv (record { store = t; calls = update format s.calls i p' })
    pick-Inv s i {p} {p'} {t} inv at mv =
        let effect =
          Move-IsEffect format (pid i) mv inv.whole (subst (Fits format s.store) at (inv.fits i)) in
        record {
          whole = effect.whole;
          fits = λ j. elim (Bool-cases (j == i)) [
            | inl same ↦ rw ((==_iff j i).0 same, update_self s.calls i p') effect.own
            | inr other ↦ rw (update-ne s.calls i p' j other) (
                Fits-keep s.store t (s.calls j) (inv.fits j) effect.grows (λ q m c held e.
                  effect.keeps q m c e (λ own.
                    let same =
                      inv.unique i j q m (subst (λ p. Holds format p q m) (sym at) own) held in
                    ground (arith, same, other))))
          ];
          unique = λ j k q m a b. elim (Bool-cases (j == i)) [
            | inl same ↦ elim (Bool-cases (k == i)) [
              | inl same' ↦ ground (arith, same, same')
              | inr other ↦ absurd (
                  apart s i k q m inv at effect other
                    (subst (λ p. Holds format p q m)
                      (ap (update format s.calls i p') ((==_iff j i).0 same)
                        ∙ update_self s.calls i p')
                      a)
                    (subst (λ p. Holds format p q m) (update-ne s.calls i p' k other) b))
            ]
            | inr other ↦ elim (Bool-cases (k == i)) [
              | inl same ↦ absurd (
                  apart s i j q m inv at effect other
                    (subst (λ p. Holds format p q m)
                      (ap (update format s.calls i p') ((==_iff k i).0 same)
                        ∙ update_self s.calls i p')
                      b)
                    (subst (λ p. Holds format p q m) (update-ne s.calls i p' j other) a))
              | inr other' ↦
                  inv.unique j k q m
                    (subst (λ p. Holds format p q m) (update-ne s.calls i p' j other) a)
                    (subst (λ p. Holds format p q m) (update-ne s.calls i p' k other') b)
            ]
          ];
        }

    Reach-Inv : {s t : System format} → Inv s → Reach format pid s t → Inv t
    Reach-Inv inv here = inv
    Reach-Inv inv (next {t} r (pick i mv)) = pick-Inv t i (Reach-Inv inv r) refl mv

  -- Before the calls: the shared file is not there or holds a key whole.
  abbrev pub IsInitial : System format → Type 0
  IsInitial s = IsWhole format s.store.shared × ((i : ℕ) → s.calls i ≡ reading)

  initial-Inv : (s : System format) → IsInitial s → Inv s
  initial-Inv s (whole, starts) = record {
    whole = whole;
    fits = λ i. rw (starts i) tt;
    unique = λ i j q m a b. absurd (subst (λ p. Holds format p q m) (starts i) a);
  }

  -- Any number of calls, in any processes, start while the shared file is missing or holds a key
  -- whole, and their steps are interleaved in any way, with failures of the system and calls that
  -- never go on. At every moment a shared file that is there holds a key whole; all calls that have
  -- returned a key have returned the same one, which the shared file holds; and a call that has
  -- returned an error has met a failure of the system.
  pub Reach-same_key :
      (pid : ℕ → ℕ) (s t : System format)
      → IsInitial s
      → Reach format pid s t
      → IsWhole format t.store.shared
        × (((i j : ℕ) (k l : Key)
              → t.calls i ≡ returned (ok k)
              → t.calls j ≡ returned (ok l)
              → (k ≡ l) × (t.store.shared ≡ some (to_pem k)))
            × ((i : ℕ) (e : KeyError) → t.calls i ≡ returned (err e) → e ≡ io_error))
  Reach-same_key pid s t initial r =
      let inv = Reach-Inv pid (initial-Inv s initial) r in
      (
        inv.whole,
        (
          λ i j k l a b.
              let first = subst (Fits format t.store) a (inv.fits i) in
              let second = subst (Fits format t.store) b (inv.fits j) in
              let same = ap from_pem (some-injective _ _ (sym first ∙ second)) in
              (some-injective _ _ (sym (from_pem-to_pem k) ∙ same ∙ from_pem-to_pem l), first),
          λ i e a. subst (Fits format t.store) a (inv.fits i),
        ),
      )
