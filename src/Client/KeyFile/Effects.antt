-- ===== src/Client/KeyFile/Effects.antt =====
-- What a call relies on, and what each of its steps does to the files of others.
use adb_client.Base.{
  ◌==◌, Bool-cases, ℕ, ◌≡◌, refl, sym, ap, ◌∙◌, ◌⊎◌, inl, inr, ◌&&◌, Option, none, some, [], ◌++◌,
  append-nil, append_assoc, arith,
}
use mathlib.Core.Path.{subst, subst₂}
use mathlib.Core.Option.{some-injective}
use adb_client.Base.Bytes.{Bytes}
use adb_client.Base.Outcome.{ok, err}
use adb_client.Client.KeyFile.{
  KeyFormat, KeyError, io_error, Store, put, remove, parsed, read_adb_private_key, Progress,
  writing, linking, published, overtaken, rereading, returned, Move, found, absent, unreadable,
  generate, create_new, already_exists, write, synced, write_failed, hard_link, link_exists,
  link_failed, finish, yield, reread, lost, spoiled, fail,
}

module _ (format : KeyFormat) where
  open format use {Key, to_pem, from_pem, from_pem-to_pem}

  -- The shared file holds a key of the program, and holds it whole.
  abbrev pub IsWhole : Option Bytes → Type 0
  IsWhole none = Unit
  IsWhole (some content) = (k : Key) × (content ≡ to_pem k)

  -- The temporary file that a call has created and not removed.
  abbrev pub Holds : Progress format → ℕ → ℕ → Type 0
  Holds (writing k pid n left) q m = (q ≡ pid) × (m ≡ n)
  Holds (linking k pid n) q m = (q ≡ pid) × (m ≡ n)
  Holds (published k pid n) q m = (q ≡ pid) × (m ≡ n)
  Holds (overtaken pid n) q m = (q ≡ pid) × (m ≡ n)
  Holds _ q m = ⊥

  abbrev pub IsThere : Option Bytes → Type 0
  IsThere shared = (content : Bytes) × (shared ≡ some content)

  -- What a call relies on, at each point.
  abbrev pub Fits : Store → Progress format → Type 0
  Fits s (writing k pid n left) =
      (content : Bytes) × ((s.temporary pid n ≡ some content) × (content ++ left ≡ to_pem k))
  Fits s (linking k pid n) = s.temporary pid n ≡ some (to_pem k)
  Fits s (published k pid n) =
      (s.shared ≡ some (to_pem k)) × ((content : Bytes) × (s.temporary pid n ≡ some content))
  Fits s (overtaken pid n) =
      ((content : Bytes) × (s.temporary pid n ≡ some content)) × IsThere s.shared
  Fits s rereading = IsThere s.shared
  Fits s (returned (err e)) = e ≡ io_error
  Fits s (returned (ok k)) = s.shared ≡ some (to_pem k)
  Fits s _ = Unit

  -- What one step of a call from `p` to `p'` does to the files of others.
  pub record IsEffect (s : Store) (p : Progress format) (t : Store) (p' : Progress format)
      : Type 0 where
    pub own : Fits t p'
    pub whole : IsWhole t.shared
    pub grows : (content : Bytes) → s.shared ≡ some content → t.shared ≡ some content
    pub keeps :
        (q m : ℕ) (content : Bytes)
        → s.temporary q m ≡ some content
        → (Holds p q m → ⊥)
        → t.temporary q m ≡ some content
    pub creates : (q m : ℕ) → Holds p' q m → (Holds p q m) ⊎ (s.temporary q m ≡ none)

  read-shared :
      (shared : Option Bytes) (k : Key)
      → IsWhole shared
      → read_adb_private_key format shared ≡ ok (some k)
      → shared ≡ some (to_pem k)
  unfolding read_adb_private_key parsed
  read-shared none k h e = cc
  read-shared (some content) k (j, h) e =
      let known = ap from_pem h ∙ from_pem-to_pem j in cc (known, h)

  pub read_whole :
      (shared : Option Bytes) (e : KeyError)
      → IsWhole shared
      → read_adb_private_key format shared ≡ err e
      → ⊥
  unfolding read_adb_private_key parsed
  read_whole none e whole h = cc
  read_whole (some content) e (k, h) failed =
      let known = ap from_pem h ∙ from_pem-to_pem k in cc (known, failed)

  parsed_key : (o : Option Key) → parsed format o ≡ ok none → ⊥
  unfolding parsed
  parsed_key none e = cc
  parsed_key (some k) e = cc

  pub read_there :
      (shared : Option Bytes) → IsThere shared → read_adb_private_key format shared ≡ ok none → ⊥
  unfolding read_adb_private_key
  read_there none there missing = cc there.1
  read_there (some content) there missing = parsed_key (from_pem content) missing

  module _ (pid : ℕ) (s : Store) (p : Progress format) where
    quiet :
        IsWhole s.shared
        → (p' : Progress format) → Fits s p'
        → ((q m : ℕ) → Holds p' q m → (Holds p q m) ⊎ (s.temporary q m ≡ none))
        → IsEffect s p s p'
    quiet whole p' own creates = record {
      own = own;
      whole = whole;
      grows = λ c h. h;
      keeps = λ q m c h _. h;
      creates = creates;
    }

  -- A call that removes its own file.
  removed :
      (pid n : ℕ) (s : Store) (p p' : Progress format)
      → IsWhole s.shared
      → Holds p pid n
      → Fits (remove pid n s) p'
      → ((q m : ℕ) → Holds p' q m → ⊥)
      → IsEffect s p (remove pid n s) p'
  unfolding put remove
  removed pid n s p p' whole held own ends = record {
    own = own;
    whole = whole;
    grows = λ c h. h;
    keeps = λ q m c e x. elim (Bool-cases (q == pid && m == n)) [
      | inl same ↦
          let at : (pid ≡ q) × (n ≡ m) = ground (arith, same) in
          absurd (x (subst₂ (Holds p) at.0 at.1 held))
      | inr other ↦ rw other e
    ];
    creates = λ q m x. absurd (ends q m x);
  }

  pub Move-IsEffect :
      (pid : ℕ) {s t : Store} {p p' : Progress format}
      → Move format pid s p t p'
      → IsWhole s.shared
      → Fits s p
      → IsEffect s p t p'
  unfolding put remove
  Move-IsEffect pid {s} (found k e) w h =
      quiet pid s _ w _ (read-shared s.shared k w e) (λ q m x. absurd x)
  Move-IsEffect pid {s} (absent e) w h = quiet pid s _ w _ tt (λ q m x. absurd x)
  Move-IsEffect pid {s} (unreadable r e) w h =
      quiet pid s _ w _ (absurd (read_whole s.shared r w e)) (λ q m x. absurd x)
  Move-IsEffect pid {s} (generate k) w h = quiet pid s _ w _ tt (λ q m x. absurd x)
  Move-IsEffect pid {s} (create_new {k} n at_next free) w h = record {
    own = ([], (ground arith, refl));
    whole = w;
    grows = λ c e. e;
    keeps = λ q m c e x. ground (arith, e, x);
    creates = λ q m x. inr (ground (arith, x, free));
  }
  Move-IsEffect pid {s} (already_exists c e) w h = record {
    own = tt;
    whole = w;
    grows = λ c e. e;
    keeps = λ q m c e x. e;
    creates = λ q m x. absurd x;
  }
  Move-IsEffect pid {s} (write {left} content front back e split) w (c', (e', joined)) = record {
    own = (
      content ++ front,
      (
        ground arith,
        append_assoc content front back
            ∙ sym (ap (λ l. content ++ l) split)
            ∙ ap (λ c. c ++ left) (some-injective _ _ (sym e ∙ e'))
            ∙ joined,
      ),
    );
    whole = w;
    grows = λ c e. e;
    keeps = λ q m c e x. ground (arith, e, x);
    creates = λ q m x. inl x;
  }
  Move-IsEffect pid {s} (synced {k} {n} {left} ended) w (c, (e, joined)) =
      quiet pid s _ w _ (e ∙ ap some (sym (append-nil c) ∙ ap (λ l. c ++ l) (sym ended) ∙ joined))
        (λ q m x. inl x)
  Move-IsEffect pid {s} (write_failed {n}) w h =
      removed pid n s _ _ w (refl, refl) refl (λ q m x. x)
  Move-IsEffect pid {s} (hard_link {k} {n} free) w h = record {
    own = (h, (to_pem k, h));
    whole = subst IsWhole (sym h) (k, refl);
    grows = λ c e. absurd (cc (free, e));
    keeps = λ q m c e x. e;
    creates = λ q m x. inl x;
  }
  Move-IsEffect pid {s} (link_exists {k} {n} c e) w h =
      quiet pid s _ w _ ((to_pem k, h), (c, e)) (λ q m x. inl x)
  Move-IsEffect pid {s} (link_failed {n}) w h = removed pid n s _ _ w (refl, refl) refl (λ q m x. x)
  Move-IsEffect pid {s} (finish {n}) w (shared, h) =
      removed pid n s _ _ w (refl, refl) shared (λ q m x. x)
  Move-IsEffect pid {s} (yield {n}) w h = removed pid n s _ _ w (refl, refl) h.1 (λ q m x. x)
  Move-IsEffect pid {s} (reread k e) w h =
      quiet pid s _ w _ (read-shared s.shared k w e) (λ q m x. absurd x)
  Move-IsEffect pid {s} (lost e) w h =
      quiet pid s _ w _ (absurd (read_there s.shared h e)) (λ q m x. absurd x)
  Move-IsEffect pid {s} (spoiled r e) w h =
      quiet pid s _ w _ (absurd (read_whole s.shared r w e)) (λ q m x. absurd x)
  Move-IsEffect pid {s} (fail running) w h = quiet pid s _ w _ refl (λ q m x. absurd x)
