-- ===== src/Client/Forwards/Rules.antt =====
-- The rules are those of the calls that listen: what makes a rule, and what removes one.
use adb_client.Base.{
  ◌==◌, if◌then◌else◌, Bool-cases, Option-cases, if_either, ℕ, ◌≡◌, ◌↔◌, inl, inr, true, false,
  none, some, [], ◌∷◌, arith,
}
use adb_client.Base.Bytes.{Bytes, bytes_eq, bytes_eq→eq, bytes_eq_refl}
use adb_client.Base.Outcome.{ok}
use adb_client.Client.Forwards.{
  Routes, get, remove, contains_key, check_local, Serving, not_started, listening, Forwards,
  set_serving, set_stop, start_serving, remove_forward,
}

pub bytes_iff : (a b : Bytes) → (bytes_eq a b ≡ true) ↔ (a ≡ b)
bytes_iff a b = (bytes_eq→eq a b, λ e. rw e (bytes_eq_refl b))

pub get-remove :
    (local key : Bytes) (routes : Routes)
    → get key (remove local routes) ≡ (if bytes_eq local key then none else get key routes)
unfolding get remove
get-remove local key [] = ground arith
get-remove local key ((k, route) ∷ routes) =
    ground
      (arith, bytes_iff local key, bytes_iff local k, bytes_iff key k, get-remove local key routes)

-- The flags of the rules are those of calls that have started.
abbrev pub AreStarted : (ℕ → Serving) → Routes → Type 0
AreStarted serving [] = Unit
AreStarted serving ((key, (remote, i)) ∷ routes) =
    (serving i ≡ not_started → ⊥) × AreStarted serving routes

remove-AreStarted :
    (serving : ℕ → Serving) (local : Bytes) (routes : Routes)
    → AreStarted serving routes
    → AreStarted serving (remove local routes)
unfolding remove
remove-AreStarted serving local [] h = tt
remove-AreStarted serving local ((key, (remote, i)) ∷ routes) (p, ps) =
    let later = remove-AreStarted serving local routes ps in
    if_either (AreStarted serving) (bytes_eq local key) _ ((key, (remote, i)) ∷ remove local routes)
      later (p, later)

pub set_serving-AreStarted :
    (serving : ℕ → Serving) (i : ℕ) (phase : Serving) (routes : Routes)
    → (phase ≡ not_started → ⊥)
    → AreStarted serving routes
    → AreStarted (set_serving i phase serving) routes
unfolding set_serving
set_serving-AreStarted serving i phase [] started h = tt
set_serving-AreStarted serving i phase ((key, (remote, j)) ∷ routes) started (p, ps) = (
  elim (Bool-cases (j == i)) [ inl same ↦ rw same started | inr other ↦ rw other p ],
  set_serving-AreStarted serving i phase routes started ps,
)

pub record Inv (f : Forwards) : Type 0 where
  pub alive :
      (local remote : Bytes) (i : ℕ)
      → get local f.routes ≡ some (remote, i)
      → (f.serving i ≡ listening local remote) × (f.stop i ≡ false)
  pub listed :
      (local remote : Bytes) (i : ℕ)
      → f.serving i ≡ listening local remote
      → f.stop i ≡ false
      → get local f.routes ≡ some (remote, i)
  pub fresh : (i : ℕ) → f.serving i ≡ not_started → f.stop i ≡ false
  pub started : AreStarted f.serving f.routes

pub check_local-free :
    (local : Bytes) (port : ℕ) (routes : Routes)
    → check_local local routes ≡ ok port
    → get local routes ≡ none
unfolding check_local contains_key
check_local-free local port routes h = ground arith

pub set_self :
    (i : ℕ) (phase : Serving) (serving : ℕ → Serving) → set_serving i phase serving i ≡ phase
unfolding set_serving
set_self i phase serving = ground arith

pub serve-Inv :
    (f : Forwards) (i port : ℕ) (local remote : Bytes)
    → Inv f
    → f.serving i ≡ not_started
    → check_local local f.routes ≡ ok port
    → Inv (start_serving i local remote f)
unfolding start_serving set_serving set_stop get
serve-Inv f i port local remote inv idle checked =
    let free = check_local-free local port f.routes checked in
    record {
      alive = λ l r j there.
          ground (arith, there, bytes_iff l local, inv.alive l r j, inv.fresh i idle, idle);
      listed =
          λ l r j at on. ground (arith, at, on, bytes_iff l local, inv.listed l r j, free, idle);
      fresh = λ j at. ground (arith, at, inv.fresh j);
      started = (
        λ e. absurd (cc (set_self i (listening local remote) f.serving, e)),
        set_serving-AreStarted f.serving i (listening local remote) f.routes (λ e. cc) inv.started,
      );
    }

-- The rule goes, and its call sees the flag.
remove_found :
    (f : Forwards) (local remote : Bytes) (i : ℕ)
    → Inv f
    → get local f.routes ≡ some (remote, i)
    → Inv (record f { routes = remove local f.routes; stop = set_stop i true f.stop })
unfolding set_stop
remove_found f local remote i inv there =
    let (at_i, on_i) = inv.alive local remote i there in
    record {
      alive = λ l r j found.
          ground
            (arith, found, get-remove local l f.routes, bytes_iff local l, inv.alive l r j, at_i);
      listed = λ l r j at on.
          ground (
            arith,
            at,
            on,
            get-remove local l f.routes,
            bytes_iff local l,
            inv.listed l r j,
            there,
          );
      fresh = λ j at. ground (arith, at, inv.fresh j, at_i);
      started = remove-AreStarted f.serving local f.routes inv.started;
    }

pub remove_one-Inv : (f : Forwards) (local : Bytes) → Inv f → Inv (remove_forward local f).0
unfolding remove_forward
remove_one-Inv f local inv = elim (Option-cases (get local f.routes)) [
  | inl free ↦ rw (free, remove_forward) inv
  | inr ((remote, i), there) ↦ rw (there, remove_forward) (remove_found f local remote i inv there)
]
