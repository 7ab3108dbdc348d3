-- ===== src/Client/Forwards/Alive.antt =====
-- The rules are those of the calls that listen.
use adb_client.Base.{
  ◌==◌, ==_iff, Bool-cases, Option-cases, ℕ, ◌≡◌, refl, sym, ap, ◌∙◌, ◌↔◌, inl, inr, Bool, true,
  false, none, some, [], ◌∷◌, arith,
}
use adb_client.Base.Bytes.{Bytes, bytes_eq_refl}
use adb_client.Client.Forwards.{
  Routes, get, Serving, not_started, listening, stopping, ended, Forwards, set_serving, remove_own,
  end_serving, remove_forward, stop_all, remove_all_forwards, Step, serve, remove_one, remove_all,
  notice, leave, Reach, here, next,
}
use adb_client.Client.Forwards.Rules.{
  get-remove, AreStarted, set_serving-AreStarted, Inv, serve-Inv, remove_one-Inv,
}

-- The flag of each rule is set.
stop_all-get :
    (routes : Routes) (stop : ℕ → Bool) (local remote : Bytes) (i : ℕ)
    → get local routes ≡ some (remote, i)
    → stop_all routes stop i ≡ true
unfolding stop_all get
stop_all-get [] stop local remote i h = cc
stop_all-get ((k, (r, j)) ∷ routes) stop local remote i h =
    ground (arith, h, stop_all-get routes stop local remote i)

stop_all-keeps :
    (routes : Routes) (stop : ℕ → Bool) (i : ℕ) → stop_all routes stop i ≡ false → stop i ≡ false
unfolding stop_all
stop_all-keeps [] stop i h = h
stop_all-keeps ((k, (r, j)) ∷ routes) stop i h = ground (arith, h, stop_all-keeps routes stop i)

stop_all-fresh :
    (routes : Routes) (stop : ℕ → Bool) (serving : ℕ → Serving) (j : ℕ)
    → serving j ≡ not_started
    → AreStarted serving routes
    → stop j ≡ false
    → stop_all routes stop j ≡ false
unfolding stop_all
stop_all-fresh [] stop serving j at started h = h
stop_all-fresh ((key, (remote, i)) ∷ routes) stop serving j at (p, ps) h =
    elim (Bool-cases (j == i)) [
      | inl same ↦ absurd (p (ap serving (sym ((==_iff j i).0 same)) ∙ at))
      | inr other ↦ rw other (stop_all-fresh routes stop serving j at ps h)
    ]

remove_all-Inv : (f : Forwards) → Inv f → Inv (remove_all_forwards f).0
unfolding remove_all_forwards get
remove_all-Inv f inv = record {
  alive = λ l r j found. absurd (cc (found));
  listed = λ l r j at on.
      let there = inv.listed l r j at (stop_all-keeps f.routes f.stop j on) in
      absurd (cc (stop_all-get f.routes f.stop l r j there, on));
  fresh = λ j at. stop_all-fresh f.routes f.stop f.serving j at inv.started (inv.fresh j at);
  started = tt;
}

-- A call that has stopped listening keeps no rule, so that it removes none.
leave-Inv :
    (f : Forwards) (i : ℕ) (phase : Serving)
    → Inv f
    → f.serving i ≡ phase
    → ((l r : Bytes) → phase ≡ listening l r → f.stop i ≡ true)
    → (phase ≡ not_started → ⊥)
    → (phase' : Serving) → ((l r : Bytes) → phase' ≡ listening l r → ⊥)
    → (phase' ≡ not_started → ⊥)
    → Inv (record f { serving = set_serving i phase' f.serving })
unfolding set_serving
leave-Inv f i phase inv at over begun phase' quiet begun' = record {
  alive = λ l r j found.
      let (at_j, on) = inv.alive l r j found in
      elim (Bool-cases (j == i)) [
        | inl same ↦
            let here_i : j ≡ i = (==_iff j i).0 same in
            absurd (cc (over l r (sym at ∙ ap f.serving (sym here_i) ∙ at_j), ap f.stop here_i, on))
        | inr other ↦ (rw other at_j, on)
      ];
  listed = λ l r j at_j on. elim (Bool-cases (j == i)) [
    | inl same ↦ absurd (quiet l r (ground (arith, same, at_j)))
    | inr other ↦ inv.listed l r j (ground (arith, other, at_j)) on
  ];
  fresh = λ j at_j. elim (Bool-cases (j == i)) [
    | inl same ↦ absurd (begun' (ground (arith, same, at_j)))
    | inr other ↦ inv.fresh j (ground (arith, other, at_j))
  ];
  started = set_serving-AreStarted f.serving i phase' f.routes begun' inv.started;
}

own_gone :
    (f : Forwards) (i : ℕ) (local : Bytes)
    → Inv f
    → f.serving i ≡ stopping local
    → remove_own i local f.routes ≡ f.routes
unfolding remove_own
own_gone f i local inv at = elim (Option-cases (get local f.routes)) [
  | inl free ↦ rw (free, remove_own) refl
  | inr ((remote, j), there) ↦ elim (Bool-cases (j == i)) [
    | inl same ↦
        absurd (cc ((inv.alive local remote j there).0, ap f.serving ((==_iff j i).0 same), at))
    | inr other ↦ rw (there, other, remove_own) refl
  ]
]

Step-Inv : {f g : Forwards} → Step f g → Inv f → Inv g
unfolding end_serving
Step-Inv (serve {f} i port local remote idle checked) inv =
    serve-Inv f i port local remote inv idle checked
Step-Inv (remove_one {f} local) inv = remove_one-Inv f local inv
Step-Inv (remove_all {f}) inv = remove_all-Inv f inv
Step-Inv (notice {f} i local remote at set) inv =
    leave-Inv f i (listening local remote) inv at (λ l r e. set) (λ e. cc) (stopping local)
      (λ l r e. cc) (λ e. cc)
Step-Inv (leave {f} i local at) inv =
    rw (own_gone f i local inv at)
      (leave-Inv f i (stopping local) inv at (λ l r e. cc) (λ e. cc) ended (λ l r e. cc) (λ e. cc))

-- No rule and no call.
abbrev pub start : Forwards
start = record { routes = []; stop = λ i. false; serving = λ i. not_started }

start-Inv : Inv start
unfolding get
start-Inv = record {
  alive = λ l r i h. absurd (cc h);
  listed = λ l r i at on. absurd (cc at);
  fresh = λ i at. refl;
  started = tt;
}

pub Reach-Inv : {f : Forwards} → Reach start f → Inv f
Reach-Inv here = start-Inv
Reach-Inv (next r step) = Step-Inv step (Reach-Inv r)

pub removed_free :
    (f : Forwards) (local : Bytes) → get local (remove_forward local f).0.routes ≡ none
unfolding remove_forward
removed_free f local = elim (Option-cases (get local f.routes)) [
  | inl free ↦ rw (free, remove_forward) free
  | inr ((remote, i), there) ↦
      rw (there, remove_forward, get-remove local local f.routes, bytes_eq_refl local) refl
]

-- Rules are made, removed one at a time and all together, and their calls see their flags and end, in
-- any order, while no `accept` fails. A rule is in the map exactly if a call listens for it and has
-- not been told to stop; and once a rule is removed, each call that still listens for it has been
-- told to stop.
pub Reach-alive :
    (f : Forwards)
    → Reach start f
    → (local remote : Bytes) (i : ℕ)
    → ((get local f.routes ≡ some (remote, i))
        ↔ ((f.serving i ≡ listening local remote) × (f.stop i ≡ false)))
      × ((remove_forward local f).0.serving i ≡ listening local remote
          → (remove_forward local f).0.stop i ≡ true)
Reach-alive f r local remote i =
    let inv = Reach-Inv r in
    let removed = remove_one-Inv f local inv in
    (
      (inv.alive local remote i, λ on. inv.listed local remote i on.0 on.1),
      λ at. elim (Bool-cases ((remove_forward local f).0.stop i)) [
        | inl told ↦ told
        | inr untold ↦ absurd (cc (removed.listed local remote i at untold, removed_free f local))
      ],
    )
