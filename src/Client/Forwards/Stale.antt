-- ===== src/Client/Forwards/Stale.antt =====
-- The rule of a call whose `accept` has failed.
use adb_client.Base.{ℕ, ◌≡◌, some}
use adb_client.Base.Bytes.{Bytes}
use adb_client.Client.Forwards.{get, ended, Forwards, Step, remove_one, remove_all}

-- A step that is not the removal of the rule for `local` by a caller.
abbrev pub Spares : {f g : Forwards} → Bytes → Step f g → Type 0
Spares local (remove_one other) = other ≡ local → ⊥
Spares local remove_all = ⊥
Spares local _ = Unit

-- The steps that follow, until somebody removes that rule.
pub data Later (local : Bytes) (f : Forwards) : Forwards → Type 0 where
  now : Later local f f
  later :
      {g h : Forwards} → Later local f g → (step : Step g h) → Spares local step → Later local f h

-- The call has ended, and its rule is there.
abbrev IsStale : ℕ → (local remote : Bytes) → Forwards → Type 0
IsStale i local remote f = (f.serving i ≡ ended) × (get local f.routes ≡ some (remote, i))
