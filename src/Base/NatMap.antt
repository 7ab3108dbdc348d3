-- ===== src/Base/NatMap.antt =====
-- Rust's maps with `u32` keys (`BTreeMap`, `HashMap`), as association lists, and their laws.
use Prim.Native.Nat.{ℕ}
use mathlib.Core.Path.{◌≡◌, refl, subst₂}
use mathlib.Core.List.{List, [], ◌∷◌}
use mathlib.Core.Option.{Option, none, some}
use native.Mathlib.Omega.{arith}
use mathlib.Core.Logic.{inl, inr}
use adb_client.Base.Tests.{◌==◌, if◌then◌else◌, ==_iff, Bool-cases}

abbrev pub NatMap {ℓ} : Type ℓ → Type ℓ
NatMap V = List (ℕ × V)

module _ {ℓ} {V : Type ℓ} where
  -- `get`
  unfoldable pub lookup : ℕ → NatMap V → Option V
  lookup id [] = none
  lookup id ((key, value) ∷ rest) = if key == id then some value else lookup id rest

  -- `remove`
  unfoldable pub remove : ℕ → NatMap V → NatMap V
  remove id [] = []
  remove id ((key, value) ∷ rest) =
      let kept = remove id rest in if key == id then kept else (key, value) ∷ kept

  -- `insert`, which replaces the value of a key that is there.
  unfoldable pub insert : ℕ → V → NatMap V → NatMap V
  insert id value [] = (id, value) ∷ []
  insert id value ((key, old) ∷ rest) =
      let kept = insert id value rest in if key == id then (id, value) ∷ rest else (key, old) ∷ kept

  pub lookup-insert :
      (id sought : ℕ) (value : V) (entries : NatMap V)
      → lookup sought (insert id value entries)
        ≡ (if id == sought then some value else lookup sought entries)
  unfolding insert lookup
  lookup-insert id sought value [] = refl
  lookup-insert id sought value ((key, old) ∷ rest) =
      let below = lookup-insert id sought value rest in ground (below, arith)

  pub lookup-remove :
      (k j : ℕ) (m : NatMap V) → lookup j (remove k m) ≡ (if k == j then none else lookup j m)
  unfolding lookup remove
  lookup-remove k j [] = ground arith
  lookup-remove k j ((i, w) ∷ m) = ground (arith, lookup-remove k j m)

  pub lookup-insert_self : (k : ℕ) (v : V) (m : NatMap V) → lookup k (insert k v m) ≡ some v
  lookup-insert_self k v m = ground (arith, lookup-insert k k v m)

  pub lookup-remove_self : (k : ℕ) (m : NatMap V) → lookup k (remove k m) ≡ none
  lookup-remove_self k m = ground (arith, lookup-remove k k m)

  -- Every entry that a lookup can find satisfies `P`.
  abbrev pub Every {κ} : (ℕ → V → Type κ) → NatMap V → Type (ℓ ⊔ κ)
  Every P m = (k : ℕ) (v : V) → lookup k m ≡ some v → P k v

module _ {ℓ κ} {V : Type ℓ} (P : ℕ → V → Type κ) where
  pub Every-nil : Every P []
  unfolding lookup
  Every-nil k v e = cc

  pub Every-insert : (k : ℕ) (v : V) (m : NatMap V) → P k v → Every P m → Every P (insert k v m)
  Every-insert k v m p all j w e = elim (Bool-cases (k == j)) [
    | inl hit ↦
        let same : k ≡ j = (==_iff k j).0 hit in
        let value : v ≡ w = ground (arith, lookup-insert k j v m) in subst₂ P same value p
    | inr miss ↦ all j w (ground (arith, lookup-insert k j v m))
  ]

  pub Every-remove : (k : ℕ) (m : NatMap V) → Every P m → Every P (remove k m)
  Every-remove k m all j w e = all j w (ground (arith, lookup-remove k j m))
