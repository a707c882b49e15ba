-- ===== src/Common/Maps.antt =====
-- Go's maps with number keys as association lists. Go leaves the order of a map open: nothing
-- below depends on it but through `lookup` and `keys`.
use Prim.Native.Nat.{ℕ}
use mathlib.Core.Path.{◌≡◌}
use mathlib.Core.Option.{Option, none, some}
use mathlib.Core.List.{List, [], ◌∷◌}
use native.Mathlib.Omega.{arith}
use freya.Common.Tests.{◌==◌, if◌then◌else◌}

abbrev pub GoMap {ℓ} : Type ℓ → Type ℓ
GoMap V = List (ℕ × V)

module _ {ℓ} {V : Type ℓ} where
  -- `v, ok := m[k]`
  unfoldable pub lookup : ℕ → GoMap V → Option V
  lookup k [] = none
  lookup k (e ∷ m) = if k == e.0 then some e.1 else lookup k m

  -- `delete(m, k)`
  unfoldable pub erase : ℕ → GoMap V → GoMap V
  erase k [] = []
  erase k (e ∷ m) = let rest = erase k m in if k == e.0 then rest else e ∷ rest

  -- `m[k] = v`
  unfoldable pub insert : ℕ → V → GoMap V → GoMap V
  insert k v m = (k, v) ∷ erase k m

  pub lookup-erase :
      (j k : ℕ) (m : GoMap V) → lookup j (erase k m) ≡ (if j == k then none else lookup j m)
  unfolding lookup erase
  lookup-erase j k [] = ground arith
  lookup-erase j k (e ∷ m) = ground (arith, lookup-erase j k m)

  pub lookup-insert :
      (j k : ℕ) (v : V) (m : GoMap V)
      → lookup j (insert k v m) ≡ (if j == k then some v else lookup j m)
  unfolding lookup insert
  lookup-insert j k v m = ground (arith, lookup-erase j k m)
