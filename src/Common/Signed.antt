-- ===== src/Common/Signed.antt =====
-- Go's signed integers over the native numbers; `negsuc n` is -(n + 1).
use Prim.Native.Nat.{ℕ, zero, suc, ◌-◌, ◌<◌, ◌%◌, ◌^◌}
use mathlib.Core.Path.{◌≡◌}
use mathlib.Core.Logic.{◌↔◌}
use mathlib.Core.Bool.{Bool, true, false}
use native.Mathlib.Omega.{arith}
use freya.Common.Tests.{ltb, ◌==◌, if◌then◌else◌}

pub data ℤ : Type 0 where
  pos : ℕ → ℤ
  negsuc : ℕ → ℤ

abbrev pub eq_ℤ : ℤ → ℤ → Bool
eq_ℤ (pos a) (pos b) = a == b
eq_ℤ (negsuc a) (negsuc b) = a == b
eq_ℤ (pos a) (negsuc b) = false
eq_ℤ (negsuc a) (pos b) = false

pub eq_ℤ_iff : (a b : ℤ) → (eq_ℤ a b ≡ true) ↔ (a ≡ b)
eq_ℤ_iff a b = ground arith

-- `a <= 0`
abbrev pub nonpos : ℤ → Bool
nonpos (pos n) = n == 0
nonpos (negsuc n) = true

-- `a - 1`, for a value above the type's least one.
abbrev pub pred_ℤ : ℤ → ℤ
pred_ℤ (pos zero) = negsuc 0
pred_ℤ (pos (suc n)) = pos n
pred_ℤ (negsuc n) = negsuc (suc n)

-- The two's complement pattern of width `w`, and the number that such a pattern stands for.
abbrev pub pattern_of : ℕ → ℤ → ℕ
pattern_of w (pos n) = n % 2 ^ w
pattern_of w (negsuc n) = 2 ^ w - 1 - n % 2 ^ w

abbrev pub signed : ℕ → ℕ → ℤ
signed w p = if ltb p (2 ^ (w - 1)) then pos p else negsuc (2 ^ w - 1 - p)

-- The values of the signed type of width `w`.
abbrev pub FitsSigned : ℕ → ℤ → Type 0
FitsSigned w (pos n) = n < 2 ^ (w - 1)
FitsSigned w (negsuc n) = n < 2 ^ (w - 1)
