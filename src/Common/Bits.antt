-- ===== src/Common/Bits.antt =====
-- Laws of the bit operations at variables, from the digit recursion that they stand for.
use Prim.Native.Nat.{
  ℕ, zero, suc, ◌+◌, ◌*◌, ◌/◌, ◌%◌, ◌^◌, ◌≤◌, ◌<◌, min, differ, bit_and, bit_xor, digits, bitwise,
  bit_and-bitwise, bit_xor-bitwise,
}
use mathlib.Core.Path.{◌≡◌, refl, ap, ap₂, ◌∙◌}
use native.Mathlib.Nat.{
  add-mul-mod_self_left, mod-eq_of_lt, mod-lt, div-add-mod, pow-suc, one-le-pow,
}
use native.Mathlib.Omega.{arith}

-- Two amounts of fuel that both cover the first operand give the same number.
fuel_irrelevant :
    (base : ℕ → ℕ) (digit : ℕ → ℕ → ℕ) (x k l y : ℕ)
    → x ≤ k
    → x ≤ l
    → digits base digit k x y ≡ digits base digit l x y
fuel_irrelevant base digit zero zero zero y hk hl = refl
fuel_irrelevant base digit zero zero (suc l) y hk hl = refl
fuel_irrelevant base digit zero (suc k) zero y hk hl = refl
fuel_irrelevant base digit zero (suc k) (suc l) y hk hl = refl
fuel_irrelevant base digit (suc x) zero l y hk hl = absurd (omega arith)
fuel_irrelevant base digit (suc x) (suc k) zero y hk hl = absurd (omega arith)
fuel_irrelevant base digit (suc x) (suc k) (suc l) y hk hl =
    ap (λ (t : ℕ). t * 2 + digit (suc x % 2) (y % 2))
      (fuel_irrelevant base digit (suc x / 2) k l (y / 2) (omega arith) (omega arith))

lowest_digit :
    (base : ℕ → ℕ) (digit : ℕ → ℕ → ℕ) (x y : ℕ)
    → bitwise base digit (suc x) y
      ≡ bitwise base digit (suc x / 2) (y / 2) * 2 + digit (suc x % 2) (y % 2)
lowest_digit base digit x y =
    ap (λ (t : ℕ). t * 2 + digit (suc x % 2) (y % 2))
      (fuel_irrelevant base digit (suc x / 2) x (suc x / 2) (y / 2) (omega arith) (omega arith))

bit_below : (a : ℕ) → a < 2 → (b : ℕ) → b < 2 → differ a b ≡ (a + b) % 2
bit_below zero p b q = omega arith
bit_below (suc zero) p zero q = refl
bit_below (suc zero) p (suc zero) q = refl
bit_below (suc zero) p (suc (suc b)) q = absurd (omega arith)
bit_below (suc (suc a)) p b q = absurd (omega arith)

differ-digits : (a b : ℕ) → differ (a % 2) (b % 2) ≡ (a + b) % 2
differ-digits a b = omega (arith, bit_below (a % 2) (omega arith) (b % 2) (omega arith))

pub bit_xor_step : (a b : ℕ) → bit_xor a b ≡ bit_xor (a / 2) (b / 2) * 2 + (a + b) % 2
bit_xor_step zero b = simp bit_xor-bitwise (omega arith)
bit_xor_step (suc a) b = simp bit_xor-bitwise (
    lowest_digit (λ y. y) differ a b
    ∙ ap (λ (t : ℕ). bitwise (λ y. y) differ (suc a / 2) (b / 2) * 2 + t) (differ-digits (suc a) b))

pub bit_and_step : (x y : ℕ) → bit_and x y ≡ bit_and (x / 2) (y / 2) * 2 + min (x % 2) (y % 2)
bit_and_step zero y = simp bit_and-bitwise (omega arith)
bit_and_step (suc x) y = simp bit_and-bitwise (lowest_digit (λ n. 0) min x y)

-- The steps as equations on the quotient and the remainder by 2, which the proofs below use.
xor_half : (a b : ℕ) → bit_xor a b / 2 ≡ bit_xor (a / 2) (b / 2)
xor_half a b = omega (arith, bit_xor_step a b)

xor_bit : (a b : ℕ) → bit_xor a b % 2 ≡ (a + b) % 2
xor_bit a b = omega (arith, bit_xor_step a b)

and_half : (a b : ℕ) → bit_and a b / 2 ≡ bit_and (a / 2) (b / 2)
and_half a b = omega (arith, bit_and_step a b)

and_zero_below : (n a : ℕ) → a ≤ n → bit_and a 0 ≡ 0
and_zero_below zero zero h = refl
and_zero_below zero (suc a) h = absurd (omega arith)
and_zero_below (suc n) a h = omega (arith, bit_and_step a 0, and_zero_below n (a / 2) (omega arith))

pub and_zero : (a : ℕ) → bit_and a 0 ≡ 0
and_zero a = and_zero_below a a (omega arith)

zero_mask : (m : ℕ) → m + 1 ≡ 2 ^ 0 → m ≡ 0
zero_mask m h = omega arith

xor_cancel_below : (n a b : ℕ) → a ≤ n → b ≤ n → bit_xor (bit_xor a b) b ≡ a
xor_cancel_below zero zero zero p q = refl
xor_cancel_below zero zero (suc b) p q = absurd (omega arith)
xor_cancel_below zero (suc a) b p q = absurd (omega arith)
xor_cancel_below (suc n) a b p q = omega (
  arith,
  bit_xor_step (bit_xor a b) b,
  ap (λ (t : ℕ). bit_xor t (b / 2)) (xor_half a b),
  xor_bit a b,
  xor_cancel_below n (a / 2) (b / 2) (omega arith) (omega arith),
)

-- Adding a key twice by exclusive or gives the first operand back.
pub xor_cancel : (a b : ℕ) → bit_xor (bit_xor a b) b ≡ a
xor_cancel a b = xor_cancel_below (a + b) a b (omega arith) (omega arith)

xor_comm_below : (n a b : ℕ) → a ≤ n → b ≤ n → bit_xor a b ≡ bit_xor b a
xor_comm_below zero zero zero p q = refl
xor_comm_below zero zero (suc b) p q = absurd (omega arith)
xor_comm_below zero (suc a) b p q = absurd (omega arith)
xor_comm_below (suc n) a b p q = omega (
  arith,
  bit_xor_step a b,
  bit_xor_step b a,
  xor_comm_below n (a / 2) (b / 2) (omega arith) (omega arith),
)

pub xor_comm : (a b : ℕ) → bit_xor a b ≡ bit_xor b a
xor_comm a b = xor_comm_below (a + b) a b (omega arith) (omega arith)

-- The low k bits of an exclusive or are those of its operands.
mod_of_sum : (r m q : ℕ) → r < m → (r + m * q) % m ≡ r
mod_of_sum r m q h = add-mul-mod_self_left r m q ∙ mod-eq_of_lt h

double_mod : (k a : ℕ) → a % 2 ^ suc k ≡ (a / 2) % 2 ^ k * 2 + a % 2
double_mod k a = ap (λ (t : ℕ). t % 2 ^ suc k) split ∙ mod_of_sum r (2 ^ suc k) (a / 2 / 2 ^ k) low
  where
    r : ℕ
    r = (a / 2) % 2 ^ k * 2 + a % 2

    low : r < 2 ^ suc k
    low = omega (arith, pow-suc 2 k, mod-lt (a / 2) (one-le-pow k 2 (omega arith)))

    split : a ≡ r + 2 ^ suc k * (a / 2 / 2 ^ k)
    split =
        omega
          (arith, ap (λ (t : ℕ). t * (a / 2 / 2 ^ k)) (pow-suc 2 k), div-add-mod (a / 2) (2 ^ k))

half_mod : (k a : ℕ) → (a % 2 ^ suc k) / 2 ≡ (a / 2) % 2 ^ k
half_mod k a = omega (arith, double_mod k a)

pub xor-mod_pow : (k a b : ℕ) → bit_xor a b % 2 ^ k ≡ bit_xor (a % 2 ^ k) (b % 2 ^ k)
xor-mod_pow zero a b =
    let p : a % 1 ≡ 0 = omega arith in
    let q : b % 1 ≡ 0 = omega arith in omega (arith, ap₂ bit_xor p q)
xor-mod_pow (suc k) a b = omega (
  arith,
  double_mod k (bit_xor a b),
  double_mod k a,
  double_mod k b,
  ap (λ (t : ℕ). t % 2 ^ k) (xor_half a b),
  xor_bit a b,
  xor-mod_pow k (a / 2) (b / 2),
  bit_xor_step (a % 2 ^ suc k) (b % 2 ^ suc k),
  ap₂ bit_xor (half_mod k a) (half_mod k b),
)

-- An exclusive or of k-bit numbers is a k-bit number.
pub xor_lt : (k a b : ℕ) → a < 2 ^ k → b < 2 ^ k → bit_xor a b < 2 ^ k
xor_lt k a b p q = omega (
  arith,
  xor-mod_pow k a b,
  ap₂ bit_xor (mod-eq_of_lt p) (mod-eq_of_lt q),
  mod-lt (bit_xor a b) (one-le-pow k 2 (omega arith)),
)

-- A mask whose low k bits are clear clears those of the other operand.
pub and-mod_zero : (k a b : ℕ) → b % 2 ^ k ≡ 0 → bit_and a b % 2 ^ k ≡ 0
and-mod_zero zero a b h = omega arith
and-mod_zero (suc k) a b h = omega (
  arith,
  double_mod k (bit_and a b),
  double_mod k b,
  and-mod_zero k (a / 2) (b / 2) (omega (arith, double_mod k b)),
  bit_and_step a b,
  ap (λ (t : ℕ). t % 2 ^ k) (and_half a b),
)

-- A mask of k ones is the remainder by `2 ^ k`.
pub and_low_mask : (k a m : ℕ) → m + 1 ≡ 2 ^ k → bit_and a m ≡ a % 2 ^ k
and_low_mask zero a m h = omega (arith, and_zero a, ap (bit_and a) (zero_mask m h))
and_low_mask (suc k) a m h = omega (
  arith,
  bit_and_step a m,
  double_mod k a,
  pow-suc 2 k,
  one-le-pow k 2 (omega arith),
  and_low_mask k (a / 2) (m / 2) (omega (arith, pow-suc 2 k, one-le-pow k 2 (omega arith))),
)
