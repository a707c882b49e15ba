-- ===== src/Character/Attack.antt =====
-- share/models/character/attack.go: the basic attack. Go's int has 64 bits, which no product of a
-- coefficient and a 32-bit number exceeds. A negative sum counts as 1, and so does one that stops at 0.
pub mod Bounds
use freya.Common.{
  ℕ, ◌+◌, ◌-◌, ◌*◌, ◌/◌, Bool, true, false, ◌||◌, List, [], ◌∷◌, length, Option, none, some,
  get_elem?, ltb, leb, ◌==◌, if◌then◌else◌,
}
use freya.Character.Style.{Style}

-- The fields of `Character` that the formulas read.
pub record Fighter : Type 0 where
  pub style : Style
  pub str : ℕ  -- uint32
  pub dex : ℕ  -- uint32
  pub int : ℕ  -- uint32

pub record AttackStats : Type 0 where
  pub physical_min : ℕ
  pub physical_max : ℕ
  pub magic_attack : ℕ

-- `attackStatCoefficient`, with the two mastery constants, which are negative or zero, negated.
pub record Coefficient : Type 0 where
  pub str : ℕ
  pub dex : ℕ
  pub int_stat : ℕ
  pub mastery_a : ℕ
  pub minus_mastery_b : ℕ
  pub magic_str : ℕ
  pub magic_dex : ℕ
  pub magic_int : ℕ
  pub magic_mastery_a : ℕ
  pub minus_magic_mastery_b : ℕ

abbrev pub coefficient_of : ℕ → ℕ → ℕ → ℕ → ℕ → ℕ → ℕ → ℕ → ℕ → ℕ → Coefficient
coefficient_of s d i a b ms md mi ma mb = record {
  str = s;
  dex = d;
  int_stat = i;
  mastery_a = a;
  minus_mastery_b = b;
  magic_str = ms;
  magic_dex = md;
  magic_int = mi;
  magic_mastery_a = ma;
  minus_magic_mastery_b = mb;
}

-- `attackStatCoefficients`: none, warrior, blader, wizard, force archer, force shielder, force blader.
abbrev pub coefficients : List Coefficient
coefficients =
    coefficient_of 0 0 0 0 0 0 0 0 0 0
    ∷ coefficient_of 3000 2000 0 8 5 1000 1000 3000 5 4
    ∷ coefficient_of 2500 2500 0 7 4 1000 1000 3500 5 4
    ∷ coefficient_of 2000 1000 1000 5 4 0 1000 3500 8 7
    ∷ coefficient_of 2000 1200 1000 5 5 0 1800 3000 6 5
    ∷ coefficient_of 2500 2300 1000 6 2 500 2500 2900 5 4
    ∷ coefficient_of 2400 2300 1000 6 3 500 2500 2850 5 4
    ∷ []

-- `attackStatCoefficients[style]`, an unknown style being 1; the last case is out of the question.
pub coefficient : ℕ → Coefficient
coefficient style =
    let known = if style == 0 || leb (length coefficients) style then 1 else style in
    elim (get_elem? coefficients known) [ none ↦ coefficient_of 0 0 0 0 0 0 0 0 0 0 | some c ↦ c ]

-- `if n < 1 { n = 1 }`
pub at_least_one : ℕ → ℕ
at_least_one n = if ltb n 1 then 1 else n

-- The physical maximum of `CalculateAttack`.
pub physical : Coefficient → Fighter → ℕ
physical k c = at_least_one (
    (k.str * c.str + k.dex * c.dex + k.int_stat * c.int) / 10000
    + k.mastery_a * c.style.mastery_level
    - k.minus_mastery_b)

-- `CalculateMagicAttack`
pub calculate_magic_attack : Fighter → ℕ
calculate_magic_attack c =
    let k = coefficient c.style.battle_style in
    at_least_one (
      (k.magic_str * c.str + k.magic_dex * c.dex + k.magic_int * c.int) / 10000
      + k.magic_mastery_a * c.style.mastery_level
      - k.minus_magic_mastery_b)

-- `CalculateAttack`
pub calculate_attack : Fighter → AttackStats
calculate_attack c =
    let most = physical (coefficient c.style.battle_style) c in
    let least = at_least_one (most * 4 / 5 + most / 20) in
    record {
      physical_min = if ltb most least then most else least;
      physical_max = most;
      magic_attack = calculate_magic_attack c;
    }
