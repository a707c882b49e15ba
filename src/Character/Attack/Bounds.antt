-- ===== src/Character/Attack/Bounds.antt =====
-- The range of the basic attack, share/models/character/attack.go.
use native.Mathlib.Nat.{mul-le-mul_left}
use freya.Common.{ℕ, ◌+◌, ◌*◌, ◌≤◌, ◌<◌, ◌≡◌, ap, arith}
use freya.Character.Style.{Style}
use freya.Character.Attack.{
  Fighter, Coefficient, coefficient, at_least_one, physical, calculate_magic_attack,
  calculate_attack,
}

at_least_one_le : (m n : ℕ) → m ≤ n → at_least_one m ≤ at_least_one n
unfolding at_least_one
at_least_one_le m n h = ground arith

-- The least physical attack is positive, at most the greatest, and more than four fifths of it less
-- two; the magic attack is positive.
pub attack_range :
    (c : Fighter)
    → let stats = calculate_attack c in
      (1 ≤ stats.physical_min)
      × (stats.physical_min ≤ stats.physical_max)
      × (stats.physical_max * 4 < stats.physical_min * 5 + 10)
      × (1 ≤ stats.magic_attack)
unfolding calculate_attack calculate_magic_attack physical at_least_one
attack_range c = ground arith

physical_le :
    (k : Coefficient) (c c' : Fighter)
    → c.str ≤ c'.str
    → c.dex ≤ c'.dex
    → c.int ≤ c'.int
    → c.style ≡ c'.style
    → physical k c ≤ physical k c'
unfolding physical
physical_le k c c' hs hd hi he = at_least_one_le _ _ (
    omega (
      arith,
      mul-le-mul_left k.str hs,
      mul-le-mul_left k.dex hd,
      mul-le-mul_left k.int_stat hi,
      ap (λ (s : Style). k.mastery_a * s.mastery_level) he,
    ))

-- Raising strength, dexterity and intelligence never lowers the greatest physical attack.
pub attack_monotone :
    (c c' : Fighter)
    → c.str ≤ c'.str
    → c.dex ≤ c'.dex
    → c.int ≤ c'.int
    → c.style ≡ c'.style
    → (calculate_attack c).physical_max ≤ (calculate_attack c').physical_max
unfolding calculate_attack
attack_monotone c c' hs hd hi he =
    rw (ap (λ (s : Style). coefficient s.battle_style) he)
      (physical_le (coefficient c'.style.battle_style) c c' hs hd hi he)
