-- ===== src/Character/Vitals/Bounds.antt =====
-- Bounds of health, mana and spirit points, share/models/character.
use native.Mathlib.Nat.{mod-le, mul-le-mul, mul-le-mul_right, div-le_of_le-mul, mul-div_left}
use freya.Common.{
  ℕ, zero, suc, ◌*◌, ◌/◌, ◌%◌, ◌^◌, ◌≤◌, ◌<◌, ◌≡◌, refl, ap, ◌∙◌, false, Option, none, some, arith,
  if◌then◌else◌, Option-cases, inl, inr, get_elem?, ◌==◌,
}
use freya.Character.Vitals.{
  Character, mul32, to_u16, calculate_max_hp, calculate_max_mp, calculate_max_sp, rescale,
  recalculate_hp, recalculate_mp, recalculate_sp, add_spirit_points, hp_formulas, mp_formulas,
}

-- The points in hand do not exceed their maximum, which fits 16 bits.
pub record IsHealthy (c : Character) : Type 0 where
  pub hp_le : c.current_hp ≤ c.max_hp
  pub mp_le : c.current_mp ≤ c.max_mp
  pub sp_le : c.current_sp ≤ c.max_sp
  pub hp_small : c.max_hp < 2 ^ 16
  pub mp_small : c.max_mp < 2 ^ 16
  pub sp_small : c.max_sp < 2 ^ 16

-- A maximum that fits, and is zero only where the one before was.
abbrev IsMaximum : ℕ → ℕ → Type 0
IsMaximum old_max new_max = (new_max < 2 ^ 16) × (new_max ≡ 0 → old_max ≡ 0)

to_u16-IsMaximum : (old_max n : ℕ) → IsMaximum old_max (to_u16 n)
unfolding to_u16
to_u16-IsMaximum old_max n = (ground arith, λ e. ground arith)

max_hp-IsMaximum : (c : Character) → c.max_hp < 2 ^ 16 → IsMaximum c.max_hp (calculate_max_hp c)
unfolding calculate_max_hp
max_hp-IsMaximum c h =
    let style = c.style.battle_style in
    elim (Option-cases (if style == 0 then none else get_elem? hp_formulas style)) [
      | inl e ↦ rw (e, calculate_max_hp) (h, λ z. z)
      | inr (f, e) ↦ rw (e, calculate_max_hp) (to_u16-IsMaximum c.max_hp _)
    ]

max_mp-IsMaximum : (c : Character) → c.max_mp < 2 ^ 16 → IsMaximum c.max_mp (calculate_max_mp c)
unfolding calculate_max_mp
max_mp-IsMaximum c h =
    let style = c.style.battle_style in
    elim (Option-cases (if style == 0 then none else get_elem? mp_formulas style)) [
      | inl e ↦ rw (e, calculate_max_mp) (h, λ z. z)
      | inr (f, e) ↦ rw (e, calculate_max_mp) (to_u16-IsMaximum c.max_mp _)
    ]

max_sp_small : (c : Character) → calculate_max_sp c < 2 ^ 16
unfolding calculate_max_sp
max_sp_small c = ground arith

-- The scaled value lies below the new maximum; a product that wrapped around would be smaller still.
scaled_le :
    (current old_max new_max : ℕ)
    → current ≤ old_max
    → mul32 current new_max / old_max % 2 ^ 16 ≤ new_max
scaled_le current old_max new_max h =
    let wrapped = mod-le (current * new_max) (2 ^ 32) in
    let product = mul-le-mul_right {m = current} {n = old_max} new_max h in
    let quotient : mul32 current new_max / old_max ≤ new_max =
      div-le_of_le-mul old_max (omega (arith, wrapped, product)) in
    omega (arith, quotient, mod-le (mul32 current new_max / old_max) (2 ^ 16))

rescale_le :
    (current old_max new_max : ℕ)
    → IsMaximum old_max new_max
    → rescale current old_max new_max ≤ new_max
unfolding rescale
rescale_le current old_max new_max h = ground (arith, h.1, scaled_le current old_max new_max)

gained : (c : Character) (amount : ℕ) → IsHealthy c → IsHealthy (add_spirit_points amount c).1
unfolding add_spirit_points
gained c amount h = record {
  hp_le = ground (arith, h.hp_le);
  mp_le = ground (arith, h.mp_le);
  sp_le = ground (arith, h.sp_le, h.sp_small);
  hp_small = ground (arith, h.hp_small);
  mp_small = ground (arith, h.mp_small);
  sp_small = ground (arith, h.sp_small);
}

-- Recalculating health, mana or spirit points, and gaining spirit points, keep the points in hand at
-- or below their maximum, and every maximum within 16 bits.
pub recalculate-IsHealthy :
    (c : Character) (amount : ℕ)
    → IsHealthy c
    → IsHealthy (recalculate_hp c).1
      × IsHealthy (recalculate_mp c).1
      × IsHealthy (recalculate_sp c).1
      × IsHealthy (add_spirit_points amount c).1
unfolding recalculate_hp recalculate_mp recalculate_sp add_spirit_points
recalculate-IsHealthy c amount h =
    let hp = max_hp-IsMaximum c h.hp_small in
    let mp = max_mp-IsMaximum c h.mp_small in
    (
      record {
        hp_le = rescale_le c.current_hp c.max_hp (calculate_max_hp c) hp;
        mp_le = h.mp_le;
        sp_le = h.sp_le;
        hp_small = hp.0;
        mp_small = h.mp_small;
        sp_small = h.sp_small;
      },
      record {
        hp_le = h.hp_le;
        mp_le = rescale_le c.current_mp c.max_mp (calculate_max_mp c) mp;
        sp_le = h.sp_le;
        hp_small = h.hp_small;
        mp_small = mp.0;
        sp_small = h.sp_small;
      },
      record {
        hp_le = h.hp_le;
        mp_le = h.mp_le;
        sp_le = ground arith;
        hp_small = h.hp_small;
        mp_small = h.mp_small;
        sp_small = max_sp_small c;
      },
      gained c amount h,
    )

-- A value within an unchanged maximum is what it was, and a value of zero is restored.
rescale_same :
    (current m : ℕ) → 0 < current → current ≤ m → m < 2 ^ 16 → rescale current m m ≡ current
unfolding rescale
rescale_same current m p h small =
    let bound =
      mul-le-mul {n₁ = current} {m₁ = m} {n₂ = 65535} {m₂ = 65535} (omega arith) (omega arith) in
    let product : current * m < 2 ^ 32 = omega (arith, bound) in
    let exact : current * m / m ≡ current = mul-div_left current (omega arith) in
    let wrapped : current * m % 2 ^ 32 ≡ current * m = omega (arith, product) in
    let scaled : current * m % 2 ^ 32 / m % 2 ^ 16 ≡ current =
      ap (λ (n : ℕ). n / m % 2 ^ 16) wrapped ∙ ap (λ (n : ℕ). n % 2 ^ 16) exact ∙ omega arith in
    ground (arith, scaled)

rescale_pos : (current old_max new_max : ℕ) → 0 < new_max → 0 < rescale current old_max new_max
unfolding rescale
rescale_pos current old_max new_max h = ground arith

-- A default that is itself chosen so is the one chosen first.
default_twice :
    {F : Type 0} (o : Option F) (a : ℕ) (g : F → ℕ)
    → (elim o as (λ x. ℕ) [ none ↦ elim o as (λ x. ℕ) [ none ↦ a | some f ↦ g f ] | some f ↦ g f ])
      ≡ (elim o as (λ x. ℕ) [ none ↦ a | some f ↦ g f ])
default_twice none a g = refl
default_twice (some f) a g = refl

max_hp-recalculate_hp : (c : Character) → calculate_max_hp (recalculate_hp c).1 ≡ calculate_max_hp c
unfolding calculate_max_hp recalculate_hp
max_hp-recalculate_hp c =
    default_twice
      (if c.style.battle_style == 0 then none else get_elem? hp_formulas c.style.battle_style)
      c.max_hp _

max_mp-recalculate_mp : (c : Character) → calculate_max_mp (recalculate_mp c).1 ≡ calculate_max_mp c
unfolding calculate_max_mp recalculate_mp
max_mp-recalculate_mp c =
    default_twice
      (if c.style.battle_style == 0 then none else get_elem? mp_formulas c.style.battle_style)
      c.max_mp _

rescale_zero : (current : ℕ) → rescale current 0 0 ≡ 0
unfolding rescale
rescale_zero current = refl

rescale_again :
    (current old_max new_max : ℕ)
    → IsMaximum old_max new_max
    → rescale (rescale current old_max new_max) new_max new_max ≡ rescale current old_max new_max
rescale_again current old_max zero h =
    omega (arith, rescale_le current old_max 0 h, rescale_zero (rescale current old_max 0))
rescale_again current old_max (suc m) h =
    rescale_same (rescale current old_max (suc m)) (suc m)
      (rescale_pos current old_max (suc m) (omega arith)) (rescale_le current old_max (suc m) h) h.0

-- Recalculating health or mana a second time changes nothing, and reports that nothing changed.
pub recalculate_twice :
    (c : Character)
    → IsHealthy c
    → (recalculate_hp (recalculate_hp c).1 ≡ (false, (recalculate_hp c).1))
      × (recalculate_mp (recalculate_mp c).1 ≡ (false, (recalculate_mp c).1))
unfolding recalculate_hp recalculate_mp
recalculate_twice c h =
    let hp = max_hp-recalculate_hp c in
    let mp = max_mp-recalculate_mp c in
    let hp_again =
      rescale_again c.current_hp c.max_hp (calculate_max_hp c) (max_hp-IsMaximum c h.hp_small) in
    let mp_again =
      rescale_again c.current_mp c.max_mp (calculate_max_mp c) (max_mp-IsMaximum c h.mp_small) in
    (ground (arith, hp, hp_again), ground (arith, mp, mp_again))
