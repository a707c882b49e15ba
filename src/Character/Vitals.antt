-- ===== src/Character/Vitals.antt =====
-- share/models/character/hp.go, mp.go and sp.go: health, mana and spirit points. A 16-bit number lies
-- below 2 ^ 16; words of 32 bits wrap around.
pub mod Bounds
pub mod Ranks
use freya.Common.{
  ℕ, zero, suc, ◌+◌, ◌-◌, ◌*◌, ◌/◌, ◌%◌, ◌^◌, Bool, true, false, ◌&&◌, ◌||◌, not, List, [], ◌∷◌,
  get_elem?, length, Option, none, some, ltb, leb, ◌==◌, if◌then◌else◌,
}
use freya.Character.Style.{Style}

-- The fields of `Character` that the formulas read and write.
pub record Character : Type 0 where
  pub level : ℕ  -- uint16
  pub style : Style
  pub sword_rank : ℕ  -- byte
  pub magic_rank : ℕ  -- byte
  pub current_hp : ℕ  -- uint16, as are the next five
  pub max_hp : ℕ
  pub current_mp : ℕ
  pub max_mp : ℕ
  pub current_sp : ℕ
  pub max_sp : ℕ

-- Go's unsigned 32-bit sum, product and difference.
abbrev pub add32 : ℕ → ℕ → ℕ
add32 a b = (a + b) % 2 ^ 32

abbrev pub mul32 : ℕ → ℕ → ℕ
mul32 a b = a * b % 2 ^ 32

abbrev pub sub32 : ℕ → ℕ → ℕ
sub32 a b = (a + 2 ^ 32 - b) % 2 ^ 32

abbrev pub max_u16 : ℕ
max_u16 = 2 ^ 16 - 1

pub record HpFormula : Type 0 where
  pub initial_hp : ℕ
  pub delta_hp : ℕ
  pub mastery_b_delta : ℕ

pub record MpFormula : Type 0 where
  pub initial_mp : ℕ
  pub delta_mp : ℕ

abbrev pub hp_formulas : List HpFormula
hp_formulas =
    record { initial_hp = 0; delta_hp = 0; mastery_b_delta = 0 }
    ∷ record { initial_hp = 50; delta_hp = 30; mastery_b_delta = 500 }
    ∷ record { initial_hp = 50; delta_hp = 30; mastery_b_delta = 389 }
    ∷ record { initial_hp = 40; delta_hp = 20; mastery_b_delta = 79 }
    ∷ record { initial_hp = 40; delta_hp = 20; mastery_b_delta = 184 }
    ∷ record { initial_hp = 45; delta_hp = 25; mastery_b_delta = 310 }
    ∷ record { initial_hp = 45; delta_hp = 25; mastery_b_delta = 310 }
    ∷ []

abbrev pub mp_formulas : List MpFormula
mp_formulas =
    record { initial_mp = 0; delta_mp = 0 }
    ∷ record { initial_mp = 20; delta_mp = 10 }
    ∷ record { initial_mp = 20; delta_mp = 10 }
    ∷ record { initial_mp = 30; delta_mp = 20 }
    ∷ record { initial_mp = 30; delta_mp = 20 }
    ∷ record { initial_mp = 25; delta_mp = 15 }
    ∷ record { initial_mp = 25; delta_mp = 15 }
    ∷ []

-- The loop of `rankHPBonus` and `rankMPBonus` with the rounds left: each adds `factor` times the next
-- rank.
pub sum_ranks : ℕ → ℕ → ℕ → ℕ → ℕ
sum_ranks factor zero previous bonus = bonus
sum_ranks factor (suc n) previous bonus =
    sum_ranks factor n (add32 previous 1) (add32 bonus (mul32 factor (add32 previous 1)))

-- `rankHPBonus`
pub rank_hp_bonus : ℕ → Bool → ℕ
rank_hp_bonus rank sword =
    if leb rank 1 then 0 else sum_ranks (if sword then 10 else 5) (rank - 1) 1 0

-- `rankMPBonus`
pub rank_mp_bonus : ℕ → Bool → ℕ
rank_mp_bonus rank sword =
    if leb rank 1 then 0 else sum_ranks (if sword then 5 else 10) (rank - 1) 1 0

-- `level`, where 0 counts as 1.
pub counted_level : ℕ → ℕ
counted_level level = if level == 0 then 1 else level

-- The end of both calculations.
pub to_u16 : ℕ → ℕ
to_u16 n = if n == 0 then 1 else if ltb max_u16 n then max_u16 else n % 2 ^ 16

-- What `CalculateMaxHP` adds from mastery level 8 on.
pub mastery_hp : HpFormula → ℕ → ℕ
mastery_hp formula mastery =
    let square = mul32 (mul32 5 mastery) mastery in
    let factor = add32 (sub32 square (mul32 14 mastery)) 9 in
    if leb 8 mastery then mul32 formula.mastery_b_delta factor / 500 else 0

-- `CalculateMaxHP`
pub calculate_max_hp : Character → ℕ
calculate_max_hp c =
    let style = c.style.battle_style in
    elim (if style == 0 then none else get_elem? hp_formulas style) [
      | none ↦ c.max_hp
      | some formula ↦
          let base =
            add32 formula.initial_hp
              (mul32 formula.delta_hp (sub32 (counted_level c.level) 1) / 10) in
          let ranked =
            add32 (add32 base (rank_hp_bonus c.sword_rank true))
              (rank_hp_bonus c.magic_rank false) in
          to_u16 (add32 ranked (mastery_hp formula c.style.mastery_level))
    ]

-- `CalculateMaxMP`
pub calculate_max_mp : Character → ℕ
calculate_max_mp c =
    let style = c.style.battle_style in
    elim (if style == 0 then none else get_elem? mp_formulas style) [
      | none ↦ c.max_mp
      | some formula ↦
          let base =
            add32 formula.initial_mp
              (mul32 formula.delta_mp (sub32 (counted_level c.level) 1) / 10) in
          to_u16 (
            add32 (add32 base (rank_mp_bonus c.sword_rank true)) (rank_mp_bonus c.magic_rank false))
    ]

-- The switch of `RecalculateHP` and of `RecalculateMP`: the current value for the new maximum.
pub rescale : ℕ → ℕ → ℕ → ℕ
rescale current old_max new_max =
    let scaled = mul32 current new_max / old_max % 2 ^ 16 in
    if old_max == 0 || (current == 0 || leb old_max current)
    then new_max
    else if scaled == 0
    then 1
    else scaled

-- `RecalculateHP`
pub recalculate_hp : Character → Bool × Character
recalculate_hp c =
    let new_max = calculate_max_hp c in
    let new_current = rescale c.current_hp c.max_hp new_max in
    (
      not (c.current_hp == new_current) || not (c.max_hp == new_max),
      record c { current_hp = new_current; max_hp = new_max },
    )

-- `RecalculateMP`
pub recalculate_mp : Character → Bool × Character
recalculate_mp c =
    let new_max = calculate_max_mp c in
    let new_current = rescale c.current_mp c.max_mp new_max in
    (
      not (c.current_mp == new_current) || not (c.max_mp == new_max),
      record c { current_mp = new_current; max_mp = new_max },
    )

-- `CalculateMaxSP`
pub calculate_max_sp : Character → ℕ
calculate_max_sp c =
    let lamps = c.style.mastery_level - 1 in
    if ltb c.style.mastery_level 2 then 0 else (if ltb 5 lamps then 5 else lamps) * 5000 % 2 ^ 16

-- `RecalculateSP`
pub recalculate_sp : Character → Bool × Character
recalculate_sp c =
    let new_max = calculate_max_sp c in
    let new_current = if ltb new_max c.current_sp then new_max else c.current_sp in
    (
      not (c.current_sp == new_current) || not (c.max_sp == new_max),
      record c { current_sp = new_current; max_sp = new_max },
    )

-- `AddSpiritPoints`
pub add_spirit_points : ℕ → Character → Bool × Character
add_spirit_points amount c =
    let total = add32 c.current_sp amount in
    let clamped = if ltb c.max_sp total then c.max_sp else total in
    if amount == 0 || leb c.max_sp c.current_sp
    then (false, c)
    else if clamped == c.current_sp
    then (false, c)
    else (true, record c { current_sp = clamped % 2 ^ 16 })
