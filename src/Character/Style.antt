-- ===== src/Character/Style.antt =====
-- share/models/character/style.go: `Style`, packed into 28 bits of a word.
pub mod Packing
use Prim.Native.Nat.{bit_and}
use freya.Common.{ℕ, ◌+◌, ◌*◌, ◌/◌, ◌%◌, ◌^◌, Bool, true, false, ◌||◌, ltb, ◌==◌, if◌then◌else◌}

pub record Style : Type 0 where
  pub battle_style : ℕ  -- byte, as are the next five
  pub mastery_level : ℕ
  pub face : ℕ
  pub hair_color : ℕ
  pub hair_style : ℕ
  pub aura : ℕ
  pub gender : Bool
  pub helmet : Bool

-- `ClassRankForLevel`
pub class_rank_for_level : ℕ → ℕ
class_rank_for_level level =
    let rank = level / 10 + 1 in if level == 0 then 1 else if ltb 31 rank then 31 else rank

-- `Set`
pub set_style : ℕ → Style
set_style style = record {
  battle_style = bit_and style 0x07 % 2 ^ 8;
  mastery_level = bit_and (style / 2 ^ 3) 0x1f % 2 ^ 8;
  face = bit_and (style / 2 ^ 8) 0x1f % 2 ^ 8;
  hair_color = bit_and (style / 2 ^ 13) 0x0f % 2 ^ 8;
  hair_style = bit_and (style / 2 ^ 17) 0x1f % 2 ^ 8;
  aura = bit_and (style / 2 ^ 22) 0x0f % 2 ^ 8;
  gender = if bit_and (style / 2 ^ 26) 0x01 == 0x01 then true else false;
  helmet = if bit_and (style / 2 ^ 27) 0x01 == 0x01 then true else false;
}

-- One assignment of `Get`: `style += x << k` on words of 32 bits.
pub add_field : ℕ → ℕ → ℕ → ℕ
add_field k x style = (style + x * 2 ^ k % 2 ^ 32) % 2 ^ 32

-- `Get`
pub get_style : Style → ℕ
unfolding add_field
get_style s =
    let style = s.battle_style in
    let style = add_field 3 s.mastery_level style in
    let style = add_field 8 s.face style in
    let style = add_field 13 s.hair_color style in
    let style = add_field 17 s.hair_style style in
    let style = add_field 22 s.aura style in
    let style = if s.gender then add_field 26 1 style else add_field 26 0 style in
    if s.helmet then add_field 27 1 style else add_field 27 0 style

-- `Verify`: the style that it leaves, and whether it is one that a new character may have.
unfoldable pub verify : Style → Bool × Style
verify s =
    let s' = record s { mastery_level = 1; aura = 0; helmet = false } in
    if ltb s'.battle_style 1 || ltb 6 s'.battle_style
    then (false, s')
    else if ltb 3 s'.face || (ltb 7 s'.hair_color || ltb 6 s'.hair_style)
    then (false, s')
    else (true, s')
