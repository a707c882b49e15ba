-- ===== src/Character/Style/Packing.antt =====
-- Packing and unpacking the appearance, share/models/character/style.go.
use freya.Common.{ℕ, ◌+◌, ◌*◌, ◌/◌, ◌%◌, ◌^◌, ◌<◌, ◌≡◌, refl, ◌∙◌, Bool, true, false, arith}
use freya.Common.Bits.{and_low_mask}
use freya.Character.Style.{Style, set_style, get_style, verify}

-- The fields fit the bits that they are given.
pub record IsPackable (s : Style) : Type 0 where
  pub battle_fits : s.battle_style < 2 ^ 3
  pub mastery_fits : s.mastery_level < 2 ^ 5
  pub face_fits : s.face < 2 ^ 5
  pub color_fits : s.hair_color < 2 ^ 4
  pub hair_fits : s.hair_style < 2 ^ 5
  pub aura_fits : s.aura < 2 ^ 4

bit_of : Bool → ℕ
bit_of true = 1
bit_of false = 0

-- The word as the sum of its fields, none of which spills over.
packed : Style → ℕ
packed s =
    s.battle_style
    + s.mastery_level * 2 ^ 3
    + s.face * 2 ^ 8
    + s.hair_color * 2 ^ 13
    + s.hair_style * 2 ^ 17
    + s.aura * 2 ^ 22
    + bit_of s.gender * 2 ^ 26
    + bit_of s.helmet * 2 ^ 27

get_style-packed : (s : Style) → IsPackable s → get_style s ≡ packed s
unfolding get_style packed bit_of
get_style-packed s h =
    ground
      (arith, h.battle_fits, h.mastery_fits, h.face_fits, h.color_fits, h.hair_fits, h.aura_fits)

set_style-packed : (s : Style) → IsPackable s → set_style (packed s) ≡ s
unfolding set_style packed bit_of
set_style-packed s h = ground (
  arith,
  h.battle_fits,
  h.mastery_fits,
  h.face_fits,
  h.color_fits,
  h.hair_fits,
  h.aura_fits,
  and_low_mask 3 (packed s) 0x07 refl,
  and_low_mask 5 (packed s / 2 ^ 3) 0x1f refl,
  and_low_mask 5 (packed s / 2 ^ 8) 0x1f refl,
  and_low_mask 4 (packed s / 2 ^ 13) 0x0f refl,
  and_low_mask 5 (packed s / 2 ^ 17) 0x1f refl,
  and_low_mask 4 (packed s / 2 ^ 22) 0x0f refl,
  and_low_mask 1 (packed s / 2 ^ 26) 0x01 refl,
  and_low_mask 1 (packed s / 2 ^ 27) 0x01 refl,
)

-- An appearance whose fields fit their bits is read back as it was packed.
pub set_style-get_style : (s : Style) → IsPackable s → set_style (get_style s) ≡ s
set_style-get_style s h = rw (get_style-packed s h) (set_style-packed s h)

set_style-IsPackable : (n : ℕ) → IsPackable (set_style n)
unfolding set_style
set_style-IsPackable n = record {
  battle_fits = omega (arith, and_low_mask 3 n 0x07 refl);
  mastery_fits = omega (arith, and_low_mask 5 (n / 2 ^ 3) 0x1f refl);
  face_fits = omega (arith, and_low_mask 5 (n / 2 ^ 8) 0x1f refl);
  color_fits = omega (arith, and_low_mask 4 (n / 2 ^ 13) 0x0f refl);
  hair_fits = omega (arith, and_low_mask 5 (n / 2 ^ 17) 0x1f refl);
  aura_fits = omega (arith, and_low_mask 4 (n / 2 ^ 22) 0x0f refl);
}

packed-set_style : (n : ℕ) → packed (set_style n) ≡ n % 2 ^ 28
unfolding set_style packed bit_of
packed-set_style n = ground (
  arith,
  and_low_mask 3 n 0x07 refl,
  and_low_mask 5 (n / 2 ^ 3) 0x1f refl,
  and_low_mask 5 (n / 2 ^ 8) 0x1f refl,
  and_low_mask 4 (n / 2 ^ 13) 0x0f refl,
  and_low_mask 5 (n / 2 ^ 17) 0x1f refl,
  and_low_mask 4 (n / 2 ^ 22) 0x0f refl,
  and_low_mask 1 (n / 2 ^ 26) 0x01 refl,
  and_low_mask 1 (n / 2 ^ 27) 0x01 refl,
)

-- Unpacking a word and packing it again keeps its low 28 bits and drops the others.
pub get_style-set_style : (n : ℕ) → get_style (set_style n) ≡ n % 2 ^ 28
get_style-set_style n = get_style-packed (set_style n) (set_style-IsPackable n) ∙ packed-set_style n

verify-IsPackable : (s : Style) → (verify s).0 ≡ true → IsPackable (verify s).1
unfolding verify
verify-IsPackable s h = record {
  battle_fits = ground arith;
  mastery_fits = ground arith;
  face_fits = ground arith;
  color_fits = ground arith;
  hair_fits = ground arith;
  aura_fits = ground arith;
}

-- An appearance that `Verify` accepts survives being packed.
pub verify-packs :
    (s : Style) → (verify s).0 ≡ true → set_style (get_style (verify s).1) ≡ (verify s).1
verify-packs s h = set_style-get_style (verify s).1 (verify-IsPackable s h)
