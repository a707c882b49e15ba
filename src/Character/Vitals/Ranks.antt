-- ===== src/Character/Vitals/Ranks.antt =====
-- The bonus for a rank, share/models/character/hp.go and mp.go, in closed form.
use native.Mathlib.Nat.{mul-le-mul}
use freya.Common.{ℕ, zero, suc, ◌+◌, ◌-◌, ◌*◌, ◌^◌, ◌<◌, ◌≡◌, refl, ap, ◌∙◌, true, false, arith}
use freya.Character.Vitals.{add32, mul32, sum_ranks, rank_hp_bonus, rank_mp_bonus}

-- The loop adds an arithmetic series, which stays far below 2 ^ 32.
sum_ranks-closed :
    (factor n previous bonus : ℕ)
    → previous + n < 2 ^ 32
    → bonus * 2 + factor * (n * (previous * 2 + n + 1)) < 2 ^ 32
    → sum_ranks factor n previous bonus * 2 ≡ bonus * 2 + factor * (n * (previous * 2 + n + 1))
unfolding sum_ranks
sum_ranks-closed factor zero previous bonus hp hb = omega arith
sum_ranks-closed factor (suc n) previous bonus hp hb =
    let next : add32 previous 1 ≡ previous + 1 = omega arith in
    let product : factor * (previous + 1) < 2 ^ 31 = omega (arith, hb) in
    let more : add32 bonus (mul32 factor (previous + 1)) ≡ bonus + factor * (previous + 1) =
      omega (arith, hb, product) in
    let closed =
      sum_ranks-closed factor n (previous + 1) (bonus + factor * (previous + 1)) (omega (arith, hp))
        (omega (arith, hb)) in
    let start : sum_ranks factor n (add32 previous 1)
          (add32 bonus (mul32 factor (add32 previous 1)))
        ≡ sum_ranks factor n (previous + 1) (bonus + factor * (previous + 1)) =
      ap (λ (x : ℕ). sum_ranks factor n x (add32 bonus (mul32 factor x))) next
      ∙ ap (sum_ranks factor n (previous + 1)) more in
    ap (λ (x : ℕ). x * 2) start ∙ closed ∙ omega arith

-- For every rank, which is a byte, the bonus is an arithmetic series, and no sum wraps around: a sword
-- rank gives 5 (rank - 1) (rank + 2) health and half as much mana, a magic rank the reverse; a rank of
-- zero or one gives nothing.
pub rank_bonus_closed :
    (rank : ℕ)
    → rank < 2 ^ 8
    → (rank_hp_bonus rank true ≡ 5 * ((rank - 1) * (rank + 2)))
      × (rank_hp_bonus rank false * 2 ≡ 5 * ((rank - 1) * (rank + 2)))
      × (rank_mp_bonus rank true * 2 ≡ 5 * ((rank - 1) * (rank + 2)))
      × (rank_mp_bonus rank false ≡ 5 * ((rank - 1) * (rank + 2)))
unfolding rank_hp_bonus rank_mp_bonus
rank_bonus_closed zero h = (refl, refl, refl, refl)
rank_bonus_closed (suc n) h =
    let square = mul-le-mul {n₁ = n} {m₁ = n} {n₂ = 255} {m₂ = 255} (omega arith) (omega arith) in
    let ten = sum_ranks-closed 10 n 1 0 (omega arith) (omega (arith, square)) in
    let five = sum_ranks-closed 5 n 1 0 (omega arith) (omega (arith, square)) in
    (ground (arith, ten), ground (arith, five), ground (arith, five), ground (arith, ten))
