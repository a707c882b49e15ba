-- ===== src/Pvp/Mana.antt =====
-- What the targeted skill of a duel costs and does (`handleTargetedUserSkill` of
-- cmd/gameserver/packet/pvp_combat.go, `consumeSkillMana` of cmd/gameserver/packet/skill.go).
use freya.Common.Maps.{lookup, insert, lookup-insert}
use freya.Common.{
  if◌then◌else◌, ◌⊎◌, ℕ, ◌-◌, ◌≤◌, ◌<◌, ◌≡◌, ◌≢◌, refl, sym, ap, subst, ◌∙◌, inl, inr, true, false,
  some, arith, ◌==◌, ltb, Bool-cases,
}
use freya.Pvp.Book.{Char, Player, World, Outcome, last_error, put_both}
use freya.Pvp.Handlers.{replies}
use freya.Pvp.Combat.{is_combat_pair, at_most}
use freya.Pvp.Skills.{ClientData, skill_level, skill_cost, skill_damage, group_of}
use freya.Pvp.Casting.{Cast, skill_hit, strike, pay_and_strike, cast_on}

-- Two players in a duel, the target with health left.
pub record IsOpposed (w : World) (u v : ℕ) (p q : Player) (c d : Char) : Type 0 where
  pub here : lookup u w ≡ some p
  pub there : lookup v w ≡ some q
  pub mine : p.char ≡ some c
  pub theirs : q.char ≡ some d
  pub pair : is_combat_pair u p c v q d d.id ≡ true
  pub alive : 1 ≤ d.current_hp
  pub other : v ≢ u

-- The cost of a skill, and its damage.
abbrev pub cost_of : ClientData → Cast → Player → Char → ℕ
cost_of tables cast p c =
    skill_cost (lookup cast.skill_id tables.metas) (skill_level cast.skill_id c.skills) p.battle

abbrev pub damage_of : ClientData → Cast → Char → ℕ
damage_of tables cast c = skill_damage tables cast.skill_id (skill_level cast.skill_id c.skills) c

abbrev pub paid : ℕ → Player → Char → Player
paid cost p c = record p { char = some (record c { current_mp = c.current_mp - cost }) }

abbrev pub struck : ℕ → Player → Char → Player
struck damage q d = record q { char = some (record d { current_hp = d.current_hp - damage }) }

strike_lands :
    (tables : ClientData) (cast : Cast) (level u v : ℕ) (p q : Player) (c d : Char) (w : World)
    → IsOpposed w u v p q c d
    → (strike tables cast level u v d.id w).0
      ≡ insert v (struck (skill_damage tables cast.skill_id level c) q d) w
unfolding strike skill_hit
strike_lands tables cast level u v p q c d w h =
    let alive : (d.current_hp == 0) ≡ false = ground (arith, h.alive) in
    let damage = skill_damage tables cast.skill_id level c in
    let capped : d.current_hp - at_most d.current_hp damage ≡ d.current_hp - damage =
      ground arith in
    rw (h.here, h.there, h.mine, h.theirs, h.pair, alive, strike)
      (ap (λ n. insert v (record q { char = some (record d { current_hp = n }) }) w) capped)

-- The attacker with less mana is still opposed to the target.
pays-IsOpposed :
    (cost u v : ℕ) (p q : Player) (c d : Char) (w : World)
    → IsOpposed w u v p q c d
    → IsOpposed
        (insert u (paid cost p c) w)
        u
        v
        (paid cost p c)
        q
        (record c { current_mp = c.current_mp - cost })
        d
unfolding is_combat_pair
pays-IsOpposed cost u v p q c d w h =
    let self : (u == u) ≡ true = ground arith in
    let apart : (v == u) ≡ false = ground (arith, h.other) in
    record {
      here = lookup-insert u u (paid cost p c) w ∙ rw (self) refl;
      there = lookup-insert v u (paid cost p c) w ∙ rw (apart) h.there;
      mine = refl;
      theirs = h.theirs;
      pair = h.pair;
      alive = h.alive;
      other = h.other;
    }

-- The world after a skill that the attacker can pay: its mana is less by the cost and the health of the target
-- by the damage, and no other session changes.
pub record Lands (w w' : World) (u v cost damage : ℕ) (p q : Player) (c d : Char) : Type 0 where
  pub after :
      (j : ℕ)
      → lookup j w' ≡ (
          if j == v
          then some (struck damage q d)
          else if j == u
          then some (paid cost p c)
          else lookup j w)

both-Lands :
    (w : World) (u v cost damage : ℕ) (p q : Player) (c d : Char)
    → Lands w (put_both u (paid cost p c) v (struck damage q d) w) u v cost damage p q c d
both-Lands w u v cost damage p q c d =
    let q' = struck damage q d in
    let w1 = insert u (paid cost p c) w in
    record {
      after = λ j. elim (Bool-cases (j == v)) [
        | inl at_v ↦ lookup-insert j v q' w1 ∙ rw (at_v) refl
        | inr not_v ↦
            lookup-insert j v q' w1
            ∙ rw (not_v) (
                lookup-insert j u (paid cost p c) w ∙ elim (Bool-cases (j == u)) [
                  | inl at_u ↦ rw (at_u) refl
                  | inr not_u ↦ rw (not_u) refl
                ])
      ];
    }

free-Lands :
    (w : World) (u v damage : ℕ) (p q : Player) (c d : Char)
    → lookup u w ≡ some (paid 0 p c)
    → Lands w (insert v (struck damage q d) w) u v 0 damage p q c d
free-Lands w u v damage p q c d same =
    let q' = struck damage q d in
    record {
      after = λ j. elim (Bool-cases (j == v)) [
        | inl at_v ↦ lookup-insert j v q' w ∙ rw (at_v) refl
        | inr not_v ↦
            lookup-insert j v q' w
            ∙ rw (not_v) (elim (Bool-cases (j == u)) [
              | inl at_u ↦
                  let eq : u ≡ j = ground (arith, at_u) in
                  rw (at_u) (subst (λ k. lookup k w ≡ some (paid 0 p c)) eq same)
              | inr not_u ↦ rw (not_u) refl
            ])
      ];
    }

-- A payment of nothing.
paid_nothing : (p : Player) (c : Char) → p.char ≡ some c → paid 0 p c ≡ p
paid_nothing p c mine =
    let same : c.current_mp - 0 ≡ c.current_mp = omega arith in
    ap (λ n. record p { char = some (record c { current_mp = n }) }) same
    ∙ ap (λ o. record p { char = o }) (sym mine)

cast_on_pays :
    (tables : ClientData) (cast : Cast) (u v : ℕ) (p q : Player) (c d : Char) (w : World)
    → IsOpposed w u v p q c d
    → cast_on tables cast u v w ≡ pay_and_strike tables cast u p c v d.id w
unfolding cast_on
cast_on_pays tables cast u v p q c d w h =
    rw (h.there, h.here, h.mine, h.theirs, h.pair, cast_on) refl

pay_and_strike-Lands :
    (tables : ClientData) (cast : Cast) (u v : ℕ) (p q : Player) (c d : Char) (w : World)
    → IsOpposed w u v p q c d
    → cost_of tables cast p c ≤ c.current_mp
    → Lands w
        (pay_and_strike tables cast u p c v d.id w).0
        u
        v
        (cost_of tables cast p c)
        (damage_of tables cast c)
        p
        q
        c
        d
unfolding pay_and_strike skill_damage
pay_and_strike-Lands tables cast u v p q c d w h enough =
    let level = skill_level cast.skill_id c.skills in
    let cost = cost_of tables cast p c in
    let damage = damage_of tables cast c in
    let paying : ltb c.current_mp cost ≡ false = ground (arith, enough) in
    elim (Bool-cases (cost == 0)) [
      | inl free ↦
          let nothing : 0 ≡ cost = ground (arith, free) in
          let same : lookup u w ≡ some (paid 0 p c) =
            h.here ∙ ap some (sym (paid_nothing p c h.mine)) in
          let lands =
            subst (λ w'. Lands w w' u v 0 damage p q c d)
              (sym (strike_lands tables cast level u v p q c d w h))
              (free-Lands w u v damage p q c d same) in
          rw (paying, free, pay_and_strike)
            (subst (λ n. Lands w (strike tables cast level u v d.id w).0 u v n damage p q c d)
              nothing lands)
      | inr charged ↦
          let w1 = insert u (paid cost p c) w in
          let done =
            strike_lands tables cast level u v (paid cost p c) q _ d w1
              (pays-IsOpposed cost u v p q c d w h) in
          rw (paying, charged, pay_and_strike)
            (subst (λ w'. Lands w w' u v cost damage p q c d) (sym done)
              (both-Lands w u v cost damage p q c d))
    ]

-- A skill in a duel against a target with health left: where the mana does not cover the cost, the attacker is
-- told so and nothing changes; else the attacker pays exactly the cost, the target loses the damage as far as it
-- has health, and no other session changes.
pub skill_effect :
    (tables : ClientData) (cast : Cast) (u v : ℕ) (p q : Player) (c d : Char) (w : World)
    → IsOpposed w u v p q c d
    → ((c.current_mp < cost_of tables cast p c)
        × (cast_on tables cast u v w
            ≡ replies u (last_error 175 (group_of (lookup cast.skill_id tables.metas)) 14) w))
      ⊎ ((cost_of tables cast p c ≤ c.current_mp)
          × Lands w
              (cast_on tables cast u v w).0
              u
              v
              (cost_of tables cast p c)
              (damage_of tables cast c)
              p
              q
              c
              d)
unfolding pay_and_strike
skill_effect tables cast u v p q c d w h =
    let pays = cast_on_pays tables cast u v p q c d w h in
    let cost = cost_of tables cast p c in
    elim (Bool-cases (ltb c.current_mp cost)) [
      | inl short ↦ inl (ground (arith, short), pays ∙ rw (short, pay_and_strike) refl)
      | inr enough ↦
          let covered : cost ≤ c.current_mp = ground (arith, enough) in
          inr (
            covered,
            subst (λ (o : Outcome). Lands w o.0 u v cost (damage_of tables cast c) p q c d)
                (sym pays) (pay_and_strike-Lands tables cast u v p q c d w h covered),
          )
    ]
