-- ===== src/Pvp/Hits.antt =====
-- What the plain attack of a duel does (`AttckToUser` of cmd/gameserver/packet/pvp_combat.go).
use freya.Common.Signed.{eq_ℤ, eq_ℤ_iff, ℤ, nonpos}
use freya.Common.Maps.{insert, lookup, lookup-insert}
use freya.Common.{
  none, ap, Option, ℕ, zero, suc, ◌-◌, ◌*◌, ◌≤◌, ◌≡◌, refl, sym, subst, ◌∙◌, ◌⊎◌, inl, inr, true,
  false, some, [], ◌∷◌, arith, ◌==◌, ◌||◌, Bool-cases, Option-cases,
}
use freya.Character.Attack.Bounds.{attack_range}
use freya.Pvp.Book.{
  Stage, stage_none, stage_waiting, stage_person, is_person, Char, Player, World, Outcome, sends,
  attack_result, attack_dead,
}
use freya.Pvp.Handlers.{replies}
use freya.Pvp.Combat.{in_one_world, Weapons, physical_attack, is_combat_pair, at_most, hit, attack}

-- An attacker and a target in a duel, with the attack of the one and the health of the other.
pub record Faces (weapons : Weapons) (u v : ℕ) (target_id : ℤ) (a h : ℕ) (w : World) : Type 0 where
  pub attacker : Player
  pub target : Player
  pub c : Char
  pub d : Char
  pub here : lookup u w ≡ some attacker
  pub there : lookup v w ≡ some target
  pub mine : attacker.char ≡ some c
  pub theirs : target.char ≡ some d
  pub aimed : (v == u || nonpos target_id) ≡ false
  pub pair : is_combat_pair u attacker c v target d target_id ≡ true
  pub force : physical_attack weapons c ≡ a
  pub health : d.current_hp ≡ h

one_attack :
    (weapons : Weapons) (u v : ℕ) (target_id : ℤ) (a h : ℕ) (w : World)
    → Faces weapons u v target_id a h w
    → Faces weapons u v target_id a (h - a) (attack weapons u v target_id w).0
unfolding attack hit is_combat_pair
one_attack weapons u v target_id a h w f = elim (Bool-cases (f.d.current_hp == 0)) [
  | inl dead ↦
      let gone : h - a ≡ h = ground (arith, f.health, dead) in
      rw (f.aimed, f.there, f.here, f.mine, f.theirs, f.pair, dead, attack)
        (subst (λ n. Faces weapons u v target_id a n w) (sym gone) f)
  | inr alive ↦
      let damage = at_most f.d.current_hp (physical_attack weapons f.c) in
      let d' : Char = record f.d { current_hp = f.d.current_hp - damage } in
      let q' : Player = record f.target { char = some d' } in
      let left : f.d.current_hp - damage ≡ h - a = ground (arith, f.health, f.force) in
      let apart : (u == v) ≡ false = ground (arith, f.aimed) in
      let self : (v == v) ≡ true = ground arith in
      rw (f.aimed, f.there, f.here, f.mine, f.theirs, f.pair, alive, attack)
        (record {
          attacker = f.attacker;
          target = q';
          c = f.c;
          d = d';
          here = lookup-insert u v q' w ∙ rw (apart) f.here;
          there = lookup-insert v v q' w ∙ rw (self) refl;
          mine = f.mine;
          theirs = refl;
          aimed = f.aimed;
          pair = f.pair;
          force = f.force;
          health = left;
        })
]

-- `n` attacks in a row.
unfoldable pub strikes : Weapons → ℕ → ℕ → ℤ → ℕ → World → World
unfolding attack
strikes weapons u v target_id zero w = w
strikes weapons u v target_id (suc n) w =
    (attack weapons u v target_id (strikes weapons u v target_id n w)).0

-- A duel stays one under attacks, and each takes as much health as the attack of the attacker, as far as
-- there is any: after `n` of them the health is what it was less `n` times that.
pub attacks_add_up :
    (weapons : Weapons) (u v : ℕ) (target_id : ℤ) (a h n : ℕ) (w : World)
    → Faces weapons u v target_id a h w
    → Faces weapons u v target_id a (h - n * a) (strikes weapons u v target_id n w)
unfolding strikes
attacks_add_up weapons u v target_id a h zero w f =
    let start : h ≡ h - 0 * a = omega arith in
    subst (λ k. Faces weapons u v target_id a k w) start f
attacks_add_up weapons u v target_id a h (suc n) w f =
    let step : h - n * a - a ≡ h - suc n * a = omega arith in
    subst (λ k. Faces weapons u v target_id a k (strikes weapons u v target_id (suc n) w)) step
      (one_attack weapons u v target_id a (h - n * a) (strikes weapons u v target_id n w)
        (attacks_add_up weapons u v target_id a h n w f))

-- Every attack has some force.
force_pos : (weapons : Weapons) (c : Char) → 1 ≤ physical_attack weapons c
unfolding physical_attack
force_pos weapons c = let range = attack_range c.fighter in omega (arith, range.0, range.1)

-- As many attacks as the target has health defeat it.
pub duel_ends :
    (weapons : Weapons) (u v : ℕ) (target_id : ℤ) (a h : ℕ) (w : World)
    → Faces weapons u v target_id a h w
    → Faces weapons u v target_id a 0 (strikes weapons u v target_id h w)
duel_ends weapons u v target_id a h w f =
    let some_force : 1 ≤ a = subst (λ k. 1 ≤ k) f.force (force_pos weapons f.c) in
    let all : h - h * a ≡ 0 = grind (arith, some_force) in
    subst (λ k. Faces weapons u v target_id a k (strikes weapons u v target_id h w)) all
      (attacks_add_up weapons u v target_id a h h w f)

-- An attack that is refused: nothing changes, and the attacker is told of a target that is dead.
pub record Refused (u : ℕ) (w : World) (o : Outcome) : Type 0 where
  pub id : ℤ
  pub hp : ℕ
  pub mp : ℕ
  pub sp : ℕ
  pub outcome : o ≡ (w, sends u (attack_result id hp mp sp attack_dead 0 0) ∷ [])

refused :
    (u : ℕ) (w : World) (id : ℤ) (hp mp sp : ℕ)
    → Refused u w (replies u (attack_result id hp mp sp attack_dead 0 0) w)
refused u w id hp mp sp = record { id = id; hp = hp; mp = mp; sp = sp; outcome = refl }

-- Two sessions with a character each, in one world and in a duel with each other.
pub record InDuel (u v : ℕ) (p q : Player) (c d : Char) : Type 0 where
  pub world : ℕ
  pub my_world : p.world ≡ some world
  pub their_world : q.world ≡ some world
  pub my_stage : p.pvp.stage ≡ stage_person
  pub their_stage : q.pvp.stage ≡ stage_person
  pub my_opponent : p.pvp.opponent_user_idx ≡ v
  pub their_opponent : q.pvp.opponent_user_idx ≡ u
  pub my_opponent_id : p.pvp.opponent_character_id ≡ d.id
  pub their_opponent_id : q.pvp.opponent_character_id ≡ c.id

-- An attack that hits: the two are in a duel, the target has health left, and loses as much of it as the attack
-- of the attacker, as far as it has any; nothing else changes.
pub record HitsInDuel (weapons : Weapons) (u v : ℕ) (target_id : ℤ) (w w' : World) : Type 0 where
  pub attacker : Player
  pub target : Player
  pub c : Char
  pub d : Char
  pub here : lookup u w ≡ some attacker
  pub there : lookup v w ≡ some target
  pub mine : attacker.char ≡ some c
  pub theirs : target.char ≡ some d
  pub duel : InDuel u v attacker target c d
  pub aimed : d.id ≡ target_id
  pub alive : 1 ≤ d.current_hp
  pub after :
      w'
      ≡ insert v
          (record target {
            char = some (record d { current_hp = d.current_hp - physical_attack weapons c });
          })
          w

person : (s : Stage) → is_person s ≡ true → s ≡ stage_person
person stage_none e = cc e
person stage_waiting e = cc e
person stage_person e = refl

one_world : (a b : Option ℕ) → in_one_world a b ≡ true → (k : ℕ) × (a ≡ some k) × (b ≡ some k)
one_world none b e = cc e
one_world (some j) none e = cc e
one_world (some j) (some k) e = let same : j ≡ k = ground (arith, e) in (k, ap some same, refl)

same_ℤ : (a b : ℤ) → eq_ℤ a b ≡ true → a ≡ b
same_ℤ a b e = (eq_ℤ_iff a b).0 e

pub pair-InDuel :
    (u v : ℕ) (p q : Player) (c d : Char) (target_id : ℤ)
    → is_combat_pair u p c v q d target_id ≡ true
    → InDuel u v p q c d × (d.id ≡ target_id)
unfolding is_combat_pair
pair-InDuel u v p q c d target_id pair =
    let (k, mine, theirs) = one_world p.world q.world (ground (arith, pair)) in
    let aimed : d.id ≡ target_id = same_ℤ d.id target_id (ground (arith, pair)) in
    let named : p.pvp.opponent_character_id ≡ target_id =
      same_ℤ p.pvp.opponent_character_id target_id (ground (arith, pair)) in
    (
      record {
        world = k;
        my_world = mine;
        their_world = theirs;
        my_stage = person p.pvp.stage (ground (arith, pair));
        their_stage = person q.pvp.stage (ground (arith, pair));
        my_opponent = ground (arith, pair);
        their_opponent = ground (arith, pair);
        my_opponent_id = named ∙ sym aimed;
        their_opponent_id = same_ℤ q.pvp.opponent_character_id c.id (ground (arith, pair));
      },
      aimed,
    )

-- An attack either is refused, with the attacker told of a dead target and no change of any session, or hits a
-- target that has health left and is in a duel with the attacker, in one world: each names the other by its
-- session and its character. Then only the health of the target changes, by the attack of the attacker.
pub attack_guarded :
    (weapons : Weapons) (u v : ℕ) (target_id : ℤ) (w : World)
    → Refused u w (attack weapons u v target_id w)
      ⊎ HitsInDuel weapons u v target_id w (attack weapons u v target_id w).0
unfolding attack hit
attack_guarded weapons u v target_id w = elim (Bool-cases (v == u || nonpos target_id)) [
  | inl k ↦ rw (k, attack) (inl (refused u w _ _ _ _))
  | inr k ↦ elim (Option-cases (lookup v w)) [
    | inl e' ↦ rw (k, e', attack) (inl (refused u w _ _ _ _))
    | inr (q, e') ↦ elim (Option-cases (lookup u w)) [
      | inl e ↦ rw (k, e', e, attack) (inl (refused u w _ _ _ _))
      | inr (p, e) ↦ elim (Option-cases p.char) [
        | inl ec ↦ rw (k, e', e, ec, attack) (inl (refused u w _ _ _ _))
        | inr (c, ec) ↦ elim (Option-cases q.char) [
          | inl ed ↦ rw (k, e', e, ec, ed, attack) (inl (refused u w _ _ _ _))
          | inr (d, ed) ↦ elim (Bool-cases (is_combat_pair u p c v q d target_id)) [
            | inr stray ↦ rw (k, e', e, ec, ed, stray, attack) (inl (refused u w _ _ _ _))
            | inl pair ↦ elim (Bool-cases (d.current_hp == 0)) [
              | inl dead ↦ rw (k, e', e, ec, ed, pair, dead, attack) (inl (refused u w _ _ _ _))
              | inr alive ↦
                  let (duel, aimed) = pair-InDuel u v p q c d target_id pair in
                  let hurt = physical_attack weapons c in
                  let left : d.current_hp - at_most d.current_hp hurt ≡ d.current_hp - hurt =
                    ground arith in
                  let after =
                    ap (λ n. insert v (record q { char = some (record d { current_hp = n }) }) w)
                      left in
                  let whole : attack weapons u v target_id w ≡ hit weapons u c v q d w =
                    rw (k, e', e, ec, ed, pair, alive, attack) refl in
                  inr (record {
                    attacker = p;
                    target = q;
                    c = c;
                    d = d;
                    here = e;
                    there = e';
                    mine = ec;
                    theirs = ed;
                    duel = duel;
                    aimed = aimed;
                    alive = ground (arith, alive);
                    after = ap (λ (o : Outcome). o.0) whole ∙ after;
                  })
            ]
          ]
        ]
      ]
    ]
  ]
]
