-- ===== src/Pvp/Combat.antt =====
-- The plain attack of a duel: `AttckToUser` and `validPVPCombatPair` of
-- cmd/gameserver/packet/pvp_combat.go, once the packet is read, and what they need of
-- cmd/gameserver/packet/attack.go and cmd/gameserver/clientdata/weapons.go. A handler is one step.
use freya.Common.Signed.{ℤ, pos, nonpos, eq_ℤ}
use freya.Common.Maps.{GoMap, lookup, insert}
use freya.Common.{
  ℕ, ◌+◌, ◌-◌, ◌/◌, ◌%◌, ◌^◌, Bool, false, ◌&&◌, ◌||◌, not, Option, none, some, List, [], ◌∷◌,
  get_elem?, ltb, ◌==◌, if◌then◌else◌,
}
use freya.Character.Attack.{calculate_attack}
use freya.Pvp.Book.{
  Char, Player, World, is_person, attack_dead, attack_normal, attack_result, attack_motion,
  attack_notification, sends, broadcasts, saves_vitals, Outcome,
}
use freya.Pvp.Handlers.{replies}

-- `weaponAttackInfo`. The numbers of the client's files are taken not to be negative.
pub record WeaponInfo : Type 0 where
  pub base_attack : ℕ
  pub base_magic_attack : ℕ
  pub upgrade_bonus : List ℕ
  pub magic_upgrade_bonus : List ℕ

-- `weaponAttackData`, which is filled from the client's files.
abbrev pub Weapons : Type 0
Weapons = GoMap WeaponInfo

-- `FindWeaponAttack`: the masks are the low 13 bits and the four above.
unfoldable pub find_weapon_attack : Weapons → ℕ → Option ℕ
find_weapon_attack weapons kind =
    if kind == 0 then none else elim (lookup (kind % 2 ^ 13) weapons) [
      | none ↦ none
      | some info ↦ some (
          info.base_attack + elim (get_elem? info.upgrade_bonus (kind / 2 ^ 13 % 2 ^ 4)) [
            | none ↦ 0
            | some bonus ↦ bonus
          ])
    ]

-- `weaponAttack`
unfoldable pub weapon_attack : Weapons → ℕ → ℕ
unfolding find_weapon_attack
weapon_attack weapons kind = elim (find_weapon_attack weapons kind) [
  | none ↦ 0
  | some attack ↦ attack
]

-- The physical maximum of `calculateCharacterAttackFromCharacter`.
unfoldable pub physical_attack : Weapons → Char → ℕ
unfolding weapon_attack
physical_attack weapons c =
    (calculate_attack c.fighter).physical_max
    + weapon_attack weapons c.right_hand
    + weapon_attack weapons c.left_hand

-- Both are in a world, and the worlds are one.
abbrev pub in_one_world : Option ℕ → Option ℕ → Bool
in_one_world (some a) (some b) = a == b
in_one_world _ _ = false

-- `validPVPCombatPair`, where both have a character and a world.
unfoldable pub is_combat_pair : ℕ → Player → Char → ℕ → Player → Char → ℤ → Bool
is_combat_pair u p c v q d target_id =
    in_one_world p.world q.world
    && (is_person p.pvp.stage
        && (p.pvp.opponent_user_idx == v
            && (eq_ℤ p.pvp.opponent_character_id target_id
                && (is_person q.pvp.stage
                    && (q.pvp.opponent_user_idx == u
                        && (eq_ℤ q.pvp.opponent_character_id c.id && eq_ℤ d.id target_id))))))

-- `if damage > int(target.CurrentHP) { damage = int(target.CurrentHP) }`
abbrev pub at_most : ℕ → ℕ → ℕ
at_most hp damage = if ltb hp damage then hp else damage

-- The hit.
unfoldable pub hit : Weapons → ℕ → Char → ℕ → Player → Char → World → Outcome
unfolding physical_attack
hit weapons u c v q d w =
    let damage = at_most d.current_hp (physical_attack weapons c) in
    let left = d.current_hp - damage in
    (
      insert v (record q { char = some (record d { current_hp = left }) }) w,
      saves_vitals v
          ∷ sends u
              (attack_result d.id c.current_hp c.current_mp c.current_sp attack_normal damage left)
          ∷ sends v (attack_motion damage)
          ∷ broadcasts u (attack_notification c.id d.id attack_normal left)
          ∷ [],
    )

-- `AttckToUser`
unfoldable pub attack : Weapons → ℕ → ℕ → ℤ → World → Outcome
unfolding is_combat_pair hit
attack weapons u v target_id w =
    let rejected = replies u (attack_result (pos 0) 0 0 0 attack_dead 0 0) w in
    if v == u || nonpos target_id then rejected else elim (lookup v w) [
      | none ↦ rejected
      | some q ↦ elim (lookup u w) [
        | none ↦ rejected
        | some p ↦ elim p.char [
          | none ↦ rejected
          | some c ↦ elim q.char [
            | none ↦ rejected
            | some d ↦
                if not (is_combat_pair u p c v q d target_id)
                then rejected
                else if d.current_hp == 0
                then replies u
                    (attack_result d.id c.current_hp c.current_mp c.current_sp attack_dead 0 0) w
                else hit weapons u c v q d w
          ]
        ]
      ]
    ]
