-- ===== src/Pvp/Skills.antt =====
-- The numbers of a skill: cmd/gameserver/clientdata/skills.go and skillmeta.go, and what
-- cmd/gameserver/packet/skill.go and attack.go make of them. The numbers of the client's files are taken not to
-- be negative.
use freya.Common.Maps.{GoMap, lookup}
use freya.Common.{
  ℕ, ◌+◌, ◌*◌, ◌/◌, ◌%◌, ◌^◌, ◌&&◌, ◌||◌, Option, none, some, List, [], ◌∷◌, get_elem?, ltb, ◌==◌,
  if◌then◌else◌,
}
use freya.Character.Attack.{calculate_attack, at_least_one}
use freya.Pvp.Book.{Skill, BattleMode, Char}
use freya.Pvp.Combat.{Weapons, physical_attack}

-- The level of a skill in the list of the character, 1 where it is not learned.
unfoldable pub skill_level : ℕ → List Skill → ℕ
skill_level id [] = 1
skill_level id (s ∷ skills) =
    let others = skill_level id skills in if s.id == id && ltb 0 s.level then s.level else others

-- What `SkillMeta` has for the cost of a skill.
pub record SkillMeta : Type 0 where
  pub group : ℕ
  pub mp_waste_per_level : ℕ
  pub mp_waste_base : ℕ

-- What `SkillDamageInfo` has for the damage.
pub record SkillDamage : Type 0 where
  pub physical_attack_coef : ℕ
  pub magic_attack_coef : ℕ
  pub level_attack_coef : ℕ
  pub base_attack : ℕ
  pub kind : ℕ  -- `Type`

-- `weaponAttackData`, `skillMetaData` and `skillDamageData`
pub record ClientData : Type 0 where
  pub weapons : Weapons
  pub metas : GoMap SkillMeta
  pub damages : GoMap SkillDamage

-- A level of zero counts as one.
abbrev pub positive_level : ℕ → ℕ
positive_level level = if level == 0 then 1 else level

-- `MPWaste`
unfoldable pub mp_waste : SkillMeta → ℕ → ℕ
mp_waste m level =
    let l = positive_level level in
    let per = m.mp_waste_per_level in
    let waste =
      (per * l + m.mp_waste_base) / 10
      + l / 10 * per / 10
      + l / 13 * per / 10
      + l / 16 * per / 10
      + l / 19 * per / 10 in
    if ltb 65535 waste then 65535 else waste

-- The cost of `consumeSkillMana`, a `uint32`, which is more in a battle mode.
unfoldable pub mana_cost : SkillMeta → ℕ → BattleMode → ℕ
unfolding mp_waste
mana_cost m level b =
    let cost = mp_waste m level in
    if (b.mode == 1 || b.mode == 2) && ltb 0 b.mp_waste_percent
    then (cost + cost * (b.mp_waste_percent % 2 ^ 32) % 2 ^ 32 / 100) % 2 ^ 32
    else cost

-- A skill that is not known costs nothing.
unfoldable pub skill_cost : Option SkillMeta → ℕ → BattleMode → ℕ
unfolding mana_cost
skill_cost none level b = 0
skill_cost (some m) level b = mana_cost m level b

abbrev pub group_of : Option SkillMeta → ℕ
group_of none = 0
group_of (some m) = m.group

-- `skillDeltaAttackAmp`
unfoldable pub delta_attack_amp : ℕ → ℕ
delta_attack_amp level = level / 10 + level / 13 + level / 16 + level / 19

-- `Calculate`
unfoldable pub calculate : SkillDamage → ℕ → ℕ → ℕ → ℕ
unfolding delta_attack_amp
calculate info physical magic level =
    let l = positive_level level in
    let amp = 5 * delta_attack_amp l in
    let physical_coef = 10 * info.physical_attack_coef + (if info.kind == 1 then amp else 0) in
    let magic_coef = 10 * info.magic_attack_coef + (if info.kind == 2 then amp else 0) in
    at_least_one (
      (physical_coef * physical
        + magic_coef * magic
        + 10 * info.level_attack_coef * l
        + 10 * info.base_attack)
      / 100)

-- `FindWeaponMagicAttack` and `weaponMagicAttack`
unfoldable pub weapon_magic_attack : Weapons → ℕ → ℕ
weapon_magic_attack weapons kind = if kind == 0 then 0 else elim (lookup (kind % 2 ^ 13) weapons) [
  | none ↦ 0
  | some info ↦
      let bonus : ℕ = elim (get_elem? info.magic_upgrade_bonus (kind / 2 ^ 13 % 2 ^ 4)) [
        | none ↦ 0
        | some b ↦ b
      ] in
      if info.base_magic_attack == 0 then 0 else info.base_magic_attack + bonus
]

-- The magic attack of `calculateCharacterAttackFromCharacter`.
unfoldable pub magic_attack : Weapons → Char → ℕ
unfolding weapon_magic_attack
magic_attack weapons c =
    (calculate_attack c.fighter).magic_attack
    + weapon_magic_attack weapons c.right_hand
    + weapon_magic_attack weapons c.left_hand

-- The damage of a skill; one that is not known does that of a plain attack.
unfoldable pub skill_damage : ClientData → ℕ → ℕ → Char → ℕ
unfolding physical_attack calculate magic_attack
skill_damage tables skill_id level c =
    let physical = physical_attack tables.weapons c in
    elim (lookup skill_id tables.damages) [
      | none ↦ physical
      | some info ↦ calculate info physical (magic_attack tables.weapons c) level
    ]
