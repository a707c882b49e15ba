-- ===== src/Pvp/Casting.antt =====
-- The targeted skill of a duel: `handleTargetedUserSkill` of cmd/gameserver/packet/pvp_combat.go, which
-- `SkillToUser` of cmd/gameserver/packet/character.go calls for packets of 32 bytes. The handler lets the locks go
-- for the mana; it is taken to be one step all the same. The result `none` is a panic of a read.
use freya.Common.Signed.{ℤ, pos, negsuc}
use freya.Common.Maps.{lookup, insert}
use freya.Common.{
  ℕ, zero, suc, ◌+◌, ◌-◌, ◌*◌, Bool, true, ◌&&◌, ◌||◌, not, Option, none, some, List, [], ◌∷◌, ltb,
  ◌==◌, if◌then◌else◌,
}
use freya.Network.Reader.{Reader, Read, both, read_byte, read_uint16, read_int32}
use freya.Trade.Reading.{decode_user_object_index}
use freya.Pvp.Book.{
  parse, Char, Player, World, is_person, attack_dead, attack_normal, SkillResult, Outcome, sends,
  broadcasts, saves_vitals, last_error, skill_to_mton, skill_result, skill_notification,
}
use freya.Pvp.Handlers.{replies}
use freya.Pvp.Combat.{is_combat_pair, at_most}
use freya.Pvp.Skills.{ClientData, skill_level, skill_cost, group_of, skill_damage}

-- What a packet says of the skill.
pub record Cast : Type 0 where
  pub skill_id : ℕ  -- uint16
  pub pos_x : ℕ  -- uint16
  pub pos_y : ℕ  -- uint16
  pub hit_num : ℕ  -- byte

-- The session that is meant: in a duel, the opponent where the packet has the session itself.
unfoldable pub aimed_at : ℕ → ℕ → World → Option ℕ
unfolding parse
aimed_at u target w = if not (target == u) then some target else elim (parse u w) [
  | none ↦ none
  | some (p, c) ↦
      if not (is_person p.pvp.stage) || p.pvp.opponent_user_idx == u
      then none
      else some p.pvp.opponent_user_idx
]

-- The skill hits.
unfoldable pub skill_hit : ClientData → Cast → ℕ → ℕ → Char → ℕ → Player → Char → World → Outcome
unfolding skill_damage
skill_hit tables cast level u c v q d w =
    let damage = at_most d.current_hp (skill_damage tables cast.skill_id level c) in
    let left = d.current_hp - damage in
    let result : SkillResult = record {
      char_id = d.id;
      result = attack_normal;
      damage = damage;
      hp_rest = left;
      hit_num = cast.hit_num;
    } in
    (
      insert v (record q { char = some (record d { current_hp = left }) }) w,
      saves_vitals v
          ∷ sends v (skill_to_mton cast.skill_id damage level)
          ∷ sends u (skill_result cast.skill_id c.current_hp c.current_mp c.current_sp result)
          ∷ broadcasts u (skill_notification cast.skill_id c.id cast.pos_x cast.pos_y result)
          ∷ [],
    )

abbrev pub dead_result : Char → ℕ → SkillResult
dead_result d hit_num = record {
  char_id = d.id;
  result = attack_dead;
  damage = 0;
  hp_rest = 0;
  hit_num = hit_num;
}

-- What comes after the mana: the two are looked at again.
unfoldable pub strike : ClientData → Cast → ℕ → ℕ → ℕ → ℤ → World → Outcome
unfolding is_combat_pair skill_hit
strike tables cast level u v target_id w = elim (lookup u w) [
  | none ↦ (w, [])
  | some p ↦ elim (lookup v w) [
    | none ↦ (w, [])
    | some q ↦ elim p.char [
      | none ↦ (w, [])
      | some c ↦ elim q.char [
        | none ↦ (w, [])
        | some d ↦
            if not (is_combat_pair u p c v q d target_id)
            then (w, [])
            else if d.current_hp == 0
            then replies u
                (skill_result cast.skill_id c.current_hp c.current_mp c.current_sp
                  (dead_result d cast.hit_num))
                w
            else skill_hit tables cast level u c v q d w
      ]
    ]
  ]
]

-- `saveContextVitals` comes before what follows.
abbrev pub after_saving : ℕ → Outcome → Outcome
after_saving u o = (o.0, saves_vitals u ∷ o.1)

-- The mana is taken, and then the skill strikes.
unfoldable pub pay_and_strike : ClientData → Cast → ℕ → Player → Char → ℕ → ℤ → World → Outcome
unfolding skill_level skill_cost strike
pay_and_strike tables cast u p c v target_id w =
    let level = skill_level cast.skill_id c.skills in
    let meta = lookup cast.skill_id tables.metas in
    let cost = skill_cost meta level p.battle in
    if ltb c.current_mp cost
    then replies u (last_error 175 (group_of meta) 14) w
    else if cost == 0
    then strike tables cast level u v target_id w
    else after_saving u (
        strike tables cast level u v target_id
          (insert u (record p { char = some (record c { current_mp = c.current_mp - cost }) }) w))

-- The skill on the session `v`.
unfoldable pub cast_on : ClientData → Cast → ℕ → ℕ → World → Outcome
unfolding is_combat_pair pay_and_strike
cast_on tables cast u v w = elim (lookup v w) [
  | none ↦ (w, [])
  | some q ↦ elim (lookup u w) [
    | none ↦ (w, [])
    | some p ↦ elim p.char [
      | none ↦ (w, [])
      | some c ↦ elim q.char [
        | none ↦ (w, [])
        | some d ↦
            if not (is_combat_pair u p c v q d d.id)
            then (w, [])
            else pay_and_strike tables cast u p c v d.id w
      ]
    ]
  ]
]

abbrev pub cast_at : ClientData → Cast → ℕ → Option ℕ → World → Outcome
cast_at tables cast u none w = (w, [])
cast_at tables cast u (some v) w = cast_on tables cast u v w

-- One target is supported.
unfoldable pub cast_targets : ClientData → ℕ → ℕ → ℕ → ℕ → List (ℕ × ℕ) → World → Outcome
unfolding aimed_at cast_on
cast_targets tables skill_id x y u ((target, hit_num) ∷ []) w =
    cast_at tables (record { skill_id = skill_id; pos_x = x; pos_y = y; hit_num = hit_num }) u
      (aimed_at u target w) w
cast_targets tables skill_id x y u _ w = (w, [])

-- `slotValue < 0 || slotValue > int32(^uint16(0))`
abbrev pub bad_slot : ℤ → Bool
bad_slot (pos n) = ltb 65535 n
bad_slot (negsuc n) = true

-- The targets that a packet names, each with the number of its hit.
unfoldable pub read_targets : ℕ → Read (List (ℕ × ℕ))
unfolding decode_user_object_index
read_targets zero r = some ([], r)
read_targets (suc n) r = elim (both read_int32 read_byte r) [
  | none ↦ none
  | some (t, r') ↦ elim (read_targets n r') [
    | none ↦ none
    | some (targets, r'') ↦ some ((decode_user_object_index t.0, t.1) ∷ targets, r'')
  ]
]

-- The skill, the slot, whether the caster moves, the position, six bytes that nothing depends on, the number of
-- targets.
abbrev pub read_cast : Read (ℕ × (ℤ × (ℕ × (ℕ × (ℕ × ((ℕ × ℕ) × ((ℕ × ℕ) × (ℕ × ℕ))))))))
read_cast = both read_uint16 (
    both read_int32 (
      both read_byte (
        both read_uint16 (
          both read_uint16 (
            both (both read_byte read_byte)
              (both (both read_byte read_byte) (both read_byte read_byte)))))))

-- This client sends no targets where it means one.
abbrev pub target_count : ℕ → ℕ → ℕ
target_count count size = if count == 0 && size == 32 then 1 else count

-- The tests of a packet: the slot, the move, the number of targets and the size.
abbrev pub is_refused : ℤ → ℕ → ℕ → ℕ → Bool
is_refused slot moving count size =
    bad_slot slot
    || ((not (moving == 0) || (count == 0 || ltb 8 count)) || not (size == 32 + (count - 1) * 5))

-- `handleTargetedUserSkill`
unfoldable pub handle_skill : ClientData → ℕ → Reader → World → Option Outcome
unfolding cast_targets read_targets read_uint16 read_int32 read_byte
handle_skill tables u r w = elim (read_cast r) [
  | none ↦ none
  | some ((skill_id, (slot, (moving, (x, (y, (a, (b, (c, last)))))))), r') ↦
      let count = target_count last r.size in
      if is_refused slot moving count r.size then some (w, []) else elim (read_targets count r') [
        | none ↦ none
        | some (targets, r'') ↦ some (cast_targets tables skill_id x y u targets w)
      ]
]
