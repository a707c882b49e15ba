-- ===== src/Pvp/Book.antt =====
-- The state of duels: `PVPState` of cmd/gameserver/context/session.go, what the handlers of
-- cmd/gameserver/packet/pvp.go and pvp_combat.go read of a session, and what they send.
use freya.Common.Signed.{ℤ, pos}
use freya.Common.Maps.{lookup, GoMap, insert}
use freya.Common.{
  ◌≡◌, ap, subst, ◌∙◌, ◌⊎◌, inl, inr, Option-cases, inl, Option-cases, none, some, ◌≡◌, ℕ, Bool,
  true, false, Option, List,
}
use freya.Character.Attack.{Fighter}

-- `Type`: 0, 1 and 2.
pub data Stage : Type 0 where
  stage_none stage_waiting stage_person : Stage

pub record PvpState : Type 0 where
  pub stage : Stage
  pub opponent_user_idx : ℕ  -- uint16
  pub opponent_character_id : ℤ  -- int32

-- `context.PVPState{}`
abbrev pub no_pvp : PvpState
no_pvp = record { stage = stage_none; opponent_user_idx = 0; opponent_character_id = pos 0 }

-- A skill that is learned.
pub record Skill : Type 0 where
  pub id : ℕ  -- uint16
  pub level : ℕ  -- byte

-- `BattleModeState`: what it adds to the cost of a skill.
pub record BattleMode : Type 0 where
  pub mode : ℕ  -- byte: `Type`
  pub mp_waste_percent : ℕ

-- What the handlers read of a `Character`.
pub record Char : Type 0 where
  pub id : ℤ  -- int32
  pub current_hp : ℕ  -- uint16, as the three below
  pub max_hp : ℕ
  pub current_mp : ℕ
  pub current_sp : ℕ
  pub fighter : Fighter
  pub right_hand : ℕ  -- uint32: the kind of the item, 0 where there is none
  pub left_hand : ℕ  -- uint32
  pub skills : List Skill

-- What they use of a `Context`; the character and the world may be missing.
pub record Player : Type 0 where
  pub char : Option Char
  pub world : Option ℕ
  pub pvp : PvpState
  pub battle : BattleMode

-- The sessions by `UserIdx`, each with its context.
abbrev pub World : Type 0
World = GoMap Player

abbrev with_char : Player → Option Char → Option (Player × Char)
with_char p none = none
with_char p (some c) = some (p, c)

abbrev parsed : Option Player → Option (Player × Char)
parsed none = none
parsed (some p) = with_char p p.char

-- `GetSession` and `context.Parse`, which refuses a session without a character.
unfoldable pub parse : ℕ → World → Option (Player × Char)
parse u w = parsed (lookup u w)

pub parse_present :
    (u : ℕ) (w : World) (p : Player) (c : Char)
    → lookup u w ≡ some p
    → p.char ≡ some c
    → parse u w ≡ some (p, c)
unfolding parse
parse_present u w p c e ec = ap parsed e ∙ ap (with_char p) ec

pub parse_gone : (u : ℕ) (w : World) → lookup u w ≡ none → parse u w ≡ none
unfolding parse
parse_gone u w e = ap parsed e

-- A session that is there is refused, or has a character.
pub parse_cases :
    (u : ℕ) (w : World) (p : Player)
    → lookup u w ≡ some p
    → (parse u w ≡ none) ⊎ ((c : Char) × (p.char ≡ some c) × (parse u w ≡ some (p, c)))
unfolding parse
parse_cases u w p e = elim (Option-cases p.char) [
  | inl ec ↦ inl (ap parsed e ∙ ap (with_char p) ec)
  | inr (c, ec) ↦ inr (c, ec, parse_present u w p c e ec)
]

pub parse_found :
    (u : ℕ) (w : World) (p : Player) (c : Char)
    → parse u w ≡ some (p, c)
    → (lookup u w ≡ some p) × (p.char ≡ some c)
parse_found u w p c e = elim (Option-cases (lookup u w)) [
  | inl e' ↦ cc (e, parse_gone u w e')
  | inr (q, e') ↦ elim (parse_cases u w q e') [
    | inl off ↦ cc (e, off)
    | inr (d, ed, on) ↦
        let is_p : q ≡ p = cc (on, e) in
        let is_c : d ≡ c = cc (on, e) in
        (e' ∙ ap some is_p, subst (λ (x : Player). x.char ≡ some c) is_p (ed ∙ ap some is_c))
  ]
]

abbrev pub is_idle : Stage → Bool
is_idle stage_none = true
is_idle _ = false

abbrev pub is_waiting : Stage → Bool
is_waiting stage_waiting = true
is_waiting _ = false

abbrev pub is_person : Stage → Bool
is_person stage_person = true
is_person _ = false

abbrev pub with_pvp : PvpState → Player → Player
with_pvp s p = record p { pvp = s }

abbrev pub with_stage : Stage → Player → Player
with_stage s p = record p { pvp = record p.pvp { stage = s } }

-- The contexts of two sessions are written.
abbrev pub put_both : ℕ → Player → ℕ → Player → World → World
put_both u p v q w = insert v q (insert u p w)

-- `pvpResultComplete` and the other results.
abbrev pub pvp_complete : ℕ
pvp_complete = 0

abbrev pub pvp_fail : ℕ
pvp_fail = 1

abbrev pub pvp_ignored : ℕ
pvp_ignored = 2

abbrev pub pvp_busy : ℕ
pvp_busy = 3

abbrev pub attack_dead : ℕ
attack_dead = 3

abbrev pub attack_normal : ℕ
attack_normal = 2

-- `pvpUserSkillResult`
pub record SkillResult : Type 0 where
  pub char_id : ℤ
  pub result : ℕ
  pub damage : ℕ
  pub hp_rest : ℕ
  pub hit_num : ℕ

-- The packets that are sent, by their functions or their types.
pub data Message : Type 0 where
  request_result : ℕ → Message
  request_notification : ℤ → ℕ → Message
  response_result : ℕ → Message
  response_notification : ℤ → ℕ → ℕ → Message
  character_info : ℤ → ℕ → ℕ → Message
  pending_result : ℕ → Message
  pending_notification : ℕ → ℕ → Message
  cancel_result : ℕ → Message
  cancel_notification : ℕ → Message
  attack_result : ℤ → ℕ → ℕ → ℕ → ℕ → ℕ → ℕ → Message
  attack_motion : ℕ → Message
  attack_notification : ℤ → ℤ → ℕ → ℕ → Message
  last_error : ℕ → ℕ → ℕ → Message
  skill_to_mton : ℕ → ℕ → ℕ → Message
  skill_result : ℕ → ℕ → ℕ → ℕ → SkillResult → Message
  skill_notification : ℕ → ℤ → ℕ → ℕ → SkillResult → Message

-- A packet to a session, or to the sessions around one; `saveContextVitals`, whose result is only logged.
pub data Effect : Type 0 where
  sends : ℕ → Message → Effect
  broadcasts : ℕ → Message → Effect
  saves_vitals : ℕ → Effect

abbrev pub Outcome : Type 0
Outcome = World × List Effect
