-- ===== src/Pvp/Casts.antt =====
-- The targeted skill keeps duels agreed on
-- (`handleTargetedUserSkill` of cmd/gameserver/packet/pvp_combat.go).
use freya.Common.Signed.{ℤ}
use freya.Common.Maps.{lookup, insert}
use freya.Common.{
  ℕ, ◌-◌, ◌≡◌, refl, inl, inr, Option, none, some, List, [], ◌∷◌, ◌==◌, ltb, Bool-cases,
  Option-cases,
}
use freya.Network.Reader.{Reader}
use freya.Pvp.Book.{Char, Player, World}
use freya.Pvp.Combat.{is_combat_pair}
use freya.Pvp.Skills.{ClientData, skill_level, skill_cost}
use freya.Pvp.Casting.{
  Cast, aimed_at, skill_hit, strike, pay_and_strike, cast_on, cast_at, cast_targets, read_targets,
  read_cast, target_count, is_refused, handle_skill,
}
use freya.Pvp.Agreement.{IsAgreed, duels}
use freya.Pvp.Keeping.{change-IsAgreed}
use freya.Pvp.Handled.{Keeps, KeepsAll, keeps, kept_one}

skill_hit-Keeps :
    (tables : ClientData) (cast : Cast) (level u : ℕ) (c : Char) (v : ℕ) (q : Player) (d : Char)
    (w : World)
    → IsAgreed (duels w)
    → lookup v w ≡ some q
    → Keeps (skill_hit tables cast level u c v q d w)
unfolding skill_hit
skill_hit-Keeps tables cast level u c v q d w h e =
    keeps (change-IsAgreed v q _ w h e refl (λ there. refl))

strike-Keeps :
    (tables : ClientData) (cast : Cast) (level u v : ℕ) (target_id : ℤ) (w : World)
    → IsAgreed (duels w)
    → Keeps (strike tables cast level u v target_id w)
unfolding strike
strike-Keeps tables cast level u v target_id w h = elim (Option-cases (lookup u w)) [
  | inl e ↦ rw (e, strike) (keeps h)
  | inr (p, e) ↦ elim (Option-cases (lookup v w)) [
    | inl e' ↦ rw (e, e', strike) (keeps h)
    | inr (q, e') ↦ elim (Option-cases p.char) [
      | inl ec ↦ rw (e, e', ec, strike) (keeps h)
      | inr (c, ec) ↦ elim (Option-cases q.char) [
        | inl ed ↦ rw (e, e', ec, ed, strike) (keeps h)
        | inr (d, ed) ↦ elim (Bool-cases (is_combat_pair u p c v q d target_id)) [
          | inr stray ↦ rw (e, e', ec, ed, stray, strike) (keeps h)
          | inl pair ↦ elim (Bool-cases (d.current_hp == 0)) [
            | inl dead ↦ rw (e, e', ec, ed, pair, dead, strike) (keeps h)
            | inr alive ↦
                rw (e, e', ec, ed, pair, alive, strike)
                  (skill_hit-Keeps tables cast level u c v q d w h e')
          ]
        ]
      ]
    ]
  ]
]

pay_and_strike-Keeps :
    (tables : ClientData) (cast : Cast) (u : ℕ) (p : Player) (c : Char) (v : ℕ) (target_id : ℤ)
    (w : World)
    → IsAgreed (duels w)
    → lookup u w ≡ some p
    → Keeps (pay_and_strike tables cast u p c v target_id w)
unfolding pay_and_strike
pay_and_strike-Keeps tables cast u p c v target_id w h e =
    let level = skill_level cast.skill_id c.skills in
    let cost = skill_cost (lookup cast.skill_id tables.metas) level p.battle in
    elim (Bool-cases (ltb c.current_mp cost)) [
      | inl short ↦ rw (short, pay_and_strike) (keeps h)
      | inr enough ↦ elim (Bool-cases (cost == 0)) [
        | inl free ↦
            rw (enough, free, pay_and_strike) (strike-Keeps tables cast level u v target_id w h)
        | inr paid ↦
            let p' : Player = record p {
              char = some (record c { current_mp = c.current_mp - cost });
            } in
            let h' = change-IsAgreed u p p' w h e refl (λ there. refl) in
            rw (enough, paid, pay_and_strike)
              (keeps (strike-Keeps tables cast level u v target_id (insert u p' w) h').kept)
      ]
    ]

cast_on-Keeps :
    (tables : ClientData) (cast : Cast) (u v : ℕ) (w : World)
    → IsAgreed (duels w)
    → Keeps (cast_on tables cast u v w)
unfolding cast_on
cast_on-Keeps tables cast u v w h = elim (Option-cases (lookup v w)) [
  | inl e' ↦ rw (e', cast_on) (keeps h)
  | inr (q, e') ↦ elim (Option-cases (lookup u w)) [
    | inl e ↦ rw (e', e, cast_on) (keeps h)
    | inr (p, e) ↦ elim (Option-cases p.char) [
      | inl ec ↦ rw (e', e, ec, cast_on) (keeps h)
      | inr (c, ec) ↦ elim (Option-cases q.char) [
        | inl ed ↦ rw (e', e, ec, ed, cast_on) (keeps h)
        | inr (d, ed) ↦ elim (Bool-cases (is_combat_pair u p c v q d d.id)) [
          | inr stray ↦ rw (e', e, ec, ed, stray, cast_on) (keeps h)
          | inl pair ↦
              rw (e', e, ec, ed, pair, cast_on)
                (pay_and_strike-Keeps tables cast u p c v d.id w h e)
        ]
      ]
    ]
  ]
]

cast_at-Keeps :
    (tables : ClientData) (cast : Cast) (u : ℕ) (o : Option ℕ) (w : World)
    → IsAgreed (duels w)
    → Keeps (cast_at tables cast u o w)
cast_at-Keeps tables cast u none w h = keeps h
cast_at-Keeps tables cast u (some v) w h = cast_on-Keeps tables cast u v w h

cast_targets-Keeps :
    (tables : ClientData) (skill_id x y u : ℕ) (targets : List (ℕ × ℕ)) (w : World)
    → IsAgreed (duels w)
    → Keeps (cast_targets tables skill_id x y u targets w)
unfolding cast_targets
cast_targets-Keeps tables skill_id x y u [] w h = keeps h
cast_targets-Keeps tables skill_id x y u ((target, hit_num) ∷ []) w h =
    cast_at-Keeps tables _ u (aimed_at u target w) w h
cast_targets-Keeps tables skill_id x y u (t ∷ t' ∷ targets) w h = keeps h

pub handle_skill-Keeps :
    (tables : ClientData) (u : ℕ) (r : Reader) (w : World)
    → IsAgreed (duels w)
    → KeepsAll (handle_skill tables u r w)
unfolding handle_skill
handle_skill-Keeps tables u r w h = elim (Option-cases (read_cast r)) [
  | inl e ↦ rw (e, handle_skill) (λ o e'. cc e')
  | inr (((skill_id, (slot, (moving, (x, (y, (a, (b, (c, last)))))))), r'), e) ↦
      let count = target_count last r.size in
      elim (Bool-cases (is_refused slot moving count r.size)) [
        | inl k ↦ rw (e, k, handle_skill) (kept_one (keeps h))
        | inr k ↦ elim (Option-cases (read_targets count r')) [
          | inl e' ↦ rw (e, k, e', handle_skill) (λ o e''. cc e'')
          | inr ((targets, r''), e') ↦
              rw (e, k, e', handle_skill)
                (kept_one (cast_targets-Keeps tables skill_id x y u targets w h))
        ]
      ]
]
