-- ===== src/Pvp/Handled.antt =====
-- Every handler of duels keeps the sessions agreed (cmd/gameserver/packet/pvp.go and pvp_combat.go).
use freya.Common.Signed.{ℤ, pos, nonpos, eq_ℤ}
use freya.Common.Maps.{lookup}
use freya.Common.{
  ℕ, ◌≡◌, refl, ap, subst, inl, inr, true, false, Option, none, some, is_some, arith, ◌==◌,
  Bool-cases, Option-cases, ◌||◌, ◌&&◌, not, List, ltb,
}
use freya.Pvp.Book.{parse, parse_found, Char, Player, World, is_idle, is_person, Outcome, Effect}
use freya.Pvp.Handlers.{
  id_or_zero, reserve, request, is_asked, settle, respond, end_duel, may_cancel, cancel,
}
use freya.Pvp.Combat.{Weapons, hit, attack, is_combat_pair}
use freya.Pvp.Agreement.{IsAgreed, duels}
use freya.Pvp.Keeping.{put_linked, put_idle, change-IsAgreed}

-- The duels of an outcome are agreed.
pub record Keeps (o : Outcome) : Type 0 where
  pub kept : IsAgreed (duels o.0)

pub keeps : {w : World} {effects : List Effect} → IsAgreed (duels w) → Keeps (w, effects)
keeps h = record { kept = h }

-- A positive identity is that of a character.
named_char :
    (char : Option Char) (target_id : ℤ)
    → nonpos target_id ≡ false
    → eq_ℤ (id_or_zero char) target_id ≡ true
    → is_some char ≡ true
unfolding nonpos eq_ℤ
named_char none (pos n) positive e = ground (arith, positive, e)
named_char none _ positive e = ground (arith, positive, e)
named_char (some c) target_id positive e = refl

reserve-Keeps :
    (u : ℕ) (p : Player) (id : ℤ) (v : ℕ) (q : Player) (target_id : ℤ) (pvp_type : ℕ) (w : World)
    → IsAgreed (duels w)
    → (v == u) ≡ false
    → (is_some p.char ≡ true) × (is_some q.char ≡ true)
    → Keeps (reserve u p id v q target_id pvp_type w)
unfolding reserve
reserve-Keeps u p id v q target_id pvp_type w h other chars =
    elim (Bool-cases (not (is_idle p.pvp.stage) || not (is_idle q.pvp.stage))) [
      | inl busy ↦ rw (busy, reserve) (keeps h)
      | inr free ↦ rw (free, reserve) (keeps (put_linked u v _ _ w h other chars (refl, refl) refl))
    ]

pub request-Keeps :
    (u v : ℕ) (target_id : ℤ) (pvp_type : ℕ) (w : World)
    → IsAgreed (duels w)
    → Keeps (request u v target_id pvp_type w)
unfolding request
request-Keeps u v target_id pvp_type w h = elim (Bool-cases (pvp_type == 2)) [
  | inr odd ↦ rw (odd, request) (keeps h)
  | inl personal ↦ elim (Option-cases (lookup u w)) [
    | inl e ↦ rw (personal, e, request) (keeps h)
    | inr (p, e) ↦ elim (Option-cases p.char) [
      | inl ec ↦ rw (personal, e, ec, request) (keeps h)
      | inr (c, ec) ↦ elim (Bool-cases (nonpos target_id || v == u)) [
        | inl bad ↦ rw (personal, e, ec, bad, request) (keeps h)
        | inr good ↦ elim (Option-cases (lookup v w)) [
          | inl e' ↦ rw (personal, e, ec, good, e', request) (keeps h)
          | inr (q, e') ↦ elim (Bool-cases (eq_ℤ (id_or_zero q.char) target_id)) [
            | inr wrong ↦ rw (personal, e, ec, good, e', wrong, request) (keeps h)
            | inl right ↦
                let positive : nonpos target_id ≡ false = ground (arith, good) in
                let other : (v == u) ≡ false = ground (arith, good) in
                let here : is_some p.char ≡ true = ap is_some ec in
                rw (personal, e, ec, good, e', right, request)
                  (reserve-Keeps u p c.id v q target_id pvp_type w h other
                    (here, named_char q.char target_id positive right))
          ]
        ]
      ]
    ]
  ]
]

-- What holds of both outcomes holds of what a handler yields.
abbrev pub KeepsAll : Option Outcome → Type 0
KeepsAll m = (o : Outcome) → m ≡ some o → Keeps o

pub kept_one : {o : Outcome} → Keeps o → KeepsAll (some o)
kept_one k o e = subst Keeps (cc e) k

settle-Keeps :
    (u : ℕ) (p : Player) (c : Char) (v : ℕ) (q : Player) (d : Char) (id : ℤ) (pvp_type result : ℕ)
    (w : World)
    → IsAgreed (duels w)
    → (v == u) ≡ false
    → (p.char ≡ some c) × (q.char ≡ some d)
    → is_asked u p v q id ≡ true
    → Keeps (settle u p c v q d id pvp_type result w)
unfolding settle is_asked
settle-Keeps u p c v q d id pvp_type result w h other (ec, ed) asked =
    elim (Bool-cases (result == 0)) [
      | inr refused ↦ rw (refused, settle) (keeps (put_idle u v _ _ w h other refl refl))
      | inl accepted ↦
          let forth : p.pvp.opponent_user_idx ≡ v = ground (arith, asked) in
          let back : q.pvp.opponent_user_idx ≡ u = ground (arith, asked) in
          rw (accepted, settle)
            (keeps (put_linked u v _ _ w h other (ap is_some ec, ap is_some ed) (forth, back) refl))
    ]

pub respond-Keeps :
    (u v : ℕ) (id : ℤ) (pvp_type result : ℕ) (w : World)
    → IsAgreed (duels w)
    → Keeps (respond u v id pvp_type result w)
unfolding respond
respond-Keeps u v id pvp_type result w h =
    let odd = not (pvp_type == 2) || (not (result == 0) && not (result == 1)) in
    elim (Bool-cases odd) [
      | inl k ↦ rw (k, respond) (keeps h)
      | inr k ↦ elim (Option-cases (parse u w)) [
        | inl e ↦ rw (k, e, respond) (keeps h)
        | inr ((p, c), e) ↦ elim (Option-cases (parse v w)) [
          | inl e' ↦ rw (k, e, e', respond) (keeps h)
          | inr ((q, d), e') ↦ elim (Bool-cases (v == u)) [
            | inl self ↦ rw (k, e, e', self, respond) (keeps h)
            | inr other ↦ elim (Bool-cases (is_asked u p v q id)) [
              | inr no_one ↦ rw (k, e, e', other, no_one, respond) (keeps h)
              | inl asked ↦
                  rw (k, e, e', other, asked, respond)
                    (settle-Keeps u p c v q d id pvp_type result w h other
                      ((parse_found u w p c e).1, (parse_found v w q d e').1) asked)
            ]
          ]
        ]
      ]
    ]

pub end_duel-Keeps :
    (u pvp_type result : ℕ) (w : World) → IsAgreed (duels w) → Keeps (end_duel u pvp_type result w)
unfolding end_duel
end_duel-Keeps u pvp_type result w h = elim (Bool-cases (not (pvp_type == 2) || ltb 3 result)) [
  | inl k ↦ rw (k, end_duel) (keeps h)
  | inr k ↦ elim (Option-cases (parse u w)) [
    | inl e ↦ rw (k, e, end_duel) (keeps h)
    | inr ((p, c), e) ↦
        let v = p.pvp.opponent_user_idx in
        elim (Option-cases (parse v w)) [
          | inl e' ↦ rw (k, e, e', end_duel) (keeps h)
          | inr ((q, d), e') ↦ elim (Bool-cases (v == u)) [
            | inl self ↦ rw (k, e, e', self, end_duel) (keeps h)
            | inr other ↦
                let valid =
                  is_person p.pvp.stage
                  && (is_person q.pvp.stage && q.pvp.opponent_user_idx == u) in
                elim (Bool-cases valid) [
                  | inr stray ↦ rw (k, e, e', other, stray, end_duel) (keeps h)
                  | inl matched ↦
                      rw (k, e, e', other, matched, end_duel)
                        (keeps (put_idle u v _ _ w h other refl refl))
                ]
          ]
        ]
  ]
]

pub cancel-Keeps :
    (u v : ℕ) (target_id : ℤ) (pvp_type : ℕ) (w : World)
    → IsAgreed (duels w)
    → Keeps (cancel u v target_id pvp_type w)
unfolding cancel
cancel-Keeps u v target_id pvp_type w h =
    elim (Bool-cases (not (pvp_type == 2) || (nonpos target_id || v == u))) [
      | inl k ↦ rw (k, cancel) (keeps h)
      | inr k ↦ elim (Option-cases (parse u w)) [
        | inl e ↦ rw (k, e, cancel) (keeps h)
        | inr ((p, c), e) ↦ elim (Option-cases (parse v w)) [
          | inl e' ↦ rw (k, e, e', cancel) (keeps h)
          | inr ((q, d), e') ↦ elim (Bool-cases (may_cancel u p v q target_id)) [
            | inr stray ↦ rw (k, e, e', stray, cancel) (keeps h)
            | inl matched ↦
                let other : (v == u) ≡ false = ground (arith, k) in
                rw (k, e, e', matched, cancel) (keeps (put_idle u v _ _ w h other refl refl))
          ]
        ]
      ]
    ]

hit-Keeps :
    (weapons : Weapons) (u : ℕ) (c : Char) (v : ℕ) (q : Player) (d : Char) (w : World)
    → IsAgreed (duels w)
    → lookup v w ≡ some q
    → Keeps (hit weapons u c v q d w)
unfolding hit
hit-Keeps weapons u c v q d w h e = keeps (change-IsAgreed v q _ w h e refl (λ there. refl))

pub attack-Keeps :
    (weapons : Weapons) (u v : ℕ) (target_id : ℤ) (w : World)
    → IsAgreed (duels w)
    → Keeps (attack weapons u v target_id w)
unfolding attack
attack-Keeps weapons u v target_id w h = elim (Bool-cases (v == u || nonpos target_id)) [
  | inl k ↦ rw (k, attack) (keeps h)
  | inr k ↦ elim (Option-cases (lookup v w)) [
    | inl e' ↦ rw (k, e', attack) (keeps h)
    | inr (q, e') ↦ elim (Option-cases (lookup u w)) [
      | inl e ↦ rw (k, e', e, attack) (keeps h)
      | inr (p, e) ↦ elim (Option-cases p.char) [
        | inl ec ↦ rw (k, e', e, ec, attack) (keeps h)
        | inr (c, ec) ↦ elim (Option-cases q.char) [
          | inl ed ↦ rw (k, e', e, ec, ed, attack) (keeps h)
          | inr (d, ed) ↦ elim (Bool-cases (is_combat_pair u p c v q d target_id)) [
            | inr stray ↦ rw (k, e', e, ec, ed, stray, attack) (keeps h)
            | inl pair ↦ elim (Bool-cases (d.current_hp == 0)) [
              | inl dead ↦ rw (k, e', e, ec, ed, pair, dead, attack) (keeps h)
              | inr alive ↦
                  rw (k, e', e, ec, ed, pair, alive, attack) (hit-Keeps weapons u c v q d w h e')
            ]
          ]
        ]
      ]
    ]
  ]
]
