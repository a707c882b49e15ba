-- ===== src/Pvp/Handlers.antt =====
-- The handlers of cmd/gameserver/packet/pvp.go, once the packet is read. A handler is one step: what it
-- reads before it holds the locks is taken not to change in between.
use freya.Common.Signed.{ℤ, pos, nonpos, eq_ℤ}
use freya.Common.Maps.{lookup}
use freya.Common.{
  ℕ, Bool, ◌&&◌, ◌||◌, not, Option, none, some, [], ◌∷◌, ◌==◌, ltb, is_some, if◌then◌else◌,
}
use freya.Pvp.Book.{
  parse, stage_waiting, stage_person, no_pvp, Char, Player, World, is_idle, is_waiting, is_person,
  with_pvp, with_stage, put_both, pvp_complete, pvp_fail, pvp_ignored, pvp_busy, Message,
  request_result, request_notification, response_result, response_notification, character_info,
  pending_result, pending_notification, cancel_result, cancel_notification, sends, Outcome,
}

-- A reply, and nothing else.
abbrev pub replies : ℕ → Message → World → Outcome
replies u message w = (w, sends u message ∷ [])

-- The identity of a character, zero where there is none.
abbrev pub id_or_zero : Option Char → ℤ
id_or_zero none = pos 0
id_or_zero (some c) = c.id

-- `reservePVPWaitingState` on two sessions that are there, and the end of `PVPRequest`.
unfoldable pub reserve : ℕ → Player → ℤ → ℕ → Player → ℤ → ℕ → World → Outcome
reserve u p id v q target_id pvp_type w =
    if not (is_idle p.pvp.stage) || not (is_idle q.pvp.stage)
    then replies u (request_result pvp_busy) w
    else (
      put_both u
          (with_pvp
            (record {
              stage = stage_waiting;
              opponent_user_idx = v;
              opponent_character_id = target_id;
            })
            p)
          v
          (with_pvp
            (record { stage = stage_waiting; opponent_user_idx = u; opponent_character_id = id }) q)
          w,
      sends u (request_result pvp_complete) ∷ sends v (request_notification id pvp_type) ∷ [],
    )

-- `PVPRequest`
unfoldable pub request : ℕ → ℕ → ℤ → ℕ → World → Outcome
unfolding reserve
request u v target_id pvp_type w =
    let failed = replies u (request_result pvp_fail) w in
    if not (pvp_type == 2) then replies u (request_result pvp_ignored) w else elim (lookup u w) [
      | none ↦ failed
      | some p ↦ elim p.char [
        | none ↦ failed
        | some c ↦ if nonpos target_id || v == u then failed else elim (lookup v w) [
          | none ↦ failed
          | some q ↦
              if not (eq_ℤ (id_or_zero q.char) target_id)
              then failed
              else reserve u p c.id v q target_id pvp_type w
        ]
      ]
    ]

-- `valid` of `PVPResponse`: the session `u` answers the requester `v`.
unfoldable pub is_asked : ℕ → Player → ℕ → Player → ℤ → Bool
is_asked u p v q requester_id =
    let linked =
      is_waiting p.pvp.stage
      && (p.pvp.opponent_user_idx == v
          && (eq_ℤ p.pvp.opponent_character_id requester_id
              && (is_waiting q.pvp.stage && q.pvp.opponent_user_idx == u))) in
    if linked && (is_some p.char && is_some q.char)
    then eq_ℤ (id_or_zero q.char) requester_id
    else linked

-- The end of `PVPResponse`.
unfoldable pub settle : ℕ → Player → Char → ℕ → Player → Char → ℤ → ℕ → ℕ → World → Outcome
settle u p c v q d requester_id pvp_type result w =
    if result == 0
    then (
      put_both u (with_stage stage_person p) v (with_stage stage_person q) w,
      sends u (response_result pvp_complete)
          ∷ sends v (response_notification c.id pvp_type result)
          ∷ sends v (character_info c.id c.current_hp c.max_hp)
          ∷ sends u (character_info requester_id d.current_hp d.max_hp)
          ∷ [],
    )
    else (
      put_both u (with_pvp no_pvp p) v (with_pvp no_pvp q) w,
      sends u (response_result pvp_complete)
          ∷ sends v (response_notification c.id pvp_type result)
          ∷ [],
    )

-- `PVPResponse`
unfoldable pub respond : ℕ → ℕ → ℤ → ℕ → ℕ → World → Outcome
unfolding is_asked settle parse
respond u v requester_id pvp_type result w =
    let failed = replies u (response_result pvp_fail) w in
    if not (pvp_type == 2) || (not (result == 0) && not (result == 1))
    then replies u (response_result pvp_ignored) w
    else elim (parse u w) [
      | none ↦ failed
      | some (p, c) ↦ elim (parse v w) [
        | none ↦ failed
        | some (q, d) ↦
            if v == u
            then failed
            else if not (is_asked u p v q requester_id)
            then failed
            else settle u p c v q d requester_id pvp_type result w
      ]
    ]

-- `PVPPending`, which ends a duel.
unfoldable pub end_duel : ℕ → ℕ → ℕ → World → Outcome
unfolding parse
end_duel u pvp_type result w =
    let failed = replies u (pending_result pvp_fail) w in
    if not (pvp_type == 2) || ltb 3 result then failed else elim (parse u w) [
      | none ↦ failed
      | some (p, c) ↦
          let v = p.pvp.opponent_user_idx in
          elim (parse v w) [
            | none ↦ failed
            | some (q, d) ↦
                if v == u
                then failed
                else if not (
                    is_person p.pvp.stage
                    && (is_person q.pvp.stage && q.pvp.opponent_user_idx == u))
                then failed
                else (
                  put_both u (with_pvp no_pvp p) v (with_pvp no_pvp q) w,
                  sends u (pending_result pvp_complete)
                      ∷ sends v (pending_notification pvp_type result)
                      ∷ [],
                )
          ]
    ]

-- `valid` of `PVPCancel`.
unfoldable pub may_cancel : ℕ → Player → ℕ → Player → ℤ → Bool
may_cancel u p v q target_id =
    (is_some p.char && is_some q.char)
    && (p.pvp.opponent_user_idx == v
        && (eq_ℤ p.pvp.opponent_character_id target_id && q.pvp.opponent_user_idx == u))

-- `PVPCancel`
unfoldable pub cancel : ℕ → ℕ → ℤ → ℕ → World → Outcome
unfolding may_cancel parse
cancel u v target_id pvp_type w =
    let failed = replies u (cancel_result pvp_fail) w in
    if not (pvp_type == 2) || (nonpos target_id || v == u) then failed else elim (parse u w) [
      | none ↦ failed
      | some (p, c) ↦ elim (parse v w) [
        | none ↦ failed
        | some (q, d) ↦ if not (may_cancel u p v q target_id) then failed else (
          put_both u (with_pvp no_pvp p) v (with_pvp no_pvp q) w,
          sends u (cancel_result pvp_complete) ∷ sends v (cancel_notification pvp_type) ∷ [],
        )
      ]
    ]
