-- ===== src/Party/Options.antt =====
-- What a leader changes: `PartyLeaderChange`, `PartyAuthChange` and `PartyLootingType` of
-- cmd/gameserver/packet/party.go, once the packet is read.
use freya.Common.Signed.{ℤ, pos, negsuc}
use freya.Common.Maps.{lookup}
use freya.Common.{
  ℕ, Bool, true, false, ◌||◌, not, ltb, none, some, [], ◌∷◌, ◌++◌, map, ◌==◌, if◌then◌else◌,
}
use freya.Party.Book.{PartyState, World, has_party, member_by_character}
use freya.Party.Membership.{apply_party}
use freya.Party.Messages.{
  Message, Outcome, leader_change_result, leader_change_notification, auth_change_result,
  auth_change_notification, looting_type_result, looting_type_notification,
}

-- The end that the three share: the new party for all members, the notification to each of them, the
-- answer.
unfoldable pub announce : ℕ → PartyState → Message → Message → World → Outcome
unfolding apply_party
announce u party notification result w =
    let (ps, sessions) = apply_party party w.players in
    (record w { players = ps }, map (λ i. (i, notification)) sessions ++ ((u, result) ∷ []))

-- `party.ID == 0 || party.LeaderUserIdx != session.UserIdx`
abbrev pub is_no_leader : ℕ → PartyState → Bool
is_no_leader u party = not (has_party party) || not (party.leader_user_idx == u)

-- `PartyLeaderChange`
unfoldable pub leader_change : ℕ → ℤ → World → Outcome
unfolding announce member_by_character
leader_change u new_leader_id w =
    let failed : Outcome = (w, (u, leader_change_result false) ∷ []) in
    elim (lookup u w.players) [
      | none ↦ failed
      | some me ↦
          if is_no_leader u me.party
          then failed
          else elim (member_by_character me.party.members new_leader_id) [
            | none ↦ failed
            | some m ↦
                if m.user_idx == u
                then failed
                else announce u
                    (record me.party {
                      leader_user_idx = m.user_idx;
                      leader_character_id = m.character_id;
                    })
                    (leader_change_notification m.character_id) (leader_change_result true) w
          ]
    ]

-- `PartyAuthChange`
unfoldable pub auth_change : ℕ → Bool → World → Outcome
unfolding announce
auth_change u leader_only w =
    let failed : Outcome = (w, (u, auth_change_result false) ∷ []) in
    elim (lookup u w.players) [
      | none ↦ failed
      | some me ↦
          if is_no_leader u me.party
          then failed
          else announce u (record me.party { leader_only_invite_authority = leader_only })
              (auth_change_notification leader_only) (auth_change_result true) w
    ]

-- `n < low || n > high`
abbrev pub is_outside : ℕ → ℕ → ℕ → Bool
is_outside low high n = ltb n low || ltb high n

-- `PartyLootingType`
unfoldable pub looting_type : ℕ → ℤ → ℤ → World → Outcome
unfolding announce
looting_type u (negsuc n) owner w = (w, (u, looting_type_result false) ∷ [])
looting_type u (pos normal) (negsuc n) w = (w, (u, looting_type_result false) ∷ [])
looting_type u (pos normal) (pos owner) w =
    let failed : Outcome = (w, (u, looting_type_result false) ∷ []) in
    if is_outside 1 3 normal || is_outside 1 2 owner then failed else elim (lookup u w.players) [
      | none ↦ failed
      | some me ↦
          if is_no_leader u me.party
          then failed
          else announce u
              (record me.party { normal_looting_type = normal; owner_looting_type = owner })
              (looting_type_notification normal owner) (looting_type_result true) w
    ]
