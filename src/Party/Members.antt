-- ===== src/Party/Members.antt =====
-- Members that go: `LeaveParty` and `PartyKickout` of cmd/gameserver/packet/party.go, once the packet is
-- read. A handler is one step.
use freya.Common.Signed.{ℤ}
use freya.Common.Maps.{lookup, insert}
use freya.Common.{
  ℕ, Bool, true, false, ◌||◌, not, none, some, List, [], ◌∷◌, ◌++◌, map, ◌==◌, if◌then◌else◌,
}
use freya.Party.Book.{
  PartyMember, PartyState, World, has_party, without_party, member_of, without_member,
  member_by_character,
}
use freya.Party.Membership.{apply_party, clear_party}
use freya.Party.Messages.{
  Sent, Outcome, leave_result, kickout_result, kickout_notification, member_out, party_stats,
  to_members, send_member_stats,
}

-- The leader, where the old one has left.
unfoldable pub led_by : PartyState → ℕ → PartyMember → List PartyMember → PartyState
led_by party u first members =
    if party.leader_user_idx == u
    then record party {
      members = members;
      leader_user_idx = first.user_idx;
      leader_character_id = first.character_id;
    }
    else record party { members = members }

-- The end of `LeaveParty`, for those that remain of the party.
unfoldable pub leave_behind : ℕ → PartyMember → PartyState → List PartyMember → World → Outcome
unfolding led_by apply_party clear_party send_member_stats
leave_behind u me party [] w = (w, [])
leave_behind u me party (m ∷ []) w = (
  record w { players = clear_party m.user_idx w.players },
  elim (lookup m.user_idx w.players) [
    | none ↦ []
    | some p ↦ (m.user_idx, member_out me.character_id) ∷ []
  ],
)
leave_behind u me party (m ∷ n ∷ ms) w =
    let party' = led_by party u m (m ∷ n ∷ ms) in
    let (ps, sessions) = apply_party party' w.players in
    let w' = record w { players = ps } in
    (w', told_out me.character_id party' sessions ++ send_member_stats w' party')
  where
    told_out : ℤ → PartyState → List ℕ → List Sent
    told_out id state [] = []
    told_out id state (i ∷ is) = (i, member_out id) ∷ (i, party_stats state) ∷ told_out id state is

-- `LeaveParty`
unfoldable pub leave_party : ℕ → World → Bool × Outcome
unfolding member_of without_member leave_behind
leave_party u w = elim (lookup u w.players) [
  | none ↦ (false, (w, []))
  | some me ↦ elim (member_of w.channel_id u me) [
    | none ↦ (false, (w, []))
    | some member ↦ if not (has_party me.party) then (false, (w, [])) else (
      true,
      leave_behind u member me.party (without_member u me.party.members)
          (record w { players = insert u (without_party me) w.players }),
    )
  ]
]

-- `PartyLeave`
unfoldable pub leave : ℕ → World → Outcome
unfolding leave_party
leave u w = let (left, (w', sent)) = leave_party u w in (w', sent ++ ((u, leave_result left) ∷ []))

-- The end of `PartyKickout`, for those that remain.
unfoldable pub kick_rest : PartyState → List PartyMember → World → Outcome
unfolding apply_party clear_party send_member_stats
kick_rest party [] w = (w, [])
kick_rest party (m ∷ []) w = (record w { players = clear_party m.user_idx w.players }, [])
kick_rest party (m ∷ n ∷ ms) w =
    let party' = record party { members = m ∷ n ∷ ms } in
    let (ps, sessions) = apply_party party' w.players in
    let w' = record w { players = ps } in
    (w', map (λ i. (i, party_stats party')) sessions ++ send_member_stats w' party')

-- `PartyKickout`
unfoldable pub kickout : ℕ → ℤ → World → Outcome
unfolding member_by_character without_member kick_rest to_members clear_party
kickout u kicked_id w =
    let failed : Outcome = (w, (u, kickout_result false) ∷ []) in
    elim (lookup u w.players) [
      | none ↦ failed
      | some me ↦
          if not (has_party me.party) || not (me.party.leader_user_idx == u)
          then failed
          else elim (member_by_character me.party.members kicked_id) [
            | none ↦ failed
            | some kicked ↦
                if kicked.user_idx == u
                then failed
                else let told =
                    to_members w.players me.party.members (kickout_notification kicked_id) in
                  let w1 = record w { players = clear_party kicked.user_idx w.players } in
                  let (w2, sent) =
                    kick_rest me.party (without_member kicked.user_idx me.party.members) w1 in
                  (w2, told ++ (sent ++ ((u, kickout_result true) ∷ [])))
          ]
    ]
