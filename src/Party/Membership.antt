-- ===== src/Party/Membership.antt =====
-- Who is in a party: `makePartyState`, `applyPartyState`, `clearPartyState` and the removal of a member
-- of cmd/gameserver/packet/party.go. The contexts of the sessions are the map that is passed along.
use freya.Common.Signed.{ℤ}
use freya.Common.Maps.{GoMap, lookup, insert}
use freya.Common.{
  ℕ, ◌&&◌, Option, none, some, List, [], ◌∷◌, ◌++◌, length, leb, contains, if◌then◌else◌,
}
use freya.Party.Book.{
  PartyMember, PartyState, Player, no_invite, has_party, without_party, party_has_member,
  party_max_members, next_id,
}

abbrev pub Players : Type 0
Players = GoMap Player

-- A session that gets the party loses its invitation.
abbrev pub in_party : PartyState → Player → Player
in_party state p = record p { party = state; invite = no_invite }

-- `context.Parse` refuses a session without a character.
unfoldable pub parsed : Player → Option Player
parsed p = elim p.char [ none ↦ none | some c ↦ some p ]

unfoldable pub apply_one : PartyState → ℕ → Players → Players × List ℕ
unfolding parsed
apply_one state i ps = elim (lookup i ps) [
  | none ↦ (ps, [])
  | some q ↦ elim (parsed q) [ none ↦ (ps, []) | some p ↦ (insert i (in_party state p) ps, i ∷ []) ]
]

-- The loop of `applyPartyState`, with the indices seen.
unfoldable pub apply_loop : PartyState → List PartyMember → List ℕ → Players → Players × List ℕ
unfolding apply_one
apply_loop state [] seen ps = (ps, [])
apply_loop state (m ∷ ms) seen ps =
    let (ps', told) =
      if contains seen m.user_idx then (ps, []) else apply_one state m.user_idx ps in
    let (ps'', more) = apply_loop state ms (m.user_idx ∷ seen) ps' in (ps'', told ++ more)

-- `applyPartyState`: the sessions that it returns are those it changed, by index.
unfoldable pub apply_party : PartyState → Players → Players × List ℕ
unfolding apply_loop
apply_party state ps = apply_loop state state.members [] ps

-- `clearPartyState`, on the session if there is one with a character.
unfoldable pub clear_party : ℕ → Players → Players
unfolding parsed
clear_party i ps = elim (lookup i ps) [
  | none ↦ ps
  | some q ↦ elim (parsed q) [ none ↦ ps | some p ↦ insert i (without_party p) ps ]
]

-- The end of `makePartyState`: the members that are added.
unfoldable pub add_members : PartyState → PartyMember → PartyMember → Option PartyState
add_members party inviter target =
    let members =
      if party_has_member party.members inviter.user_idx
      then party.members
      else party.members ++ (inviter ∷ []) in
    if leb party_max_members (length party.members)
    then none
    else if party_has_member members target.user_idx
    then some (record party { members = members })
    else if leb party_max_members (length members)
    then none
    else some (record party { members = members ++ (target ∷ []) })

-- A new party, led by the inviter.
unfoldable pub new_party : PartyState → ℤ → PartyMember → PartyState
new_party state id inviter = record state {
  id = id;
  leader_user_idx = inviter.user_idx;
  leader_character_id = inviter.character_id;
  normal_looting_type = 1;
  owner_looting_type = 1;
}

-- `makePartyState`: the party, or `none` for the results that are not `partyInviteOK`, and the
-- sequence.
unfoldable pub make_party :
    PartyState → PartyMember → PartyState → PartyMember → ℤ → Option PartyState × ℤ
unfolding add_members new_party
make_party inviter_party inviter target_party target sequence =
    if has_party inviter_party && has_party target_party
    then (none, sequence)
    else if has_party inviter_party
    then (add_members inviter_party inviter target, sequence)
    else if has_party target_party
    then (add_members target_party inviter target, sequence)
    else (
      add_members (new_party target_party (next_id sequence) inviter) inviter target,
      next_id sequence,
    )
