-- ===== src/Party/Invitations.antt =====
-- Invitations: `PartyInvite`, `PartyInviteResult` and `PartyInviteCancel` of
-- cmd/gameserver/packet/party.go, once the packet is read. A handler is one step: what it reads before it
-- holds the locks is taken not to change in between, so that `PartyInvite` makes its tests once.
use freya.Common.Signed.{ℤ, nonpos, eq_ℤ, pattern_of}
use freya.Common.Maps.{lookup, insert}
use freya.Common.{
  ℕ, ◌/◌, ◌%◌, ◌^◌, Bool, true, false, ◌&&◌, ◌||◌, not, Option, none, some, List, [], ◌∷◌, ◌++◌,
  map, length, leb, is_empty, ◌==◌, if◌then◌else◌,
}
use freya.Party.Book.{
  PartyMember, PartyState, Player, World, outgoing, incoming, no_member, has_party, is_no_invite,
  is_outgoing, is_incoming, without_invite, member_of, party_max_members,
}
use freya.Party.Membership.{Players, make_party, apply_party}
use freya.Party.Messages.{
  Outcome, invite_response, invite_notification, invite_answer, invite_result, cancel_result,
  cancel_notification, party_stats, send_member_stats, invite_ok, invite_not_exist, invite_busy,
  invite_max_members, invite_already_member, invite_error, answer_ok, answer_rejected,
  answer_failed,
}

-- `a == b` on texts.
unfoldable pub eq_bytes : List ℕ → List ℕ → Bool
eq_bytes [] [] = true
eq_bytes (a ∷ xs) (b ∷ ys) = let rest = eq_bytes xs ys in a == b && rest
eq_bytes [] (b ∷ ys) = false
eq_bytes (a ∷ xs) [] = false

-- The character of a session has the number, or the name, that is looked for.
unfoldable pub is_sought : ℤ → List ℕ → Player → Bool
unfolding eq_bytes
is_sought character_id name p = elim p.char [
  | none ↦ false
  | some c ↦
      (not (nonpos character_id) && eq_ℤ c.id character_id)
      || (not (is_empty name) && eq_bytes c.name name)
]

unfoldable pub find_in : ℤ → List ℕ → Players → Option ℕ
unfolding is_sought
find_in character_id name [] = none
find_in character_id name (e ∷ ps) =
    let rest = find_in character_id name ps in
    if is_sought character_id name e.1 then some e.0 else rest

-- `findPartySession`
unfoldable pub find_party_session : ℤ → List ℕ → Players → Option ℕ
unfolding find_in
find_party_session character_id name ps =
    let index = pattern_of 32 character_id % 2 ^ 16 in
    elim (find_in character_id name ps) [
      | some v ↦ some v
      | none ↦
          if not (nonpos character_id) && pattern_of 32 character_id / 2 ^ 24 == 1
          then elim (lookup index ps) [ none ↦ none | some p ↦ some index ]
          else none
    ]

-- The tests of `PartyInvite` on the two players: the result that is refused, if one is.
unfoldable pub refused_invite : Player → Player → Option ℕ
refused_invite sender target =
    let full = λ (s : PartyState). has_party s && leb party_max_members (length s.members) in
    if not (is_no_invite sender.invite.status) || not (is_no_invite target.invite.status)
    then some invite_busy
    else if has_party sender.party && has_party target.party
    then some invite_already_member
    else if full sender.party || full target.party
    then some invite_max_members
    else none

-- The end of `PartyInvite`.
unfoldable pub send_invite :
    ℕ → Player → PartyMember → ℕ → Player → PartyMember → ℕ → World → Outcome
send_invite u sender sender_member v target target_member channel w = (
  record w {
    players =
        insert v
          (record target {
            invite = record {
              status = incoming;
              opponent_user_idx = u;
              opponent_character_id = sender_member.character_id;
              channel = sender_member.channel;
            };
          })
          (insert u
            (record sender {
              invite = record {
                status = outgoing;
                opponent_user_idx = v;
                opponent_character_id = target_member.character_id;
                channel = channel;
              };
            })
            w.players);
  },
  (u, invite_response invite_ok (record target_member { channel = channel }))
      ∷ (v, invite_notification sender_member)
      ∷ [],
)

-- `PartyInvite`, on a sender with a character.
unfoldable pub invite_found : ℕ → Player → PartyMember → ℤ → ℕ → List ℕ → World → Outcome
unfolding find_party_session refused_invite send_invite member_of
invite_found u sender sender_member target_id channel name w =
    let refuse : ℕ → PartyMember → Outcome = λ result m. (w, (u, invite_response result m) ∷ []) in
    elim (find_party_session target_id name w.players) [
      | none ↦ refuse invite_not_exist no_member
      | some v ↦ if v == u then refuse invite_not_exist no_member else elim (lookup v w.players) [
        | none ↦ refuse invite_not_exist no_member
        | some target ↦ elim (member_of w.channel_id v target) [
          | none ↦ refuse invite_not_exist no_member
          | some target_member ↦ elim (refused_invite sender target) [
            | some result ↦ refuse result target_member
            | none ↦ send_invite u sender sender_member v target target_member channel w
          ]
        ]
      ]
    ]

-- `PartyInvite`
unfoldable pub invite : ℕ → ℕ → ℤ → ℕ → List ℕ → World → Outcome
unfolding invite_found member_of
invite u invite_type target_id channel name w =
    let refuse : ℕ → Outcome = λ result. (w, (u, invite_response result no_member) ∷ []) in
    elim (lookup u w.players) [
      | none ↦ refuse invite_error
      | some sender ↦ elim (member_of w.channel_id u sender) [
        | none ↦ refuse invite_error
        | some sender_member ↦
            if not (invite_type == 1) && not (invite_type == 2)
            then refuse invite_error
            else if invite_type == 1 && nonpos target_id
            then refuse invite_not_exist
            else invite_found u sender sender_member target_id channel name w
      ]
    ]

abbrev pub put_both : ℕ → Player → ℕ → Player → Players → Players
put_both u p v q ps = insert v q (insert u p ps)

-- The accepted invitation of `PartyInviteResult`.
unfoldable pub accept_invite : ℕ → Player → PartyMember → ℕ → Player → PartyMember → World → Outcome
unfolding make_party apply_party send_member_stats
accept_invite u target target_member v inviter inviter_member w =
    let (made, sequence) =
      make_party inviter.party inviter_member target.party target_member w.sequence in
    let ps = put_both u (without_invite target) v (without_invite inviter) w.players in
    let w1 = record w { players = ps; sequence = sequence } in
    elim made [
      | none ↦ (w1, (u, invite_answer answer_failed) ∷ (v, invite_result false) ∷ [])
      | some party ↦
          let (ps', sessions) = apply_party party ps in
          let w2 = record w1 { players = ps' } in
          (
            w2,
            (u, invite_answer answer_ok)
                ∷ (v, invite_result true)
                ∷ (map (λ i. (i, party_stats party)) sessions ++ send_member_stats w2 party),
          )
    ]

-- `valid` of `PartyInviteResult`, where both have a character.
unfoldable pub is_invited : ℕ → Player → PartyMember → ℕ → Player → ℤ → Bool
is_invited v inviter inviter_member u target inviting_id =
    is_outgoing inviter.invite.status
    && (inviter.invite.opponent_user_idx == u
        && (is_incoming target.invite.status
            && (target.invite.opponent_user_idx == v
                && eq_ℤ inviter_member.character_id inviting_id)))

-- `PartyInviteResult`
unfoldable pub answer_invite : ℕ → ℤ → Bool → World → Outcome
unfolding accept_invite is_invited member_of
answer_invite u inviting_id accepted w =
    let failed : Outcome = (w, (u, invite_answer answer_failed) ∷ []) in
    elim (lookup u w.players) [
      | none ↦ failed
      | some target ↦
          let v = target.invite.opponent_user_idx in
          if not (is_incoming target.invite.status)
            || not (eq_ℤ target.invite.opponent_character_id inviting_id)
          then failed
          else elim (lookup v w.players) [
            | none ↦ failed
            | some inviter ↦ elim (member_of w.channel_id v inviter) [
              | none ↦ failed
              | some inviter_member ↦ elim (member_of w.channel_id u target) [
                | none ↦ failed
                | some target_member ↦
                    if not (is_invited v inviter inviter_member u target inviting_id)
                    then failed
                    else if not accepted
                    then (
                      record w {
                        players =
                            put_both u (without_invite target) v (without_invite inviter) w.players;
                      },
                      (u, invite_answer answer_rejected) ∷ (v, invite_result false) ∷ [],
                    )
                    else accept_invite u target target_member v inviter inviter_member w
              ]
            ]
          ]
    ]

-- `PartyInviteCancel`
unfoldable pub cancel_invite : ℕ → World → Outcome
cancel_invite u w =
    let failed : Outcome = (w, (u, cancel_result false) ∷ []) in
    elim (lookup u w.players) [
      | none ↦ failed
      | some me ↦
          let v = me.invite.opponent_user_idx in
          if not (is_outgoing me.invite.status) then failed else elim (lookup v w.players) [
            | none ↦ (
              record w { players = insert u (without_invite me) w.players },
              (u, cancel_result true) ∷ [],
            )
            | some peer ↦
                if is_incoming peer.invite.status && peer.invite.opponent_user_idx == u
                then (
                  record w {
                    players = put_both u (without_invite me) v (without_invite peer) w.players;
                  },
                  (u, cancel_result true) ∷ (v, cancel_notification) ∷ [],
                )
                else failed
          ]
    ]
