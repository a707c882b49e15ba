-- ===== src/Party/Inviting.antt =====
-- Invitations and the search for parties leave every session in its party: `PartyInvite`,
-- `PartyInviteCancel` and `PartySearchRegist` of cmd/gameserver/packet/party.go.
use freya.Common.Signed.{ℤ, nonpos}
use freya.Common.Maps.{lookup, insert, lookup-insert}
use freya.Common.{
  ℕ, ◌≡◌, refl, ◌∙◌, inl, inr, false, not, ◌&&◌, some, List, arith, ◌==◌, Option-cases, Bool-cases,
}
use freya.Party.Book.{
  PartyMember, Player, PartyInvite, World, member_of, without_invite, is_incoming, is_outgoing,
}
use freya.Party.Invitations.{
  put_both, find_party_session, refused_invite, send_invite, invite_found, invite, cancel_invite,
}
use freya.Party.Search.{regist_result, search_regist}
use freya.Party.Seats.{seats, seats_same}
use freya.Party.Groups.{IsGrouped, same_groups}
use freya.Party.Answering.{apart}
use freya.Party.Leaving.{Keeps, keeps}

-- Two sessions get other invitations.
invited_both :
    (u v : ℕ) (p q : Player) (i k : PartyInvite) (w : World)
    → lookup u w.players ≡ some p
    → lookup v w.players ≡ some q
    → (v == u) ≡ false
    → IsGrouped (seats w.players)
    → IsGrouped (seats (put_both u (record p { invite = i }) v (record q { invite = k }) w.players))
invited_both u v p q i k w e e' other h =
    same_groups (seats w.players) _
      (λ j.
        seats_same v q (record q { invite = k }) (insert u (record p { invite = i }) w.players)
          (ground (arith, lookup-insert v u (record p { invite = i }) w.players, other, e')) refl j
        ∙ seats_same u p (record p { invite = i }) w.players e refl j)
      h

invite_found-Keeps :
    (u : ℕ) (sender : Player) (sm : PartyMember) (id : ℤ) (channel : ℕ) (name : List ℕ) (w : World)
    → lookup u w.players ≡ some sender
    → IsGrouped (seats w.players)
    → Keeps (invite_found u sender sm id channel name w)
unfolding invite_found send_invite
invite_found-Keeps u sender sm id channel name w e h =
    elim (Option-cases (find_party_session id name w.players)) [
      | inl f ↦ rw (f, invite_found) (keeps h)
      | inr (v, f) ↦ elim (Bool-cases (v == u)) [
        | inl self ↦ rw (f, self, invite_found) (keeps h)
        | inr other ↦ elim (Option-cases (lookup v w.players)) [
          | inl e' ↦ rw (f, other, e', invite_found) (keeps h)
          | inr (target, e') ↦ elim (Option-cases (member_of w.channel_id v target)) [
            | inl m ↦ rw (f, other, e', m, invite_found) (keeps h)
            | inr (tm, m) ↦ elim (Option-cases (refused_invite sender target)) [
              | inr (result, r) ↦ rw (f, other, e', m, r, invite_found) (keeps h)
              | inl r ↦
                  rw (f, other, e', m, r, invite_found)
                    (keeps (invited_both u v sender target _ _ w e e' other h))
            ]
          ]
        ]
      ]
    ]

pub invite-Keeps :
    (u kind : ℕ) (id : ℤ) (channel : ℕ) (name : List ℕ) (w : World)
    → IsGrouped (seats w.players)
    → Keeps (invite u kind id channel name w)
unfolding invite
invite-Keeps u kind id channel name w h = elim (Option-cases (lookup u w.players)) [
  | inl e ↦ rw (e, invite) (keeps h)
  | inr (sender, e) ↦ elim (Option-cases (member_of w.channel_id u sender)) [
    | inl m ↦ rw (e, m, invite) (keeps h)
    | inr (sm, m) ↦ elim (Bool-cases (not (kind == 1) && not (kind == 2))) [
      | inl odd ↦ rw (e, m, odd, invite) (keeps h)
      | inr known ↦ elim (Bool-cases (kind == 1 && nonpos id)) [
        | inl nobody ↦ rw (e, m, known, nobody, invite) (keeps h)
        | inr somebody ↦
            rw (e, m, known, somebody, invite)
              (invite_found-Keeps u sender sm id channel name w e h)
      ]
    ]
  ]
]

pub cancel_invite-Keeps :
    (u : ℕ) (w : World) → IsGrouped (seats w.players) → Keeps (cancel_invite u w)
unfolding cancel_invite
cancel_invite-Keeps u w h = elim (Option-cases (lookup u w.players)) [
  | inl e ↦ rw (e, cancel_invite) (keeps h)
  | inr (me, e) ↦
      let v = me.invite.opponent_user_idx in
      elim (Bool-cases (is_outgoing me.invite.status)) [
        | inr idle ↦ rw (e, idle, cancel_invite) (keeps h)
        | inl out ↦ elim (Option-cases (lookup v w.players)) [
          | inl e' ↦
              rw (e, out, e', cancel_invite)
                (keeps (
                  same_groups (seats w.players) _
                    (seats_same u me (without_invite me) w.players e refl) h))
          | inr (peer, e') ↦
              elim (Bool-cases
                (is_incoming peer.invite.status && peer.invite.opponent_user_idx == u)) [
                  | inr wrong ↦ rw (e, out, e', wrong, cancel_invite) (keeps h)
                  | inl come ↦
                      rw (e, out, e', come, cancel_invite)
                        (keeps (
                          invited_both u v me peer _ _ w e e'
                            (ground
                              (arith, apart w.players v u peer me e' e out (ground (arith, come))))
                            h))
                ]
        ]
      ]
]

pub search_regist-Keeps :
    (u count : ℕ) (title : List ℕ) (w : World)
    → IsGrouped (seats w.players)
    → Keeps (search_regist u count title w)
unfolding search_regist
search_regist-Keeps u count title w h = elim (Option-cases (lookup u w.players)) [
  | inl e ↦ rw (e, search_regist) (keeps h)
  | inr (me, e) ↦ elim (Bool-cases (regist_result u count me == 0)) [
    | inr wrong ↦ rw (e, wrong, search_regist) (keeps h)
    | inl fine ↦
        rw (e, fine, search_regist)
          (keeps (same_groups (seats w.players) _ (seats_same u me _ w.players e refl) h))
  ]
]
