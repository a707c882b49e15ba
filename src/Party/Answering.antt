-- ===== src/Party/Answering.antt =====
-- An answered invitation keeps parties consistent: `PartyInviteResult` of
-- cmd/gameserver/packet/party.go.
use freya.Common.Signed.{ℤ, pos, eq_ℤ}
use freya.Common.Maps.{lookup, insert, lookup-insert}
use freya.Common.{
  ℕ, ◌≡◌, refl, sym, ap, subst, ◌∙◌, inl, inr, Bool, true, false, not, ◌||◌, Option, none, some,
  List, arith, ◌==◌, Option-cases, Bool-cases, is_some,
}
use freya.Party.Book.{
  PartyMember, Player, World, member_of, next_id, without_invite, is_incoming, is_outgoing,
  InviteStatus, incoming, outgoing, invite_none,
}
use freya.Party.Membership.{Players, make_party}
use freya.Party.Invitations.{put_both, accept_invite, is_invited, answer_invite}
use freya.Party.Messages.{Sent}
use freya.Party.Seats.{seats, seated, seats_same}
use freya.Party.Groups.{IsGrouped, same_groups}
use freya.Party.Forming.{form_group}
use freya.Party.Joining.{Meets, make_party-Joined}
use freya.Party.Leaving.{Keeps, keeps}

abbrev index_or : ℕ → Option PartyMember → ℕ
index_or u none = u
index_or u (some m) = m.user_idx

-- A member stands for its own session, whose character is there.
member_of-session :
    (c u : ℕ) (p : Player) (m : PartyMember)
    → member_of c u p ≡ some m
    → (m.user_idx ≡ u) × (is_some p.char ≡ true)
unfolding member_of
member_of-session c u p m e = elim (Option-cases p.char) [
  | inl none_there ↦
      let refused : member_of c u p ≡ none = rw (none_there, member_of) refl in cc (e, refused)
  | inr (x, there) ↦
      let index : index_or u (member_of c u p) ≡ u = rw (there, member_of) refl in
      (sym (ap (index_or u) e) ∙ index, ap is_some there)
]

one_status : (s : InviteStatus) → is_outgoing s ≡ true → is_incoming s ≡ true → true ≡ false
one_status incoming e k = sym e
one_status outgoing e k = sym k
one_status invite_none e k = sym k

-- Nobody answers an own invitation.
pub apart :
    (ps : Players) (u v : ℕ) (target inviter : Player)
    → lookup u ps ≡ some target
    → lookup v ps ≡ some inviter
    → is_outgoing inviter.invite.status ≡ true
    → is_incoming target.invite.status ≡ true
    → (v == u) ≡ false
apart ps u v target inviter e e' out come = elim (Bool-cases (v == u)) [
  | inr other ↦ other
  | inl same ↦
      let eq : v ≡ u = ground (arith, same) in
      let one = same_player (subst (λ k. lookup k ps ≡ some inviter) eq e') e in
      cc (
        one_status target.invite.status
          (subst (λ (p : Player). is_outgoing p.invite.status ≡ true) one out) come)
]
  where
    same_player : {o : Option Player} {p q : Player} → o ≡ some p → o ≡ some q → p ≡ q
    same_player e e' = cc (e, e')

-- Invitations can be dropped from two sessions.
seats-put_both :
    (ps : Players) (u v : ℕ) (p q : Player)
    → lookup u ps ≡ some p
    → lookup v ps ≡ some q
    → (v == u) ≡ false
    → (j : ℕ) → seats (put_both u (without_invite p) v (without_invite q) ps) j ≡ seats ps j
seats-put_both ps u v p q e e' other j =
    seats_same v q (without_invite q) (insert u (without_invite p) ps)
      (ground (arith, lookup-insert v u (without_invite p) ps, other, e')) refl j
    ∙ seats_same u p (without_invite p) ps e refl j

-- The two sessions of an answer, with the tests that it has passed.
record Answers (u v : ℕ) (target inviter : Player) (tm im : PartyMember) (w : World) : Type 0 where
  grouped : IsGrouped (seats w.players)
  answering : lookup u w.players ≡ some target
  inviting : lookup v w.players ≡ some inviter
  target_member : member_of w.channel_id u target ≡ some tm
  inviter_member : member_of w.channel_id v inviter ≡ some im
  different : (v == u) ≡ false

both-Meets :
    (u v : ℕ) (target inviter : Player) (tm im : PartyMember) (w : World)
    → Answers u v target inviter tm im w
    → Meets (seats w.players) im tm inviter.party target.party
unfolding seats
both-Meets u v target inviter tm im w a =
    let (is_u, has_u) = member_of-session w.channel_id u target tm a.target_member in
    let (is_v, has_v) = member_of-session w.channel_id v inviter im a.inviter_member in
    record {
      grouped = a.grouped;
      inviting =
          subst (λ k. seats w.players k ≡ some (inviter.party, true)) (sym is_v)
            (ap seated a.inviting ∙ ap (λ b. some (inviter.party, b)) has_v);
      invited =
          subst (λ k. seats w.players k ≡ some (target.party, true)) (sym is_u)
            (ap seated a.answering ∙ ap (λ b. some (target.party, b)) has_u);
      apart = ground (arith, is_u, is_v, a.different);
    }

accept_invite-Keeps :
    (u v : ℕ) (target inviter : Player) (tm im : PartyMember) (w : World)
    → eq_ℤ (next_id w.sequence) (pos 0) ≡ false
    → Answers u v target inviter tm im w
    → Keeps (accept_invite u target tm v inviter im w)
unfolding accept_invite
accept_invite-Keeps u v target inviter tm im w fresh a =
    let same = seats-put_both w.players u v target inviter a.answering a.inviting a.different in
    let m = both-Meets u v target inviter tm im w a in
    elim (Option-cases (make_party inviter.party im target.party tm w.sequence).0) [
      | inl e ↦ rw (e, accept_invite) (keeps (same_groups (seats w.players) _ same a.grouped))
      | inr (party, e) ↦
          let j =
            make_party-Joined (seats w.players) im tm inviter.party target.party w.sequence party m
              fresh e in
          rw (e, accept_invite)
            (keeps (
              form_group (seats w.players) party _ a.grouped same j.group j.active j.leader
                j.several j.few))
    ]

decline_invite-Keeps :
    (u v : ℕ) (target inviter : Player) (tm im : PartyMember) (w : World) (sent : List Sent)
    → Answers u v target inviter tm im w
    → Keeps (
      record w {
        players = put_both u (without_invite target) v (without_invite inviter) w.players;
      },
      sent,
    )
decline_invite-Keeps u v target inviter tm im w sent a = keeps (
    same_groups (seats w.players) _
      (seats-put_both w.players u v target inviter a.answering a.inviting a.different) a.grouped)

-- `PartyInviteResult`, once its inviter is known.
pub answer_invite-Keeps :
    (u : ℕ) (id : ℤ) (accepted : Bool) (w : World)
    → eq_ℤ (next_id w.sequence) (pos 0) ≡ false
    → IsGrouped (seats w.players)
    → Keeps (answer_invite u id accepted w)
unfolding answer_invite is_invited
answer_invite-Keeps u id accepted w fresh h = elim (Option-cases (lookup u w.players)) [
  | inl e ↦ rw (e, answer_invite) (keeps h)
  | inr (target, e) ↦
      let v = target.invite.opponent_user_idx in
      let stray =
        not (is_incoming target.invite.status)
        || not (eq_ℤ target.invite.opponent_character_id id) in
      elim (Bool-cases stray) [
        | inl k ↦ rw (e, k, answer_invite) (keeps h)
        | inr k ↦ elim (Option-cases (lookup v w.players)) [
          | inl e' ↦ rw (e, k, e', answer_invite) (keeps h)
          | inr (inviter, e') ↦ elim (Option-cases (member_of w.channel_id v inviter)) [
            | inl f ↦ rw (e, k, e', f, answer_invite) (keeps h)
            | inr (im, f) ↦ elim (Option-cases (member_of w.channel_id u target)) [
              | inl f' ↦ rw (e, k, e', f, f', answer_invite) (keeps h)
              | inr (tm, f') ↦ elim (Bool-cases (is_invited v inviter im u target id)) [
                | inr wrong ↦ rw (e, k, e', f, f', wrong, answer_invite) (keeps h)
                | inl fits ↦
                    let a : Answers u v target inviter tm im w = record {
                      grouped = h;
                      answering = e;
                      inviting = e';
                      target_member = f';
                      inviter_member = f;
                      different =
                          apart w.players u v target inviter e e' (ground (arith, fits))
                            (ground (arith, fits));
                    } in
                    elim (Bool-cases accepted) [
                      | inl agreed ↦
                          rw (e, k, e', f, f', fits, agreed, answer_invite)
                            (accept_invite-Keeps u v target inviter tm im w fresh a)
                      | inr refused ↦
                          rw (e, k, e', f, f', fits, refused, answer_invite)
                            (decline_invite-Keeps u v target inviter tm im w _ a)
                    ]
              ]
            ]
          ]
        ]
      ]
]
