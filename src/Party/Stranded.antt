-- ===== src/Party/Stranded.antt =====
-- An invitation that `applyPartyState` of cmd/gameserver/packet/party.go takes from one side only.
use freya.Common.Signed.{ℤ, eq_ℤ}
use freya.Common.Maps.{lookup}
use freya.Common.{
  is_some, if◌then◌else◌, none, ℕ, ◌≡◌, refl, sym, ap, subst, ◌∙◌, inl, inr, Bool, true, false, not,
  ◌||◌, some, [], ◌∷◌, contains, arith, Option-cases, Bool-cases,
}
use freya.Party.Book.{
  PartyState, Player, World, incoming, is_incoming, is_no_invite, member_of, no_invite,
}
use freya.Party.Membership.{apply_party, in_party}
use freya.Party.Messages.{invite_answer, answer_failed, invite_busy}
use freya.Party.Invitations.{answer_invite, is_invited, refused_invite}
use freya.Party.Seats.{indices, lookup-apply_party}

-- The answer to an inviter that has no invitation fails, whatever it is.
unanswerable :
    (x v : ℕ) (q p : Player) (id : ℤ) (accepted : Bool) (w : World)
    → lookup x w.players ≡ some q
    → q.invite.opponent_user_idx ≡ v
    → lookup v w.players ≡ some p
    → p.invite ≡ no_invite
    → answer_invite x id accepted w ≡ (w, (x, invite_answer answer_failed) ∷ [])
unfolding answer_invite is_invited
unanswerable x v q p id accepted w e at_v e' free =
    let stray = not (is_incoming q.invite.status) || not (eq_ℤ q.invite.opponent_character_id id) in
    let there : lookup q.invite.opponent_user_idx w.players ≡ some p =
      subst (λ k. lookup k w.players ≡ some p) (sym at_v) e' in
    elim (Bool-cases stray) [
      | inl k ↦ rw (e, k, answer_invite) refl
      | inr k ↦ elim (Option-cases (member_of w.channel_id q.invite.opponent_user_idx p)) [
        | inl f ↦ rw (e, k, there, f, answer_invite) refl
        | inr (im, f) ↦ elim (Option-cases (member_of w.channel_id x q)) [
          | inl f' ↦ rw (e, k, there, f, f', answer_invite) refl
          | inr (tm, f') ↦ rw (e, k, there, f, f', free, answer_invite) refl
        ]
      ]
    ]

-- So does the answer to an inviter without a character.
unanswerable_missing :
    (x v : ℕ) (q p : Player) (id : ℤ) (accepted : Bool) (w : World)
    → lookup x w.players ≡ some q
    → q.invite.opponent_user_idx ≡ v
    → lookup v w.players ≡ some p
    → p.char ≡ none
    → answer_invite x id accepted w ≡ (w, (x, invite_answer answer_failed) ∷ [])
unfolding answer_invite is_invited member_of
unanswerable_missing x v q p id accepted w e at_v e' missing =
    let stray = not (is_incoming q.invite.status) || not (eq_ℤ q.invite.opponent_character_id id) in
    let there : lookup q.invite.opponent_user_idx w.players ≡ some p =
      subst (λ k. lookup k w.players ≡ some p) (sym at_v) e' in
    elim (Bool-cases stray) [
      | inl k ↦ rw (e, k, answer_invite) refl
      | inr k ↦ rw (e, k, there, missing, answer_invite, member_of) refl
    ]

-- When `applyPartyState` gives a party to the inviter of a session that is not in it, that session stays
-- invited: its answers fail and change nothing, and every new invitation is refused as busy.
pub stranded :
    (s : PartyState) (w w' : World) (v x : ℕ) (p q sender : Player) (id : ℤ) (accepted : Bool)
    → w' ≡ record w { players = (apply_party s w.players).0 }
    → contains (indices s.members) v ≡ true
    → lookup v w.players ≡ some p
    → contains (indices s.members) x ≡ false
    → lookup x w.players ≡ some q
    → q.invite.status ≡ incoming
    → q.invite.opponent_user_idx ≡ v
    → (lookup x w'.players ≡ some q)
      × (answer_invite x id accepted w' ≡ (w', (x, invite_answer answer_failed) ∷ []))
      × (refused_invite sender q ≡ some invite_busy)
unfolding refused_invite
stranded s w w' v x p q sender id accepted made isin e out e' come at_v =
    let stays : lookup x w'.players ≡ some q =
      ap (λ (u : World). lookup x u.players) made
      ∙ lookup-apply_party s w.players x
      ∙ ground (arith, out, e') in
    let cleared : lookup v w'.players ≡ some (if is_some p.char then in_party s p else p) =
      ap (λ (u : World). lookup v u.players) made
      ∙ lookup-apply_party s w.players v
      ∙ ground (arith, isin, e) in
    (
      stays,
      elim (Option-cases p.char) [
        | inl missing ↦
            unanswerable_missing x v q p id accepted w' stays at_v
              (ground (arith, cleared, missing)) missing
        | inr (c, present) ↦
            unanswerable x v q (in_party s p) id accepted w' stays at_v
              (ground (arith, cleared, present)) refl
      ],
      elim (Bool-cases (is_no_invite sender.invite.status)) [
        | inl idle ↦ rw (idle, come, refused_invite) refl
        | inr taken ↦ rw (taken, refused_invite) refl
      ],
    )
