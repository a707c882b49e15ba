-- ===== src/Party/Kicking.antt =====
-- `PartyKickout` of cmd/gameserver/packet/party.go keeps parties consistent.
use freya.Common.Maps.{lookup}
use freya.Common.{
  ℕ, ◌≡◌, refl, ap, subst, ◌∙◌, inl, inr, true, false, some, List, [], ◌∷◌, contains, arith, ◌==◌,
  Option-cases, Bool-cases,
}
use freya.Common.Signed.{ℤ, eq_ℤ}
use freya.Party.Book.{PartyMember, PartyState, World, without_member, member_by_character}
use freya.Party.Membership.{Players, clear_party}
use freya.Party.Options.{is_no_leader}
use freya.Party.Members.{kick_rest, kickout}
use freya.Party.Seats.{seats, indices, seats-clear_party, contains-without_member}
use freya.Party.Groups.{IsSound, IsGrouped}
use freya.Party.Leaving.{Keeps, keeps, in_party-IsSound, Leaves, leave_none, leave_one, leave_many}

same_member : {x m : PartyMember} → some x ≡ some m → x ≡ m
same_member e = cc e

-- The member that is found is one of the party.
pub contains-member_by_character :
    (ms : List PartyMember) (id : ℤ) (m : PartyMember)
    → member_by_character ms id ≡ some m
    → contains (indices ms) m.user_idx ≡ true
unfolding member_by_character
contains-member_by_character [] id m e = cc e
contains-member_by_character (x ∷ ms) id m e = elim (Bool-cases (eq_ℤ x.character_id id)) [
  | inl found ↦
      let same : some x ≡ some m = ground (arith, found, e) in
      subst (λ (k : PartyMember). contains (indices (x ∷ ms)) k.user_idx ≡ true) (same_member same)
        (ground arith)
  | inr other ↦ ground (arith, other, e, contains-member_by_character ms id m)
]

kicked-Leaves :
    (ps : Players) (u : ℕ) (party : PartyState) (kicked : PartyMember) (id : ℤ)
    → IsGrouped (seats ps)
    → IsSound (seats ps) u party
    → member_by_character party.members id ≡ some kicked
    → Leaves ps
        (clear_party kicked.user_idx ps)
        u
        kicked.user_idx
        party
        (without_member kicked.user_idx party.members)
kicked-Leaves ps u party kicked id h g found = record {
  before = h;
  sound = g;
  member = contains-member_by_character party.members id kicked found;
  dropped = seats-clear_party kicked.user_idx ps;
  others = refl;
}

kick_rest-Keeps :
    (ps : Players) (u i : ℕ) (party : PartyState) (rest : List PartyMember) (w : World)
    → Leaves ps w.players u i party rest
    → party.leader_user_idx ≡ u
    → (i == u) ≡ false
    → Keeps (kick_rest party rest w)
unfolding kick_rest
kick_rest-Keeps ps u i party [] w l is_leader other = keeps (leave_none ps w.players u i party l)
kick_rest-Keeps ps u i party (m ∷ []) w l is_leader other =
    keeps (leave_one ps w.players u i party m l)
kick_rest-Keeps ps u i party (m ∷ n ∷ ms) w l is_leader other = keeps (
    leave_many ps w.players u i party (record party { members = m ∷ n ∷ ms }) l l.sound.active
      (ap (λ o. contains (indices o) party.leader_user_idx) l.others
        ∙ ground (
          arith,
          contains-without_member i party.members party.leader_user_idx,
          l.sound.leader,
          is_leader,
          other,
        ))
      (omega arith))

-- `PartyKickout`, once its packet is read, leaves consistent parties.
pub kickout-Keeps :
    (u : ℕ) (id : ℤ) (w : World) → IsGrouped (seats w.players) → Keeps (kickout u id w)
unfolding kickout
kickout-Keeps u id w h = elim (Option-cases (lookup u w.players)) [
  | inl e ↦ rw (e, kickout) (keeps h)
  | inr (me, e) ↦ elim (Bool-cases (is_no_leader u me.party)) [
    | inl away ↦ rw (e, away, kickout) (keeps h)
    | inr leads ↦ elim (Option-cases (member_by_character me.party.members id)) [
      | inl e' ↦ rw (e, leads, e', kickout) (keeps h)
      | inr (kicked, e') ↦ elim (Bool-cases (kicked.user_idx == u)) [
        | inl self ↦ rw (e, leads, e', self, kickout) (keeps h)
        | inr other ↦
            let g = in_party-IsSound u me w.players h e (ground (arith, leads)) in
            rw (e, leads, e', other, kickout)
              (keeps
                (kick_rest-Keeps w.players u kicked.user_idx me.party
                  (without_member kicked.user_idx me.party.members) _
                  (kicked-Leaves w.players u me.party kicked id h g e') (ground (arith, leads))
                  other).kept)
      ]
    ]
  ]
]
