-- ===== src/Party/Joining.antt =====
-- An accepted invitation keeps parties consistent: `PartyInviteResult` of
-- cmd/gameserver/packet/party.go. The other handlers of invitations change no party.
use freya.Common.Signed.{ℤ, pos, eq_ℤ}
use freya.Common.{
  ℕ, ◌≤◌, ◌≡◌, refl, sym, ap, subst, ◌∙◌, inl, inr, Bool, true, false, ◌||◌, none, some, List, [],
  ◌∷◌, ◌++◌, length, contains, arith, ◌==◌, leb, if◌then◌else◌, Bool-cases,
}
use freya.Party.Book.{PartyMember, PartyState, has_party, party_has_member, next_id}
use freya.Party.Membership.{add_members, new_party, make_party}
use freya.Party.Seats.{Seats, indices}
use freya.Party.Groups.{IsSound, IsGrouped}
use freya.Party.Forming.{
  IsGroup, reached_by_none, no_members, members-IsGroup, more, length-grown, contains-grown,
}

pub party_has_member-contains :
    (ms : List PartyMember) (u : ℕ) → party_has_member ms u ≡ contains (indices ms) u
unfolding party_has_member
party_has_member-contains [] u = refl
party_has_member-contains (m ∷ ms) u =
    ap (λ b. m.user_idx == u || b) (party_has_member-contains ms u)

-- A party with one more member.
abbrev grown : PartyState → PartyMember → PartyState
grown s x = record s { members = s.members ++ (x ∷ []) }

-- The inviter's party takes the target.
add_target :
    (s : PartyState) (inviter target : PartyMember)
    → contains (indices s.members) inviter.user_idx ≡ true
    → contains (indices s.members) target.user_idx ≡ false
    → add_members s inviter target
      ≡ (if leb 7 (length s.members) then none else some (grown s target))
unfolding add_members
add_target s inviter target isin new =
    let a : party_has_member s.members inviter.user_idx ≡ true =
      party_has_member-contains s.members inviter.user_idx ∙ isin in
    let b : party_has_member s.members target.user_idx ≡ false =
      party_has_member-contains s.members target.user_idx ∙ new in
    elim (Bool-cases (leb 7 (length s.members))) [
      | inl full ↦ rw (full, add_members) refl
      | inr room ↦ rw (a, b, room, add_members) refl
    ]

-- The target's party takes the inviter.
add_inviter :
    (s : PartyState) (inviter target : PartyMember)
    → contains (indices s.members) inviter.user_idx ≡ false
    → contains (indices s.members) target.user_idx ≡ true
    → add_members s inviter target
      ≡ (if leb 7 (length s.members) then none else some (grown s inviter))
unfolding add_members
add_inviter s inviter target new isin =
    let a : party_has_member s.members inviter.user_idx ≡ false =
      party_has_member-contains s.members inviter.user_idx ∙ new in
    let b : party_has_member (s.members ++ (inviter ∷ [])) target.user_idx ≡ true =
      party_has_member-contains (s.members ++ (inviter ∷ [])) target.user_idx
      ∙ ground (arith, contains-grown s.members inviter target.user_idx, isin) in
    elim (Bool-cases (leb 7 (length s.members))) [
      | inl full ↦ rw (full, add_members) refl
      | inr room ↦ rw (a, b, room, add_members) refl
    ]

-- A party of no members takes both.
add_two :
    (s : PartyState) (inviter target : PartyMember)
    → s.members ≡ []
    → (inviter.user_idx == target.user_idx) ≡ false
    → add_members s inviter target ≡ some (record s { members = inviter ∷ target ∷ [] })
unfolding add_members party_has_member
add_two s inviter target empty other = rw (empty, other, add_members) refl

-- Two sessions with characters, one of which invites the other.
pub record Meets (f : Seats) (inviter target : PartyMember) (ip tp : PartyState) : Type 0 where
  pub grouped : IsGrouped f
  pub inviting : f inviter.user_idx ≡ some (ip, true)
  pub invited : f target.user_idx ≡ some (tp, true)
  pub apart : (inviter.user_idx == target.user_idx) ≡ false

-- A party that its members may have.
pub record Joined (f : Seats) (s : PartyState) : Type 0 where
  pub group : IsGroup f s.members
  pub active : has_party s ≡ true
  pub leader : contains (indices s.members) s.leader_user_idx ≡ true
  pub several : 2 ≤ length s.members
  pub few : length s.members ≤ 7

active-IsSound :
    (f : Seats) (u : ℕ) (s : PartyState)
    → IsGrouped f
    → f u ≡ some (s, true)
    → has_party s ≡ true
    → IsSound f u s
unfolding IsGrouped
active-IsSound f u s h e active = elim (h u s true e) [
  | inl (idle, x) ↦ cc (idle, active)
  | inr g ↦ g
]

idle-members :
    (f : Seats) (u : ℕ) (s : PartyState)
    → IsGrouped f
    → f u ≡ some (s, true)
    → has_party s ≡ false
    → s.members ≡ []
unfolding IsGrouped
idle-members f u s h e idle = elim (h u s true e) [
  | inl (x, empty) ↦ empty
  | inr g ↦ cc (idle, g.active)
]

-- One party takes a session that has none.
join_more :
    (f : Seats) (u : ℕ) (s t : PartyState) (x : PartyMember)
    → IsGrouped f
    → IsSound f u s
    → f x.user_idx ≡ some (t, true)
    → has_party t ≡ false
    → leb 7 (length s.members) ≡ false
    → Joined f (grown s x)
join_more f u s t x h g e idle room =
    let new = reached_by_none f x.user_idx t true h e idle u s true (g.shared u g.mine) g.active in
    record {
      group = more f s.members x t h (members-IsGroup f u s h g) e idle new;
      active = g.active;
      leader = ground (arith, contains-grown s.members x s.leader_user_idx, g.leader);
      several = ground (arith, length-grown s.members x, g.several);
      few = ground (arith, length-grown s.members x, room);
    }

join_two :
    (f : Seats) (inviter target : PartyMember) (ip tp s : PartyState)
    → Meets f inviter target ip tp
    → has_party ip ≡ false
    → has_party tp ≡ false
    → has_party s ≡ true
    → s.leader_user_idx ≡ inviter.user_idx
    → s.members ≡ inviter ∷ target ∷ []
    → Joined f s
join_two f inviter target ip tp s m idle idle' active leader both =
    let one = more f [] inviter ip m.grouped (no_members f) m.inviting idle refl in
    let two =
      more f (inviter ∷ []) target tp m.grouped one m.invited idle' (ground (arith, m.apart)) in
    record {
      group = subst (IsGroup f) (sym both) two;
      active = active;
      leader =
          subst (λ ms. contains (indices ms) s.leader_user_idx ≡ true) (sym both)
            (ground (arith, leader));
      several = subst (λ ms. 2 ≤ length ms) (sym both) (omega arith);
      few = subst (λ ms. length ms ≤ 7) (sym both) (omega arith);
    }

-- What is left of `if full then none else some s`.
taken :
    {s party : PartyState} (full : Bool)
    → (if full then none else some s) ≡ some party
    → (full ≡ false) × (s ≡ party)
taken true e = cc e
taken false e = (refl, cc e)

pub make_party-Joined :
    (f : Seats) (inviter target : PartyMember) (ip tp : PartyState) (sequence : ℤ)
    (party : PartyState)
    → Meets f inviter target ip tp
    → eq_ℤ (next_id sequence) (pos 0) ≡ false
    → (make_party ip inviter tp target sequence).0 ≡ some party
    → Joined f party
unfolding make_party new_party
make_party-Joined f inviter target ip tp sequence party m fresh made =
    elim (Bool-cases (has_party ip)) [
      | inl a ↦ elim (Bool-cases (has_party tp)) [
        | inl b ↦
            let refused : (make_party ip inviter tp target sequence).0 ≡ none =
              rw (a, b, make_party) refl in
            cc (made, refused)
        | inr b ↦
            let g = active-IsSound f inviter.user_idx ip m.grouped m.inviting a in
            let new =
              reached_by_none f target.user_idx tp true m.grouped m.invited b inviter.user_idx ip
                true m.inviting a in
            let made' : (make_party ip inviter tp target sequence).0
                ≡ (if leb 7 (length ip.members) then none else some (grown ip target)) =
              rw (a, b, make_party) (add_target ip inviter target g.mine new) in
            let (room, same) = taken (leb 7 (length ip.members)) (sym made' ∙ made) in
            subst (Joined f) same
              (join_more f inviter.user_idx ip tp target m.grouped g m.invited b room)
      ]
      | inr a ↦ elim (Bool-cases (has_party tp)) [
        | inl b ↦
            let g = active-IsSound f target.user_idx tp m.grouped m.invited b in
            let new =
              reached_by_none f inviter.user_idx ip true m.grouped m.inviting a target.user_idx tp
                true m.invited b in
            let made' : (make_party ip inviter tp target sequence).0
                ≡ (if leb 7 (length tp.members) then none else some (grown tp inviter)) =
              rw (a, b, make_party) (add_inviter tp inviter target new g.mine) in
            let (room, same) = taken (leb 7 (length tp.members)) (sym made' ∙ made) in
            subst (Joined f) same
              (join_more f target.user_idx tp ip inviter m.grouped g m.inviting a room)
        | inr b ↦
            let start = new_party tp (next_id sequence) inviter in
            let empty = idle-members f target.user_idx tp m.grouped m.invited b in
            let made' : (make_party ip inviter tp target sequence).0
                ≡ some (record start { members = inviter ∷ target ∷ [] }) =
              rw (a, b, make_party) (add_two start inviter target empty m.apart) in
            let same = taken false (sym made' ∙ made) in
            subst (Joined f) same.1
              (join_two f inviter target ip tp _ m a b (ground (arith, fresh)) refl refl)
      ]
    ]
