-- ===== src/Party/Leading.antt =====
-- What a leader changes of the party keeps parties consistent: `PartyLeaderChange`, `PartyAuthChange`
-- and `PartyLootingType` of cmd/gameserver/packet/party.go.
use freya.Common.Signed.{ℤ, pos, negsuc}
use freya.Common.Maps.{lookup}
use freya.Common.{
  ◌≤◌, ℕ, ◌≡◌, refl, sym, subst, inl, inr, Bool, true, ◌||◌, length, contains, arith, ◌==◌,
  Option-cases, Bool-cases,
}
use freya.Party.Book.{PartyState, World, has_party, member_by_character}
use freya.Party.Options.{
  announce, is_no_leader, is_outside, leader_change, auth_change, looting_type,
}
use freya.Party.Messages.{Message}
use freya.Party.Seats.{seats, indices}
use freya.Party.Groups.{IsSound, IsGrouped}
use freya.Party.Forming.{IsGroup, members-IsGroup, form_group}
use freya.Party.Kicking.{contains-member_by_character}
use freya.Party.Leaving.{Keeps, keeps, in_party-IsSound}

-- A changed party with the same members, one of which leads it.
announce-Keeps :
    (u : ℕ) (s s' : PartyState) (notification result : Message) (w : World)
    → IsGrouped (seats w.players)
    → IsSound (seats w.players) u s
    → s'.members ≡ s.members
    → has_party s' ≡ true
    → contains (indices s.members) s'.leader_user_idx ≡ true
    → Keeps (announce u s' notification result w)
unfolding announce
announce-Keeps u s s' notification result w h g same active leader = keeps (
    form_group (seats w.players) s' w.players h (λ j. refl)
      (subst (λ ms. IsGroup (seats w.players) ms) (sym same)
        (members-IsGroup (seats w.players) u s h g))
      active (subst (λ ms. contains (indices ms) s'.leader_user_idx ≡ true) (sym same) leader)
      (subst (λ ms. 2 ≤ length ms) (sym same) g.several)
      (subst (λ ms. length ms ≤ 7) (sym same) g.few))

pub leader_change-Keeps :
    (u : ℕ) (id : ℤ) (w : World) → IsGrouped (seats w.players) → Keeps (leader_change u id w)
unfolding leader_change
leader_change-Keeps u id w h = elim (Option-cases (lookup u w.players)) [
  | inl e ↦ rw (e, leader_change) (keeps h)
  | inr (me, e) ↦ elim (Bool-cases (is_no_leader u me.party)) [
    | inl away ↦ rw (e, away, leader_change) (keeps h)
    | inr leads ↦ elim (Option-cases (member_by_character me.party.members id)) [
      | inl e' ↦ rw (e, leads, e', leader_change) (keeps h)
      | inr (m, e') ↦ elim (Bool-cases (m.user_idx == u)) [
        | inl self ↦ rw (e, leads, e', self, leader_change) (keeps h)
        | inr other ↦
            let g = in_party-IsSound u me w.players h e (ground (arith, leads)) in
            rw (e, leads, e', other, leader_change)
              (announce-Keeps u me.party _ _ _ w h g refl g.active
                (contains-member_by_character me.party.members id m e'))
      ]
    ]
  ]
]

pub auth_change-Keeps :
    (u : ℕ) (leader_only : Bool) (w : World)
    → IsGrouped (seats w.players)
    → Keeps (auth_change u leader_only w)
unfolding auth_change
auth_change-Keeps u leader_only w h = elim (Option-cases (lookup u w.players)) [
  | inl e ↦ rw (e, auth_change) (keeps h)
  | inr (me, e) ↦ elim (Bool-cases (is_no_leader u me.party)) [
    | inl away ↦ rw (e, away, auth_change) (keeps h)
    | inr leads ↦
        let g = in_party-IsSound u me w.players h e (ground (arith, leads)) in
        rw (e, leads, auth_change) (announce-Keeps u me.party _ _ _ w h g refl g.active g.leader)
  ]
]

pub looting_type-Keeps :
    (u : ℕ) (normal owner : ℤ) (w : World)
    → IsGrouped (seats w.players)
    → Keeps (looting_type u normal owner w)
unfolding looting_type
looting_type-Keeps u (negsuc n) owner w h = keeps h
looting_type-Keeps u (pos normal) (negsuc n) w h = keeps h
looting_type-Keeps u (pos normal) (pos owner) w h =
    elim (Bool-cases (is_outside 1 3 normal || is_outside 1 2 owner)) [
      | inl odd ↦ rw (odd, looting_type) (keeps h)
      | inr fine ↦ elim (Option-cases (lookup u w.players)) [
        | inl e ↦ rw (fine, e, looting_type) (keeps h)
        | inr (me, e) ↦ elim (Bool-cases (is_no_leader u me.party)) [
          | inl away ↦ rw (fine, e, away, looting_type) (keeps h)
          | inr leads ↦
              let g = in_party-IsSound u me w.players h e (ground (arith, leads)) in
              rw (fine, e, leads, looting_type)
                (announce-Keeps u me.party _ _ _ w h g refl g.active g.leader)
        ]
      ]
    ]
