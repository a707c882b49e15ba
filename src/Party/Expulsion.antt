-- ===== src/Party/Expulsion.antt =====
-- A member that goes, or is sent away, leaves consistent parties behind (`LeaveParty` and
-- `PartyKickout` of cmd/gameserver/packet/party.go).
use freya.Common.{
  ℕ, ◌≤◌, ◌≡◌, refl, sym, ap, subst, ◌∙◌, inl, inr, Bool, true, false, not, ◌&&◌, Option, none,
  some, List, [], ◌∷◌, length, contains, AreDistinct, arith, ◌==◌, if◌then◌else◌, Bool-cases,
}
use freya.Party.Book.{PartyMember, PartyState, has_party, no_party, without_member}
use freya.Party.Seats.{Seats, Seat, indices, moved, contains-without_member, length-without_member}
use freya.Party.Groups.{IsSound, IsGrouped, regroup, members-IsClosed}

distinct-without :
    (i : ℕ) (ms : List PartyMember)
    → AreDistinct (indices ms)
    → AreDistinct (indices (without_member i ms))
unfolding without_member
distinct-without i [] h = tt
distinct-without i (m ∷ ms) (new, h) = elim (Bool-cases (m.user_idx == i)) [
  | inl gone ↦ rw (gone, without_member) (distinct-without i ms h)
  | inr stays ↦
      rw (stays, without_member)
        (ground (arith, contains-without_member i ms m.user_idx, new), distinct-without i ms h)
]

-- The party after the one session has lost it.
abbrev pub Dropped : Seats → ℕ → Seats → Type 0
Dropped f i f1 = (j : ℕ) → f1 j ≡ (if j == i then moved no_party (f j) else f j)

moved_to :
    (o : Option Seat) (s x t : PartyState) (b : Bool)
    → o ≡ some (s, true)
    → moved x o ≡ some (t, b)
    → x ≡ t
moved_to none s x t b had e = cc had
moved_to (some (s', true)) s x t b had e = cc e
moved_to (some (s', false)) s x t b had e = cc had

-- A session outside the group is not the one that goes.
not_it :
    (group : List ℕ) (i j : ℕ)
    → contains group i ≡ true
    → contains group j ≡ false
    → (j == i) ≡ false
not_it group i j m k = elim (Bool-cases (j == i)) [
  | inr other ↦ other
  | inl same ↦
      let eq : i ≡ j = ground (arith, same) in cc (k, subst (λ o. contains group o ≡ true) eq m)
]

-- Where nobody remains together, all that remain lose the party too.
pub disband :
    (f f1 f' : Seats) (u i : ℕ) (s : PartyState)
    → IsGrouped f
    → IsSound f u s
    → contains (indices s.members) i ≡ true
    → Dropped f i f1
    → ((j : ℕ)
        → f' j ≡ (
            if contains (indices (without_member i s.members)) j
            then moved no_party (f1 j)
            else f1 j))
    → IsGrouped f'
disband f f1 f' u i s h g m d step =
    regroup f f' (indices s.members) h (members-IsClosed f u s h g)
      (λ j k. ground (
        arith,
        step j,
        d j,
        contains-without_member i s.members j,
        k,
        not_it (indices s.members) i j m k,
      ))
      (λ j t b k e.
        let had = g.shared j k in
        let lost : moved no_party (f j) ≡ some (t, b) = elim (Bool-cases (j == i)) [
          | inl same ↦
              ground (arith, step j, d j, contains-without_member i s.members j, same, had, e)
          | inr other ↦
              ground (arith, step j, d j, contains-without_member i s.members j, k, other, had, e)
        ] in
        inl (
          subst (λ o. (has_party o ≡ false) × (o.members ≡ []))
            (moved_to (f j) s no_party t b had lost) (refl, refl)))

-- Where two or more remain, they keep the party without the one.
pub carry_on :
    (f f1 f' : Seats) (u i : ℕ) (s s' : PartyState)
    → IsGrouped f
    → IsSound f u s
    → contains (indices s.members) i ≡ true
    → Dropped f i f1
    → s'.members ≡ without_member i s.members
    → has_party s' ≡ true
    → contains (indices s'.members) s'.leader_user_idx ≡ true
    → 2 ≤ length s'.members
    → ((j : ℕ) → f' j ≡ (if contains (indices s'.members) j then moved s' (f1 j) else f1 j))
    → IsGrouped f'
carry_on f f1 f' u i s s' h g m d rest active leader several step =
    let kept : (j : ℕ)
        → contains (indices s'.members) j ≡ (contains (indices s.members) j && not (j == i)) =
      λ j. ap (λ ms. contains (indices ms) j) rest ∙ contains-without_member i s.members j in
    let given : (v : ℕ) → contains (indices s'.members) v ≡ true → f' v ≡ some (s', true) = λ v k.
      let was : f v ≡ some (s, true) = g.shared v (ground (arith, kept v, k)) in
      ground (arith, step v, k, d v, kept v, was) in
    regroup f f' (indices s.members) h (members-IsClosed f u s h g)
      (λ j k. ground (arith, step j, d j, kept j, k, not_it (indices s.members) i j m k))
      (λ j t b k e. elim (Bool-cases (j == i)) [
        | inl same ↦ inl (
            subst (λ o. (has_party o ≡ false) × (o.members ≡ []))
              (moved_to (f j) s no_party t b (g.shared j k)
                (ground (arith, step j, d j, kept j, same, e)))
              (refl, refl))
        | inr other ↦
            let stays : contains (indices s'.members) j ≡ true = ground (arith, kept j, k, other) in
            inr (
              subst (IsSound f' j)
                (moved_to (some (s', true)) s' s' t b refl (sym (given j stays) ∙ e))
                record {
                  active = active;
                  mine = stays;
                  shared = given;
                  leader = leader;
                  distinct =
                      subst (λ ms. AreDistinct (indices ms)) (sym rest)
                        (distinct-without i s.members g.distinct);
                  several = several;
                  few =
                      subst (λ ms. length ms ≤ 7) (sym rest)
                        (omega (arith, length-without_member i s.members, g.few));
                })
      ])
