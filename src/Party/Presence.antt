-- ===== src/Party/Presence.antt =====
-- Sessions come, change and go: what else than the handlers of parties changes the sessions that they
-- read, and `LeaveParty` of cmd/gameserver/packet/party.go before a session goes.
use freya.Common.Maps.{lookup, insert, erase, lookup-insert, lookup-erase}
use freya.Common.{
  ℕ, ◌≡◌, refl, sym, ap, subst, ◌∙◌, ◌⊎◌, inl, inr, Bool, true, false, Option, none, some, List, [],
  ◌∷◌, contains, is_some, arith, Bool-cases, Option-cases, ◌==◌,
}
use freya.Party.Book.{
  PartyMember, PartyState, Player, World, has_party, no_party, without_party, without_member,
  member_of,
}
use freya.Party.Membership.{Players}
use freya.Party.Members.{led_by, leave_behind, leave_party}
use freya.Party.Seats.{
  Seats, Seat, seats, seat_of, seated, indices, seats-insert, seats_same, seats-apply_party,
  seats-clear_party, contains-without_member,
}
use freya.Party.Groups.{IsGrouped, IsClosed, regroup, same_groups}
use freya.Party.Forming.{reached_by_none}
use freya.Party.Leaving.{in_party-IsSound, members-led_by}

-- A session that is not there, or in no party.
abbrev pub IsFree : Seats → ℕ → Type 0
IsFree f u =
    (f u ≡ none) ⊎ ((t : PartyState) × (b : Bool) × (f u ≡ some (t, b)) × (has_party t ≡ false))

free-IsClosed : (f : Seats) (u : ℕ) → IsGrouped f → IsFree f u → IsClosed f (u ∷ [])
unfolding IsClosed IsGrouped
free-IsClosed f u h free x s b e active out v k = elim (Bool-cases (u == v)) [
  | inr other ↦ ground (arith, other)
  | inl same ↦
      let eq : v ≡ u = ground (arith, same) in
      let there : contains (indices s.members) u ≡ true =
        subst (λ j. contains (indices s.members) j ≡ true) eq k in
      elim free [
        | inl gone ↦ elim (h x s b e) [
          | inl (idle, none_there) ↦ cc (idle, active)
          | inr g ↦ cc (gone, g.shared u there)
        ]
        | inr (t, c, e', idle) ↦ cc (there, reached_by_none f u t c h e' idle x s b e active)
      ]
]

-- A free session changes to another free one, or goes.
free_change :
    (f f' : Seats) (u : ℕ)
    → IsGrouped f
    → IsFree f u
    → ((j : ℕ) → (j == u) ≡ false → f' j ≡ f j)
    → ((s : PartyState) (b : Bool) → f' u ≡ some (s, b) → (has_party s ≡ false) × (s.members ≡ []))
    → IsGrouped f'
free_change f f' u h free outside idle =
    regroup f f' (u ∷ []) h (free-IsClosed f u h free) (λ j k. outside j (ground (arith, k)))
      (λ j s b k e.
        let eq : j ≡ u = ground (arith, k) in inl (idle s b (subst (λ i. f' i ≡ some (s, b)) eq e)))

abbrev IsIdle : PartyState → Type 0
IsIdle s = (has_party s ≡ false) × (s.members ≡ [])

-- A free session that gets a context without a party.
insert-IsGrouped :
    (u : ℕ) (p : Player) (ps : Players)
    → IsGrouped (seats ps)
    → IsFree (seats ps) u
    → IsIdle p.party
    → IsGrouped (seats (insert u p ps))
unfolding seats
insert-IsGrouped u p ps h free idle =
    free_change (seats ps) (seats (insert u p ps)) u h free
      (λ j k. ground (arith, lookup-insert j u p ps, k))
      (λ s b e. subst IsIdle (same_party (at_self u p ps) e) idle)
  where
    same_party :
        {o : Option Seat} {s t : PartyState} {b c : Bool}
        → o ≡ some (s, b)
        → o ≡ some (t, c)
        → s ≡ t
    same_party e e' = cc (e, e')

    at_self :
        (u : ℕ) (p : Player) (ps : Players) → seated (lookup u (insert u p ps)) ≡ some (seat_of p)
    at_self u p ps = ground (arith, lookup-insert u u p ps)

pub join-IsGrouped :
    (u : ℕ) (p : Player) (ps : Players)
    → IsGrouped (seats ps)
    → lookup u ps ≡ none
    → (has_party p.party ≡ false) × (p.party.members ≡ [])
    → IsGrouped (seats (insert u p ps))
unfolding seats
join-IsGrouped u p ps h free idle = insert-IsGrouped u p ps h (inl (ap seated free)) idle

pub gone-IsGrouped :
    (u : ℕ) (ps : Players)
    → IsGrouped (seats ps)
    → IsFree (seats ps) u
    → IsGrouped (seats (erase u ps))
unfolding seats
gone-IsGrouped u ps h free =
    free_change (seats ps) (seats (erase u ps)) u h free
      (λ j k. ground (arith, lookup-erase j u ps, k))
      (λ s b e.
        let gone : seated (lookup u (erase u ps)) ≡ none = ground (arith, lookup-erase u u ps) in
        cc (gone, e))

-- What happens to those that remain does not touch the session that leaves.
seats-leave_behind :
    (u : ℕ) (me : PartyMember) (party : PartyState) (rest : List PartyMember) (w : World)
    → contains (indices rest) u ≡ false
    → seats (leave_behind u me party rest w).0.players u ≡ seats w.players u
unfolding leave_behind
seats-leave_behind u me party [] w away = refl
seats-leave_behind u me party (m ∷ []) w away =
    seats-clear_party m.user_idx w.players u ∙ ground (arith, away)
seats-leave_behind u me party (m ∷ n ∷ ms) w away =
    let out : contains (indices (led_by party u m (m ∷ n ∷ ms)).members) u ≡ false =
      ap (λ l. contains (indices l) u) (members-led_by party u m (m ∷ n ∷ ms)) ∙ away in
    seats-apply_party (led_by party u m (m ∷ n ∷ ms)) w.players u ∙ ground (arith, out)

no_character : (c u : ℕ) (p : Player) → member_of c u p ≡ none → is_some p.char ≡ false
unfolding member_of
no_character c u p e = elim (Option-cases p.char) [
  | inl gone ↦ ap is_some gone
  | inr (x, there) ↦
      let found : is_some (member_of c u p) ≡ true = rw (there, member_of) refl in
      cc (ap is_some e, found)
]

-- A session in a party has a character.
party_with_character :
    (u : ℕ) (p : Player) (ps : Players)
    → IsGrouped (seats ps)
    → lookup u ps ≡ some p
    → is_some p.char ≡ false
    → has_party p.party ≡ false
unfolding seats
party_with_character u p ps h e no_char = elim (Bool-cases (has_party p.party)) [
  | inr idle ↦ idle
  | inl active ↦
      let g = in_party-IsSound u p ps h e active in
      let there = same_char (ap seated e) (g.shared u g.mine) in cc (there, no_char)
]
  where
    same_char :
        {o : Option Seat} {s t : PartyState} {b c : Bool}
        → o ≡ some (s, b)
        → o ≡ some (t, c)
        → b ≡ c
    same_char e e' = cc (e, e')

-- After `LeaveParty` the session is in no party.
pub leave_party-IsFree :
    (u : ℕ) (w : World)
    → IsGrouped (seats w.players)
    → IsFree (seats (leave_party u w).1.0.players) u
unfolding leave_party seats
leave_party-IsFree u w h = elim (Option-cases (lookup u w.players)) [
  | inl e ↦ rw (e, leave_party) (inl (ap seated e))
  | inr (me, e) ↦
      let here = ap seated e in
      elim (Option-cases (member_of w.channel_id u me)) [
        | inl e' ↦
            rw (e, e', leave_party)
              (inr (
                _,
                _,
                here,
                party_with_character u me w.players h e (no_character w.channel_id u me e'),
              ))
        | inr (member, e') ↦ elim (Bool-cases (has_party me.party)) [
          | inr idle ↦ rw (e, e', idle, leave_party) (inr (_, _, here, idle))
          | inl active ↦
              rw (e, e', active, leave_party)
                (inr (
                  no_party,
                  is_some me.char,
                  seats-leave_behind u member me.party (without_member u me.party.members) _
                        (ground (arith, contains-without_member u me.party.members u))
                      ∙ seats-insert u (without_party me) w.players u
                      ∙ ground arith,
                  refl,
                ))
        ]
      ]
]

-- A session keeps its party; its character may come.
pub change-IsGrouped :
    (u : ℕ) (p p' : Player) (ps : Players)
    → IsGrouped (seats ps)
    → lookup u ps ≡ some p
    → p'.party ≡ p.party
    → (is_some p.char ≡ true → is_some p'.char ≡ true)
    → IsGrouped (seats (insert u p' ps))
unfolding IsGrouped seats
change-IsGrouped u p p' ps h e same char =
    let there : seats ps u ≡ some (p.party, is_some p.char) = ap seated e in
    elim (Bool-cases (is_some p.char)) [
      | inl has ↦
          same_groups (seats ps) _
            (seats_same u p p' ps e (
              ap (λ s. (s, is_some p.char)) (sym same)
              ∙ ap (λ b. (p'.party, b)) (has ∙ sym (char has))))
            h
      | inr lacks ↦
          let idle = party_with_character u p ps h e lacks in
          insert-IsGrouped u p' ps h (inr (p.party, is_some p.char, there, idle))
            (elim (h u p.party _ there) [
              | inl nowhere ↦ subst IsIdle (sym same) nowhere
              | inr g ↦ cc (idle, g.active)
            ])
    ]
