-- ===== src/Party/Seats.antt =====
-- The view of a party game that its consistency needs: which party each session is in. The effect of
-- `applyPartyState` and `clearPartyState` of cmd/gameserver/packet/party.go on it.
use freya.Common.Maps.{lookup, insert, lookup-insert}
use freya.Common.{
  ℕ, ◌≤◌, ◌≡◌, refl, sym, ap, ◌∙◌, subst, inl, inr, Bool, true, false, not, ◌&&◌, Option, none,
  some, List, [], ◌∷◌, map, length, contains, is_some, arith, ◌==◌, if◌then◌else◌, Option-cases,
  Bool-cases,
}
use freya.Party.Book.{PartyMember, PartyState, Player, no_party, without_party, without_member}
use freya.Party.Membership.{
  Players, in_party, parsed, apply_one, apply_loop, apply_party, clear_party,
}

-- The party of a session, and whether it has a character.
abbrev pub Seat : Type 0
Seat = PartyState × Bool

abbrev pub seat_of : Player → Seat
seat_of p = (p.party, is_some p.char)

abbrev pub Seats : Type 0
Seats = ℕ → Option Seat

abbrev pub seated : Option Player → Option Seat
seated none = none
seated (some p) = some (seat_of p)

unfoldable pub seats : Players → Seats
seats ps j = seated (lookup j ps)

abbrev pub moved : PartyState → Option Seat → Option Seat
moved state none = none
moved state (some s) = some (if s.1 then state else s.0, s.1)

abbrev pub indices : List PartyMember → List ℕ
indices = map (λ m. m.user_idx)

pub seats-insert :
    (u : ℕ) (p : Player) (ps : Players) (j : ℕ)
    → seats (insert u p ps) j ≡ (if j == u then some (seat_of p) else seats ps j)
unfolding seats
seats-insert u p ps j = ground (arith, lookup-insert j u p ps)

pub seats_same :
    (u : ℕ) (p p' : Player) (ps : Players)
    → lookup u ps ≡ some p
    → seat_of p ≡ seat_of p'
    → (j : ℕ) → seats (insert u p' ps) j ≡ seats ps j
unfolding seats
seats_same u p p' ps e same j = elim (Bool-cases (j == u)) [
  | inl is_u ↦
      let eq : u ≡ j = ground (arith, is_u) in
      subst (λ k. seats (insert u p' ps) k ≡ seats ps k) eq
        (ground (arith, lookup-insert u u p' ps) ∙ ap some (sym same) ∙ sym (ap seated e))
  | inr other ↦ ground (arith, lookup-insert j u p' ps, other)
]

pub seats-clear_party :
    (u : ℕ) (ps : Players) (j : ℕ)
    → seats (clear_party u ps) j ≡ (if j == u then moved no_party (seats ps j) else seats ps j)
unfolding clear_party parsed seats
seats-clear_party u ps j = elim (Option-cases (lookup u ps)) [
  | inl e ↦ ground (arith, e)
  | inr (p, e) ↦ elim (Option-cases p.char) [
    | inl k ↦ elim (Bool-cases (j == u)) [
      | inl same ↦
          let eq : u ≡ j = ground (arith, same) in
          let there : lookup j ps ≡ some p = subst (λ k. lookup k ps ≡ some p) eq e in
          ground (arith, e, k, there, same)
      | inr other ↦ ground (arith, e, k, other)
    ]
    | inr (c, k) ↦ ground (arith, e, k, lookup-insert j u (without_party p) ps)
  ]
]

-- A session that is there with a character gets the party.
abbrev pub joined : PartyState → Option Player → Option Player
joined state none = none
joined state (some p) = some (if is_some p.char then in_party state p else p)

lookup-apply_one :
    (state : PartyState) (u : ℕ) (ps : Players) (j : ℕ)
    → lookup j (apply_one state u ps).0
      ≡ (if j == u then joined state (lookup j ps) else lookup j ps)
unfolding apply_one parsed
lookup-apply_one state u ps j = elim (Option-cases (lookup u ps)) [
  | inl e ↦ elim (Bool-cases (j == u)) [
    | inl same ↦
        let eq : u ≡ j = ground (arith, same) in
        let gone : lookup j ps ≡ none = subst (λ k. lookup k ps ≡ none) eq e in
        ground (arith, e, gone)
    | inr other ↦ ground (arith, e, other)
  ]
  | inr (p, e) ↦ elim (Option-cases p.char) [
    | inl k ↦ elim (Bool-cases (j == u)) [
      | inl same ↦
          let eq : u ≡ j = ground (arith, same) in
          let there : lookup j ps ≡ some p = subst (λ k. lookup k ps ≡ some p) eq e in
          ground (arith, e, k, there, same)
      | inr other ↦ ground (arith, e, k, other)
    ]
    | inr (c, k) ↦ elim (Bool-cases (j == u)) [
      | inl same ↦
          let eq : u ≡ j = ground (arith, same) in
          let there : lookup j ps ≡ some p = subst (λ k. lookup k ps ≡ some p) eq e in
          ground (arith, e, k, there, same, lookup-insert j u (in_party state p) ps)
      | inr other ↦ ground (arith, e, k, other, lookup-insert j u (in_party state p) ps)
    ]
  ]
]

contains_at :
    (seen : List ℕ) (i j : ℕ) → contains seen i ≡ true → (i == j) ≡ true → contains seen j ≡ true
contains_at seen i j h e =
    let same : i ≡ j = ground (arith, e) in subst (λ k. contains seen k ≡ true) same h

contains_new :
    (seen : List ℕ) (i j : ℕ) → contains seen i ≡ false → (i == j) ≡ true → contains seen j ≡ false
contains_new seen i j h e =
    let same : i ≡ j = ground (arith, e) in subst (λ k. contains seen k ≡ false) same h

lookup-apply_loop :
    (state : PartyState) (ms : List PartyMember) (seen : List ℕ) (ps : Players) (j : ℕ)
    → lookup j (apply_loop state ms seen ps).0 ≡ (
        if contains (indices ms) j && not (contains seen j)
        then joined state (lookup j ps)
        else lookup j ps)
unfolding apply_loop
lookup-apply_loop state [] seen ps j = refl
lookup-apply_loop state (m ∷ ms) seen ps j = elim (Bool-cases (contains seen m.user_idx)) [
  | inl old ↦
      rw (old, apply_loop)
        (lookup-apply_loop state ms (m.user_idx ∷ seen) ps j ∙ elim (Bool-cases (m.user_idx == j)) [
          | inl same ↦ ground (arith, old, same, contains_at seen m.user_idx j old same)
          | inr other ↦ ground (arith, other)
        ])
  | inr fresh ↦
      let ps' = (apply_one state m.user_idx ps).0 in
      rw (fresh, apply_loop)
        (lookup-apply_loop state ms (m.user_idx ∷ seen) ps' j
          ∙ elim (Bool-cases (m.user_idx == j)) [
            | inl same ↦ ground (
              arith,
              fresh,
              same,
              contains_new seen m.user_idx j fresh same,
              lookup-apply_one state m.user_idx ps j,
            )
            | inr other ↦ ground (arith, other, lookup-apply_one state m.user_idx ps j)
          ])
]

pub lookup-apply_party :
    (state : PartyState) (ps : Players) (j : ℕ)
    → lookup j (apply_party state ps).0
      ≡ (if contains (indices state.members) j then joined state (lookup j ps) else lookup j ps)
unfolding apply_party
lookup-apply_party state ps j = lookup-apply_loop state state.members [] ps j ∙ ground arith

pub seats-apply_party :
    (state : PartyState) (ps : Players) (j : ℕ)
    → seats (apply_party state ps).0 j
      ≡ (if contains (indices state.members) j then moved state (seats ps j) else seats ps j)
unfolding seats
seats-apply_party state ps j = ap seated (lookup-apply_party state ps j) ∙ ground arith

pub contains-without_member :
    (u : ℕ) (ms : List PartyMember) (j : ℕ)
    → contains (indices (without_member u ms)) j ≡ (contains (indices ms) j && not (j == u))
unfolding without_member
contains-without_member u [] j = refl
contains-without_member u (m ∷ ms) j = ground (arith, contains-without_member u ms j)

pub length-without_member :
    (u : ℕ) (ms : List PartyMember) → length (without_member u ms) ≤ length ms
unfolding without_member
length-without_member u [] = omega arith
length-without_member u (m ∷ ms) = ground (arith, length-without_member u ms)
