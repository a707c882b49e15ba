-- ===== src/Party/Groups.antt =====
-- Parties are consistent: every member of a party has the same copy of it.
use freya.Common.{
  ℕ, ◌≤◌, ◌≡◌, refl, sym, subst, ◌∙◌, ◌⊎◌, inl, inr, Bool, true, false, Option, some, List, [],
  length, contains, AreDistinct, arith, if◌then◌else◌, Bool-cases,
}
use freya.Party.Book.{PartyState, has_party}
use freya.Party.Seats.{Seats, Seat, indices, moved}

-- The party `s` of the session `u`: `u` and the leader are among the members, of which there are two to
-- seven, no two with one session; and each is there with a character, and has the same party.
pub record IsSound (f : Seats) (u : ℕ) (s : PartyState) : Type 0 where
  pub active : has_party s ≡ true
  pub mine : contains (indices s.members) u ≡ true
  pub shared : (v : ℕ) → contains (indices s.members) v ≡ true → f v ≡ some (s, true)
  pub leader : contains (indices s.members) s.leader_user_idx ≡ true
  pub distinct : AreDistinct (indices s.members)
  pub several : 2 ≤ length s.members
  pub few : length s.members ≤ 7

-- A session is in no party, or in a sound one.
abbrev pub Fits : Seats → ℕ → PartyState → Type 0
Fits f u s = ((has_party s ≡ false) × (s.members ≡ [])) ⊎ IsSound f u s

unfoldable pub IsGrouped : Seats → Type 0
IsGrouped f = (u : ℕ) (s : PartyState) (b : Bool) → f u ≡ some (s, b) → Fits f u s

-- Parties of sessions outside the group have all their members outside.
unfoldable pub IsClosed : Seats → List ℕ → Type 0
IsClosed f group =
    (u : ℕ) (s : PartyState) (b : Bool)
    → f u ≡ some (s, b)
    → has_party s ≡ true
    → contains group u ≡ false
    → (v : ℕ) → contains (indices s.members) v ≡ true
    → contains group v ≡ false

-- A change within a group that leaves every session of it in order.
pub regroup :
    (f f' : Seats) (group : List ℕ)
    → IsGrouped f
    → IsClosed f group
    → ((j : ℕ) → contains group j ≡ false → f' j ≡ f j)
    → ((j : ℕ) (s : PartyState) (b : Bool)
        → contains group j ≡ true
        → f' j ≡ some (s, b)
        → Fits f' j s)
    → IsGrouped f'
unfolding IsGrouped IsClosed
regroup f f' group h closed outside inside u s b e = elim (Bool-cases (contains group u)) [
  | inl isin ↦ inside u s b isin e
  | inr out ↦
      let old : f u ≡ some (s, b) = sym (outside u out) ∙ e in
      elim (h u s b old) [
        | inl free ↦ inl free
        | inr g ↦ inr record {
          active = g.active;
          mine = g.mine;
          shared = λ v k. outside v (closed u s b old g.active out v k) ∙ g.shared v k;
          leader = g.leader;
          distinct = g.distinct;
          several = g.several;
          few = g.few;
        }
      ]
]

same_seat :
    {o : Option Seat} {s t : PartyState} {b c : Bool} → o ≡ some (s, b) → o ≡ some (t, c) → s ≡ t
same_seat e e' = cc (e, e')

pub same_groups : (f f' : Seats) → ((j : ℕ) → f' j ≡ f j) → IsGrouped f → IsGrouped f'
unfolding IsClosed
same_groups f f' same h =
    regroup f f' [] h (λ u s b e a k v m. refl) (λ j k. same j) (λ j s b k. cc k)

-- The members of a sound party are a closed group.
pub members-IsClosed :
    (f : Seats) (u : ℕ) (s : PartyState)
    → IsGrouped f
    → IsSound f u s
    → IsClosed f (indices s.members)
unfolding IsGrouped IsClosed
members-IsClosed f u s h g x t b e active out v k =
    elim (Bool-cases (contains (indices s.members) v)) [
      | inr away ↦ away
      | inl both ↦ elim (h x t b e) [
        | inl (idle, none_there) ↦ cc (idle, active)
        | inr g' ↦
            let same : t ≡ s = same_seat (g'.shared v k) (g.shared v both) in
            cc (out, subst (λ o. contains (indices o.members) x ≡ true) same g'.mine)
      ]
    ]

-- A party of sessions that are there, given to all of them.
pub form_party :
    (f f' : Seats) (s : PartyState)
    → IsGrouped f
    → IsClosed f (indices s.members)
    → has_party s ≡ true
    → contains (indices s.members) s.leader_user_idx ≡ true
    → AreDistinct (indices s.members)
    → 2 ≤ length s.members
    → length s.members ≤ 7
    → ((v : ℕ) → contains (indices s.members) v ≡ true → (t : PartyState) × (f v ≡ some (t, true)))
    → ((j : ℕ) → f' j ≡ (if contains (indices s.members) j then moved s (f j) else f j))
    → IsGrouped f'
form_party f f' s h closed active leader distinct several few there step =
    let given : (v : ℕ) → contains (indices s.members) v ≡ true → f' v ≡ some (s, true) =
      λ v k. let (t, e) = there v k in ground (arith, step v, k, e) in
    regroup f f' (indices s.members) h closed (λ j k. ground (arith, step j, k))
      (λ j t b k e.
        let same : s ≡ t = same_seat (given j k) e in
        inr (
          subst (IsSound f' j) same record {
            active = active;
            mine = k;
            shared = given;
            leader = leader;
            distinct = distinct;
            several = several;
            few = few;
          }))
