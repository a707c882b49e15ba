-- ===== src/Party/Forming.antt =====
-- The sessions that `applyPartyState` of cmd/gameserver/packet/party.go puts in one party.
use freya.Common.{
  ℕ, suc, ◌≤◌, ◌≡◌, refl, sym, ap, subst, ◌∙◌, inl, inr, Bool, true, false, ◌||◌, Option, some,
  List, [], ◌∷◌, ◌++◌, length, contains, AreDistinct, arith, ◌==◌, Bool-cases,
}
use freya.Party.Book.{PartyMember, PartyState, has_party}
use freya.Party.Membership.{Players, apply_party}
use freya.Party.Seats.{Seats, Seat, seats, indices, seats-apply_party}
use freya.Party.Groups.{IsSound, IsGrouped, IsClosed, members-IsClosed, form_party}

-- Members that may have one party: no other party reaches them, and each is there with a character.
pub record IsGroup (f : Seats) (ms : List PartyMember) : Type 0 where
  pub closed : IsClosed f (indices ms)
  pub there : (j : ℕ) → contains (indices ms) j ≡ true → (t : PartyState) × (f j ≡ some (t, true))
  pub distinct : AreDistinct (indices ms)

impossible : {A : Type 0} → false ≡ true → A
impossible e = cc e

pub no_members : (f : Seats) → IsGroup f []
unfolding IsClosed
no_members f = record {
  closed = λ u s b e a k v m. refl;
  there = λ j k. impossible k;
  distinct = tt;
}

pub members-IsGroup :
    (f : Seats) (u : ℕ) (s : PartyState) → IsGrouped f → IsSound f u s → IsGroup f s.members
members-IsGroup f u s h g = record {
  closed = members-IsClosed f u s h g;
  there = λ j k. (s, g.shared j k);
  distinct = g.distinct;
}

pub contains-grown :
    (ms : List PartyMember) (x : PartyMember) (j : ℕ)
    → contains (indices (ms ++ (x ∷ []))) j ≡ (contains (indices ms) j || x.user_idx == j)
contains-grown [] x j = ground arith
contains-grown (m ∷ ms) x j = ground (arith, contains-grown ms x j)

pub length-grown :
    (ms : List PartyMember) (x : PartyMember) → length (ms ++ (x ∷ [])) ≡ suc (length ms)
length-grown [] x = refl
length-grown (m ∷ ms) x = ap suc (length-grown ms x)

distinct-grown :
    (ms : List PartyMember) (x : PartyMember)
    → AreDistinct (indices ms)
    → contains (indices ms) x.user_idx ≡ false
    → AreDistinct (indices (ms ++ (x ∷ [])))
distinct-grown [] x h new = (refl, tt)
distinct-grown (m ∷ ms) x (h, k) new = (
  ground (arith, contains-grown ms x m.user_idx, h, new),
  distinct-grown ms x k (ground (arith, new)),
)

-- No party reaches a session that has none.
pub reached_by_none :
    (f : Seats) (v : ℕ) (t : PartyState) (b : Bool)
    → IsGrouped f
    → f v ≡ some (t, b)
    → has_party t ≡ false
    → (u : ℕ) (s : PartyState) (c : Bool) → f u ≡ some (s, c)
    → has_party s ≡ true
    → contains (indices s.members) v ≡ false
unfolding IsGrouped
reached_by_none f v t b h e idle u s c e' active =
    elim (Bool-cases (contains (indices s.members) v)) [
      | inr away ↦ away
      | inl isin ↦ elim (h u s c e') [
        | inl (idle', none_there) ↦ cc (idle', active)
        | inr g ↦
            let same : t ≡ s = same_party e (g.shared v isin) in
            cc (idle, subst (λ o. has_party o ≡ true) (sym same) active)
      ]
    ]
  where
    same_party :
        {o : Option Seat} {s t : PartyState} {b c : Bool}
        → o ≡ some (s, b)
        → o ≡ some (t, c)
        → s ≡ t
    same_party e e' = cc (e, e')

pub more :
    (f : Seats) (ms : List PartyMember) (x : PartyMember) (t : PartyState)
    → IsGrouped f
    → IsGroup f ms
    → f x.user_idx ≡ some (t, true)
    → has_party t ≡ false
    → contains (indices ms) x.user_idx ≡ false
    → IsGroup f (ms ++ (x ∷ []))
unfolding IsClosed
more f ms x t h g e idle new = record {
  closed = λ u s b e' active out v k.
      let far = g.closed u s b e' active (ground (arith, out, contains-grown ms x u)) v k in
      let single = reached_by_none f x.user_idx t true h e idle u s b e' active in
      elim (Bool-cases (x.user_idx == v)) [
        | inr other ↦ ground (arith, contains-grown ms x v, far, other)
        | inl same ↦
            let eq : x.user_idx ≡ v = ground (arith, same) in
            cc (k, subst (λ o. contains (indices s.members) o ≡ false) eq single)
      ];
  there = λ j k. elim (Bool-cases (x.user_idx == j)) [
    | inr other ↦ g.there j (ground (arith, contains-grown ms x j, k, other))
    | inl same ↦
        let eq : x.user_idx ≡ j = ground (arith, same) in
        (t, subst (λ o. f o ≡ some (t, true)) eq e)
  ];
  distinct = distinct-grown ms x g.distinct new;
}

-- A party of a group, given to its members, whatever else changes outside the seats.
pub form_group :
    (f : Seats) (s : PartyState) (ps : Players)
    → IsGrouped f
    → ((j : ℕ) → seats ps j ≡ f j)
    → IsGroup f s.members
    → has_party s ≡ true
    → contains (indices s.members) s.leader_user_idx ≡ true
    → 2 ≤ length s.members
    → length s.members ≤ 7
    → IsGrouped (seats (apply_party s ps).0)
form_group f s ps h same g active leader several few =
    form_party f (seats (apply_party s ps).0) s h g.closed active leader g.distinct several few
      g.there (λ j. seats-apply_party s ps j ∙ ground (arith, same j))
