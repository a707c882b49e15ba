-- ===== src/Party/Listed.antt =====
-- What the search for parties lists: `collectPartySearchEntries` of cmd/gameserver/packet/party.go.
use freya.Common.Maps.{lookup}
use freya.Common.{
  subst, ℕ, ◌≤◌, ◌≡◌, refl, sym, ap, ◌∙◌, ◌⊎◌, inl, inr, true, false, not, ◌&&◌, ◌||◌, Option, none,
  some, length, arith, ◌==◌, ◌%◌, ◌^◌, if◌then◌else◌, Option-cases, Bool-cases,
}
use freya.Party.Book.{Player, has_party}
use freya.Party.Membership.{Players}
use freya.Party.Messages.{SearchEntry}
use freya.Party.Search.{member_count, search_entry}
use freya.Party.Seats.{seats, seated}
use freya.Party.Groups.{IsGrouped}

few_members :
    (u : ℕ) (p : Player) (ps : Players)
    → IsGrouped (seats ps)
    → lookup u ps ≡ some p
    → length p.party.members ≤ 7
unfolding IsGrouped seats
few_members u p ps h e = elim (h u p.party _ (ap seated e)) [
  | inl (idle, empty) ↦ subst (λ ms. length ms ≤ 7) (sym empty) (omega arith)
  | inr g ↦ g.few
]

abbrev count_of : Option SearchEntry → ℕ
count_of none = 0
count_of (some entry) = entry.current_member_count

-- A session is listed where it is registered and has a character, and is in no party or leads it; the
-- listed number of members is the true one, from 1 to 7.
pub search_entry_lists :
    (c u : ℕ) (p : Player) (ps : Players) (entry : SearchEntry)
    → IsGrouped (seats ps)
    → lookup u ps ≡ some p
    → search_entry c u p ≡ some entry
    → (p.search.registered ≡ true)
      × ((has_party p.party ≡ false) ⊎ (p.party.leader_user_idx ≡ u))
      × (entry.current_member_count ≡ member_count p)
      × (1 ≤ entry.current_member_count)
      × (entry.current_member_count ≤ 7)
unfolding search_entry
search_entry_lists c u p ps entry h e found = elim (Option-cases p.char) [
  | inl gone ↦
      let unlisted : search_entry c u p ≡ none = rw (gone, search_entry) refl in
      cc (unlisted, found)
  | inr (ch, there) ↦
      let hidden =
        not p.search.registered || (has_party p.party && not (p.party.leader_user_idx == u)) in
      elim (Bool-cases hidden) [
        | inl out ↦
            let unlisted : search_entry c u p ≡ none = rw (there, out, search_entry) refl in
            cc (unlisted, found)
        | inr listed ↦
            let few = few_members u p ps h e in
            let counted : count_of (search_entry c u p) ≡ (
                if length p.party.members % 2 ^ 8 == 0 then 1 else length p.party.members % 2 ^ 8) =
              rw (there, listed, search_entry) refl in
            let count = sym (ap count_of found) ∙ counted in
            (
              ground (arith, listed),
              (elim (Bool-cases (has_party p.party)) [
                | inr idle ↦ inl idle
                | inl active ↦ inr (ground (arith, listed, active))
              ]),
              ground (arith, count, few),
              ground (arith, count, few),
              ground (arith, count, few),
            )
      ]
]
