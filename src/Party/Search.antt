-- ===== src/Party/Search.antt =====
-- The search for parties: `PartySearchRegist` and `PartySearchList` of
-- cmd/gameserver/packet/party.go, once the packet is read.
use freya.Common.Maps.{lookup, insert}
use freya.Common.{
  ℕ, true, ◌&&◌, ◌||◌, not, ltb, Option, none, some, List, [], ◌∷◌, length, ◌%◌, ◌^◌, ◌==◌,
  if◌then◌else◌,
}
use freya.Party.Book.{Player, World, has_party, party_max_members}
use freya.Party.Membership.{Players}
use freya.Party.Messages.{Outcome, SearchEntry, search_list, search_regist_result}

-- `len(party.Members)`, or 1 where there are none.
abbrev pub member_count : Player → ℕ
member_count p = if length p.party.members == 0 then 1 else length p.party.members

-- The tests of `PartySearchRegist`, in their order: the result that is sent. `context.Parse` refuses a
-- session without a character.
unfoldable pub regist_result : ℕ → ℕ → Player → ℕ
regist_result u max_member_count p = elim p.char [
  | none ↦ 3
  | some c ↦
      if p.search.registered
      then 1
      else if ltb c.level 10
      then 7
      else if has_party p.party && not (p.party.leader_user_idx == u)
      then 4
      else if max_member_count == 0 || ltb party_max_members max_member_count
      then 2
      else if ltb max_member_count (member_count p)
      then 6
      else 0
]

-- `PartySearchRegist`
unfoldable pub search_regist : ℕ → ℕ → List ℕ → World → Outcome
unfolding regist_result
search_regist u max_member_count title w = elim (lookup u w.players) [
  | none ↦ (w, (u, search_regist_result 3) ∷ [])
  | some me ↦
      let result = regist_result u max_member_count me in
      let entered = record me {
        search = record { registered = true; max_member_count = max_member_count; title = title };
      } in
      if result == 0
      then (record w { players = insert u entered w.players }, (u, search_regist_result 0) ∷ [])
      else (w, (u, search_regist_result result) ∷ [])
]

-- `collectPartySearchEntries`: one round of the loop.
unfoldable pub search_entry : ℕ → ℕ → Player → Option SearchEntry
search_entry channel_id u p = elim p.char [
  | none ↦ none
  | some c ↦
      if not p.search.registered || (has_party p.party && not (p.party.leader_user_idx == u))
      then none
      else some record {
        leader_character_id = c.id;
        level = c.level;
        battle_style = c.battle_style;
        channel = channel_id;
        name = c.name;
        max_member_count = p.search.max_member_count;
        title = p.search.title;
        current_member_count = let n = length p.party.members % 2 ^ 8 in if n == 0 then 1 else n;
      }
]

unfoldable pub search_entries : ℕ → Players → List SearchEntry
unfolding search_entry
search_entries channel_id [] = []
search_entries channel_id (e ∷ ps) =
    let rest = search_entries channel_id ps in
    elim (search_entry channel_id e.0 e.1) [ none ↦ rest | some entry ↦ entry ∷ rest ]

-- `PartySearchList`
unfoldable pub list_parties : ℕ → World → Outcome
unfolding search_entries
list_parties u w = (w, (u, search_list (search_entries w.channel_id w.players)) ∷ [])
