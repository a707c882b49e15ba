-- ===== src/Party/Messages.antt =====
-- The packets that the handlers of cmd/gameserver/packet/party.go send: what they hold.
use freya.Common.Signed.{ℤ}
use freya.Common.Maps.{lookup}
use freya.Common.{
  ℕ, ◌+◌, ◌*◌, ◌^◌, ◌||◌, not, ltb, none, some, List, [], ◌∷◌, map, length, Bool, if◌then◌else◌,
}
use freya.Party.Book.{PartyMember, PartyState, World, MemberStatus, login, logoff, has_party}
use freya.Party.Membership.{Players}

abbrev pub invite_ok : ℕ
invite_ok = 0x00

abbrev pub invite_not_exist : ℕ
invite_not_exist = 0x01

abbrev pub invite_busy : ℕ
invite_busy = 0x02

abbrev pub invite_max_members : ℕ
invite_max_members = 0x07

abbrev pub invite_already_member : ℕ
invite_already_member = 0x08

abbrev pub invite_error : ℕ
invite_error = 0x0b

abbrev pub answer_ok : ℕ
answer_ok = 0x00

abbrev pub answer_rejected : ℕ
answer_rejected = 0x01

abbrev pub answer_failed : ℕ
answer_failed = 0x02

-- `partyMemberRuntimeStats`; its field `dungeon` is always zero.
pub record RuntimeStats : Type 0 where
  pub member : PartyMember
  pub world : ℕ  -- int32
  pub hp : ℕ  -- uint32
  pub mp : ℕ
  pub sp : ℕ
  pub pos_x : ℕ  -- int32
  pub pos_y : ℕ

-- `partySearchEntry`
pub record SearchEntry : Type 0 where
  pub leader_character_id : ℤ
  pub level : ℕ
  pub battle_style : ℕ
  pub channel : ℕ
  pub name : List ℕ
  pub max_member_count : ℕ
  pub title : List ℕ
  pub current_member_count : ℕ

-- One constructor for each function `send…`, and the packet of `PartySearchList`.
pub data Message : Type 0 where
  invite_response : ℕ → PartyMember → Message
  invite_notification : PartyMember → Message
  invite_answer : ℕ → Message
  invite_result : Bool → Message
  cancel_result : Bool → Message
  cancel_notification : Message
  leave_result : Bool → Message
  kickout_result : Bool → Message
  kickout_notification : ℤ → Message
  leader_change_result : Bool → Message
  leader_change_notification : ℤ → Message
  auth_change_result : Bool → Message
  auth_change_notification : Bool → Message
  looting_type_result : Bool → Message
  looting_type_notification : ℕ → ℕ → Message
  search_regist_result : ℕ → Message
  search_list : List SearchEntry → Message
  member_out : ℤ → Message
  party_stats : PartyState → Message
  member_stats : List RuntimeStats → Message

abbrev pub Sent : Type 0
Sent = ℕ × Message

abbrev pub Outcome : Type 0
Outcome = World × List Sent

-- `partyMemberRuntimeStatsFor`
unfoldable pub runtime_stats_for : ℕ → Players → PartyMember → RuntimeStats
runtime_stats_for channel_id ps m =
    let blank : MemberStatus → RuntimeStats = λ status. record {
      member = record m { member_status = status };
      world = 0;
      hp = 0;
      mp = 0;
      sp = 0;
      pos_x = 0;
      pos_y = 0;
    } in
    elim (lookup m.user_idx ps) [
      | none ↦ blank logoff
      | some p ↦ elim p.char [
        | none ↦ blank m.member_status
        | some c ↦ record {
          member = record m {
            character_id = c.id;
            level = c.level;
            channel = channel_id;
            battle_style = c.battle_style;
            member_status = login;
            name = c.name;
          };
          world = c.world;
          hp = c.current_hp * 2 ^ 16 + c.max_hp;
          mp = c.current_mp * 2 ^ 16 + c.max_mp;
          sp = c.current_sp * 2 ^ 16 + c.max_sp;
          pos_x = c.x;
          pos_y = c.y;
        }
      ]
    ]

-- A message for each member whose session is there.
unfoldable pub to_members : Players → List PartyMember → Message → List Sent
to_members ps [] message = []
to_members ps (m ∷ ms) message =
    let rest = to_members ps ms message in
    elim (lookup m.user_idx ps) [ none ↦ rest | some p ↦ (m.user_idx, message) ∷ rest ]

-- `sendPartyMemberStatsToMembers`
unfoldable pub send_member_stats : World → PartyState → List Sent
unfolding runtime_stats_for to_members
send_member_stats w state =
    if not (has_party state) || ltb (length state.members) 2
    then []
    else to_members w.players state.members
        (member_stats (map (runtime_stats_for w.channel_id w.players) state.members))

-- `notifyPartyMemberStats`, which other handlers call when a value of a character changes.
unfoldable pub notify_member_stats : ℕ → World → List Sent
unfolding send_member_stats
notify_member_stats u w = elim (lookup u w.players) [
  | none ↦ []
  | some p ↦ send_member_stats w p.party
]
