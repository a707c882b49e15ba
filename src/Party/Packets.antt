-- ===== src/Party/Packets.antt =====
-- The bytes of the packets that the handlers of cmd/gameserver/packet/party.go send: one clause for each
-- function `send…`, up to `Send`. The result `none` is a panic of a write.
use freya.Common.Signed.{pos}
use freya.Common.{
  ℕ, zero, suc, Bool, Option, none, some, List, [], ◌∷◌, length, replicate, ◌==◌, if◌then◌else◌,
}
use freya.Network.Writer.{
  Writer, Object, int32, int, uint8, uint32, ◌>=>◌, new_writer, write_byte, write_int32,
  write_uint32, write_bool, write_bytes,
}
use freya.Party.Book.{
  PartyMember, PartyState, MemberStatus, status_none, login, logoff, party_max_members, no_party,
}
use freya.Party.Messages.{
  Message, RuntimeStats, SearchEntry, invite_response, invite_notification, invite_answer,
  invite_result, cancel_result, cancel_notification, leave_result, kickout_result,
  kickout_notification, leader_change_result, leader_change_notification, auth_change_result,
  auth_change_notification, looting_type_result, looting_type_notification, search_regist_result,
  search_list, member_out, party_stats, member_stats,
}
use freya.Party.Names.{padded, party_name}

-- `PartyMemberStatusNone`, `PartyMemberStatusLogin`, `PartyMemberStatusLogoff`
abbrev pub status_code : MemberStatus → ℕ
status_code status_none = 0
status_code login = 1
status_code logoff = 2

-- `int32(n)` for an unsigned number.
abbrev pub as_int32 : ℕ → Object
as_int32 n = int32 (pos n)

abbrev pub zero_field : Object
zero_field = int (pos 0)

-- `writePartyName` and `writeFixedPartyString`
unfoldable pub write_party_name : List ℕ → Writer → Option Writer
write_party_name name = write_bytes (party_name name)

unfoldable pub write_fixed_string : List ℕ → ℕ → Writer → Option Writer
write_fixed_string value size = write_bytes (padded size value)

-- What an entry of a member starts with, in both kinds of statistics.
unfoldable pub write_member : PartyMember → Writer → Option Writer
unfolding write_party_name
write_member m w =
    write_int32 (int32 m.character_id) w
    >=> write_int32 (as_int32 m.level)
    >=> write_int32 zero_field
    >=> write_byte (uint8 m.channel)
    >=> write_byte (uint8 m.battle_style)
    >=> write_int32 (as_int32 (status_code m.member_status))
    >=> write_party_name m.name
    >=> write_int32 zero_field

-- The loop of `writePartyStatsPayload` over the seven places.
unfoldable pub write_members : ℕ → List PartyMember → Writer → Option Writer
unfolding write_member
write_members zero ms w = some w
write_members (suc places) [] w = write_bytes (replicate 39 0) w >=> write_members places []
write_members (suc places) (m ∷ ms) w = write_member m w >=> write_members places ms

-- A looting type, or the first one where there is none.
abbrev pub looting_or_first : ℕ → ℕ
looting_or_first n = if n == 0 then 1 else n

-- `writePartyStatsPayload`
unfoldable pub write_stats_payload : PartyState → Writer → Option Writer
unfolding write_members
write_stats_payload state w =
    write_int32 (int32 state.id) w
    >=> write_int32 (int32 state.leader_character_id)
    >=> write_bool state.leader_only_invite_authority
    >=> write_int32 zero_field
    >=> write_byte (uint8 (looting_or_first state.normal_looting_type))
    >=> write_byte (uint8 (looting_or_first state.owner_looting_type))
    >=> write_int32 (int (pos (length state.members)))
    >=> write_members party_max_members state.members

-- One place of `sendPartyMemberStats`.
unfoldable pub write_runtime : RuntimeStats → Writer → Option Writer
unfolding write_member
write_runtime s w =
    write_member s.member w
    >=> write_int32 (as_int32 s.world)
    >=> write_uint32 (uint32 s.hp)
    >=> write_uint32 (uint32 s.mp)
    >=> write_int32 (as_int32 s.pos_x)
    >=> write_int32 (as_int32 s.pos_y)
    >=> write_uint32 (uint32 s.sp)
    >=> write_uint32 zero_field
    >=> write_int32 zero_field
    >=> write_uint32 zero_field

unfoldable pub write_runtimes : ℕ → List RuntimeStats → Writer → Option Writer
unfolding write_runtime
write_runtimes zero ms w = some w
write_runtimes (suc places) [] w = write_bytes (replicate 75 0) w >=> write_runtimes places []
write_runtimes (suc places) (s ∷ ss) w = write_runtime s w >=> write_runtimes places ss

-- The loop of `PartySearchList`.
unfoldable pub write_entry : SearchEntry → Writer → Option Writer
unfolding write_party_name write_fixed_string
write_entry e w =
    write_int32 (int32 e.leader_character_id) w
    >=> write_int32 (as_int32 e.level)
    >=> write_byte (uint8 e.battle_style)
    >=> write_byte (uint8 e.channel)
    >=> write_party_name e.name
    >=> write_byte (uint8 e.max_member_count)
    >=> write_fixed_string e.title 40
    >=> write_byte (uint8 e.current_member_count)
    >=> write_bytes (replicate 3 0)

unfoldable pub write_entries : List SearchEntry → Writer → Option Writer
unfolding write_entry
write_entries [] w = some w
write_entries (e ∷ es) w = write_entry e w >=> write_entries es

-- `BOOL`, as a number of four bytes.
abbrev pub write_flag : Bool → Writer → Option Writer
write_flag b = write_int32 (int (if b then pos 1 else pos 0))

unfoldable pub message_packet : Message → Option Writer
unfolding write_party_name write_stats_payload write_runtimes write_entries
message_packet (invite_response result m) =
    new_writer 2011 none
    >=> write_byte (uint8 result)
    >=> write_int32 (int32 m.character_id)
    >=> write_byte (uint8 m.channel)
    >=> write_byte (uint8 m.battle_style)
    >=> write_int32 (as_int32 m.level)
    >=> write_party_name m.name
message_packet (invite_notification m) =
    new_writer 2012 none
    >=> write_int32 (int32 m.character_id)
    >=> write_byte (uint8 m.channel)
    >=> write_byte (uint8 m.battle_style)
    >=> write_int32 (as_int32 m.level)
    >=> write_party_name m.name
message_packet (invite_answer result) = new_writer 2013 none >=> write_byte (uint8 result)
message_packet (invite_result accepted) = new_writer 2014 none >=> write_flag accepted
message_packet (cancel_result success) = new_writer 2017 none >=> write_flag success
message_packet cancel_notification = new_writer 2018 none
message_packet (leave_result success) = new_writer 2019 none >=> write_flag success
message_packet (kickout_result success) = new_writer 2021 none >=> write_flag success
message_packet (kickout_notification id) = new_writer 2022 none >=> write_int32 (int32 id)
message_packet (leader_change_result success) = new_writer 2023 none >=> write_flag success
message_packet (leader_change_notification id) = new_writer 2024 none >=> write_int32 (int32 id)
message_packet (auth_change_result success) = new_writer 2025 none >=> write_flag success
message_packet (auth_change_notification leader_only) =
    new_writer 2026 none >=> write_flag leader_only
message_packet (looting_type_result success) = new_writer 2033 none >=> write_flag success
message_packet (looting_type_notification normal owner) =
    new_writer 2034 none >=> write_int32 (as_int32 normal) >=> write_int32 (as_int32 owner)
message_packet (search_regist_result result) = new_writer 2077 none >=> write_byte (uint8 result)
message_packet (search_list entries) =
    new_writer 2081 none
    >=> write_uint32 (int (pos (length entries)))
    >=> write_entries entries
    >=> write_bytes (replicate 72 0)
message_packet (member_out id) = new_writer 2020 none >=> write_int32 (int32 id)
message_packet (party_stats state) = new_writer 2016 none >=> write_stats_payload state
message_packet (member_stats stats) =
    new_writer 2028 none
    >=> write_int32 (int (pos (length stats)))
    >=> write_runtimes party_max_members stats

-- `sendPartyStatsReconnect`
unfoldable pub stats_reconnect : Option Writer
unfolding write_stats_payload
stats_reconnect =
    new_writer 2056 none
    >=> write_int32 zero_field
    >=> write_int32 zero_field
    >=> write_stats_payload no_party
