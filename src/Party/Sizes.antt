-- ===== src/Party/Sizes.antt =====
-- The packets of parties have the sizes of the client's structures: cmd/gameserver/packet/party.go
-- through `Writer`.
use freya.Common.Signed.{pos}
use freya.Common.{
  ℕ, zero, suc, ◌+◌, ◌*◌, ◌<◌, ◌≡◌, refl, ap, Option, none, some, List, [], ◌∷◌, take, length,
  arith,
}
use freya.Network.Writer.{Writer, ◌>=>◌, new_writer}
use freya.Network.Writer.Sizes.{
  Stands, Adds, resize, then_Stands, bytes-Adds, bool-Stands, standing, then_int32, then_int,
  then_uint32, then_uint, then_byte, then_zeros, new_writer-Stands, sized,
}
use freya.Party.Book.{PartyMember, PartyState, no_party}
use freya.Party.Messages.{
  Message, RuntimeStats, SearchEntry, invite_response, invite_notification, invite_answer,
  invite_result, cancel_result, cancel_notification, leave_result, kickout_result,
  kickout_notification, leader_change_result, leader_change_notification, auth_change_result,
  auth_change_notification, looting_type_result, looting_type_notification, search_regist_result,
  search_list, member_out, party_stats, member_stats,
}
use freya.Party.Names.{padded, party_name, length-padded}
use freya.Party.Packets.{
  looting_or_first, write_party_name, write_fixed_string, write_member, write_members,
  write_stats_payload, write_runtime, write_runtimes, write_entry, write_entries, message_packet,
  stats_reconnect,
}

-- The bytes after the header of a packet.
pub message_size : Message → ℕ
message_size (invite_response result m) = 28
message_size (invite_notification m) = 27
message_size (invite_answer result) = 1
message_size (search_regist_result result) = 1
message_size cancel_notification = 0
message_size (looting_type_notification normal owner) = 8
message_size (search_list entries) = 4 + (length entries * 72 + 72)
message_size (party_stats state) = 19 + 7 * 39
message_size (member_stats stats) = 4 + 7 * 75
message_size _ = 4

then_name :
    {n : ℕ} {o : Option Writer} (name : List ℕ)
    → Stands n o
    → Stands (n + 17) (o >=> write_party_name name)
unfolding write_party_name party_name
then_name name s =
    then_Stands 17 (write_party_name name) s
      (bytes-Adds 17 (party_name name) (ap suc (length-padded 16 (take 16 name))))

write_member-Adds : (m : PartyMember) → Adds 39 (write_member m)
unfolding write_member
write_member-Adds m w r = resize (omega arith) (
    then_int (pos 0) (
      then_name m.name (
        then_int32 _ (
          then_byte m.battle_style (
            then_byte m.channel
              (then_int (pos 0) (then_int32 _ (then_int32 m.character_id (standing w r)))))))))

-- Seven places of 39 bytes, whoever is there.
write_members-Adds :
    (places : ℕ) (ms : List PartyMember) → Adds (places * 39) (write_members places ms)
unfolding write_members
write_members-Adds zero ms w r = resize (omega arith) (standing w r)
write_members-Adds (suc places) [] w r = resize (omega arith) (
    then_Stands (places * 39) (write_members places []) (then_zeros 39 (standing w r))
      (write_members-Adds places []))
write_members-Adds (suc places) (m ∷ ms) w r = resize (omega arith) (
    then_Stands (places * 39) (write_members places ms) (write_member-Adds m w r)
      (write_members-Adds places ms))

write_stats_payload-Stands :
    (s : PartyState) (n : ℕ) (o : Option Writer)
    → n < 1000
    → Stands n o
    → Stands (n + (19 + 7 * 39)) (o >=> write_stats_payload s)
unfolding write_stats_payload
write_stats_payload-Stands s n o low (w, e, r, i) =
    let head = then_int32 s.leader_character_id (then_int32 s.id (standing w r)) in
    let flag = bool-Stands s.leader_only_invite_authority (omega (arith, low, i)) head in
    let rest = then_int (pos (length s.members)) (
      then_byte (looting_or_first s.owner_looting_type)
        (then_byte (looting_or_first s.normal_looting_type) (then_int (pos 0) flag))) in
    let (w', e', r', i') =
      then_Stands (7 * 39) (write_members 7 s.members) rest (write_members-Adds 7 s.members) in
    (w', rw (e, e') refl, r', omega (arith, i, i'))

write_runtime-Adds : (s : RuntimeStats) → Adds 75 (write_runtime s)
unfolding write_runtime
write_runtime-Adds s w r = resize (omega arith) (
    then_uint (pos 0) (
      then_int (pos 0) (
        then_uint (pos 0) (
          then_uint32 s.sp (
            then_int32 _ (
              then_int32 _ (
                then_uint32 s.mp
                  (then_uint32 s.hp (then_int32 _ (write_member-Adds s.member w r))))))))))

write_runtimes-Adds :
    (places : ℕ) (ss : List RuntimeStats) → Adds (places * 75) (write_runtimes places ss)
unfolding write_runtimes
write_runtimes-Adds zero ss w r = resize (omega arith) (standing w r)
write_runtimes-Adds (suc places) [] w r = resize (omega arith) (
    then_Stands (places * 75) (write_runtimes places []) (then_zeros 75 (standing w r))
      (write_runtimes-Adds places []))
write_runtimes-Adds (suc places) (s ∷ ss) w r = resize (omega arith) (
    then_Stands (places * 75) (write_runtimes places ss) (write_runtime-Adds s w r)
      (write_runtimes-Adds places ss))

write_entry-Adds : (e : SearchEntry) → Adds 72 (write_entry e)
unfolding write_entry write_fixed_string
write_entry-Adds e w r =
    let head = then_byte e.max_member_count (
      then_name e.name (
        then_byte e.channel (
          then_byte e.battle_style
            (then_int32 _ (then_int32 e.leader_character_id (standing w r)))))) in
    let title =
      then_Stands 40 (write_fixed_string e.title 40) head
        (bytes-Adds 40 (padded 40 e.title) (length-padded 40 e.title)) in
    resize (omega arith) (then_zeros 3 (then_byte e.current_member_count title))

write_entries-Adds : (es : List SearchEntry) → Adds (length es * 72) (write_entries es)
unfolding write_entries
write_entries-Adds [] w r = resize (omega arith) (standing w r)
write_entries-Adds (e ∷ es) w r = resize (omega arith) (
    then_Stands (length es * 72) (write_entries es) (write_entry-Adds e w r)
      (write_entries-Adds es))

-- Every message of a party goes out without a panic, in a packet of the size that its kind has: seven places for
-- members whatever their number, and 72 bytes for each party that the search lists.
pub message_sizes :
    (m : Message) → (w : Writer) × (message_packet m ≡ some w) × (w.index ≡ 6 + message_size m)
unfolding message_packet message_size
message_sizes (invite_response result m) = sized (
    then_name m.name (
      then_int32 _ (
        then_byte m.battle_style (
          then_byte m.channel
            (then_int32 m.character_id (then_byte result (new_writer-Stands 2011)))))))
message_sizes (invite_notification m) = sized (
    then_name m.name (
      then_int32 _ (
        then_byte m.battle_style
          (then_byte m.channel (then_int32 m.character_id (new_writer-Stands 2012))))))
message_sizes (invite_answer result) = sized (then_byte result (new_writer-Stands 2013))
message_sizes (invite_result accepted) = sized (then_int _ (new_writer-Stands 2014))
message_sizes (cancel_result success) = sized (then_int _ (new_writer-Stands 2017))
message_sizes cancel_notification = sized (new_writer-Stands 2018)
message_sizes (leave_result success) = sized (then_int _ (new_writer-Stands 2019))
message_sizes (kickout_result success) = sized (then_int _ (new_writer-Stands 2021))
message_sizes (kickout_notification id) = sized (then_int32 id (new_writer-Stands 2022))
message_sizes (leader_change_result success) = sized (then_int _ (new_writer-Stands 2023))
message_sizes (leader_change_notification id) = sized (then_int32 id (new_writer-Stands 2024))
message_sizes (auth_change_result success) = sized (then_int _ (new_writer-Stands 2025))
message_sizes (auth_change_notification leader_only) = sized (then_int _ (new_writer-Stands 2026))
message_sizes (looting_type_result success) = sized (then_int _ (new_writer-Stands 2033))
message_sizes (looting_type_notification normal owner) =
    sized (then_int32 _ (then_int32 _ (new_writer-Stands 2034)))
message_sizes (search_regist_result result) = sized (then_byte result (new_writer-Stands 2077))
message_sizes (search_list entries) = sized (
    resize (omega arith) (
      then_zeros 72 (
        then_Stands (length entries * 72) (write_entries entries)
          (then_uint _ (new_writer-Stands 2081)) (write_entries-Adds entries))))
message_sizes (member_out id) = sized (then_int32 id (new_writer-Stands 2020))
message_sizes (party_stats state) = sized (
    write_stats_payload-Stands state 6 (new_writer 2016 none) (omega arith)
      (new_writer-Stands 2016))
message_sizes (member_stats stats) = sized (
    then_Stands (7 * 75) (write_runtimes 7 stats) (then_int _ (new_writer-Stands 2028))
      (write_runtimes-Adds 7 stats))

-- So does the empty party of a client that connects again.
reconnect_size : (w : Writer) × (stats_reconnect ≡ some w) × (w.index ≡ 6 + (8 + (19 + 7 * 39)))
unfolding stats_reconnect
reconnect_size = sized (
    write_stats_payload-Stands no_party 14 _ (omega arith)
      (then_int (pos 0) (then_int (pos 0) (new_writer-Stands 2056))))
