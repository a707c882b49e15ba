-- ===== src/Pvp/Packets.antt =====
-- The packets that the handlers of duels send: the functions `send…` and `newPVP…` of
-- cmd/gameserver/packet/pvp.go and pvp_combat.go, through `Writer`.
use freya.Common.Signed.{pos}
use freya.Common.{ℕ, ◌+◌, ◌≡◌, Option, none, some}
use freya.Network.Writer.{
  ◌>=>◌, Writer, int, int32, uint8, write_uint32, uint16, new_writer, write_byte, write_int32,
  write_uint16,
}
use freya.Network.Writer.Sizes.{
  then_byte_int, then_int, then_uint, then_uint16_int, then_int32, then_uint16, then_byte,
  new_writer-Stands, sized,
}
use freya.Pvp.Book.{
  Message, request_result, request_notification, response_result, response_notification,
  character_info, pending_result, pending_notification, cancel_result, cancel_notification,
  attack_result, attack_motion, attack_notification, last_error, skill_to_mton, skill_result,
  skill_notification,
}

-- The packet, up to `Send`; `none` is a panic of a write.
unfoldable pub message_packet : Message → Option Writer
message_packet (request_result result) = new_writer 330 none >=> write_byte (uint8 result)
message_packet (request_notification id pvp_type) =
    new_writer 331 none >=> write_int32 (int32 id) >=> write_byte (uint8 pvp_type)
message_packet (response_result result) = new_writer 332 none >=> write_byte (uint8 result)
message_packet (response_notification id pvp_type result) =
    new_writer 333 none
    >=> write_int32 (int32 id)
    >=> write_byte (uint8 pvp_type)
    >=> write_byte (uint8 result)
message_packet (character_info id hp max_hp) =
    new_writer 340 none
    >=> write_int32 (int32 id)
    >=> write_uint16 (uint16 hp)
    >=> write_uint16 (uint16 max_hp)
message_packet (pending_result result) = new_writer 334 none >=> write_byte (uint8 result)
message_packet (pending_notification pvp_type result) =
    new_writer 335 none >=> write_byte (uint8 pvp_type) >=> write_byte (uint8 result)
message_packet (cancel_result result) = new_writer 336 none >=> write_byte (uint8 result)
message_packet (cancel_notification pvp_type) = new_writer 337 none >=> write_byte (uint8 pvp_type)
message_packet (attack_result id hp mp sp result damage hp_rest) =
    new_writer 177 none
    >=> write_int32 (int32 id)
    >=> write_uint16 (uint16 hp)
    >=> write_uint16 (uint16 mp)
    >=> write_uint16 (uint16 sp)
    >=> write_byte (uint8 result)
    >=> write_uint16 (uint16 damage)
    >=> write_uint16 (uint16 hp_rest)
message_packet (attack_motion damage) = new_writer 227 none >=> write_uint16 (uint16 damage)
message_packet (attack_notification attacker target result hp_rest) =
    new_writer 226 none
    >=> write_int32 (int32 attacker)
    >=> write_int32 (int32 target)
    >=> write_byte (uint8 result)
    >=> write_uint16 (uint16 hp_rest)
message_packet (last_error command sub_command code) =
    new_writer 7 none
    >=> write_uint16 (uint16 command)
    >=> write_uint16 (uint16 sub_command)
    >=> write_uint16 (uint16 code)
    >=> write_uint16 (int (pos 0))
message_packet (skill_to_mton skill_id damage level) =
    new_writer 222 none
    >=> write_uint16 (uint16 skill_id)
    >=> write_uint32 (int (pos 0))
    >=> write_uint16 (uint16 damage)
    >=> write_byte (uint8 level)
message_packet (skill_result skill_id hp mp sp r) =
    new_writer 175 none
    >=> write_uint16 (uint16 skill_id)
    >=> write_uint16 (uint16 hp)
    >=> write_uint16 (uint16 mp)
    >=> write_uint16 (uint16 sp)
    >=> write_uint32 (int (pos 0))
    >=> write_uint32 (int (pos 0))
    >=> write_byte (uint8 1)
    >=> write_int32 (int32 r.char_id)
    >=> write_byte (uint8 r.result)
    >=> write_uint16 (uint16 r.damage)
    >=> write_uint16 (uint16 r.hp_rest)
    >=> write_byte (int (pos 0))
    >=> write_int32 (int (pos 0))
    >=> write_byte (uint8 r.hit_num)
message_packet (skill_notification skill_id attacker x y r) =
    new_writer 221 none
    >=> write_uint16 (uint16 skill_id)
    >=> write_byte (int (pos 1))
    >=> write_int32 (int32 attacker)
    >=> write_uint16 (uint16 x)
    >=> write_uint16 (uint16 y)
    >=> write_int32 (int32 r.char_id)
    >=> write_byte (uint8 r.result)
    >=> write_uint16 (uint16 r.hp_rest)
    >=> write_byte (int (pos 0))
    >=> write_int32 (int (pos 0))
    >=> write_byte (uint8 r.hit_num)

-- The bytes after the header of a packet.
pub message_size : Message → ℕ
message_size (request_notification id pvp_type) = 5
message_size (response_notification id pvp_type result) = 6
message_size (character_info id hp max_hp) = 8
message_size (pending_notification pvp_type result) = 2
message_size (attack_result id hp mp sp result damage hp_rest) = 15
message_size (attack_motion damage) = 2
message_size (attack_notification attacker target result hp_rest) = 11
message_size (last_error command sub_command code) = 8
message_size (skill_to_mton skill_id damage level) = 9
message_size (skill_result skill_id hp mp sp r) = 32
message_size (skill_notification skill_id attacker x y r) = 24
message_size _ = 1

-- Every message of a duel goes out without a panic, in a packet of the size that its kind has.
pub message_sizes :
    (m : Message) → (w : Writer) × (message_packet m ≡ some w) × (w.index ≡ 6 + message_size m)
unfolding message_packet message_size
message_sizes (request_result result) = sized (then_byte result (new_writer-Stands 330))
message_sizes (request_notification id pvp_type) =
    sized (then_byte pvp_type (then_int32 id (new_writer-Stands 331)))
message_sizes (response_result result) = sized (then_byte result (new_writer-Stands 332))
message_sizes (response_notification id pvp_type result) =
    sized (then_byte result (then_byte pvp_type (then_int32 id (new_writer-Stands 333))))
message_sizes (character_info id hp max_hp) =
    sized (then_uint16 max_hp (then_uint16 hp (then_int32 id (new_writer-Stands 340))))
message_sizes (pending_result result) = sized (then_byte result (new_writer-Stands 334))
message_sizes (pending_notification pvp_type result) =
    sized (then_byte result (then_byte pvp_type (new_writer-Stands 335)))
message_sizes (cancel_result result) = sized (then_byte result (new_writer-Stands 336))
message_sizes (cancel_notification pvp_type) = sized (then_byte pvp_type (new_writer-Stands 337))
message_sizes (attack_result id hp mp sp result damage hp_rest) = sized (
    then_uint16 hp_rest (
      then_uint16 damage (
        then_byte result (
          then_uint16 sp
            (then_uint16 mp (then_uint16 hp (then_int32 id (new_writer-Stands 177))))))))
message_sizes (attack_motion damage) = sized (then_uint16 damage (new_writer-Stands 227))
message_sizes (attack_notification attacker target result hp_rest) = sized (
    then_uint16 hp_rest
      (then_byte result (then_int32 target (then_int32 attacker (new_writer-Stands 226)))))
message_sizes (last_error command sub_command code) = sized (
    then_uint16_int (pos 0)
      (then_uint16 code (then_uint16 sub_command (then_uint16 command (new_writer-Stands 7)))))
message_sizes (skill_to_mton skill_id damage level) = sized (
    then_byte level
      (then_uint16 damage (then_uint (pos 0) (then_uint16 skill_id (new_writer-Stands 222)))))
message_sizes (skill_result skill_id hp mp sp r) =
    let vitals =
      then_uint16 sp
        (then_uint16 mp (then_uint16 hp (then_uint16 skill_id (new_writer-Stands 175)))) in
    let target =
      then_int32 r.char_id (then_byte 1 (then_uint (pos 0) (then_uint (pos 0) vitals))) in
    let hit = then_uint16 r.hp_rest (then_uint16 r.damage (then_byte r.result target)) in
    sized (then_byte r.hit_num (then_int (pos 0) (then_byte_int (pos 0) hit)))
message_sizes (skill_notification skill_id attacker x y r) =
    let cast =
      then_int32 attacker (then_byte_int (pos 1) (then_uint16 skill_id (new_writer-Stands 221))) in
    let target = then_int32 r.char_id (then_uint16 y (then_uint16 x cast)) in
    let hit = then_uint16 r.hp_rest (then_byte r.result target) in
    sized (then_byte r.hit_num (then_int (pos 0) (then_byte_int (pos 0) hit)))
