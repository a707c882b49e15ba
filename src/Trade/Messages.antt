-- ===== src/Trade/Messages.antt =====
-- The packets that the handlers of cmd/gameserver/packet/trade.go send, as they write them.
use freya.Common.Signed.{ℤ, pos, signed}
use freya.Common.{ℕ, ◌%◌, ◌^◌, Option, none}
use freya.Inventory.Item.{Item}
use freya.Network.Writer.{
  ◌>=>◌, Writer, int32, int64, uint8, uint32, int, new_writer, write_byte, write_int32, write_int64,
  write_uint32,
}

abbrev pub result_invalid : ℕ
result_invalid = 0x00

abbrev pub result_progress : ℕ
result_progress = 0x1e

abbrev pub result_denial : ℕ
result_denial = 0x21

abbrev pub result_request : ℕ
result_request = 0x22

abbrev pub result_ready : ℕ
result_ready = 0x23

abbrev pub result_request_cancel : ℕ
result_request_cancel = 0x29

abbrev pub result_accept : ℕ
result_accept = 0x2c

abbrev pub result_reject : ℕ
result_reject = 0x2d

abbrev pub result_auto_reject : ℕ
result_auto_reject = 0x2e

abbrev pub result_submit_cancel : ℕ
result_submit_cancel = 0x2a

abbrev pub result_trade_cancel : ℕ
result_trade_cancel = 0x2b

abbrev pub result_submit : ℕ
result_submit = 0x2f

abbrev pub result_request_list : ℕ
result_request_list = 0x25

abbrev pub result_completed : ℕ
result_completed = 0x26

abbrev pub result_add_success : ℕ
result_add_success = 0x27

abbrev pub result_remove_success : ℕ
result_remove_success = 0x28

abbrev pub result_resets : ℕ
result_resets = 0x1f

abbrev pub trade_alz_item_kind : ℕ
trade_alz_item_kind = 13

-- `TRADE_OPEN_EVENT` and the other types of packets.
abbrev pub open_event_type : ℕ
open_event_type = 261

abbrev pub close_event_type : ℕ
close_event_type = 262

abbrev pub nfy_events_type : ℕ
nfy_events_type = 263

abbrev pub add_item_type : ℕ
add_item_type = 264

abbrev pub add_alz_type : ℕ
add_alz_type = 265

abbrev pub remove_item_type : ℕ
remove_item_type = 266

abbrev pub nfy_add_item_type : ℕ
nfy_add_item_type = 267

abbrev pub nfy_remove_item_type : ℕ
nfy_remove_item_type = 268

-- One constructor for each function `send…`.
pub data Message : Type 0 where
  packet_result : ℕ → ℕ → Message
  trade_item : Item → ℕ → Message
  trade_alz : ℕ → Message
  removed_item : Item → ℕ → Message
  trade_event : ℤ → ℕ → Message
  open_result : ℕ → Message

-- The packet, up to `Send`; `none` is a panic of a write.
unfoldable pub message_packet : Message → Option Writer
message_packet (packet_result packet_type result) =
    new_writer packet_type none >=> write_byte (uint8 result)
message_packet (trade_item item trade_slot) =
    new_writer nfy_add_item_type none
    >=> write_uint32 (uint32 item.kind)
    >=> write_int64 (int64 item.option)
    >=> write_byte (uint8 (trade_slot % 2 ^ 8))
    >=> write_uint32 (uint32 item.expire)
    >=> write_byte (int (pos 0))
message_packet (trade_alz amount) =
    new_writer nfy_add_item_type none
    >=> write_uint32 (uint32 trade_alz_item_kind)
    >=> write_int64 (int64 (signed 64 amount))
    >=> write_byte (int (pos 0))
    >=> write_uint32 (int (pos 0))
    >=> write_byte (int (pos 0))
message_packet (removed_item item trade_slot) =
    new_writer nfy_remove_item_type none
    >=> write_uint32 (uint32 item.kind)
    >=> write_int64 (int64 item.option)
    >=> write_byte (uint8 (trade_slot % 2 ^ 8))
    >=> write_uint32 (uint32 item.expire)
message_packet (trade_event character_id result) =
    new_writer nfy_events_type none
    >=> write_int32 (int32 character_id)
    >=> write_byte (uint8 result)
message_packet (open_result result) = new_writer open_event_type none >=> write_byte (uint8 result)
