-- ===== src/Trade/Packets.antt =====
-- The handlers of trades by the packets that they are registered for (cmd/gameserver/packet/packet.go).
use freya.Common.{ℕ, Option, none, some, if◌then◌else◌, ◌==◌}
use freya.Network.Reader.{Reader}
use freya.Trade.Book.{World}
use freya.Trade.Handlers.{Outcome}
use freya.Trade.Completion.{TradeCall, Exchange, complete_trade}
use freya.Trade.Reading.{
  handle_request, handle_open_event, handle_close_event, handle_add_item, handle_add_alz,
  handle_remove_item, handle_request_list,
}

-- The packets that the handlers of trades are registered for.
pub data Kind : Type 0 where
  trade_request trade_open_event trade_close_event trade_add_item trade_add_alz trade_remove_item
        trade_request_list :
      Kind

-- `Register` of cmd/gameserver/packet/packet.go, for the packets of trades.
unfoldable pub kind_of : ℕ → Option Kind
kind_of packet_type =
    if packet_type == 260
    then some trade_request
    else if packet_type == 261
    then some trade_open_event
    else if packet_type == 262
    then some trade_close_event
    else if packet_type == 264
    then some trade_add_item
    else if packet_type == 265
    then some trade_add_alz
    else if packet_type == 266
    then some trade_remove_item
    else if packet_type == 269
    then some trade_request_list
    else none

-- A handler that does not call the master server asks for no exchange.
abbrev pub locally : Option Outcome → Option (Outcome × Option Exchange)
locally none = none
locally (some o) = some (o, none)

-- A packet up to the call of the master server, if it comes to one.
unfoldable pub begin_packet : Kind → ℕ → Reader → World → Option (Outcome × Option Exchange)
begin_packet trade_request u r w = locally (handle_request u r w)
begin_packet trade_open_event u r w = locally (handle_open_event u r w)
begin_packet trade_close_event u r w = locally (handle_close_event u r w)
begin_packet trade_add_item u r w = locally (handle_add_item u r w)
begin_packet trade_add_alz u r w = locally (handle_add_alz u r w)
begin_packet trade_remove_item u r w = locally (handle_remove_item u r w)
begin_packet trade_request_list u r w = handle_request_list u r w

-- The whole handler, in a run in which nothing happens to the players during the call.
unfoldable pub dispatch :
    {S : Type 0} → TradeCall S → ℕ → Kind → ℕ → Reader → World → S → Option (Outcome × S)
unfolding begin_packet complete_trade
dispatch call server kind u r w s = elim (begin_packet kind u r w) [
  | none ↦ none
  | some o ↦ some (complete_trade call server o s)
]
