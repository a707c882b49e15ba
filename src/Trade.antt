-- ===== src/Trade.antt =====
-- cmd/gameserver/packet/trade.go with `TradeState` of cmd/gameserver/context/session.go: the trade of
-- two players.
pub mod Book
pub mod Messages
pub mod Handlers
pub mod Offers
pub mod Completion
pub mod Reading
pub mod Pairing
pub mod Linking
pub mod Keeping
pub mod Starting
pub mod Ending
pub mod Presence
pub mod Packets
pub mod Beginning
pub mod Events
pub mod Total
pub mod Exchange
pub mod Settlement
pub mod Answers
pub mod Race
pub mod Replies
mod Tests
