-- ===== src/Party.antt =====
-- cmd/gameserver/packet/party.go with `PartyState` of cmd/gameserver/context/session.go: parties,
-- their invitations and the search for parties.
pub mod Book
pub mod Membership
pub mod Messages
pub mod Invitations
pub mod Members
pub mod Options
pub mod Search
pub mod Seats
pub mod Groups
pub mod Expulsion
pub mod Leaving
pub mod Kicking
pub mod Forming
pub mod Leading
pub mod Joining
pub mod Answering
pub mod Inviting
pub mod Events
pub mod Names
pub mod Reading
pub mod Presence
pub mod Total
pub mod Stranded
pub mod Listed
pub mod Packets
pub mod Sizes
pub mod Tests
