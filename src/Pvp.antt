-- ===== src/Pvp.antt =====
-- Personal duels: cmd/gameserver/packet/pvp.go and the plain attack of pvp_combat.go.
pub mod Book
pub mod Handlers
pub mod Combat
pub mod Reading
pub mod Agreement
pub mod Keeping
pub mod Handled
pub mod Hits
pub mod Events
pub mod Total
pub mod Stranded
pub mod Skills
pub mod Casting
pub mod Casts
pub mod Mana
pub mod Consent
pub mod Defeat
pub mod Packets
pub mod Tests
