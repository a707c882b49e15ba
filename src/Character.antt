-- ===== src/Character.antt =====
-- share/models/character: the appearance, packed into a word, health, mana and spirit points, the attack.
pub mod Style
pub mod Vitals
pub mod Attack
mod Tests
