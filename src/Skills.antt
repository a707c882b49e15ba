-- ===== src/Skills.antt =====
-- The skills of a character: share/models/skills.
pub mod Links
pub mod Slotted
pub mod Tests
