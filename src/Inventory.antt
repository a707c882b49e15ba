-- ===== src/Inventory.antt =====
-- share/models/inventory: the items that a character carries and wears.
pub mod Item
pub mod Sync
pub mod Bag
pub mod Crafting
pub mod Slots
pub mod Equipment
mod Tests
