-- ===== src/Inventory/Item.antt =====
-- share/models/inventory/item.go: `Item`, Go's comparison of two items, and the maps of items.
use freya.Common.Signed.{ℤ, pos, eq_ℤ, eq_ℤ_iff}
use freya.Common.Maps.{GoMap}
use freya.Common.{ℕ, ◌≡◌, ◌↔◌, Bool, true, ◌&&◌, Option, none, some, ◌==◌, arith}

pub record Item : Type 0 where
  pub kind : ℕ  -- uint32
  pub serials : ℕ  -- uint32
  pub option : ℤ  -- int32
  pub slot : ℕ  -- uint16
  pub expire : ℕ  -- uint32

-- `Item{}`
abbrev pub no_item : Item
no_item = record { kind = 0; serials = 0; option = pos 0; slot = 0; expire = 0 }

-- `a == b`: Go compares all fields.
abbrev pub eq_item : Item → Item → Bool
eq_item a b =
    a.kind == b.kind
    && (a.serials == b.serials
        && (eq_ℤ a.option b.option && (a.slot == b.slot && a.expire == b.expire)))

pub eq_item_iff : (a b : Item) → (eq_item a b ≡ true) ↔ (a ≡ b)
eq_item_iff a b = ground (arith, eq_ℤ_iff a.option b.option)

abbrev pub Items : Type 0
Items = GoMap Item

-- `if value, ok := m[slot]; ok { return value }; return Item{}`
abbrev pub item_or_none : Option Item → Item
item_or_none none = no_item
item_or_none (some item) = item
