-- ===== src/Inventory/Slots.antt =====
-- share/models/inventory/inventory.go: `Swap` and `Move`, which change an item's slot, and
-- `Serialize`.
pub mod Effects
use freya.Common.Maps.{GoMap, lookup, insert, erase}
use freya.Common.{
  ℕ, zero, suc, ◌+◌, ◌≤◌, Bool, true, false, not, Option, none, some, List, [], ◌∷◌, ◌++◌, ◌==◌,
  leb, if◌then◌else◌,
}
use freya.Inventory.Item.{Item, Items, item_or_none}
use freya.Inventory.Bag.{Bag, refuse}
use freya.Inventory.Sync.{
  Call, Outcome, Error, is_nil, sync, swap_item, move_item, no_such_item, already_exists,
}

module _ {W : Type 0} (call : Call W) where
  -- `Swap`, on the two items found.
  swap_found : ℕ → ℕ → Item → Item → Bag → W → Outcome × Bag × W
  swap_found old new old_found new_found b w =
      let old_item = record old_found { slot = new } in
      let new_item = record new_found { slot = old } in
      let ((ok, err), w') = sync call b.link swap_item old_item (some new_item) w in
      let inv' = insert old new_item (insert new old_item (erase new (erase old b.inv))) in
      ((ok, err), (if is_nil err then record b { inv = inv' } else b), w')

  unfoldable pub swap : ℕ → ℕ → Bag → W → Outcome × Bag × W
  unfolding swap_found
  swap old new b w = elim (lookup old b.inv) [
    | none ↦ refuse no_such_item b w
    | some old_item ↦ elim (lookup new b.inv) [
      | none ↦ refuse no_such_item b w
      | some new_item ↦ swap_found old new old_item new_item b w
    ]
  ]

  -- `Move`; a taken slot gives `true` with an error.
  unfoldable pub move : ℕ → ℕ → Bag → W → Outcome × Bag × W
  move old new b w = elim (lookup old b.inv) [
    | none ↦ refuse no_such_item b w
    | some old_item ↦ elim (lookup new b.inv) [
      | some taken ↦ ((true, some already_exists), b, w)
      | none ↦
          let new_item = record old_item { slot = new } in
          let ((ok, err), w') = sync call b.link move_item old_item (some new_item) w in
          let inv' = insert new new_item (erase old b.inv) in
          ((ok, err), (if is_nil err then record b { inv = inv' } else b), w')
    ]
  ]

-- `sort.Ints` on the keys of the map.
pub insert_sorted : ℕ → List ℕ → List ℕ
insert_sorted k [] = k ∷ []
insert_sorted k (j ∷ ks) =
    let rest = insert_sorted k ks in if leb k j then k ∷ (j ∷ ks) else j ∷ rest

pub sorted_keys : Items → List ℕ
sorted_keys [] = []
sorted_keys (e ∷ inv) = insert_sorted e.0 (sorted_keys inv)

-- The loop of `Serialize`; an item's bytes are written by `encoding/binary`, so the items are kept.
serialize_keys : List ℕ → Items → List Item × ℕ
serialize_keys [] inv = ([], 0)
serialize_keys (k ∷ ks) inv =
    let (items, len) = serialize_keys ks inv in
    let item = item_or_none (lookup k inv) in
    if item.kind == 0 then (items, len) else (item ∷ items, len + 1)

-- `Serialize`
pub serialize : Bag → List Item × ℕ
unfolding serialize_keys sorted_keys insert_sorted
serialize b = serialize_keys (sorted_keys b.inv) b.inv
