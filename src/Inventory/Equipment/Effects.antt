-- ===== src/Inventory/Equipment/Effects.antt =====
-- What `EquipItem` and `unEquipItem` of share/models/inventory/equipment.go do to the slots.
use freya.Common.Maps.{lookup, lookup-insert, lookup-erase}
use freya.Common.{
  ℕ, ◌≡◌, true, false, Option, none, some, ◌==◌, if◌then◌else◌, arith, inl, inr, Option-cases,
}
use freya.Inventory.Item.{Item}
use freya.Inventory.Sync.{Call, Error, sync}
use freya.Inventory.Bag as Bag
use freya.Inventory.Bag.{Bag}
use freya.Inventory.Equipment.{Worn, set, remove, rollback, equip_item_from, un_equip}

module _ {W : Type 0} (call : Call W) where
  -- Whenever `EquipItem` reports success, the carried item is worn in the new slot and knows it, its old
  -- slot of the inventory is empty, and every other slot of both is as it was.
  pub equip_item_effect :
      (old new j : ℕ) (e : Worn) (i : Bag) (w : W)
      → (equip_item_from call old new e i w).0 ≡ some (true, none)
      → (lookup j (equip_item_from call old new e i w).1.equip
          ≡ (if j == new then some (record (Bag.get old i) { slot = new }) else lookup j e.equip))
        × (lookup j (equip_item_from call old new e i w).2.inv
            ≡ (if j == old then none else lookup j i.inv))
  unfolding equip_item_from Bag.remove set rollback sync
  equip_item_effect old new j e i w h = elim (Option-cases (lookup old i.inv)) [
    | inl missing ↦ ground arith
    | inr (x, ex) ↦ ground (
      arith,
      lookup-insert j new (record (Bag.get old i) { slot = new }) e.equip,
      lookup-erase j old i.inv,
    )
  ]

  -- Where taking an item off succeeds, and the inventory then refuses it, but accepts the rollback,
  -- `unEquipItem` reports the refusal, and the item is not put back: its slot of the equipment is empty,
  -- and it lies in the inventory, at the number of the equipment's slot.
  pub un_equip_rollback :
      (old new : ℕ) (x : Item) (err : Option Error) (e e' : Worn) (i i' : Bag) (w w' w'' : W)
      → lookup old e.equip ≡ some x
      → remove call old e w ≡ ((true, none), e', w')
      → Bag.set call new (record x { slot = new }) i w' ≡ ((false, err), i', w'')
      → (Bag.set call old (record x { slot = old }) i' w'').0 ≡ (true, none)
      → ((un_equip call old new e i w).0 ≡ some (false, err))
        × (lookup old (un_equip call old new e i w).1.equip ≡ none)
        × (lookup old (un_equip call old new e i w).2.inv ≡ some (record x { slot = old }))
  unfolding un_equip Bag.set remove rollback
  un_equip_rollback old new x err e e' i i' w w' w'' ex hr hs hb =
      ground (
        arith,
        lookup-insert old old (record x { slot = old }) i'.inv,
        lookup-erase old old e.equip,
      )
