-- ===== src/Inventory/Crafting/Effects.antt =====
-- What the crafting methods of share/models/inventory/inventory.go do to the slots.
use freya.Common.Signed.{pred_ℤ}
use freya.Common.Maps.{lookup, insert, erase, lookup-insert, lookup-erase}
use freya.Common.{
  ℕ, ◌≡◌, ◌≢◌, inl, inr, refl, true, false, Option, none, some, List, [], ◌∷◌, ◌++◌, ◌==◌, contains,
  if◌then◌else◌, arith, Option-cases,
}
use freya.Inventory.Item.{eq_item_iff, Item, Items, item_or_none}
use freya.Inventory.Sync.{Call}
use freya.Inventory.Bag.{Bag, settle}
use freya.Inventory.Bag.Slotted.{IsSlotted}
use freya.Inventory.Bag.Transactions.{lookup-erase_all}
use freya.Inventory.Crafting.{
  collect_cores, check_materials, use_material, use_materials, scroll, slots_of, enchant,
  force_core_enchant, attach_with_target,
}

-- The cores that `Enchant` collects lie in the slots that it was given, none of them the target's.
collect_cores_sound :
    (target : ℕ) (slots seen : List ℕ) (inv : Items)
    → IsSlotted inv
    → (collect_cores target slots seen inv).0 ≡ none
    → (slots_of (collect_cores target slots seen inv).1 ≡ slots) × (contains slots target ≡ false)
unfolding collect_cores
collect_cores_sound target [] seen inv hs h = (refl, refl)
collect_cores_sound target (slot ∷ slots) seen inv hs h = elim (Option-cases (lookup slot inv)) [
  | inl missing ↦ ground arith
  | inr (core, e) ↦
      ground (arith, collect_cores_sound target slots (slot ∷ seen) inv hs, hs slot core e)
]

module _ {W : Type 0} (call : Call W) where
  -- After an enchantment the target has its new kind, the slots of the cores are empty, and every other
  -- slot is as it was; the target was no core.
  pub enchant_effect :
      (target_slot new_kind j : ℕ) (core_slots : List ℕ) (target : Item) (b : Bag) (w : W)
      → IsSlotted b.inv
      → lookup target_slot b.inv ≡ some target
      → (enchant call target_slot new_kind core_slots b w).0 ≡ (true, none)
      → (contains core_slots target_slot ≡ false)
        × (lookup j (enchant call target_slot new_kind core_slots b w).1.inv ≡ (
            if contains core_slots j
            then none
            else if j == target_slot
            then some (record target { kind = new_kind })
            else lookup j b.inv))
  unfolding enchant settle
  enchant_effect target_slot new_kind j core_slots target b w hs ht h =
      let cores = (collect_cores target_slot core_slots [] b.inv).1 in
      let enchanted = insert target_slot (record target { kind = new_kind }) b.inv in
      elim (Option-cases (collect_cores target_slot core_slots [] b.inv).0) [
        | inl passed ↦ ground (
          arith,
          collect_cores_sound target_slot core_slots [] b.inv hs passed,
          lookup-erase_all cores j enchanted,
          lookup-insert j target_slot (record target { kind = new_kind }) b.inv,
        )
        | inr (e, refused) ↦ ground arith
      ]

  -- After an attachment the source's slot is empty, the target's holds the new item, which has the
  -- serials and the expiry of the old one, and every other slot is as it was.
  pub attach_effect :
      (source_slot target_slot j : ℕ) (new_target : Item) (b : Bag) (w : W)
      → (attach_with_target call source_slot target_slot new_target b w).0 ≡ (true, none)
      → let old = item_or_none (lookup target_slot b.inv) in
        (source_slot ≢ target_slot)
        × (new_target.serials ≡ old.serials)
        × (new_target.expire ≡ old.expire)
        × (lookup j (attach_with_target call source_slot target_slot new_target b w).1.inv ≡ (
            if j == target_slot
            then some new_target
            else if j == source_slot
            then none
            else lookup j b.inv))
  unfolding attach_with_target settle
  attach_effect source_slot target_slot j new_target b w h = ground (
    arith,
    lookup-insert j target_slot new_target (erase source_slot b.inv),
    lookup-erase j source_slot b.inv,
  )

lookup-use_material :
    (core_slots : List ℕ) (m : Item) (j : ℕ) (inv : Items)
    → m.slot ≢ j
    → lookup j (use_material core_slots m inv) ≡ lookup j inv
unfolding use_material
lookup-use_material core_slots m j inv ne = ground (
  arith,
  lookup-erase j m.slot inv,
  lookup-insert j m.slot (record m { option = pred_ℤ m.option }) inv,
)

-- Using materials up touches only their slots.
lookup-use_materials :
    (core_slots : List ℕ) (ms : List Item) (j : ℕ) (inv : Items)
    → contains (slots_of ms) j ≡ false
    → lookup j (use_materials core_slots ms inv) ≡ lookup j inv
unfolding use_materials
lookup-use_materials core_slots [] j inv h = refl
lookup-use_materials core_slots (m ∷ ms) j inv h = ground (
  arith,
  lookup-use_materials core_slots ms j (use_material core_slots m inv),
  lookup-use_material core_slots m j inv,
)

-- The test of the materials keeps them out of the slots seen.
check_materials-apart :
    (ms : List Item) (seen : List ℕ) (inv : Items) (j : ℕ)
    → check_materials ms seen inv ≡ none
    → contains seen j ≡ true
    → contains (slots_of ms) j ≡ false
unfolding check_materials
check_materials-apart [] seen inv j h s = refl
check_materials-apart (m ∷ ms) seen inv j h s = elim (Option-cases (lookup m.slot inv)) [
  | inl missing ↦ ground arith
  | inr (stored, e) ↦ ground (arith, check_materials-apart ms (m.slot ∷ seen) inv j)
]

module _ {W : Type 0} (call : Call W) where
  -- After a force-core enchantment the target, which was stored as given, is replaced by the new item,
  -- of the same slot and serials, and every slot that is neither the target's nor a material's is as it
  -- was.
  pub force_core_effect :
      (target new_target : Item) (random specific : Option Item) (cores : List Item) (b : Bag)
      (w : W) (j : ℕ)
      → (force_core_enchant call target new_target random specific cores b w).0 ≡ (true, none)
      → contains (slots_of (scroll random ++ (scroll specific ++ cores))) j ≡ false
      → (lookup target.slot b.inv ≡ some target)
        × (new_target.slot ≡ target.slot)
        × (new_target.serials ≡ target.serials)
        × (lookup target.slot
              (force_core_enchant call target new_target random specific cores b w).1.inv
            ≡ some new_target)
        × (lookup j (force_core_enchant call target new_target random specific cores b w).1.inv
            ≡ (if j == target.slot then some new_target else lookup j b.inv))
  unfolding force_core_enchant settle
  force_core_effect target new_target random specific cores b w j h hj =
      let ms = scroll random ++ (scroll specific ++ cores) in
      let start = insert target.slot new_target b.inv in
      elim (Option-cases (lookup target.slot b.inv)) [
        | inl missing ↦ ground arith
        | inr (stored, e) ↦ elim (Option-cases (check_materials ms (target.slot ∷ []) b.inv)) [
          | inr (x, refused) ↦ ground arith
          | inl passed ↦
              let apart : contains (slots_of ms) target.slot ≡ false =
                check_materials-apart ms (target.slot ∷ []) b.inv target.slot passed
                  (ground arith) in
              ground (
                arith,
                eq_item_iff stored target,
                lookup-use_materials (slots_of cores) ms target.slot start apart,
                lookup-use_materials (slots_of cores) ms j start hj,
                lookup-insert target.slot target.slot new_target b.inv,
                lookup-insert j target.slot new_target b.inv,
              )
        ]
      ]
