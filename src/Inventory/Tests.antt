-- ===== src/Inventory/Tests.antt =====
-- An inventory under a server that accepts, or refuses, every request: the theorems at inputs that meet
-- their hypotheses.
use freya.Common.Signed.{pos}
use freya.Common.Maps.{erase, lookup, insert}
use freya.Common.{
  not, suc, ℕ, ◌≡◌, ◌⊎◌, refl, true, false, none, some, [], ◌∷◌, contains, arith, if◌then◌else◌,
  ◌==◌, map,
}
use freya.Inventory.Item.{Item}
use freya.Inventory.Sync.{Call, answered, sync}
use freya.Inventory.Bag.{
  check_sold, settle, settle_alz, Bag, sell, set, consume_one, purchase, consume_skill_book,
}
use freya.Inventory.Bag.Transactions.{
  transactions_atomic, AreStored, AreApart, sell_succeeds, sell_effect,
}
use freya.Inventory.Bag.Slotted.{IsSlotted, op_stack, perform, perform-IsSlotted}
use freya.Inventory.Crafting.{collect_cores, check_materials, enchant, force_core_enchant}
use freya.Inventory.Crafting.Effects.{enchant_effect, force_core_effect}
use freya.Inventory.Bag as Bag
use freya.Inventory.Equipment as Equipment
use freya.Inventory.Equipment.{Worn, equip_item_from, un_equip}
use freya.Inventory.Equipment.Slotted.{methods-IsSlotted}
use freya.Inventory.Equipment.Effects.{equip_item_effect, un_equip_rollback}

abbrev accepts : Call (Unit {0})
accepts request w = (answered true 500, w)

abbrev refuses : Call (Unit {0})
refuses request w = (answered false 0, w)

abbrev sword : Item
sword = record { kind = 7; serials = 1; option = pos 3; slot = 4; expire = 0 }

abbrev core : Item
core = record { kind = 9; serials = 2; option = pos 2; slot = 6; expire = 0 }

abbrev bag : Bag
bag = record {
  inv = (4, sword) ∷ (6, core) ∷ [];
  link = record { connected = true; character = pos 11; server_id = 1 };
}

bag-IsSlotted : IsSlotted ((4, sword) ∷ (6, core) ∷ [])
unfolding lookup
bag-IsSlotted j item h = ground arith

transactions_atomic_example :
    (((set refuses 5 sword bag tt).0 ≡ (true, none)) ⊎ ((set refuses 5 sword bag tt).1 ≡ bag))
    × (((purchase refuses sword 50 bag tt).0.0 ≡ true)
        ⊎ ((purchase refuses sword 50 bag tt).1 ≡ bag))
    × (((sell refuses (sword ∷ []) 50 bag tt).0.0 ≡ true)
        ⊎ ((sell refuses (sword ∷ []) 50 bag tt).1 ≡ bag))
    × (((consume_skill_book refuses 5 7 (1, 1, 0) bag tt).0 ≡ (true, none))
        ⊎ ((consume_skill_book refuses 5 7 (1, 1, 0) bag tt).1 ≡ bag))
    × (((consume_one refuses 5 bag tt).0.1 ≡ true) ⊎ ((consume_one refuses 5 bag tt).1 ≡ bag))
transactions_atomic_example = transactions_atomic refuses 5 7 50 sword (sword ∷ []) (1, 1, 0) bag tt

sell_succeeds_example : (sell accepts (sword ∷ core ∷ []) 90 bag tt).0 ≡ (true, 500, none)
unfolding lookup
sell_succeeds_example =
    sell_succeeds accepts sword (core ∷ []) 90 500 bag tt (omega arith) refl (refl, (refl, tt))
      (refl, (refl, tt)) refl

sell_effect_example :
    AreStored (sword ∷ []) bag.inv
    × AreApart (sword ∷ []) []
    × (lookup 6 (sell accepts (sword ∷ []) 90 bag tt).1.inv ≡ (
        if contains (map (λ (item : Item). item.slot) (sword ∷ [])) 6
        then none
        else lookup 6 bag.inv))
unfolding lookup sell check_sold settle_alz
sell_effect_example = sell_effect accepts (sword ∷ []) 90 bag tt 6 refl

perform-IsSlotted_example : IsSlotted (perform accepts (op_stack 6 (pos 5)) bag tt).0.inv
unfolding lookup
perform-IsSlotted_example =
    perform-IsSlotted accepts (op_stack 6 (pos 5)) bag tt (λ e. cc e) bag-IsSlotted

enchant_effect_example :
    (contains (6 ∷ []) 4 ≡ false)
    × (lookup 4 (enchant accepts 4 8 (6 ∷ []) bag tt).1.inv ≡ (
        if contains (6 ∷ []) 4
        then none
        else if 4 == 4
        then some (record sword { kind = 8 })
        else lookup 4 bag.inv))
unfolding lookup enchant collect_cores settle
enchant_effect_example = enchant_effect accepts 4 8 4 (6 ∷ []) sword bag tt bag-IsSlotted refl refl

force_core_effect_example :
    let new_sword = record sword { option = pos 4 } in
    (lookup 4 bag.inv ≡ some sword)
    × (4 ≡ sword.slot)
    × (1 ≡ sword.serials)
    × (lookup 4 (force_core_enchant accepts sword new_sword none none (core ∷ []) bag tt).1.inv
        ≡ some new_sword)
    × (lookup 8 (force_core_enchant accepts sword new_sword none none (core ∷ []) bag tt).1.inv
        ≡ (if 8 == 4 then some new_sword else lookup 8 bag.inv))
unfolding lookup force_core_enchant check_materials settle
force_core_effect_example =
    force_core_effect accepts sword (record sword { option = pos 4 }) none none (core ∷ []) bag tt 8
      refl refl

abbrev helmet : Item
helmet = record { kind = 20; serials = 3; option = pos 1; slot = 2; expire = 0 }

abbrev worn : Worn
worn = record {
  equip = (2, helmet) ∷ [];
  link = record { connected = true; character = pos 11; server_id = 1 };
}

worn-IsSlotted : IsSlotted ((2, helmet) ∷ [])
unfolding lookup
worn-IsSlotted j item h = ground arith

methods-IsSlotted_example :
    IsSlotted (equip_item_from accepts 4 3 worn bag tt).1.equip
    × IsSlotted (equip_item_from accepts 4 3 worn bag tt).2.inv
methods-IsSlotted_example =
    (methods-IsSlotted accepts 4 3 (2 ∷ []) sword worn bag tt worn-IsSlotted bag-IsSlotted).4

equip_item_effect_example :
    (lookup 3 (equip_item_from accepts 4 3 worn bag tt).1.equip
      ≡ (if 3 == 3 then some (record (Bag.get 4 bag) { slot = 3 }) else lookup 3 worn.equip))
    × (lookup 3 (equip_item_from accepts 4 3 worn bag tt).2.inv
        ≡ (if 3 == 4 then none else lookup 3 bag.inv))
unfolding lookup equip_item_from Bag.get Bag.remove Equipment.set sync insert erase
equip_item_effect_example = equip_item_effect accepts 4 3 3 worn bag tt refl

-- Refuses its second request only.
abbrev second_refused : Call ℕ
second_refused request n = (answered (not (n == 1)) 0, suc n)

un_equip_rollback_example :
    ((un_equip second_refused 2 9 worn bag 0).0 ≡ some (false, none))
    × (lookup 2 (un_equip second_refused 2 9 worn bag 0).1.equip ≡ none)
    × (lookup 2 (un_equip second_refused 2 9 worn bag 0).2.inv ≡ some helmet)
unfolding lookup insert erase sync Equipment.remove set
un_equip_rollback_example =
    un_equip_rollback second_refused 2 9 helmet none worn (record worn { equip = [] }) bag bag 0 1 2
      refl refl refl refl
