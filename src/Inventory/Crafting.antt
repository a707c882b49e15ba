-- ===== src/Inventory/Crafting.antt =====
-- share/models/inventory/inventory.go: the methods of `Inventory` that transform an item and use others
-- up: `Enchant`, `ForceCoreEnchant`, `Attach` and `AttachWithTarget`.
pub mod Effects
use freya.Common.Signed.{ℤ, pos, nonpos, pred_ℤ, eq_ℤ}
use freya.Common.Maps.{GoMap, lookup, insert, erase}
use freya.Common.{
  is_empty, ℕ, ◌+◌, Bool, true, false, ◌&&◌, ◌||◌, not, Option, none, some, List, [], ◌∷◌, ◌++◌,
  map, ◌==◌, contains, is_some, if◌then◌else◌,
}
use freya.Inventory.Item.{Item, Items, no_item, eq_item, item_or_none}
use freya.Inventory.Bag.{Bag, settle, refuse, erase_all}
use freya.Inventory.Sync.{
  Call, Link, Outcome, Error, is_nil, sync, Reply, failed, answered, Request, purchase_request,
  enchant_request, force_core_request, attach_request, not_ready, rpc_failed, no_target,
  invalid_enchant, target_is_core, core_listed_twice, no_core, invalid_force_target, no_material,
  material_duplicated, material_changed, same_slots, invalid_target, no_source, identity_changed,
}

-- The loop of `Enchant` that collects the cores.
unfoldable pub collect_cores : ℕ → List ℕ → List ℕ → Items → Option Error × List Item
collect_cores target [] seen inv = (none, [])
collect_cores target (slot ∷ slots) seen inv =
    let (err, cores) = collect_cores target slots (slot ∷ seen) inv in
    if slot == target
    then (some target_is_core, [])
    else if contains seen slot
    then (some core_listed_twice, [])
    else elim (lookup slot inv) [
      | none ↦ (some no_core, [])
      | some core ↦ if core.kind == 0 then (some no_core, []) else (err, core ∷ cores)
    ]

-- The loop of `ForceCoreEnchant` that tests the materials.
unfoldable pub check_materials : List Item → List ℕ → Items → Option Error
check_materials [] seen inv = none
check_materials (m ∷ ms) seen inv =
    let rest = check_materials ms (m.slot ∷ seen) inv in
    if m.kind == 0
    then some no_material
    else if contains seen m.slot
    then some material_duplicated
    else elim (lookup m.slot inv) [
      | none ↦ some material_changed
      | some stored ↦ if not (eq_item stored m) then some material_changed else rest
    ]

-- Its last loop: a core is removed, of any other material one unit is used.
pub use_material : List ℕ → Item → Items → Items
use_material core_slots m inv =
    if contains core_slots m.slot || nonpos m.option
    then erase m.slot inv
    else if eq_ℤ (pred_ℤ m.option) (pos 0)
    then erase m.slot inv
    else insert m.slot (record m { option = pred_ℤ m.option }) inv

pub use_materials : List ℕ → List Item → Items → Items
use_materials core_slots [] inv = inv
use_materials core_slots (m ∷ ms) inv = use_materials core_slots ms (use_material core_slots m inv)

abbrev pub scroll : Option Item → List Item
scroll none = []
scroll (some item) = item ∷ []

-- The slots of `coreSlots`.
abbrev pub slots_of : List Item → List ℕ
slots_of = map (λ item. item.slot)

module _ {W : Type 0} (call : Call W) where
  -- `Enchant`, on the target found.
  enchant_found : Item → ℕ → ℕ → List ℕ → Bag → W → Outcome × Bag × W
  enchant_found target target_slot new_kind core_slots b w =
      let (err, cores) = collect_cores target_slot core_slots [] b.inv in
      let (reply, w') =
        call (enchant_request b.link.server_id b.link.character target new_kind cores) w in
      let inv' = erase_all cores (insert target_slot (record target { kind = new_kind }) b.inv) in
      let (out, b') = settle reply b (record b { inv = inv' }) in
      elim err [ some e ↦ refuse e b w | none ↦ (out, b', w') ]

  unfoldable pub enchant : ℕ → ℕ → List ℕ → Bag → W → Outcome × Bag × W
  unfolding enchant_found
  enchant target_slot new_kind core_slots b w = elim (lookup target_slot b.inv) [
    | none ↦ refuse no_target b w
    | some target ↦
        if target.kind == 0
        then refuse no_target b w
        else if new_kind == 0 || is_empty core_slots
        then refuse invalid_enchant b w
        else if not b.link.connected
        then refuse not_ready b w
        else enchant_found target target_slot new_kind core_slots b w
  ]

  -- `ForceCoreEnchant`, past the tests of the target.
  force_core_ready :
      Item → Item → Option Item → Option Item → List Item → Bag → W → Outcome × Bag × W
  force_core_ready target new_target random_scroll specific_scroll cores b w =
      let materials = scroll random_scroll ++ (scroll specific_scroll ++ cores) in
      let request =
        force_core_request b.link.server_id b.link.character target new_target random_scroll
          specific_scroll cores in
      let (reply, w') = call request w in
      let inv' = use_materials (slots_of cores) materials (insert target.slot new_target b.inv) in
      let (out, b') = settle reply b (record b { inv = inv' }) in
      elim (check_materials materials (target.slot ∷ []) b.inv) [
        | some e ↦ refuse e b w
        | none ↦ (out, b', w')
      ]

  unfoldable pub force_core_enchant :
      Item → Item → Option Item → Option Item → List Item → Bag → W → Outcome × Bag × W
  unfolding force_core_ready
  force_core_enchant target new_target random_scroll specific_scroll cores b w =
      elim (lookup target.slot b.inv) [
        | none ↦ refuse invalid_force_target b w
        | some stored ↦
            if not (eq_item stored target)
              || (new_target.kind == 0
                  || (not (new_target.slot == target.slot)
                      || (not (new_target.serials == target.serials)
                          || (not (new_target.expire == target.expire) || is_empty cores))))
            then refuse invalid_force_target b w
            else if not b.link.connected
            then refuse not_ready b w
            else force_core_ready target new_target random_scroll specific_scroll cores b w
      ]

  -- `attachLocked`, on the two items found.
  attach_found : ℕ → ℕ → Item → Item → Item → Bag → W → Outcome × Bag × W
  attach_found source_slot target_slot new_target source target b w =
      let request =
        attach_request b.link.server_id b.link.character source target new_target.kind new_target in
      let (reply, w') = call request w in
      let inv' = insert target_slot new_target (erase source_slot b.inv) in
      let (out, b') = settle reply b (record b { inv = inv' }) in
      if source.kind == 0
      then refuse no_source b w
      else if target.kind == 0
      then refuse no_target b w
      else if not (new_target.serials == target.serials) || not (new_target.expire == target.expire)
      then refuse identity_changed b w
      else if not b.link.connected
      then refuse not_ready b w
      else (out, b', w')

  -- `AttachWithTarget`, which is `attachLocked` under the lock. A missing item is one of kind 0 to
  -- the tests, which then refuse.
  unfoldable pub attach_with_target : ℕ → ℕ → Item → Bag → W → Outcome × Bag × W
  unfolding attach_found
  attach_with_target source_slot target_slot new_target b w =
      let source = item_or_none (lookup source_slot b.inv) in
      let target = item_or_none (lookup target_slot b.inv) in
      if source_slot == target_slot
      then refuse same_slots b w
      else if new_target.kind == 0 || not (new_target.slot == target_slot)
      then refuse invalid_target b w
      else attach_found source_slot target_slot new_target source target b w

  -- `Attach`
  pub attach : ℕ → ℕ → ℕ → Bag → W → Outcome × Bag × W
  unfolding attach_with_target
  attach source_slot target_slot new_kind b w = elim (lookup target_slot b.inv) [
    | none ↦ refuse no_target b w
    | some target ↦
        attach_with_target source_slot target_slot (record target { kind = new_kind }) b w
  ]
