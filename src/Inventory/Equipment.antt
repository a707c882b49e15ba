-- ===== src/Inventory/Equipment.antt =====
-- share/models/inventory/equipment.go: `Equipment` and its moves to and from the inventory. `none` in
-- place of an outcome is a panic: an error's text is read where the error is nil, or the list of
-- slots is empty.
pub mod Slotted
pub mod Effects
use freya.Common.Maps.{lookup, insert, erase}
use freya.Common.{
  ℕ, Bool, true, false, ◌&&◌, not, Option, none, some, List, [], ◌∷◌, ◌==◌, if◌then◌else◌,
}
use freya.Inventory.Item.{Item, Items, no_item, item_or_none}
use freya.Inventory.Sync.{
  Call, Link, Outcome, Error, is_nil, sync, equip_item, un_equip_item, swap_equipment_item,
  move_equipment_item, no_such_item, already_exists, rollback_failed,
}
use freya.Inventory.Bag as Bag
use freya.Inventory.Bag.{Bag}

pub record Worn : Type 0 where
  pub equip : Items
  pub link : Link

-- `Init`
pub init : Worn → Worn
init e = record e { equip = [] }

-- `Setup`
pub setup : Link → Worn → Worn
setup link e = record e { link = link }

-- `Get`
pub get : ℕ → Worn → Item
get slot e = item_or_none (lookup slot e.equip)

-- The result of a failed rollback, whose text names both errors.
abbrev pub both_errors : Option Error → Option Error → Option Outcome
both_errors none err2 = none
both_errors (some x) none = none
both_errors (some x) (some y) = some (false, some rollback_failed)

-- The states that a move between the two passes on.
abbrev pub Step : Type 0 → Type 0
Step W = Option Outcome × Worn × Bag × W

abbrev pub EquipmentStep : Type 0 → Type 0
EquipmentStep W = Outcome × Worn × W

module _ {W : Type 0} (call : Call W) where
  -- `Set`
  unfoldable pub set : ℕ → Item → Worn → W → EquipmentStep W
  set slot item e w =
      let placed = record item { slot = slot } in
      let ((ok, err), w') = sync call e.link equip_item placed none w in
      (
        (ok, err),
        (if is_nil err && ok then record e { equip = insert slot placed e.equip } else e),
        w',
      )

  -- `Remove`
  unfoldable pub remove : ℕ → Worn → W → EquipmentStep W
  remove slot e w = elim (lookup slot e.equip) [
    | none ↦ ((false, some no_such_item), e, w)
    | some item ↦
        let ((ok, err), w') = sync call e.link un_equip_item (record item { slot = slot }) none w in
        ((ok, err), (if is_nil err && ok then record e { equip = erase slot e.equip } else e), w')
  ]

  -- `Swap`
  swap_found : ℕ → ℕ → Item → Item → Worn → W → EquipmentStep W
  swap_found old new old_found new_found e w =
      let old_item = record old_found { slot = new } in
      let new_item = record new_found { slot = old } in
      let ((ok, err), w') = sync call e.link swap_equipment_item old_item (some new_item) w in
      let equip' = insert old new_item (insert new old_item (erase new (erase old e.equip))) in
      ((ok, err), (if is_nil err then record e { equip = equip' } else e), w')

  pub swap : ℕ → ℕ → Worn → W → EquipmentStep W
  unfolding swap_found
  swap old new e w = elim (lookup old e.equip) [
    | none ↦ ((false, some no_such_item), e, w)
    | some old_item ↦ elim (lookup new e.equip) [
      | none ↦ ((false, some no_such_item), e, w)
      | some new_item ↦ swap_found old new old_item new_item e w
    ]
  ]

  -- `MoveItem`
  pub move_item : ℕ → ℕ → Worn → W → EquipmentStep W
  move_item old new e w = elim (lookup old e.equip) [
    | none ↦ ((false, some no_such_item), e, w)
    | some found ↦ elim (lookup new e.equip) [
      | some taken ↦ ((false, some already_exists), e, w)
      | none ↦
          let ((ok, err), w') =
            sync call e.link move_equipment_item (record found { slot = old })
              (some (record no_item { slot = new })) w in
          let equip' = insert new (record found { slot = new }) (erase old e.equip) in
          ((ok, err), (if is_nil err && ok then record e { equip = equip' } else e), w')
    ]
  ]

  -- The end of `EquipItem` and of `unEquipItem`, after a `Set` that returned `out`: on failure the item
  -- goes into the inventory at `old`.
  rollback : ℕ → Item → Outcome → Worn → Bag → W → Step W
  rollback old item out e i w =
      let ((ok2, err2), i', w') = Bag.set call old (record item { slot = old }) i w in
      if out.0
      then (some (true, none), e, i, w)
      else if not ok2
      then (both_errors out.1 err2, e, i', w')
      else (some out, e, i', w')

  -- `EquipItem`
  unfoldable pub equip_item_from : ℕ → ℕ → Worn → Bag → W → Step W
  unfolding get rollback
  equip_item_from old new e i w =
      let item = Bag.get old i in
      let ((ok, err), i', w') = Bag.remove call old i w in
      let (out, e', w'') = set new (record item { slot = new }) e w' in
      if not ((get new e).kind == 0)
      then (some (false, some already_exists), e, i, w)
      else if not ok
      then (some (ok, err), e, i', w')
      else rollback old item out e' i' w''

  -- `UnEquipItem`, which is `unEquipItem` under the lock.
  pub un_equip : ℕ → ℕ → Worn → Bag → W → Step W
  unfolding rollback
  un_equip old new e i w = elim (lookup old e.equip) [
    | none ↦ (some (false, some no_such_item), e, i, w)
    | some item ↦
        let ((ok, err), e', w') = remove old e w in
        let (out, i', w'') = Bag.set call new (record item { slot = new }) i w' in
        if not ok then (some (ok, err), e', i, w') else rollback old item out e' i' w''
  ]

  -- The end of `SwapEquipItem`, after `unEquipItem`.
  swap_equip_end : ℕ → Item → Step W → Step W
  swap_equip_end new new_item (none, e, i, w) = (none, e, i, w)
  swap_equip_end new new_item (some (ok, err), e, i, w) =
      let (out, e', w') = set new (record new_item { slot = new }) e w in
      if not ok then (some (ok, err), e, i, w) else (some out, e', i, w')

  -- `SwapEquipItem`
  pub swap_equip_item : ℕ → ℕ → Worn → Bag → W → Step W
  unfolding get swap_equip_end un_equip
  swap_equip_item old new e i w =
      let new_item = Bag.get old i in
      let ((ok, err), i', w') = Bag.remove call old i w in
      if (get new e).kind == 0
      then (some (false, some no_such_item), e, i, w)
      else if new_item.kind == 0
      then (some (false, some no_such_item), e, i, w)
      else if not ok
      then (some (ok, err), e, i', w')
      else swap_equip_end new new_item (un_equip new old e i' w')

  -- The loop of `EquipAccessory`: from the right, each item moves one slot to the right if it can.
  shift : ℕ → List ℕ → Worn → W → Worn × W
  unfolding move_item
  shift slot [] e w = (e, w)
  shift slot (next ∷ slots) e w =
      let (e', w') = shift next slots e w in
      let (out, e'', w'') = move_item slot next e' w' in (e'', w'')

  -- The end of `EquipAccessory`, once the last slot is free.
  accessory_end : ℕ → ℕ → List ℕ → Item → Step W → Step W
  unfolding shift
  accessory_end old first slots item (none, e, i, w) = (none, e, i, w)
  accessory_end old first slots item (some (ok, err), e, i, w) =
      let ((ok2, err2), i', w2) = Bag.set call old item i w in
      let (e', w') = shift first slots e w in
      let (out, e'', w'') = set first (record item { slot = first }) e' w' in
      if ok
      then (some out, e'', i, w'')
      else if not ok2
      then (both_errors err err2, e, i', w2)
      else (some (ok, err), e, i', w2)

  last_of : ℕ → List ℕ → ℕ
  last_of slot [] = slot
  last_of slot (next ∷ slots) = last_of next slots

  -- `EquipAccessory`
  pub equip_accessory : ℕ → List ℕ → Worn → Bag → W → Step W
  unfolding get accessory_end equip_item_from un_equip last_of
  equip_accessory old [] e i w = (none, e, i, w)
  equip_accessory old (first ∷ slots) e i w =
      let item = Bag.get old i in
      let ((ok, err), i', w') = Bag.remove call old i w in
      let last = last_of first slots in
      let freed =
        if (get last e).kind == 0
        then (some (true, none), e, i', w')
        else un_equip last old e i' w' in
      if (get first e).kind == 0
      then equip_item_from old first e i w
      else if not ok
      then (some (ok, err), e, i', w')
      else accessory_end old first slots item freed
