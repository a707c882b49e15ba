-- ===== src/Inventory/Bag.antt =====
-- share/models/inventory/inventory.go: `Inventory`, one function for each method, which returns the
-- result, the new inventory and the new state of the master server. A method runs under the
-- inventory's lock, so it is one step; `Stack` reads before it locks, and is one step too where no
-- other goroutine writes between.
pub mod Transactions
pub mod Slotted
use freya.Common.Signed.{ℤ, pos, nonpos, pred_ℤ, eq_ℤ}
use freya.Common.Maps.{GoMap, lookup, insert, erase}
use freya.Common.{
  ℕ, ◌+◌, Bool, true, false, ◌&&◌, ◌||◌, not, Option, none, some, List, [], ◌∷◌, ◌++◌, map, ◌==◌,
  contains, is_some, if◌then◌else◌,
}
use freya.Inventory.Item.{Item, Items, no_item, eq_item, item_or_none}
use freya.Inventory.Sync.{
  Call, Link, Outcome, Error, is_nil, sync, Reply, failed, answered, Request, purchase_request,
  sell_request, learn_request, enchant_request, force_core_request, attach_request, add_item,
  stack_item, remove_item, swap_item, move_item, consume_item, not_ready, rpc_failed, slot_occupied,
  item_changed, listed_twice, no_skill_book, not_stackable, no_such_item, already_exists, no_target,
  invalid_enchant, target_is_core, core_listed_twice, no_core, invalid_force_target, no_material,
  material_duplicated, material_changed, same_slots, invalid_target, no_source, identity_changed,
}

pub record Bag : Type 0 where
  pub inv : Items
  pub link : Link

-- `Init`, and `Setup`.
pub init : Bag → Bag
init b = record b { inv = [] }

pub setup : Link → Bag → Bag
setup l b = record b { link = l }

-- `Get`
unfoldable pub get : ℕ → Bag → Item
get slot b = item_or_none (lookup slot b.inv)

-- `SetLocal`, `RemoveLocal`
unfoldable pub set_local : Item → Bag → Bag
set_local item b = record b { inv = insert item.slot item b.inv }

unfoldable pub remove_local : ℕ → Bag → Bag
remove_local slot b = record b { inv = erase slot b.inv }

-- The test of `Sell`, with the slots seen so far.
unfoldable pub check_sold : List Item → List ℕ → Items → Option Error
check_sold [] seen inv = none
check_sold (item ∷ items) seen inv =
    let rest = check_sold items (item.slot ∷ seen) inv in
    elim (lookup item.slot inv) [
      | none ↦ some item_changed
      | some stored ↦
          if not (eq_item stored item)
          then some item_changed
          else if contains seen item.slot
          then some listed_twice
          else rest
    ]

-- `for _, item := range items { delete(e.Inv, int(item.Slot)) }`
pub erase_all : List Item → Items → Items
erase_all [] inv = inv
erase_all (item ∷ items) inv = erase_all items (erase item.slot inv)

-- What a call of one's own returns: `false` and an error, `false`, or the change.
unfoldable pub settle : Reply → Bag → Bag → Outcome × Bag
settle failed old new = ((false, some rpc_failed), old)
settle (answered result alz) old new = if result then ((true, none), new) else ((false, none), old)

unfoldable pub settle_alz : Reply → Bag → Bag → (Bool × ℕ × Option Error) × Bag
settle_alz failed old new = ((false, 0, some rpc_failed), old)
settle_alz (answered result alz) old new =
    if result then ((true, alz, none), new) else ((false, alz, none), old)

abbrev pub refuse : {W : Type 0} → Error → Bag → W → Outcome × Bag × W
refuse e b w = ((false, some e), b, w)

module _ {W : Type 0} (call : Call W) where
  -- `Set`
  unfoldable pub set : ℕ → Item → Bag → W → Outcome × Bag × W
  set slot item b w =
      let ((ok, err), w') = sync call b.link add_item item none w in
      let done = is_nil err && ok in
      ((ok, err), (if done then record b { inv = insert slot item b.inv } else b), w')

  -- `Purchase`
  pub purchase : Item → ℕ → Bag → W → (Bool × ℕ × Option Error) × Bag × W
  purchase item price b w =
      let (reply, w') = call (purchase_request b.link.server_id b.link.character item price) w in
      let (out, b') = settle_alz reply b (record b { inv = insert item.slot item b.inv }) in
      if is_some (lookup item.slot b.inv)
      then ((false, 0, some slot_occupied), b, w)
      else if not b.link.connected
      then ((false, 0, some not_ready), b, w)
      else (out, b', w')

  -- `Sell`
  unfoldable pub sell : List Item → ℕ → Bag → W → (Bool × ℕ × Option Error) × Bag × W
  sell items price b w =
      let (reply, w') = call (sell_request b.link.server_id b.link.character items price) w in
      let (out, b') = settle_alz reply b (record b { inv = erase_all items b.inv }) in
      let done : (Bool × ℕ × Option Error) × Bag × W = elim (check_sold items [] b.inv) [
        | some e ↦ ((false, 0, some e), b, w)
        | none ↦ (out, b', w')
      ] in
      elim items [
        | [] ↦ ((false, 0, none), b, w)
        | i ∷ is ↦
            if price == 0
            then ((false, 0, none), b, w)
            else if not b.link.connected
            then ((false, 0, some not_ready), b, w)
            else done
      ]

  -- `ConsumeSkillBook`; a skill is its three fields.
  pub consume_skill_book : ℕ → ℕ → ℕ × ℕ × ℕ → Bag → W → Outcome × Bag × W
  consume_skill_book slot item_id skill b w =
      let (reply, w') =
        call (learn_request b.link.server_id b.link.character slot item_id skill) w in
      let (out, b') = settle reply b (record b { inv = erase slot b.inv }) in
      elim (lookup slot b.inv) [
        | none ↦ refuse no_skill_book b w
        | some item ↦
            if not (item.kind == item_id)
            then refuse no_skill_book b w
            else if not b.link.connected
            then refuse not_ready b w
            else (out, b', w')
      ]

  -- `ConsumeOne`, on the item found.
  consume_found : ℕ → Item → Bag → W → (Item × Bool × Option Error) × Bag × W
  consume_found slot item b w =
      let updated = record item { option = pred_ℤ item.option } in
      let ((ok, err), w') = sync call b.link consume_item item (some updated) w in
      let inv' =
        if eq_ℤ updated.option (pos 0) then erase slot b.inv else insert slot updated b.inv in
      if not (is_nil err) || not ok
      then ((no_item, false, err), b, w')
      else ((updated, true, none), record b { inv = inv' }, w')

  pub consume_one : ℕ → Bag → W → (Item × Bool × Option Error) × Bag × W
  unfolding consume_found
  consume_one slot b w = elim (lookup slot b.inv) [
    | none ↦ ((no_item, false, some not_stackable), b, w)
    | some item ↦
        if item.kind == 0 || nonpos item.option
        then ((no_item, false, some not_stackable), b, w)
        else if not b.link.connected
        then ((no_item, false, some not_ready), b, w)
        else consume_found slot item b w
  ]

  -- `Stack`
  pub stack : ℕ → ℤ → Bag → W → Outcome × Bag × W
  unfolding get
  stack slot total b w =
      let item = record (get slot b) { option = total } in
      let ((ok, err), w') = sync call b.link stack_item item none w in
      (
        (ok, err),
        (if is_nil err then record b { inv = insert slot item (erase slot b.inv) } else b),
        w',
      )

  -- `Remove`
  unfoldable pub remove : ℕ → Bag → W → Outcome × Bag × W
  remove slot b w = elim (lookup slot b.inv) [
    | none ↦ refuse no_such_item b w
    | some item ↦
        let ((ok, err), w') = sync call b.link remove_item item none w in
        ((ok, err), (if is_nil err then record b { inv = erase slot b.inv } else b), w')
  ]
