-- ===== src/Inventory/Equipment/Slotted.antt =====
-- The invariant of share/models/inventory/equipment.go: worn and carried items know their slots.
use freya.Common.Maps.{lookup, insert, erase}
use freya.Common.{
  ℕ, ◌≡◌, refl, ap, ◌∙◌, inl, inr, Option, none, some, List, [], ◌∷◌, arith, Option-cases,
}
use freya.Inventory.Item.{Item, item_or_none}
use freya.Inventory.Sync.{Call, Outcome}
use freya.Inventory.Bag as Bag
use freya.Inventory.Bag.{Bag}
use freya.Inventory.Bag.Slotted.{IsSlotted, insert-IsSlotted, erase-IsSlotted}
use freya.Inventory.Equipment.{
  Worn, Step, set, remove, swap, move_item, rollback, equip_item_from, un_equip, swap_equip_end,
  swap_equip_item, shift, accessory_end, equip_accessory,
}

-- Shut, so that the tactics carry them as they stand.
KeepsWorn : Worn → Type 0
KeepsWorn e = IsSlotted e.equip

KeepsBag : Bag → Type 0
KeepsBag i = IsSlotted i.inv

KeepsStep : {W : Type 0} → Step W → Type 0
KeepsStep r = KeepsWorn r.1 × KeepsBag r.2

worn_insert :
    (slot : ℕ) (item : Item) (e : Worn)
    → item.slot ≡ slot
    → KeepsWorn e
    → KeepsWorn (record e { equip = insert slot item e.equip })
unfolding KeepsWorn
worn_insert slot item e p h = insert-IsSlotted slot item e.equip p h

worn_erase :
    (slot : ℕ) (e : Worn) → KeepsWorn e → KeepsWorn (record e { equip = erase slot e.equip })
unfolding KeepsWorn
worn_erase slot e h = erase-IsSlotted slot e.equip h

worn_swap :
    (old new : ℕ) (x y : Item) (e : Worn)
    → x.slot ≡ new
    → y.slot ≡ old
    → KeepsWorn e
    → KeepsWorn (record e { equip = insert old y (insert new x (erase new (erase old e.equip))) })
unfolding KeepsWorn
worn_swap old new x y e px py h =
    insert-IsSlotted old y _ py
      (insert-IsSlotted new x _ px (erase-IsSlotted new _ (erase-IsSlotted old e.equip h)))

worn_move :
    (old new : ℕ) (x : Item) (e : Worn)
    → x.slot ≡ new
    → KeepsWorn e
    → KeepsWorn (record e { equip = insert new x (erase old e.equip) })
unfolding KeepsWorn
worn_move old new x e px h = insert-IsSlotted new x _ px (erase-IsSlotted old e.equip h)

bag_insert :
    (slot : ℕ) (item : Item) (i : Bag)
    → item.slot ≡ slot
    → KeepsBag i
    → KeepsBag (record i { inv = insert slot item i.inv })
unfolding KeepsBag
bag_insert slot item i p h = insert-IsSlotted slot item i.inv p h

bag_erase : (slot : ℕ) (i : Bag) → KeepsBag i → KeepsBag (record i { inv = erase slot i.inv })
unfolding KeepsBag
bag_erase slot i h = erase-IsSlotted slot i.inv h

both :
    {W : Type 0} (o : Option Outcome) (e : Worn) (i : Bag) (w : W)
    → KeepsWorn e
    → KeepsBag i
    → KeepsStep (o, e, i, w)
unfolding KeepsStep
both o e i w he hi = (he, hi)

module _ {W : Type 0} (call : Call W) where
  set-Keeps :
      (slot : ℕ) (item : Item) (e : Worn) (w : W)
      → KeepsWorn e
      → KeepsWorn (set call slot item e w).1
  unfolding set
  set-Keeps slot item e w h =
      ground (arith, worn_insert slot (record item { slot = slot }) e refl h)

  remove-Keeps : (slot : ℕ) (e : Worn) (w : W) → KeepsWorn e → KeepsWorn (remove call slot e w).1
  unfolding remove
  remove-Keeps slot e w h = ground (arith, worn_erase slot e h)

  swap-Keeps : (old new : ℕ) (e : Worn) (w : W) → KeepsWorn e → KeepsWorn (swap call old new e w).1
  unfolding swap
  swap-Keeps old new e w h = elim (Option-cases (lookup old e.equip)) [
    | inl missing ↦ ground arith
    | inr (x, ex) ↦ elim (Option-cases (lookup new e.equip)) [
      | inl missing ↦ ground arith
      | inr (y, ey) ↦ ground (
        arith,
        worn_swap old new (record x { slot = new }) (record y { slot = old }) e refl refl h,
      )
    ]
  ]

  move_item-Keeps :
      (old new : ℕ) (e : Worn) (w : W) → KeepsWorn e → KeepsWorn (move_item call old new e w).1
  unfolding move_item
  move_item-Keeps old new e w h = elim (Option-cases (lookup old e.equip)) [
    | inl missing ↦ ground arith
    | inr (x, ex) ↦ ground (arith, worn_move old new (record x { slot = new }) e refl h)
  ]

  bag_set-Keeps :
      (slot : ℕ) (item : Item) (i : Bag) (w : W)
      → item.slot ≡ slot
      → KeepsBag i
      → KeepsBag (Bag.set call slot item i w).1
  unfolding Bag.set
  bag_set-Keeps slot item i w p h = ground (arith, bag_insert slot item i p h)

  bag_remove-Keeps :
      (slot : ℕ) (i : Bag) (w : W) → KeepsBag i → KeepsBag (Bag.remove call slot i w).1
  unfolding Bag.remove
  bag_remove-Keeps slot i w h = ground (arith, bag_erase slot i h)

  rollback-Keeps :
      (old : ℕ) (item : Item) (out : Outcome) (e : Worn) (i : Bag) (w : W)
      → KeepsWorn e
      → KeepsBag i
      → KeepsStep (rollback call old item out e i w)
  unfolding rollback
  rollback-Keeps old item out e i w he hi =
      grind (arith, both, bag_set-Keeps old (record item { slot = old }) i w refl hi)

  equip_item_from-Keeps :
      (old new : ℕ) (e : Worn) (i : Bag) (w : W)
      → KeepsWorn e
      → KeepsBag i
      → KeepsStep (equip_item_from call old new e i w)
  unfolding equip_item_from
  equip_item_from-Keeps old new e i w he hi =
      grind (arith, both, rollback-Keeps, set-Keeps, bag_remove-Keeps old i w hi)

  un_equip-Keeps :
      (old new : ℕ) (e : Worn) (i : Bag) (w : W)
      → KeepsWorn e
      → KeepsBag i
      → KeepsStep (un_equip call old new e i w)
  unfolding un_equip
  un_equip-Keeps old new e i w he hi = elim (Option-cases (lookup old e.equip)) [
    | inl missing ↦ grind (arith, both)
    | inr (x, ex) ↦ grind (
      arith,
      both,
      rollback-Keeps,
      remove-Keeps old e w he,
      bag_set-Keeps new (record x { slot = new }) i (remove call old e w).2 refl hi,
    )
  ]

  swap_equip_end-Keeps :
      (new : ℕ) (item : Item) (r : Step W)
      → KeepsStep r
      → KeepsStep (swap_equip_end call new item r)
  unfolding KeepsStep swap_equip_end
  swap_equip_end-Keeps new item (none, e, i, w) (he, hi) = (he, hi)
  swap_equip_end-Keeps new item (some (ok, err), e, i, w) (he, hi) =
      grind (arith, set-Keeps new (record item { slot = new }) e w he)

  swap_equip_item-Keeps :
      (old new : ℕ) (e : Worn) (i : Bag) (w : W)
      → KeepsWorn e
      → KeepsBag i
      → KeepsStep (swap_equip_item call old new e i w)
  unfolding swap_equip_item
  swap_equip_item-Keeps old new e i w he hi =
      grind (arith, both, swap_equip_end-Keeps, un_equip-Keeps, bag_remove-Keeps old i w hi)

  shift-Keeps :
      (slot : ℕ) (slots : List ℕ) (e : Worn) (w : W)
      → KeepsWorn e
      → KeepsWorn (shift call slot slots e w).0
  unfolding shift
  shift-Keeps slot [] e w h = h
  shift-Keeps slot (next ∷ slots) e w h =
      move_item-Keeps slot next _ _ (shift-Keeps next slots e w h)

  accessory_end-Keeps :
      (old first : ℕ) (slots : List ℕ) (item : Item) (r : Step W)
      → item.slot ≡ old
      → KeepsStep r
      → KeepsStep (accessory_end call old first slots item r)
  unfolding KeepsStep accessory_end
  accessory_end-Keeps old first slots item (none, e, i, w) p (he, hi) = (he, hi)
  accessory_end-Keeps old first slots item (some (ok, err), e, i, w) p (he, hi) =
      let shifted = shift call first slots e w in
      grind (
        arith,
        bag_set-Keeps old item i w p hi,
        shift-Keeps first slots e w he,
        set-Keeps first (record item { slot = first }) shifted.0 shifted.1,
      )

  accessory_filled-Keeps :
      (old : ℕ) (slots : List ℕ) (e : Worn) (i : Bag) (w : W)
      → (Bag.get old i).slot ≡ old
      → KeepsWorn e
      → KeepsBag i
      → KeepsStep (equip_accessory call old slots e i w)
  unfolding equip_accessory
  accessory_filled-Keeps old [] e i w p he hi = both none e i w he hi
  accessory_filled-Keeps old (first ∷ slots) e i w p he hi = grind (
    arith,
    both,
    bag_remove-Keeps old i w hi,
    equip_item_from-Keeps old first e i w he hi,
    accessory_end-Keeps,
    un_equip-Keeps,
  )

  accessory_missing-Keeps :
      (old : ℕ) (slots : List ℕ) (e : Worn) (i : Bag) (w : W)
      → lookup old i.inv ≡ none
      → KeepsWorn e
      → KeepsBag i
      → KeepsStep (equip_accessory call old slots e i w)
  unfolding equip_accessory Bag.remove
  accessory_missing-Keeps old [] e i w p he hi = both none e i w he hi
  accessory_missing-Keeps old (first ∷ slots) e i w p he hi =
      grind (arith, both, equip_item_from-Keeps old first e i w he hi)

  equip_accessory-Keeps :
      (old : ℕ) (slots : List ℕ) (e : Worn) (i : Bag) (w : W)
      → KeepsWorn e
      → KeepsBag i
      → KeepsStep (equip_accessory call old slots e i w)
  unfolding KeepsBag Bag.get
  equip_accessory-Keeps old slots e i w he hi = elim (Option-cases (lookup old i.inv)) [
    | inl missing ↦ accessory_missing-Keeps old slots e i w missing he hi
    | inr (x, ex) ↦
        accessory_filled-Keeps old slots e i w (ap (λ o. (item_or_none o).slot) ex ∙ hi old x ex) he
          hi
  ]

  -- No method of the equipment breaks the slots: where every worn and every carried item knows its own
  -- slot, this still holds after each method, whatever the server answers, failed transactions and
  -- rollbacks included.
  pub methods-IsSlotted :
      (old new : ℕ) (slots : List ℕ) (item : Item) (e : Worn) (i : Bag) (w : W)
      → IsSlotted e.equip
      → IsSlotted i.inv
      → IsSlotted (set call new item e w).1.equip
        × IsSlotted (remove call old e w).1.equip
        × IsSlotted (swap call old new e w).1.equip
        × IsSlotted (move_item call old new e w).1.equip
        × (IsSlotted (equip_item_from call old new e i w).1.equip
            × IsSlotted (equip_item_from call old new e i w).2.inv)
        × (IsSlotted (un_equip call old new e i w).1.equip
            × IsSlotted (un_equip call old new e i w).2.inv)
        × (IsSlotted (swap_equip_item call old new e i w).1.equip
            × IsSlotted (swap_equip_item call old new e i w).2.inv)
        × (IsSlotted (equip_accessory call old slots e i w).1.equip
            × IsSlotted (equip_accessory call old slots e i w).2.inv)
  unfolding KeepsStep KeepsWorn KeepsBag
  methods-IsSlotted old new slots item e i w he hi = (
    set-Keeps new item e w he,
    remove-Keeps old e w he,
    swap-Keeps old new e w he,
    move_item-Keeps old new e w he,
    equip_item_from-Keeps old new e i w he hi,
    un_equip-Keeps old new e i w he hi,
    swap_equip_item-Keeps old new e i w he hi,
    equip_accessory-Keeps old slots e i w he hi,
  )
