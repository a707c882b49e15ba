-- ===== src/Inventory/Bag/Slotted.antt =====
-- The invariant of `Inventory` (share/models/inventory/inventory.go): an item knows the slot it lies in.
use freya.Common.Signed.{ℤ, pred_ℤ}
use freya.Common.Maps.{lookup, insert, erase, lookup-insert, lookup-erase}
use freya.Common.{ℕ, ◌≡◌, ◌≢◌, inl, inr, refl, none, some, List, [], ◌∷◌, arith, Option-cases}
use freya.Inventory.Item.{Item, Items}
use freya.Inventory.Sync.{Call}
use freya.Inventory.Bag.{
  Bag, erase_all, settle, settle_alz, set, purchase, sell, consume_skill_book, consume_one, stack,
  remove, set_local, remove_local, get,
}

-- Every item that is found lies in the slot that it names.
abbrev pub IsSlotted : Items → Type 0
IsSlotted inv = (j : ℕ) (item : Item) → lookup j inv ≡ some item → item.slot ≡ j

pub insert-IsSlotted :
    (slot : ℕ) (item : Item) (inv : Items)
    → item.slot ≡ slot
    → IsSlotted inv
    → IsSlotted (insert slot item inv)
insert-IsSlotted slot item inv e h j found p =
    ground (arith, lookup-insert j slot item inv, h j found)

pub erase-IsSlotted : (slot : ℕ) (inv : Items) → IsSlotted inv → IsSlotted (erase slot inv)
erase-IsSlotted slot inv h j found p = ground (arith, lookup-erase j slot inv, h j found)

erase_all-IsSlotted :
    (items : List Item) (inv : Items) → IsSlotted inv → IsSlotted (erase_all items inv)
unfolding erase_all
erase_all-IsSlotted [] inv h = h
erase_all-IsSlotted (item ∷ items) inv h =
    erase_all-IsSlotted items (erase item.slot inv) (erase-IsSlotted item.slot inv h)

-- The methods of `Inventory` that take an item or a slot, as one type of operations.
pub data Operation : Type 0 where
  op_set : ℕ → Item → Operation
  op_purchase : Item → ℕ → Operation
  op_sell : List Item → ℕ → Operation
  op_learn : ℕ → ℕ → ℕ × ℕ × ℕ → Operation
  op_consume : ℕ → Operation
  op_stack : ℕ → ℤ → Operation
  op_remove : ℕ → Operation
  op_set_local : Item → Operation
  op_remove_local : ℕ → Operation

module _ {W : Type 0} (call : Call W) where
  pub perform : Operation → Bag → W → Bag × W
  perform (op_set slot item) b w = let r = set call slot item b w in (r.1, r.2)
  perform (op_purchase item price) b w = let r = purchase call item price b w in (r.1, r.2)
  perform (op_sell items price) b w = let r = sell call items price b w in (r.1, r.2)
  perform (op_learn slot id skill) b w =
      let r = consume_skill_book call slot id skill b w in (r.1, r.2)
  perform (op_consume slot) b w = let r = consume_one call slot b w in (r.1, r.2)
  perform (op_stack slot total) b w = let r = stack call slot total b w in (r.1, r.2)
  perform (op_remove slot) b w = let r = remove call slot b w in (r.1, r.2)
  perform (op_set_local item) b w = (set_local item b, w)
  perform (op_remove_local slot) b w = (remove_local slot b, w)

-- What the callers see to: `Set` is given an item that names the slot, `Stack` a slot that is taken.
abbrev pub IsProper : Operation → Bag → Type 0
IsProper (op_set slot item) b = item.slot ≡ slot
IsProper (op_stack slot total) b = lookup slot b.inv ≢ none
IsProper _ b = Unit

-- The invariant of a bag, shut, so that the tactics carry it as it stands.
Keeps : Bag → Type 0
Keeps b = IsSlotted b.inv

Keeps-insert :
    (slot : ℕ) (item : Item) (b : Bag)
    → item.slot ≡ slot
    → Keeps b
    → Keeps (record b { inv = insert slot item b.inv })
unfolding Keeps
Keeps-insert slot item b e h = insert-IsSlotted slot item b.inv e h

Keeps-erase : (slot : ℕ) (b : Bag) → Keeps b → Keeps (record b { inv = erase slot b.inv })
unfolding Keeps
Keeps-erase slot b h = erase-IsSlotted slot b.inv h

Keeps-erase_all :
    (items : List Item) (b : Bag) → Keeps b → Keeps (record b { inv = erase_all items b.inv })
unfolding Keeps
Keeps-erase_all items b h = erase_all-IsSlotted items b.inv h

Keeps-slot :
    (slot : ℕ) (item : Item) (b : Bag) → Keeps b → lookup slot b.inv ≡ some item → item.slot ≡ slot
unfolding Keeps
Keeps-slot slot item b h e = h slot item e

Keeps-stack :
    (slot : ℕ) (item : Item) (b : Bag)
    → item.slot ≡ slot
    → Keeps b
    → Keeps (record b { inv = insert slot item (erase slot b.inv) })
unfolding Keeps
Keeps-stack slot item b e h =
    insert-IsSlotted slot item (erase slot b.inv) e (erase-IsSlotted slot b.inv h)

module _ {W : Type 0} (call : Call W) where
  perform-Keeps :
      (op : Operation) (b : Bag) (w : W) → IsProper op b → Keeps b → Keeps (perform call op b w).0
  unfolding perform set purchase sell consume_skill_book consume_one stack remove set_local
      remove_local settle settle_alz get
  perform-Keeps (op_set slot item) b w p h = ground (arith, Keeps-insert slot item b p h)
  perform-Keeps (op_purchase item price) b w p h =
      ground (arith, Keeps-insert item.slot item b refl h)
  perform-Keeps (op_sell items price) b w p h = ground (arith, Keeps-erase_all items b h)
  perform-Keeps (op_learn slot id skill) b w p h = ground (arith, Keeps-erase slot b h)
  perform-Keeps (op_consume slot) b w p h = elim (Option-cases (lookup slot b.inv)) [
    | inl missing ↦ ground arith
    | inr (item, e) ↦ ground (
      arith,
      Keeps-erase slot b h,
      Keeps-insert slot (record item { option = pred_ℤ item.option }) b (Keeps-slot slot item b h e)
          h,
    )
  ]
  perform-Keeps (op_stack slot total) b w p h = elim (Option-cases (lookup slot b.inv)) [
    | inl missing ↦ absurd (p missing)
    | inr (item, e) ↦
        ground (
          arith,
          Keeps-stack slot (record item { option = total }) b (Keeps-slot slot item b h e) h,
        )
  ]
  perform-Keeps (op_remove slot) b w p h = ground (arith, Keeps-erase slot b h)
  perform-Keeps (op_set_local item) b w p h = Keeps-insert item.slot item b refl h
  perform-Keeps (op_remove_local slot) b w p h = Keeps-erase slot b h

  -- Every method keeps each item in the slot that it names, whatever the server answers: `Set` if it
  -- is given an item that names the slot, `Stack` if the slot is taken, the others always.
  pub perform-IsSlotted :
      (op : Operation) (b : Bag) (w : W)
      → IsProper op b
      → IsSlotted b.inv
      → IsSlotted (perform call op b w).0.inv
  unfolding Keeps
  perform-IsSlotted op b w p h = perform-Keeps op b w p h
