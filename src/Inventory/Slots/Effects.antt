-- ===== src/Inventory/Slots/Effects.antt =====
-- What `Swap` and `Move` of share/models/inventory/inventory.go do to the slots.
use freya.Common.Maps.{lookup, insert, erase, lookup-insert, lookup-erase}
use freya.Common.{ap, ℕ, ◌≡◌, ◌≢◌, true, false, none, some, ◌==◌, if◌then◌else◌, arith}
use freya.Inventory.Item.{Item}
use freya.Inventory.Sync.{Call, Outcome, sync, answered, item_request, move_item}
use freya.Inventory.Bag.{Bag}
use freya.Inventory.Bag.Slotted.{IsSlotted}
use freya.Inventory.Slots.{swap, move}

module _ {W : Type 0} (call : Call W) where
  -- Whenever `Swap` returns no error, the two items have changed places and know it, and every other
  -- slot is as it was.
  pub swap_effect :
      (old new j : ℕ) (x y : Item) (b : Bag) (w : W)
      → lookup old b.inv ≡ some x
      → lookup new b.inv ≡ some y
      → (swap call old new b w).0.1 ≡ none
      → lookup j (swap call old new b w).1.inv ≡ (
          if j == old
          then some (record y { slot = old })
          else if j == new
          then some (record x { slot = new })
          else lookup j b.inv)
  unfolding swap
  swap_effect old new j x y b w ex ey h = ground (
    arith,
    lookup-insert j old (record y { slot = old })
        (insert new (record x { slot = new }) (erase new (erase old b.inv))),
    lookup-insert j new (record x { slot = new }) (erase new (erase old b.inv)),
    lookup-erase j new (erase old b.inv),
    lookup-erase j old b.inv,
  )

  -- Whenever `Move` to a free slot returns no error, the item lies in the new slot and knows it, the
  -- old slot is empty, and every other slot is as it was.
  pub move_effect :
      (old new j : ℕ) (x : Item) (b : Bag) (w : W)
      → lookup old b.inv ≡ some x
      → lookup new b.inv ≡ none
      → (move call old new b w).0.1 ≡ none
      → lookup j (move call old new b w).1.inv ≡ (
          if j == new
          then some (record x { slot = new })
          else if j == old
          then none
          else lookup j b.inv)
  unfolding move
  move_effect old new j x b w ex en h = ground (
    arith,
    lookup-insert j new (record x { slot = new }) (erase old b.inv),
    lookup-erase j old b.inv,
  )

  -- A move that the server refuses without an error is reported as refused, and is carried out in
  -- memory all the same.
  pub move_refused :
      (old new : ℕ) (alz : ℕ) (x : Item) (b : Bag) (w : W)
      → lookup old b.inv ≡ some x
      → lookup new b.inv ≡ none
      → b.link.connected ≡ true
      → b.link.server_id ≢ 0
      → (call
          (item_request b.link.server_id b.link.character move_item x
            (some (record x { slot = new })))
          w).0
        ≡ answered false alz
      → ((move call old new b w).0 ≡ (false, none))
        × (lookup new (move call old new b w).1.inv ≡ some (record x { slot = new }))
  unfolding move sync
  move_refused old new alz x b w ex en hc hs hr =
      ground (arith, lookup-insert new new (record x { slot = new }) (erase old b.inv))

  -- Swapping two slots twice puts every slot back.
  pub swap-swap :
      (old new j : ℕ) (x y : Item) (b b' : Bag) (w w' : W)
      → IsSlotted b.inv
      → old ≢ new
      → lookup old b.inv ≡ some x
      → lookup new b.inv ≡ some y
      → swap call old new b w ≡ ((true, none), b', w')
      → (swap call old new b' w').0.1 ≡ none
      → lookup j (swap call old new b' w').1.inv ≡ lookup j b.inv
  swap-swap old new j x y b b' w w' hs ne ex ey h h' =
      let ok : (swap call old new b w).0.1 ≡ none = ap (λ (r : Outcome × Bag × W). r.0.1) h in
      let same : (swap call old new b w).1 ≡ b' = ap (λ (r : Outcome × Bag × W). r.1) h in
      let at = λ (k : ℕ). swap_effect old new k x y b w ex ey ok in
      let old' : lookup old b'.inv ≡ some (record y { slot = old }) =
        ground (arith, same, at old) in
      let new' : lookup new b'.inv ≡ some (record x { slot = new }) =
        ground (arith, same, at new) in
      ground (
        arith,
        same,
        at j,
        swap_effect old new j (record y { slot = old }) (record x { slot = new }) b' w' old' new'
            h',
        hs old x ex,
        hs new y ey,
      )
