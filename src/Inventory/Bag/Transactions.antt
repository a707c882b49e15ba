-- ===== src/Inventory/Bag/Transactions.antt =====
-- The methods of share/models/inventory/inventory.go that wait for the master server: what they change,
-- and that they change nothing unless they report success.
use freya.Common.Maps.{lookup, erase, lookup-erase}
use freya.Common.{
  Option-cases, ℕ, ◌≡◌, ◌≢◌, ◌⊎◌, inl, inr, refl, true, false, none, some, List, [], ◌∷◌, map,
  contains, All, if◌then◌else◌, arith,
}
use freya.Inventory.Item.{Item, Items, eq_item_iff}
use freya.Inventory.Sync.{Call, answered, sell_request}
use freya.Inventory.Bag.{
  Bag, check_sold, erase_all, settle, settle_alz, set, purchase, sell, consume_skill_book,
  consume_one,
}

module _ {W : Type 0} (call : Call W) where
  -- `Set` changes nothing unless it returns true and no error.
  set_atomic :
      (slot : ℕ) (item : Item) (b : Bag) (w : W)
      → ((set call slot item b w).0 ≡ (true, none)) ⊎ ((set call slot item b w).1 ≡ b)
  unfolding set
  set_atomic slot item b w = ground arith

  purchase_atomic :
      (item : Item) (price : ℕ) (b : Bag) (w : W)
      → ((purchase call item price b w).0.0 ≡ true) ⊎ ((purchase call item price b w).1 ≡ b)
  unfolding purchase settle_alz
  purchase_atomic item price b w = ground arith

  sell_atomic :
      (items : List Item) (price : ℕ) (b : Bag) (w : W)
      → ((sell call items price b w).0.0 ≡ true) ⊎ ((sell call items price b w).1 ≡ b)
  unfolding sell settle_alz
  sell_atomic items price b w = ground arith

  consume_skill_book_atomic :
      (slot item_id : ℕ) (skill : ℕ × ℕ × ℕ) (b : Bag) (w : W)
      → ((consume_skill_book call slot item_id skill b w).0 ≡ (true, none))
        ⊎ ((consume_skill_book call slot item_id skill b w).1 ≡ b)
  unfolding consume_skill_book settle
  consume_skill_book_atomic slot item_id skill b w = ground arith

  consume_one_atomic :
      (slot : ℕ) (b : Bag) (w : W)
      → ((consume_one call slot b w).0.1 ≡ true) ⊎ ((consume_one call slot b w).1 ≡ b)
  unfolding consume_one
  consume_one_atomic slot b w = ground arith

  -- `Set`, `Purchase`, `Sell`, `ConsumeSkillBook` and `ConsumeOne` leave the inventory as it was unless
  -- they report success, on every path: refused by a test, not connected, failed or refused by the
  -- server.
  pub transactions_atomic :
      (slot id price : ℕ) (item : Item) (items : List Item) (skill : ℕ × ℕ × ℕ) (b : Bag) (w : W)
      → (((set call slot item b w).0 ≡ (true, none)) ⊎ ((set call slot item b w).1 ≡ b))
        × (((purchase call item price b w).0.0 ≡ true) ⊎ ((purchase call item price b w).1 ≡ b))
        × (((sell call items price b w).0.0 ≡ true) ⊎ ((sell call items price b w).1 ≡ b))
        × (((consume_skill_book call slot id skill b w).0 ≡ (true, none))
            ⊎ ((consume_skill_book call slot id skill b w).1 ≡ b))
        × (((consume_one call slot b w).0.1 ≡ true) ⊎ ((consume_one call slot b w).1 ≡ b))
  transactions_atomic slot id price item items skill b w = (
    set_atomic slot item b w,
    purchase_atomic item price b w,
    sell_atomic items price b w,
    consume_skill_book_atomic slot id skill b w,
    consume_one_atomic slot b w,
  )

-- `Sell` erases exactly the slots that are listed.
pub lookup-erase_all :
    (items : List Item) (j : ℕ) (inv : Items)
    → lookup j (erase_all items inv)
      ≡ (if contains (map (λ item. item.slot) items) j then none else lookup j inv)
unfolding erase_all
lookup-erase_all [] j inv = refl
lookup-erase_all (item ∷ items) j inv =
    ground (arith, lookup-erase_all items j (erase item.slot inv), lookup-erase j item.slot inv)

-- No two items of the list lie in one slot, and none in a slot seen before.
abbrev pub AreApart : List Item → List ℕ → Type 0
AreApart [] seen = Unit
AreApart (item ∷ items) seen = (contains seen item.slot ≡ false) × AreApart items (item.slot ∷ seen)

abbrev pub AreStored : List Item → Items → Type 0
AreStored items inv = All (λ item. lookup item.slot inv ≡ some item) items

-- The test of `Sell` lets pass only items that are stored just so, each in a slot of its own.
pub check_sold_sound :
    (items : List Item) (seen : List ℕ) (inv : Items)
    → check_sold items seen inv ≡ none
    → AreStored items inv × AreApart items seen
unfolding check_sold
check_sold_sound [] seen inv h = (tt, tt)
check_sold_sound (item ∷ items) seen inv h = elim (Option-cases (lookup item.slot inv)) [
  | inl missing ↦ ground arith
  | inr (stored, e) ↦
      ground (arith, eq_item_iff stored item, check_sold_sound items (item.slot ∷ seen) inv)
]

pub check_sold_complete :
    (items : List Item) (seen : List ℕ) (inv : Items)
    → AreStored items inv
    → AreApart items seen
    → check_sold items seen inv ≡ none
unfolding check_sold
check_sold_complete [] seen inv h a = refl
check_sold_complete (item ∷ items) seen inv h a =
    rw (h.0, check_sold)
      (ground
        (arith, eq_item_iff item item, check_sold_complete items (item.slot ∷ seen) inv h.1 a.1))

module _ {W : Type 0} (call : Call W) where
  -- `Sell` goes through where there is a price, a connection, items that are stored as listed and
  -- apart, and a server that accepts; it returns the server's Alz.
  pub sell_succeeds :
      (item : Item) (items : List Item) (price alz : ℕ) (b : Bag) (w : W)
      → price ≢ 0
      → b.link.connected ≡ true
      → AreStored (item ∷ items) b.inv
      → AreApart (item ∷ items) []
      → (call (sell_request b.link.server_id b.link.character (item ∷ items) price) w).0
        ≡ answered true alz
      → (sell call (item ∷ items) price b w).0 ≡ (true, alz, none)
  unfolding sell settle_alz
  sell_succeeds item items price alz b w hp hc hs ha hr =
      ground (arith, check_sold_complete (item ∷ items) [] b.inv hs ha)

  -- A sale that goes through sold items that were stored as listed, each in a slot of its own; their
  -- slots are empty after it and every other slot is as it was.
  pub sell_effect :
      (items : List Item) (price : ℕ) (b : Bag) (w : W) (j : ℕ)
      → (sell call items price b w).0.0 ≡ true
      → AreStored items b.inv
        × AreApart items []
        × (lookup j (sell call items price b w).1.inv
            ≡ (if contains (map (λ item. item.slot) items) j then none else lookup j b.inv))
  unfolding sell settle_alz
  sell_effect [] price b w j h = cc
  sell_effect (item ∷ items) price b w j h =
      elim (Option-cases (check_sold (item ∷ items) [] b.inv)) [
        | inl passed ↦
            let sound = check_sold_sound (item ∷ items) [] b.inv passed in
            ground (arith, sound, lookup-erase_all (item ∷ items) j b.inv)
        | inr (e, refused) ↦ ground arith
      ]
