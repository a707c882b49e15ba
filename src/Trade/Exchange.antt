-- ===== src/Trade/Exchange.antt =====
-- What an exchange does to the two inventories (`completeTrade` of cmd/gameserver/packet/trade.go).
use freya.Common.Maps.{lookup, lookup-insert, lookup-erase}
use freya.Common.{
  AreDistinct, ℕ, ◌≡◌, refl, ap, ◌∙◌, true, false, none, some, List, [], ◌∷◌, map, length, contains,
  All, arith, if◌then◌else◌,
}
use freya.Inventory.Bag.{Bag, set_local, remove_local}
use freya.Trade.Book.{Offer, Player}
use freya.Trade.Completion.{TradeItemTransfer, transfers, give, receive, exchanged}

-- The slots that the items of the offers lie in, and those that transfers lead to.
abbrev pub sources : List Offer → List ℕ
sources = map (λ offer. offer.item.slot)

abbrev pub targets : List TradeItemTransfer → List ℕ
targets = map (λ t. t.target_slot)

lookup-give :
    (offers : List Offer) (j : ℕ) (b : Bag)
    → lookup j (give offers b).inv ≡ (if contains (sources offers) j then none else lookup j b.inv)
unfolding give remove_local
lookup-give [] j b = refl
lookup-give (offer ∷ offers) j b = ground (
  arith,
  lookup-give offers j (remove_local offer.item.slot b),
  lookup-erase j offer.item.slot b.inv,
)

lookup-receive :
    (ts : List TradeItemTransfer) (j : ℕ) (b : Bag)
    → contains (targets ts) j ≡ false
    → lookup j (receive ts b).inv ≡ lookup j b.inv
unfolding receive set_local
lookup-receive [] j b h = refl
lookup-receive (t ∷ ts) j b h =
    lookup-receive ts j (set_local (record t.item { slot = t.target_slot }) b) (ground (arith, h))
    ∙ ground
        (arith, lookup-insert j t.target_slot (record t.item { slot = t.target_slot }) b.inv, h)

-- An item lies where its transfer leads.
abbrev pub IsArrived : Bag → TradeItemTransfer → Type 0
IsArrived b t = lookup t.target_slot b.inv ≡ some (record t.item { slot = t.target_slot })

receive-IsArrived :
    (ts : List TradeItemTransfer) (b : Bag)
    → AreDistinct (targets ts)
    → All (IsArrived (receive ts b)) ts
unfolding receive set_local
receive-IsArrived [] b h = tt
receive-IsArrived (t ∷ ts) b h =
    let b' = set_local (record t.item { slot = t.target_slot }) b in
    (
      lookup-receive ts t.target_slot b' h.0
          ∙ ground (
            arith,
            lookup-insert t.target_slot t.target_slot (record t.item { slot = t.target_slot })
                b.inv,
          ),
      receive-IsArrived ts b' h.1,
    )

-- The bag of a player before and after: what it gets has arrived under the new numbers, what it gave is
-- gone, and no other slot has changed.
pub record IsSwapped (given : List Offer) (got : List TradeItemTransfer) (b b' : Bag) : Type 0 where
  pub arrived : All (IsArrived b') got
  pub left :
      (j : ℕ)
      → contains (targets got) j ≡ false
      → contains (sources given) j ≡ true
      → lookup j b'.inv ≡ none
  pub stayed :
      (j : ℕ)
      → contains (targets got) j ≡ false
      → contains (sources given) j ≡ false
      → lookup j b'.inv ≡ lookup j b.inv

pub exchanged-IsSwapped :
    (given : List Offer) (got : List TradeItemTransfer) (alz : ℕ) (p : Player)
    → AreDistinct (targets got)
    → IsSwapped given got p.bag (exchanged given got alz p).bag
unfolding exchanged
exchanged-IsSwapped given got alz p h = record {
  arrived = receive-IsArrived got (give given p.bag) h;
  left = λ j k g.
      ground (arith, lookup-receive got j (give given p.bag) k, lookup-give given j p.bag, g);
  stayed = λ j k g.
      ground (arith, lookup-receive got j (give given p.bag) k, lookup-give given j p.bag, g);
}

pub targets-transfers :
    (offers : List Offer) (slots : List ℕ)
    → length slots ≡ length offers
    → targets (transfers offers slots) ≡ slots
unfolding transfers
targets-transfers [] [] h = refl
targets-transfers [] (slot ∷ slots) h = absurd (omega (arith, h))
targets-transfers (offer ∷ offers) [] h = absurd (omega (arith, h))
targets-transfers (offer ∷ offers) (slot ∷ slots) h =
    ap (λ l. slot ∷ l) (targets-transfers offers slots (omega (arith, h)))
