-- ===== src/Trade/Offers.antt =====
-- What players put into a trade and take out of it: `TradeAddItem`, `TradeAddAlz` and `TradeRemoveItem` of
-- cmd/gameserver/packet/trade.go, once the packet is read.
use freya.Common.Signed.{ℤ, pos, negsuc}
use freya.Common.{
  ℕ, Bool, false, ◌&&◌, ◌||◌, not, none, some, List, [], ◌∷◌, ◌++◌, ltb, ◌==◌, if◌then◌else◌,
}
use freya.Inventory.Bag as Bag
use freya.Trade.Book.{
  Offer, Player, World, is_open, trade_offer_exists, take_offer, trade_pair, put_both,
}
use freya.Trade.Messages.{
  packet_result, trade_item, trade_alz, removed_item, trade_event, result_submit_cancel,
  result_add_success, result_remove_success, add_item_type, add_alz_type, remove_item_type,
}
use freya.Trade.Handlers.{Sent, Outcome, refuse}

abbrev trade_max_slot : ℕ
trade_max_slot = 255

-- The tests that `TradeAddItem`, `TradeAddAlz` and `TradeRemoveItem` share.
abbrev may_change : Player → Player → Bool
may_change me peer =
    is_open me.trade.status && (not me.trade.submitted && is_open peer.trade.status)

-- `peerContext.Trade.Submitted = false`, and the notification.
abbrev pub unsubmitted : Player → Player
unsubmitted peer = record peer { trade = record peer.trade { submitted = false } }

abbrev unsubmit_notice : ℕ → Player → List Sent
unsubmit_notice v peer =
    if peer.trade.submitted
    then (v, trade_event peer.character_id result_submit_cancel) ∷ []
    else []

-- `TradeAddItem`
unfoldable pub add_item : ℕ → ℕ → ℕ → World → Outcome
unfolding trade_pair trade_offer_exists Bag.get
add_item u source_slot trade_slot w =
    if ltb trade_max_slot source_slot || ltb trade_max_slot trade_slot
    then refuse u add_item_type w
    else elim (trade_pair u w) [
      | none ↦ refuse u add_item_type w
      | some (me, v, peer) ↦
          let item = Bag.get source_slot me.bag in
          let offer : Offer = record { item = item; trade_slot = trade_slot } in
          let me' = record me {
            trade = record me.trade { items = me.trade.items ++ (offer ∷ []) };
          } in
          if not (may_change me peer)
          then refuse u add_item_type w
          else if item.kind == 0 || trade_offer_exists me.trade.items source_slot trade_slot
          then refuse u add_item_type w
          else (
            put_both u me' v (unsubmitted peer) w,
            (u, packet_result add_item_type result_add_success)
                ∷ (v, trade_item item trade_slot)
                ∷ unsubmit_notice v peer,
          )
    ]

-- `TradeAddAlz`
unfoldable pub add_alz : ℕ → ℤ → World → Outcome
unfolding trade_pair
add_alz u (negsuc n) w = refuse u add_alz_type w
add_alz u (pos amount) w = elim (trade_pair u w) [
  | none ↦ refuse u add_alz_type w
  | some (me, v, peer) ↦
      if not (may_change me peer) || ltb me.alz amount then refuse u add_alz_type w else (
        put_both u (record me { trade = record me.trade { alz = amount } }) v (unsubmitted peer) w,
        (u, packet_result add_alz_type result_add_success)
            ∷ (v, trade_alz amount)
            ∷ unsubmit_notice v peer,
      )
]

-- `TradeRemoveItem`
unfoldable pub remove_item : ℕ → ℕ → ℕ → World → Outcome
unfolding trade_pair take_offer
remove_item u trade_slot inventory_slot w = elim (trade_pair u w) [
  | none ↦ refuse u remove_item_type w
  | some (me, v, peer) ↦
      if not (may_change me peer)
      then refuse u remove_item_type w
      else elim (take_offer me.trade.items trade_slot inventory_slot) [
        | none ↦ refuse u remove_item_type w
        | some (offer, others) ↦ (
          put_both u (record me { trade = record me.trade { items = others } }) v (unsubmitted peer)
              w,
          (u, packet_result remove_item_type result_remove_success)
              ∷ (v, removed_item offer.item offer.trade_slot)
              ∷ unsubmit_notice v peer,
        )
      ]
]
