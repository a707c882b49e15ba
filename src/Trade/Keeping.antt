-- ===== src/Trade/Keeping.antt =====
-- The handlers of an open pair keep the players paired (cmd/gameserver/packet/trade.go).
use freya.Common.Signed.{ℤ, pos, negsuc}
use freya.Common.{
  ℕ, ◌≡◌, refl, inl, inr, Bool, not, ◌||◌, ◌&&◌, some, Option-cases, if_both, ltb, ◌==◌, List,
}
use freya.Inventory.Bag as Bag
use freya.Trade.Book.{
  Player, World, is_open, trade_pair, put_both, without_trade, take_offer, trade_offer_exists,
}
use freya.Trade.Messages.{result_submit, result_submit_cancel, result_trade_cancel}
use freya.Trade.Handlers.{Outcome, Sent, close_open, close_event}
use freya.Trade.Offers.{unsubmitted, add_item, add_alz, remove_item}
use freya.Trade.Pairing.{IsPaired, AreTwo}
use freya.Trade.Linking.{tie, relink, Found, trade_pair-Found, put-Found, insert-Found}

-- The players of an outcome are paired.
pub record Keeps (o : Outcome) : Type 0 where
  pub kept : IsPaired o.0

pub leaves : {w : World} {sent : List Sent} → IsPaired w → Keeps (w, sent)
leaves h = record { kept = h }

abandoned :
    (u : ℕ) (me : Player) (v : ℕ) (peer : Player)
    → AreTwo u (without_trade me) v (without_trade peer)
abandoned u me v peer = inl (refl, refl)

close_open-Keeps :
    (u : ℕ) (me : Player) (v : ℕ) (peer : Player) (event : ℕ) (w : World)
    → IsPaired w
    → Found u me v peer w
    → Keeps (close_open u me v peer event w)
unfolding close_open
close_open-Keeps u me v peer event w h f =
    if_both Keeps (event == result_submit)
      (if_both Keeps me.trade.submitted (leaves h)
        (leaves (insert-Found u me _ v peer w h f (relink u me _ v peer peer refl refl f.linked))))
      (if_both Keeps (event == result_submit_cancel)
        (leaves (insert-Found u me _ v peer w h f (relink u me _ v peer peer refl refl f.linked)))
        (leaves (put-Found u me _ v peer _ w h f (abandoned u me v peer))))

-- `event != ResultTradeSubmitCancel && event != ResultTradeCancel && event != ResultTradeSubmit`
abbrev is_unknown : ℕ → Bool
is_unknown event =
    not (event == result_submit_cancel || (event == result_trade_cancel || event == result_submit))

abbrev cannot_change : Player → Player → Bool
cannot_change me peer =
    not (is_open me.trade.status && (not me.trade.submitted && is_open peer.trade.status))

abbrev out_of_range : ℕ → ℕ → Bool
out_of_range source_slot trade_slot = ltb 255 source_slot || ltb 255 trade_slot

pub close_event-Keeps : (u event : ℕ) (w : World) → IsPaired w → Keeps (close_event u event w)
unfolding close_event
close_event-Keeps u event w h = elim (Option-cases (trade_pair u w)) [
  | inl e ↦ rw (e, close_event) (if_both Keeps (is_unknown event) (leaves h) (leaves h))
  | inr ((me, v, peer), e) ↦
      rw (e, close_event)
        (if_both Keeps (is_unknown event) (leaves h) (
          if_both Keeps (not (is_open me.trade.status) || not (is_open peer.trade.status))
            (leaves h)
            (close_open-Keeps u me v peer event w h (trade_pair-Found u me v peer w h e))))
]

-- The end of the handlers that change what a player offers.
offer_changed :
    (u : ℕ) (me p' : Player) (v : ℕ) (peer : Player) (w : World)
    → IsPaired w
    → trade_pair u w ≡ some (me, v, peer)
    → tie me ≡ tie p'
    → {sent : List Sent} → Keeps (put_both u p' v (unsubmitted peer) w, sent)
offer_changed u me p' v peer w h e t =
    let f = trade_pair-Found u me v peer w h e in
    leaves (
      put-Found u me p' v peer (unsubmitted peer) w h f
        (inr (relink u me p' v peer (unsubmitted peer) t refl f.linked)))

pub add_item-Keeps :
    (u source_slot trade_slot : ℕ) (w : World)
    → IsPaired w
    → Keeps (add_item u source_slot trade_slot w)
unfolding add_item
add_item-Keeps u source_slot trade_slot w h = elim (Option-cases (trade_pair u w)) [
  | inl e ↦
      rw (e, add_item) (if_both Keeps (out_of_range source_slot trade_slot) (leaves h) (leaves h))
  | inr ((me, v, peer), e) ↦
      rw (e, add_item)
        (if_both Keeps (out_of_range source_slot trade_slot) (leaves h) (
          if_both Keeps (cannot_change me peer) (leaves h) (
            if_both Keeps
              ((Bag.get source_slot me.bag).kind == 0
                || trade_offer_exists me.trade.items source_slot trade_slot)
              (leaves h) (offer_changed u me _ v peer w h e refl))))
]

pub add_alz-Keeps : (u : ℕ) (amount : ℤ) (w : World) → IsPaired w → Keeps (add_alz u amount w)
unfolding add_alz
add_alz-Keeps u (negsuc n) w h = leaves h
add_alz-Keeps u (pos amount) w h = elim (Option-cases (trade_pair u w)) [
  | inl e ↦ rw (e, add_alz) (leaves h)
  | inr ((me, v, peer), e) ↦
      rw (e, add_alz)
        (if_both Keeps (cannot_change me peer || ltb me.alz amount) (leaves h)
          (offer_changed u me _ v peer w h e refl))
]

pub remove_item-Keeps :
    (u trade_slot inventory_slot : ℕ) (w : World)
    → IsPaired w
    → Keeps (remove_item u trade_slot inventory_slot w)
unfolding remove_item
remove_item-Keeps u trade_slot inventory_slot w h = elim (Option-cases (trade_pair u w)) [
  | inl e ↦ rw (e, remove_item) (leaves h)
  | inr ((me, v, peer), e) ↦
      elim (Option-cases (take_offer me.trade.items trade_slot inventory_slot)) [
        | inl missing ↦
            rw (e, missing, remove_item)
              (if_both Keeps (cannot_change me peer) (leaves h) (leaves h))
        | inr ((offer, others), taken) ↦
            rw (e, taken, remove_item)
              (if_both Keeps (cannot_change me peer) (leaves h)
                (offer_changed u me _ v peer w h e refl))
      ]
]
