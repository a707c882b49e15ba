-- ===== src/Trade/Completion.antt =====
-- The end of a trade in cmd/gameserver/packet/trade.go: `TradeRequestList` and `completeTrade`. The
-- master server, which moves the items and the money, is a parameter with a state of its own.
use freya.Common.Signed.{ℤ}
use freya.Common.Maps.{lookup, insert}
use freya.Common.{
  ℕ, Bool, true, ◌&&◌, ◌||◌, not, Option, none, some, List, [], ◌∷◌, length, ◌==◌, if◌then◌else◌,
}
use freya.Inventory.Item.{Item}
use freya.Inventory.Bag as Bag
use freya.Inventory.Bag.{Bag, set_local, remove_local}
use freya.Trade.Book.{Offer, Player, World, is_open, trade_pair, without_trade}
use freya.Trade.Messages.{trade_event, result_invalid, result_completed}
use freya.Trade.Handlers.{Outcome}

-- `TradeItemTransfer`, `TradeRequest` and `TradeResponse` of share/models/inventory/rpc.go.
pub record TradeItemTransfer : Type 0 where
  pub item : Item
  pub target_slot : ℕ

pub record TradeRequest : Type 0 where
  pub server : ℕ
  pub first_character : ℤ
  pub second_character : ℤ
  pub first_items : List TradeItemTransfer
  pub second_items : List TradeItemTransfer
  pub first_alz : ℕ
  pub second_alz : ℕ

-- `Call` fails, or fills the response: `Result`, `FirstAlz`, `SecondAlz`.
pub data TradeReply : Type 0 where
  trade_failed : TradeReply
  trade_answered : Bool → ℕ → ℕ → TradeReply

abbrev pub TradeCall : Type 0 → Type 0
TradeCall S = TradeRequest → S → TradeReply × S

-- What `completeTrade` has copied when it lets the locks go.
pub record Exchange : Type 0 where
  pub first : ℕ
  pub second : ℕ
  pub first_offers : List Offer
  pub second_offers : List Offer
  pub first_destinations : List ℕ
  pub second_destinations : List ℕ
  pub first_id : ℤ
  pub second_id : ℤ
  pub first_offered_alz : ℕ
  pub second_offered_alz : ℕ

-- `completeTrade`, up to the call.
unfoldable pub begin_exchange : ℕ → Player → ℕ → Player → Option Exchange
begin_exchange u me v peer =
    let first = me.trade in
    let second = peer.trade in
    if not (is_open first.status)
      || (not (is_open second.status)
          || (not first.submitted
              || (not second.submitted
                  || (not (length first.destination_slots == length second.items)
                      || not (length second.destination_slots == length first.items)))))
    then none
    else some record {
      first = u;
      second = v;
      first_offers = first.items;
      second_offers = second.items;
      first_destinations = first.destination_slots;
      second_destinations = second.destination_slots;
      first_id = me.character_id;
      second_id = peer.character_id;
      first_offered_alz = first.alz;
      second_offered_alz = second.alz;
    }

-- The offers with their destinations, of which there are as many.
unfoldable pub transfers : List Offer → List ℕ → List TradeItemTransfer
transfers (offer ∷ offers) (slot ∷ slots) =
    record { item = offer.item; target_slot = slot } ∷ transfers offers slots
transfers [] slots = []
transfers (offer ∷ offers) [] = []

unfoldable pub request_of : ℕ → Exchange → TradeRequest
unfolding transfers
request_of server x = record {
  server = server;
  first_character = x.first_id;
  second_character = x.second_id;
  first_items = transfers x.first_offers x.second_destinations;
  second_items = transfers x.second_offers x.first_destinations;
  first_alz = x.first_offered_alz;
  second_alz = x.second_offered_alz;
}

-- The loop that removes what a player gives, and the one that stores what it gets.
unfoldable pub give : List Offer → Bag → Bag
give [] b = b
give (offer ∷ offers) b = give offers (remove_local offer.item.slot b)

unfoldable pub receive : List TradeItemTransfer → Bag → Bag
receive [] b = b
receive (t ∷ ts) b = receive ts (set_local (record t.item { slot = t.target_slot }) b)

-- One player after the exchange.
unfoldable pub exchanged : List Offer → List TradeItemTransfer → ℕ → Player → Player
unfolding give receive
exchanged given got alz p = record (without_trade p) {
  alz = alz;
  bag = receive got (give given p.bag);
}

-- A player that is still there is changed.
unfoldable pub alter : ℕ → (Player → Player) → World → World
alter u f w = elim (lookup u w) [ none ↦ w | some p ↦ insert u (f p) w ]

-- `completeTrade` after the call, and `abortCompletedTrade`.
unfoldable pub finish_exchange : Exchange → TradeReply → World → Outcome
unfolding exchanged alter
finish_exchange x (trade_answered true first_alz second_alz) w = (
  alter x.second
      (exchanged x.second_offers (transfers x.first_offers x.second_destinations) second_alz)
      (alter x.first
        (exchanged x.first_offers (transfers x.second_offers x.first_destinations) first_alz) w),
  (x.first, trade_event x.second_id result_completed)
      ∷ (x.second, trade_event x.first_id result_completed)
      ∷ [],
)
finish_exchange x _ w = (
  alter x.second without_trade (alter x.first without_trade w),
  (x.first, trade_event x.second_id result_invalid)
      ∷ (x.second, trade_event x.first_id result_invalid)
      ∷ [],
)

-- Every destination is free in the inventory.
unfoldable pub are_free : List ℕ → Bag → Bool
unfolding Bag.get
are_free [] b = true
are_free (slot ∷ slots) b = (Bag.get slot b).kind == 0 && are_free slots b

-- `TradeRequestList`, on the open pair, up to the call of the master server: what it did, and the
-- exchange that it asks for, if it comes to that. The locks are free from there on.
unfoldable pub list_open : ℕ → Player → ℕ → Player → List ℕ → World → Outcome × Option Exchange
unfolding begin_exchange are_free
list_open u me v peer slots w =
    let me' = record me { trade = record me.trade { destination_slots = slots } } in
    let w' = insert u me' w in
    if not (is_open me.trade.status)
      || (not me.trade.submitted
          || (not (is_open peer.trade.status)
              || (not peer.trade.submitted || not (length slots == length peer.trade.items))))
    then ((w, []), none)
    else if not (are_free slots me.bag)
    then ((w, []), none)
    else if length peer.trade.destination_slots == length me.trade.items
    then ((w', []), begin_exchange u me' v peer)
    else ((w', []), none)

-- `TradeRequestList`, once the slots are read, up to the call.
unfoldable pub begin_list : ℕ → List ℕ → World → Outcome × Option Exchange
unfolding trade_pair list_open
begin_list u slots w = elim (trade_pair u w) [
  | none ↦ ((w, []), none)
  | some (me, v, peer) ↦ list_open u me v peer slots w
]

module _ {S : Type 0} (call : TradeCall S) (server : ℕ) where
  -- The call and the rest of `completeTrade`, in a run in which nothing happens to the players while
  -- the master server exchanges the items.
  unfoldable pub complete_trade : Outcome × Option Exchange → S → Outcome × S
  unfolding request_of finish_exchange
  complete_trade (o, none) s = (o, s)
  complete_trade (o, some x) s =
      let (reply, s') = call (request_of server x) s in (finish_exchange x reply o.0, s')

  -- `TradeRequestList` in such a run.
  unfoldable pub request_list : ℕ → List ℕ → World → S → Outcome × S
  unfolding complete_trade begin_list
  request_list u slots w s = complete_trade (begin_list u slots w) s
