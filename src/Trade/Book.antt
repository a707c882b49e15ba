-- ===== src/Trade/Book.antt =====
-- The state of trades: `TradeState` and `TradeItemOffer` of cmd/gameserver/context/session.go, the
-- players that the handlers of cmd/gameserver/packet/trade.go find by their index, and their helpers.
use freya.Common.Signed.{ℤ, pos}
use freya.Common.Maps.{GoMap, lookup, insert}
use freya.Common.{
  ℕ, Bool, true, false, ◌&&◌, ◌||◌, not, Option, none, some, List, [], ◌∷◌, ◌==◌, if◌then◌else◌,
}
use freya.Inventory.Item.{Item}
use freya.Inventory.Bag.{Bag}

-- `TradeStateNone`, `TradeStatePending`, `TradeStateOpen`, and the roles.
pub data TradeStatus : Type 0 where
  trade_none trade_pending trade_open : TradeStatus

pub data TradeRole : Type 0 where
  role_none requester target : TradeRole

pub record Offer : Type 0 where
  pub item : Item
  pub trade_slot : ℕ  -- uint16

pub record TradeState : Type 0 where
  pub status : TradeStatus
  pub role : TradeRole
  pub opponent_user_idx : ℕ  -- uint16
  pub opponent_character_id : ℤ  -- int32
  pub items : List Offer
  pub alz : ℕ  -- uint64
  pub submitted : Bool
  pub destination_slots : List ℕ

-- `context.TradeState{}`
abbrev pub no_trade : TradeState
no_trade = record {
  status = trade_none;
  role = role_none;
  opponent_user_idx = 0;
  opponent_character_id = pos 0;
  items = [];
  alz = 0;
  submitted = false;
  destination_slots = [];
}

-- What the handlers use of a `Context` whose character is set.
pub record Player : Type 0 where
  pub character_id : ℤ  -- int32
  pub alz : ℕ  -- uint64
  pub bag : Bag
  pub trade : TradeState

-- The players by `UserIdx`: `GetSession` and `context.Parse` both succeed for those in the map.
abbrev pub World : Type 0
World = GoMap Player

abbrev pub is_none : TradeStatus → Bool
is_none trade_none = true
is_none _ = false

abbrev pub is_pending : TradeStatus → Bool
is_pending trade_pending = true
is_pending _ = false

abbrev pub is_open : TradeStatus → Bool
is_open trade_open = true
is_open _ = false

abbrev pub is_requester : TradeRole → Bool
is_requester requester = true
is_requester _ = false

abbrev pub is_target : TradeRole → Bool
is_target target = true
is_target _ = false

-- `tradeOfferExists`
unfoldable pub trade_offer_exists : List Offer → ℕ → ℕ → Bool
trade_offer_exists [] source_slot trade_slot = false
trade_offer_exists (offer ∷ offers) source_slot trade_slot =
    (offer.item.slot == source_slot || offer.trade_slot == trade_slot)
    || trade_offer_exists offers source_slot trade_slot

-- `tradeOfferIndex` and the removal at the index: the first offer of both slots, and the others.
unfoldable pub take_offer : List Offer → ℕ → ℕ → Option (Offer × List Offer)
take_offer [] trade_slot source_slot = none
take_offer (offer ∷ offers) trade_slot source_slot =
    let rest = take_offer offers trade_slot source_slot in
    if offer.trade_slot == trade_slot && offer.item.slot == source_slot
    then some (offer, offers)
    else elim rest [ none ↦ none | some (found, others) ↦ some (found, offer ∷ others) ]

-- `tradePair`: the player, the opponent's index, the opponent.
unfoldable pub trade_pair : ℕ → World → Option (Player × ℕ × Player)
trade_pair u w = elim (lookup u w) [
  | none ↦ none
  | some me ↦
      let v = me.trade.opponent_user_idx in
      if not (is_open me.trade.status) || v == u
      then none
      else elim (lookup v w) [ none ↦ none | some peer ↦ some (me, v, peer) ]
]

-- Writes the trades of two players back, under both locks.
abbrev pub put_both : ℕ → Player → ℕ → Player → World → World
put_both u me v peer w = insert v peer (insert u me w)

-- `context.Trade = context.TradeState{}`
abbrev pub without_trade : Player → Player
without_trade p = record p { trade = no_trade }
