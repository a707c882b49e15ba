-- ===== src/Trade/Settlement.antt =====
-- The exchange from the packet `TRADE_REQUEST_LIST` to the inventories of both players, and the exchange
-- that the master server refuses (cmd/gameserver/packet/trade.go).
use freya.Common.Maps.{lookup, insert, lookup-insert}
use freya.Common.{
  AreDistinct, ℕ, ◌≡◌, ◌≢◌, refl, sym, ap, subst, ◌∙◌, true, false, some, List, length, arith,
}
use freya.Trade.Book.{Player, World, no_trade, is_open, trade_pair, put_both, without_trade}
use freya.Trade.Completion.{
  TradeReply, trade_failed, trade_answered, TradeCall, Exchange, begin_exchange, transfers,
  request_of, exchanged, alter, finish_exchange, are_free, complete_trade, list_open, begin_list,
  request_list,
}
use freya.Trade.Pairing.{IsPaired}
use freya.Trade.Linking.{trade_pair-Found}
use freya.Trade.Ending.{alter_both}
use freya.Trade.Exchange.{IsSwapped, exchanged-IsSwapped, targets-transfers}

-- The player that lists its slots is the last to do what the exchange waits for.
pub record IsReady (me peer : Player) (slots : List ℕ) : Type 0 where
  pub submitted : me.trade.submitted ≡ true
  pub peer_submitted : peer.trade.submitted ≡ true
  pub enough : length slots ≡ length peer.trade.items
  pub peer_enough : length peer.trade.destination_slots ≡ length me.trade.items
  pub free : are_free slots me.bag ≡ true
  pub distinct : AreDistinct slots
  pub peer_distinct : AreDistinct peer.trade.destination_slots

abbrev listed : Player → List ℕ → Player
listed me slots = record me { trade = record me.trade { destination_slots = slots } }

-- What both have agreed on.
abbrev pub agreed : ℕ → Player → ℕ → Player → List ℕ → Exchange
agreed u me v peer slots = record {
  first = u;
  second = v;
  first_offers = me.trade.items;
  second_offers = peer.trade.items;
  first_destinations = slots;
  second_destinations = peer.trade.destination_slots;
  first_id = me.character_id;
  second_id = peer.character_id;
  first_offered_alz = me.trade.alz;
  second_offered_alz = peer.trade.alz;
}

begin_agreed :
    (u : ℕ) (me : Player) (v : ℕ) (peer : Player) (slots : List ℕ)
    → IsReady me peer slots
    → is_open me.trade.status ≡ true
    → is_open peer.trade.status ≡ true
    → begin_exchange u (listed me slots) v peer ≡ some (agreed u me v peer slots)
unfolding begin_exchange
begin_agreed u me v peer slots r o o' =
    ground (arith, r.submitted, r.peer_submitted, r.enough, r.peer_enough, o, o')

module _ {S : Type 0} (call : TradeCall S) (server : ℕ) where
  list_ready :
      (u : ℕ) (me : Player) (v : ℕ) (peer : Player) (slots : List ℕ) (w : World) (s : S)
      → IsPaired w
      → trade_pair u w ≡ some (me, v, peer)
      → IsReady me peer slots
      → let x = agreed u me v peer slots in
        let (reply, s') = call (request_of server x) s in
        request_list call server u slots w s
        ≡ (finish_exchange x reply (insert u (listed me slots) w), s')
  unfolding request_list begin_list list_open complete_trade
  list_ready u me v peer slots w s h e r =
      let f = trade_pair-Found u me v peer w h e in
      let o' : is_open peer.trade.status ≡ true =
        subst (λ k. is_open k ≡ true) f.linked.level f.started in
      let begun = begin_agreed u me v peer slots r f.started o' in
      ground (
        arith, e, r.submitted, r.peer_submitted, r.enough, r.peer_enough, r.free, f.started, o',
        begun,
      )

-- `abortCompletedTrade`
finish_refused :
    (x : Exchange) (reply : TradeReply) (w : World)
    → ((alz peer_alz : ℕ) → reply ≢ trade_answered true alz peer_alz)
    → (finish_exchange x reply w).0 ≡ alter x.second without_trade (alter x.first without_trade w)
unfolding finish_exchange
finish_refused x trade_failed w h = refl
finish_refused x (trade_answered false a b) w h = refl
finish_refused x (trade_answered true a b) w h = absurd (h a b refl)

-- The world after an exchange: each player has what the other offered, in the slots that it listed, and
-- the money that the master server tells; both are free, and nobody else has changed.
pub record IsExchanged (u : ℕ) (me : Player) (v : ℕ) (peer : Player) (slots : List ℕ)
    (alz peer_alz : ℕ) (w w' : World) : Type 0 where
  pub mine : Player
  pub theirs : Player
  pub at_first : lookup u w' ≡ some mine
  pub at_second : lookup v w' ≡ some theirs
  pub my_bag : IsSwapped me.trade.items (transfers peer.trade.items slots) me.bag mine.bag
  pub their_bag :
      IsSwapped peer.trade.items
        (transfers me.trade.items peer.trade.destination_slots)
        peer.bag
        theirs.bag
  pub my_alz : mine.alz ≡ alz
  pub their_alz : theirs.alz ≡ peer_alz
  pub i_am_free : mine.trade ≡ no_trade
  pub they_are_free : theirs.trade ≡ no_trade
  pub others : (j : ℕ) → j ≢ u → j ≢ v → lookup j w' ≡ lookup j w

-- The lookups of a world with two new values.
lookup-put_both :
    (u : ℕ) (p : Player) (v : ℕ) (q : Player) (w : World)
    → u ≢ v
    → (lookup u (put_both u p v q w) ≡ some p)
      × (lookup v (put_both u p v q w) ≡ some q)
      × ((j : ℕ) → j ≢ u → j ≢ v → lookup j (put_both u p v q w) ≡ lookup j w)
lookup-put_both u p v q w differ = (
  ground (arith, lookup-insert u v q (insert u p w), lookup-insert u u p w, differ),
  ground (arith, lookup-insert v v q (insert u p w)),
  (λ j k k'. ground (arith, lookup-insert j v q (insert u p w), lookup-insert j u p w, k, k')),
)

module _ {S : Type 0} (call : TradeCall S) (server : ℕ) where
  -- When both players have submitted and the second of them lists as many free slots as it gets items,
  -- the server is asked for the exchange; where it accepts, the items change hands as listed.
  pub exchange_effect :
      (u : ℕ) (me : Player) (v : ℕ) (peer : Player) (slots : List ℕ) (w : World) (s : S)
      (alz peer_alz : ℕ)
      → IsPaired w
      → trade_pair u w ≡ some (me, v, peer)
      → IsReady me peer slots
      → (call (request_of server (agreed u me v peer slots)) s).0 ≡ trade_answered true alz peer_alz
      → IsExchanged u me v peer slots alz peer_alz w (request_list call server u slots w s).0.0
  unfolding finish_exchange exchanged
  exchange_effect u me v peer slots w s alz peer_alz h e r accepted =
      let f = trade_pair-Found u me v peer w h e in
      let x = agreed u me v peer slots in
      let w1 = insert u (listed me slots) w in
      let mine =
        exchanged me.trade.items (transfers peer.trade.items slots) alz (listed me slots) in
      let theirs =
        exchanged peer.trade.items (transfers me.trade.items peer.trade.destination_slots) peer_alz
          peer in
      let w2 = put_both u mine v theirs w1 in
      let (at_u, at_v, others) = lookup-put_both u mine v theirs w1 f.differ in
      let ended : (finish_exchange x (trade_answered true alz peer_alz) w1).0 ≡ w2 =
        alter_both u v _ _ (listed me slots) peer w1
          (ground (arith, lookup-insert u u (listed me slots) w))
          (ground (arith, lookup-insert v u (listed me slots) w, f.theirs, f.differ)) f.differ in
      let same : (request_list call server u slots w s).0.0 ≡ w2 =
        ap (λ o. o.0.0) (list_ready call server u me v peer slots w s h e r)
        ∙ ap (λ reply. (finish_exchange x reply w1).0) accepted
        ∙ ended in
      subst (IsExchanged u me v peer slots alz peer_alz w) (sym same) record {
        mine = mine;
        theirs = theirs;
        at_first = at_u;
        at_second = at_v;
        my_bag =
            exchanged-IsSwapped me.trade.items (transfers peer.trade.items slots) alz
              (listed me slots)
              (subst AreDistinct (sym (targets-transfers peer.trade.items slots r.enough))
                r.distinct);
        their_bag =
            exchanged-IsSwapped peer.trade.items
              (transfers me.trade.items peer.trade.destination_slots) peer_alz peer
              (subst AreDistinct
                (sym (targets-transfers me.trade.items peer.trade.destination_slots r.peer_enough))
                r.peer_distinct);
        my_alz = refl;
        their_alz = refl;
        i_am_free = refl;
        they_are_free = refl;
        others = λ j k k'. others j k k' ∙ ground (arith, lookup-insert j u (listed me slots) w, k);
      }

  -- Where the server does not accept the exchange, both players are free, with the inventories and the
  -- money that they had, and nobody else has changed.
  pub exchange_refused :
      (u : ℕ) (me : Player) (v : ℕ) (peer : Player) (slots : List ℕ) (w : World) (s : S)
      → IsPaired w
      → trade_pair u w ≡ some (me, v, peer)
      → IsReady me peer slots
      → ((alz peer_alz : ℕ)
          → (call (request_of server (agreed u me v peer slots)) s).0
            ≢ trade_answered true alz peer_alz)
      → let w' = (request_list call server u slots w s).0.0 in
        (lookup u w' ≡ some (without_trade me))
        × (lookup v w' ≡ some (without_trade peer))
        × ((j : ℕ) → j ≢ u → j ≢ v → lookup j w' ≡ lookup j w)
  exchange_refused u me v peer slots w s h e r refused =
      let f = trade_pair-Found u me v peer w h e in
      let x = agreed u me v peer slots in
      let w1 = insert u (listed me slots) w in
      let w2 = put_both u (without_trade me) v (without_trade peer) w1 in
      let (at_u, at_v, others) =
        lookup-put_both u (without_trade me) v (without_trade peer) w1 f.differ in
      let ended : alter v without_trade (alter u without_trade w1) ≡ w2 =
        alter_both u v without_trade without_trade (listed me slots) peer w1
          (ground (arith, lookup-insert u u (listed me slots) w))
          (ground (arith, lookup-insert v u (listed me slots) w, f.theirs, f.differ)) f.differ in
      let same : (request_list call server u slots w s).0.0 ≡ w2 =
        ap (λ o. o.0.0) (list_ready call server u me v peer slots w s h e r)
        ∙ finish_refused x _ w1 refused
        ∙ ended in
      rw same (
        at_u,
        at_v,
        (λ j k k'. others j k k' ∙ ground (arith, lookup-insert j u (listed me slots) w, k)),
      )
