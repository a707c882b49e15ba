-- ===== src/Trade/Ending.antt =====
-- The end of a trade keeps the players paired (cmd/gameserver/packet/trade.go).
use freya.Common.Maps.{lookup, insert, lookup-insert}
use freya.Common.{
  ℕ, ◌≡◌, ◌≢◌, refl, sym, ◌∙◌, inl, inr, Bool, not, Option, none, [], ◌||◌, some, List, length,
  arith, Option-cases, if_both, ◌==◌,
}
use freya.Trade.Book.{Player, World, is_open, trade_pair, put_both}
use freya.Trade.Pairing.{IsPaired}
use freya.Trade.Keeping.{Keeps, leaves}
use freya.Trade.Linking.{Found, trade_pair-Found, insert-Found, relink}
use freya.Trade.Handlers.{Outcome}
use freya.Trade.Completion.{Exchange, begin_exchange, alter, list_open, begin_list, are_free}

alter_present :
    (u : ℕ) (f : Player → Player) (p : Player) (w : World)
    → lookup u w ≡ some p
    → alter u f w ≡ insert u (f p) w
unfolding alter
alter_present u f p w e = rw (e, alter) refl

pub alter_both :
    (u v : ℕ) (f g : Player → Player) (p q : Player) (w : World)
    → lookup u w ≡ some p
    → lookup v w ≡ some q
    → u ≢ v
    → alter v g (alter u f w) ≡ put_both u (f p) v (g q) w
alter_both u v f g p q w e e' differ =
    let second : lookup v (insert u (f p) w) ≡ some q =
      ground (arith, lookup-insert v u (f p) w, e', differ) in
    rw (alter_present u f p w e, alter_present v g q (insert u (f p) w) second) refl

pub begin_exchange-players :
    (u : ℕ) (me : Player) (v : ℕ) (peer : Player) (x : Exchange)
    → begin_exchange u me v peer ≡ some x
    → (x.first ≡ u) × (x.second ≡ v)
unfolding begin_exchange
begin_exchange-players u me v peer x e = (ground (arith, e), ground (arith, e))

-- The tests of `TradeRequestList` under the locks.
abbrev is_not_ready : Player → Player → List ℕ → Bool
is_not_ready me peer slots =
    not (is_open me.trade.status)
    || (not me.trade.submitted
        || (not (is_open peer.trade.status)
            || (not peer.trade.submitted || not (length slots == length peer.trade.items))))

-- What `TradeRequestList` does before the call keeps the players paired, and the exchange that it asks
-- for is one of two players.
pub record Begins (o : Outcome × Option Exchange) : Type 0 where
  pub keeps : Keeps o.0
  pub differ : (x : Exchange) → o.1 ≡ some x → x.first ≢ x.second

pub begins_none : (o : Outcome) → Keeps o → Begins (o, none)
begins_none o k = record { keeps = k; differ = λ x e. cc e }

begin_exchange-Begins :
    (u : ℕ) (me : Player) (v : ℕ) (peer : Player) (o : Outcome)
    → u ≢ v
    → Keeps o
    → Begins (o, begin_exchange u me v peer)
begin_exchange-Begins u me v peer o differ k = record {
  keeps = k;
  differ = λ x e same.
      let (is_u, is_v) = begin_exchange-players u me v peer x e in differ (sym is_u ∙ same ∙ is_v);
}

list_open-Begins :
    (u : ℕ) (me : Player) (v : ℕ) (peer : Player) (slots : List ℕ) (w : World)
    → IsPaired w
    → Found u me v peer w
    → Begins (list_open u me v peer slots w)
unfolding list_open
list_open-Begins u me v peer slots w h f =
    let me' = record me { trade = record me.trade { destination_slots = slots } } in
    let w' = insert u me' w in
    let h' : IsPaired w' =
      insert-Found u me me' v peer w h f (relink u me me' v peer peer refl refl f.linked) in
    if_both Begins (is_not_ready me peer slots) (begins_none (w, []) (leaves h)) (
      if_both Begins (not (are_free slots me.bag)) (begins_none (w, []) (leaves h)) (
        if_both Begins (length peer.trade.destination_slots == length me.trade.items)
          (begin_exchange-Begins u me' v peer (w', []) f.differ (leaves h'))
          (begins_none (w', []) (leaves h'))))

pub begin_list-Begins :
    (u : ℕ) (slots : List ℕ) (w : World) → IsPaired w → Begins (begin_list u slots w)
unfolding begin_list
begin_list-Begins u slots w h = elim (Option-cases (trade_pair u w)) [
  | inl e ↦ rw (e, begin_list) (begins_none (w, []) (leaves h))
  | inr ((me, v, peer), e) ↦
      rw (e, begin_list)
        (list_open-Begins u me v peer slots w h (trade_pair-Found u me v peer w h e))
]
