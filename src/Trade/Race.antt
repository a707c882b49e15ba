-- ===== src/Trade/Race.antt =====
-- A trade that begins while the master server exchanges the items of an older one
-- (`completeTrade` and `abortCompletedTrade` of cmd/gameserver/packet/trade.go).
use freya.Common.Maps.{lookup}
use freya.Common.{ℕ, ◌≡◌, ◌≢◌, sym, ap, ◌∙◌, false, some, arith}
use freya.Trade.Book.{Player, World, is_none}
use freya.Trade.Completion.{Exchange, TradeReply, finish_exchange}
use freya.Trade.Answers.{FreesBoth, finish_frees}
use freya.Trade.Pairing.{IsPaired, IsLinked, companion}

-- Where the first player of an exchange trades with a third player by the time that the master server
-- has answered, the end of the exchange leaves the players unpaired.
pub third_player_stranded :
    (x : Exchange) (reply : TradeReply) (w : World) (p q : Player) (third : ℕ)
    → x.first ≢ x.second
    → lookup third w ≡ some q
    → third ≢ x.first
    → third ≢ x.second
    → IsLinked x.first p third q
    → ¬ IsPaired (finish_exchange x reply w).0
unfolding FreesBoth
third_player_stranded x reply w p q third differ found apart apart' l h =
    let w' = (finish_exchange x reply w).0 in
    let (idle, idle', others) = finish_frees x reply w differ in
    let busy : is_none q.trade.status ≡ false = ground (arith, l.busy, l.level) in
    let (t, found', other, l') = companion w' third q h (others third apart apart' ∙ found) busy in
    let first : lookup x.first w' ≡ some t = ap (λ k. lookup k w') (sym l.back) ∙ found' in
    let still : is_none t.trade.status ≡ false = ground (arith, l'.busy, l'.level) in
    cc (idle t first, still)
