-- ===== src/Trade/Events.antt =====
-- The life of the players that trade, as steps: a packet that a handler takes, an answer of the
-- master server, a player that comes or goes, and what the rest of the server does to a player.
use freya.Common.Maps.{lookup, insert, erase}
use freya.Common.{ℕ, ◌≡◌, ◌≢◌, ◌⊎◌, All, ◌∷◌, ◌++◌, refl, Option, none, some, List, []}
use freya.Network.Reader.{Reader}
use freya.Trade.Book.{Player, World}
use freya.Trade.Handlers.{Outcome, cancel_trade}
use freya.Trade.Completion.{TradeReply, Exchange, finish_exchange}
use freya.Trade.Answers.{NoThird, finish_exchange-IsPaired}
use freya.Trade.Pairing.{IsIdle, IsPaired}
use freya.Trade.Linking.{tie}
use freya.Trade.Starting.{cancel_trade-Keeps}
use freya.Trade.Presence.{join-IsPaired, leave-IsPaired, change-IsPaired, cancel_trade-IsIdle}
use freya.Trade.Packets.{Kind, kind_of, begin_packet}
use freya.Trade.Beginning.{begin_packet-Begins}

-- The exchanges that the master server is at work on, with one more, if it was asked for.
abbrev pub with_exchange : Option Exchange → List Exchange → List Exchange
with_exchange none xs = xs
with_exchange (some x) xs = x ∷ xs

abbrev pub IsHeld : ℕ → Exchange → Type 0
IsHeld u x = (x.first ≡ u) ⊎ (x.second ≡ u)

-- One step of the players, and of the exchanges that the master server is at work on. The locks of the
-- players are free during an exchange, so that any steps may come between its beginning and its end.
pub data Step : World → List Exchange → World → List Exchange → Type 0 where
  -- a packet of a trade is handled, up to a call of the master server, and does not panic
  handles :
      (kind : Kind) (u : ℕ) (r : Reader) (w : World) (xs : List Exchange)
      (o : Outcome × Option Exchange)
      → kind_of r.packet_type ≡ some kind
      → begin_packet kind u r w ≡ some o
      → Step w xs o.0.0 (with_exchange o.1 xs)
  -- the master server answers, whatever it answers, while neither player trades with a third one
  answers :
      (x : Exchange) (reply : TradeReply) (w : World) (earlier later : List Exchange)
      → NoThird x w
      → Step w (earlier ++ (x ∷ later)) (finish_exchange x reply w).0 (earlier ++ later)
  -- a player that is not there enters, without a trade, with an index that no exchange holds
  joins :
      (u : ℕ) (p : Player) (w : World) (xs : List Exchange)
      → lookup u w ≡ none
      → IsIdle p
      → All (λ x. ¬ IsHeld u x) xs
      → Step w xs (insert u p w) xs
  -- a player leaves: `CancelTrade`, then it is gone
  leaves_world :
      (u : ℕ) (w : World) (xs : List Exchange) → Step w xs (erase u (cancel_trade u w).0) xs
  -- the rest of the server changes the inventory or the money of a player
  changes :
      (u : ℕ) (p p' : Player) (w : World) (xs : List Exchange)
      → lookup u w ≡ some p
      → tie p ≡ tie p'
      → Step w xs (insert u p' w) xs

pub data Reach (w : World) (xs : List Exchange) : World → List Exchange → Type 0 where
  here : Reach w xs w xs
  next :
      {w' w'' : World} {ys zs : List Exchange}
      → Reach w xs w' ys
      → Step w' ys w'' zs
      → Reach w xs w'' zs

-- The exchanges are each of two players.
abbrev pub AreOfTwo : List Exchange → Type 0
AreOfTwo xs = All (λ x. x.first ≢ x.second) xs

with_exchange-AreOfTwo :
    (o : Option Exchange) (xs : List Exchange)
    → ((x : Exchange) → o ≡ some x → x.first ≢ x.second)
    → AreOfTwo xs
    → AreOfTwo (with_exchange o xs)
with_exchange-AreOfTwo none xs differ h = h
with_exchange-AreOfTwo (some x) xs differ h = (differ x refl, h)

-- One exchange of many, and the others.
AreOfTwo-split :
    (earlier : List Exchange) (x : Exchange) (later : List Exchange)
    → AreOfTwo (earlier ++ (x ∷ later))
    → (x.first ≢ x.second) × AreOfTwo (earlier ++ later)
AreOfTwo-split [] x later (differ, h) = (differ, h)
AreOfTwo-split (y ∷ earlier) x later (d, h) =
    let (differ, rest) = AreOfTwo-split earlier x later h in (differ, (d, rest))

abbrev Holds : World → List Exchange → Type 0
Holds w xs = IsPaired w × AreOfTwo xs

Step-Holds : {w w' : World} {xs ys : List Exchange} → Step w xs w' ys → Holds w xs → Holds w' ys
Step-Holds (handles kind u r w xs o k e) (h, d) =
    let b = begin_packet-Begins kind u r w o h e in
    (b.keeps.kept, with_exchange-AreOfTwo o.1 xs b.differ d)
Step-Holds (answers x reply w earlier later only) (h, d) =
    let (differ, rest) = AreOfTwo-split earlier x later d in
    (finish_exchange-IsPaired x reply w differ only h, rest)
Step-Holds (joins u p w xs free idle unheld) (h, d) = (join-IsPaired u p w h free idle, d)
Step-Holds (leaves_world u w xs) (h, d) = (
  leave-IsPaired u (cancel_trade u w).0 (cancel_trade-Keeps u w h).kept
      (λ p. cancel_trade-IsIdle u w p h),
  d,
)
Step-Holds (changes u p p' w xs e t) (h, d) = (change-IsPaired u p p' w h e t, d)

Reach-Holds :
    {w : World} {xs : List Exchange} {w' : World} {ys : List Exchange}
    → Reach w xs w' ys
    → Holds w xs
    → Holds w' ys
Reach-Holds here h = h
Reach-Holds (next r st) h = Step-Holds st (Reach-Holds r h)

-- From paired players on, with no exchange or only exchanges of two players under way, the players stay
-- paired: each is idle, or trades with a partner which trades with it, at the same stage and in the
-- other role. This holds whatever trade packets arrive, also between the beginning and the end of an
-- exchange by the master server, whatever it answers, and whoever comes and goes, as long as no player
-- of an exchange trades with a third one at the time of the answer, and no index of its players is
-- given to another player before.
pub Reach-IsPaired :
    {w w' : World} {xs ys : List Exchange}
    → Reach w xs w' ys
    → IsPaired w
    → AreOfTwo xs
    → IsPaired w'
Reach-IsPaired r h d = (Reach-Holds r (h, d)).0
