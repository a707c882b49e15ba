-- ===== src/Trade/Linking.antt =====
-- Pairs of linked players, as the handlers of cmd/gameserver/packet/trade.go find and change them.
use freya.Common.Signed.{ℤ}
use freya.Common.Maps.{lookup, insert, lookup-insert}
use freya.Common.{ℕ, ◌≡◌, ◌≢◌, sym, ap, subst, ◌∙◌, inr, true, false, some, arith}
use freya.Trade.Book.{TradeStatus, TradeRole, Player, World, is_none, is_open, trade_pair, put_both}
use freya.Trade.Pairing.{
  opposed, IsLinked, IsPaired, AreTwo, partner, IsPaired-ext, put_both-IsPaired,
}

-- What the pairing reads of a player.
abbrev pub tie : Player → ℕ × ℤ × TradeStatus × TradeRole × ℤ
tie p = (
  p.trade.opponent_user_idx, p.trade.opponent_character_id, p.trade.status, p.trade.role,
  p.character_id,
)

abbrev IsTied :
    ℕ → ℕ × ℤ × TradeStatus × TradeRole × ℤ → ℕ → ℕ × ℤ × TradeStatus × TradeRole × ℤ → Type 0
IsTied u (o, oi, s, r, i) v (o', oi', s', r', i') =
    (o ≡ v)
    × (o' ≡ u)
    × (s ≡ s')
    × (is_none s ≡ false)
    × (opposed r r' ≡ true)
    × (oi ≡ i')
    × (oi' ≡ i)

-- A pair stays linked while nothing that the pairing reads changes.
pub relink :
    (u : ℕ) (p p' : Player) (v : ℕ) (q q' : Player)
    → tie p ≡ tie p'
    → tie q ≡ tie q'
    → IsLinked u p v q
    → IsLinked u p' v q'
relink u p p' v q q' e e' l =
    let tied : IsTied u (tie p) v (tie q) =
      (l.forth, l.back, l.level, l.busy, l.roles, l.forth_id, l.back_id) in
    let (a, b, c, d, f, g, h) =
      subst (λ x. IsTied u x v (tie q')) e (subst (λ x. IsTied u (tie p) v x) e' tied) in
    record { forth = a; back = b; level = c; busy = d; roles = f; forth_id = g; back_id = h }

-- What `tradePair` finds: two linked players, the first with an open trade.
pub record Found (u : ℕ) (me : Player) (v : ℕ) (peer : Player) (w : World) : Type 0 where
  pub mine : lookup u w ≡ some me
  pub theirs : lookup v w ≡ some peer
  pub differ : u ≢ v
  pub started : is_open me.trade.status ≡ true
  pub linked : IsLinked u me v peer

trade_pair_inverse :
    (u : ℕ) (me : Player) (v : ℕ) (peer : Player) (w : World)
    → trade_pair u w ≡ some (me, v, peer)
    → (lookup u w ≡ some me)
      × (me.trade.opponent_user_idx ≡ v)
      × (v ≢ u)
      × (lookup v w ≡ some peer)
      × (is_open me.trade.status ≡ true)
unfolding trade_pair
trade_pair_inverse u me v peer w e = (
  ground (arith, e),
  ground (arith, e),
  (λ same. ground (arith, e, same)),
  ground (arith, e),
  ground (arith, e),
)

pub trade_pair-Found :
    (u : ℕ) (me : Player) (v : ℕ) (peer : Player) (w : World)
    → IsPaired w
    → trade_pair u w ≡ some (me, v, peer)
    → Found u me v peer w
trade_pair-Found u me v peer w h e =
    let (mine, names, differ, theirs, started) = trade_pair_inverse u me v peer w e in
    record {
      mine = mine;
      theirs = theirs;
      differ = λ k. differ (sym k);
      started = started;
      linked =
          subst (λ x. IsLinked u me x peer) names
            (partner w u me peer h mine (ground (arith, started))
              (ap (λ x. lookup x w) names ∙ theirs));
    }

pub put-Found :
    (u : ℕ) (me p' : Player) (v : ℕ) (peer q' : Player) (w : World)
    → IsPaired w
    → Found u me v peer w
    → AreTwo u p' v q'
    → IsPaired (put_both u p' v q' w)
put-Found u me p' v peer q' w h f new =
    put_both-IsPaired u v me p' peer q' w h f.mine f.theirs f.differ (inr f.linked) new

pub insert-Found :
    (u : ℕ) (me p' : Player) (v : ℕ) (peer : Player) (w : World)
    → IsPaired w
    → Found u me v peer w
    → IsLinked u p' v peer
    → IsPaired (insert u p' w)
insert-Found u me p' v peer w h f l =
    IsPaired-ext (put_both u p' v peer w) (insert u p' w)
      (λ x. ground (
        arith,
        lookup-insert x v peer (insert u p' w),
        lookup-insert x u p' w,
        lookup-insert v u p' w,
        f.theirs,
        f.differ,
      ))
      (put-Found u me p' v peer peer w h f (inr l))
