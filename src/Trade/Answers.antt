-- ===== src/Trade/Answers.antt =====
-- The end of an exchange, once the master server has answered (`completeTrade` and
-- `abortCompletedTrade` of cmd/gameserver/packet/trade.go).
use freya.Common.Maps.{lookup, lookup-insert}
use freya.Common.{
  ℕ, ◌≡◌, ◌≢◌, refl, sym, ap, subst, ◌∙◌, ◌⊎◌, true, false, some, inl, inr, Option-cases,
  Bool-cases, arith, ◌==◌,
}
use freya.Trade.Book.{Player, World, without_trade}
use freya.Trade.Completion.{
  Exchange, TradeReply, trade_failed, trade_answered, alter, exchanged, finish_exchange,
}
use freya.Trade.Pairing.{IsIdle, IsPaired, IsLinked}

-- Two players, where they are there, are without a trade, and nobody else has changed.
unfoldable pub FreesBoth : ℕ → ℕ → World → World → Type 0
FreesBoth u v w w' =
    ((p : Player) → lookup u w' ≡ some p → IsIdle p)
    × ((p : Player) → lookup v w' ≡ some p → IsIdle p)
    × ((j : ℕ) → j ≢ u → j ≢ v → lookup j w' ≡ lookup j w)

alter_other :
    (j u : ℕ) (f : Player → Player) (w : World) → j ≢ u → lookup j (alter u f w) ≡ lookup j w
unfolding alter
alter_other j u f w other = elim (Option-cases (lookup u w)) [
  | inl e ↦ ground (arith, e)
  | inr (p, e) ↦ ground (arith, e, lookup-insert j u (f p) w, other)
]

alter_at :
    (u : ℕ) (f : Player → Player) (p : Player) (w : World)
    → lookup u (alter u f w) ≡ some p
    → (o : Player) × (f o ≡ p)
unfolding alter
alter_at u f p w found = elim (Option-cases (lookup u w)) [
  | inl e ↦ ground (arith, e, found)
  | inr (o, e) ↦ (o, ground (arith, e, lookup-insert u u (f o) w, found))
]

alter_frees :
    (u v : ℕ) (f g : Player → Player) (w : World)
    → u ≢ v
    → ((p : Player) → IsIdle (f p))
    → ((p : Player) → IsIdle (g p))
    → FreesBoth u v w (alter v g (alter u f w))
unfolding FreesBoth
alter_frees u v f g w differ idle idle' = (
  (λ p found.
      let (o, same) = alter_at u f p w (sym (alter_other u v g (alter u f w) differ) ∙ found) in
      subst IsIdle same (idle o)),
  (λ p found. let (o, same) = alter_at v g p (alter u f w) found in subst IsIdle same (idle' o)),
  (λ j k k'. alter_other j v g (alter u f w) k' ∙ alter_other j u f w k),
)

pub finish_frees :
    (x : Exchange) (reply : TradeReply) (w : World)
    → x.first ≢ x.second
    → FreesBoth x.first x.second w (finish_exchange x reply w).0
unfolding finish_exchange exchanged
finish_frees x (trade_answered true a b) w differ =
    alter_frees x.first x.second _ _ w differ (λ p. refl) (λ p. refl)
finish_frees x (trade_answered false a b) w differ =
    alter_frees x.first x.second without_trade without_trade w differ (λ p. refl) (λ p. refl)
finish_frees x trade_failed w differ =
    alter_frees x.first x.second without_trade without_trade w differ (λ p. refl) (λ p. refl)

-- A player of an exchange that has no trade by now, or one with the other player.
abbrev TradesOnly : ℕ → ℕ → World → Type 0
TradesOnly u v w = (p : Player) → lookup u w ≡ some p → IsIdle p ⊎ (p.trade.opponent_user_idx ≡ v)

-- Neither player of an exchange trades with a third one.
abbrev pub NoThird : Exchange → World → Type 0
NoThird x w = TradesOnly x.first x.second w × TradesOnly x.second x.first w

-- A third player that trades has another partner than such a player.
is_no_partner :
    (w : World) (u v y k : ℕ) (r t : Player)
    → TradesOnly u v w
    → y ≢ v
    → lookup k w ≡ some t
    → IsLinked y r k t
    → k ≢ u
is_no_partner w u v y k r t only other found l same =
    elim (only t (ap (λ i. lookup i w) (sym same) ∙ found)) [
      | inl idle ↦ cc (idle, l.level, l.busy)
      | inr names ↦ other (sym l.back ∙ names)
    ]

pub finish_exchange-IsPaired :
    (x : Exchange) (reply : TradeReply) (w : World)
    → x.first ≢ x.second
    → NoThird x w
    → IsPaired w
    → IsPaired (finish_exchange x reply w).0
unfolding FreesBoth IsPaired
finish_exchange-IsPaired x reply w differ (only, only') h y r found =
    let w' = (finish_exchange x reply w).0 in
    let (idle, idle', others) = finish_frees x reply w differ in
    elim (Bool-cases (y == x.first)) [
      | inl is_first ↦
          let eq : y ≡ x.first = ground (arith, is_first) in
          inl (idle r (ap (λ i. lookup i w') (sym eq) ∙ found))
      | inr not_first ↦ elim (Bool-cases (y == x.second)) [
        | inl is_second ↦
            let eq : y ≡ x.second = ground (arith, is_second) in
            inl (idle' r (ap (λ i. lookup i w') (sym eq) ∙ found))
        | inr not_second ↦
            let y_u : y ≢ x.first = λ k. ground (arith, not_first, k) in
            let y_v : y ≢ x.second = λ k. ground (arith, not_second, k) in
            elim (h y r (sym (others y y_u y_v) ∙ found)) [
              | inl is_idle ↦ inl is_idle
              | inr (k, t, there, apart, l) ↦
                  let k_u = is_no_partner w x.first x.second y k r t only y_v there l in
                  let k_v = is_no_partner w x.second x.first y k r t only' y_u there l in
                  inr (k, t, others k k_u k_v ∙ there, apart, l)
            ]
      ]
    ]
