-- ===== src/Trade/Starting.antt =====
-- The handlers that begin a trade and the one that drops it keep the players paired
-- (cmd/gameserver/packet/trade.go).
use freya.Common.Signed.{ℤ, nonpos, eq_ℤ, eq_ℤ_iff}
use freya.Common.Maps.{lookup}
use freya.Common.{
  ℕ, ◌≡◌, ◌≢◌, refl, sym, inl, inr, Bool, false, not, Option, none, some, [], ◌∷◌, ◌||◌, arith,
  Bool-cases, Option-cases, if_both, if_cases, ◌==◌,
}
use freya.Trade.Book.{requester, target, Player, World, is_none, without_trade, put_both}
use freya.Trade.Handlers.{
  request, reserve, open_event, open_valid, pending, valid_open, cancel_trade,
}
use freya.Trade.Messages.{
  trade_event, result_resets, result_progress, result_request, result_request_cancel, result_accept,
  result_reject, result_auto_reject,
}
use freya.Trade.Pairing.{IsLinked, IsPaired, companion, partner, put_both-IsPaired}
use freya.Trade.Keeping.{Keeps, leaves}

abbrev is_unknown : ℕ → Bool
is_unknown event = not (
    event == result_request_cancel
    || (event == result_accept || (event == result_reject || event == result_auto_reject)))

-- `reserveTradeRequest` links the two.
reserved :
    (u : ℕ) (sender : Player) (v : ℕ) (peer : Player) (target_id : ℤ)
    → target_id ≡ peer.character_id
    → IsLinked u
        (record sender { trade = pending requester v target_id })
        v
        (record peer { trade = pending target u sender.character_id })
reserved u sender v peer target_id id = record {
  forth = refl;
  back = refl;
  level = refl;
  busy = refl;
  roles = refl;
  forth_id = id;
  back_id = refl;
}

pub request-Keeps :
    (u : ℕ) (target_id : ℤ) (v : ℕ) (w : World) → IsPaired w → Keeps (request u target_id v w)
unfolding request reserve
request-Keeps u target_id v w h = elim (Option-cases (lookup u w)) [
  | inl e ↦ rw (e, request) (leaves h)
  | inr (sender, e) ↦ elim (Option-cases (lookup v w)) [
    | inl e' ↦
        rw (e, e', request)
          (if_both Keeps (nonpos sender.character_id || v == u) (leaves h) (leaves h))
    | inr (peer, e') ↦
        rw (e, e', request)
          (if_cases Keeps (nonpos sender.character_id || v == u) (λ x. leaves h)
            (λ other.
              if_cases Keeps (not (eq_ℤ peer.character_id target_id)) (λ x. leaves h)
                (λ same.
                  if_cases
                    (λ (r : Option World). Keeps (elim r [
                      | none ↦ (w, (u, trade_event sender.character_id result_progress) ∷ [])
                      | some w' ↦ (w', (v, trade_event sender.character_id result_request) ∷ [])
                    ]))
                    (not (is_none sender.trade.status) || not (is_none peer.trade.status))
                    (λ x. leaves h)
                    (λ idle. leaves (
                      put_both-IsPaired u v sender _ peer _ w h e e' (λ k. ground (arith, other, k))
                        (inl (ground (arith, idle), ground (arith, idle)))
                        (inr (
                          reserved u sender v peer target_id (
                            sym (
                              (eq_ℤ_iff peer.character_id target_id).0
                                (ground (arith, same)))))))))))
  ]
]

-- `TradeOpenEvent` on two linked players.
open_valid-Keeps :
    (u : ℕ) (me : Player) (v : ℕ) (peer : Player) (event : ℕ) (w : World)
    → IsPaired w
    → lookup u w ≡ some me
    → lookup v w ≡ some peer
    → u ≢ v
    → IsLinked u me v peer
    → Keeps (open_valid u me v peer event w)
unfolding open_valid
open_valid-Keeps u me v peer event w h e e' differ l =
    if_both Keeps (event == result_accept)
      (leaves (
        put_both-IsPaired u v me _ peer _ w h e e' differ (inr l) (
          inr record {
            forth = l.forth;
            back = l.back;
            level = refl;
            busy = refl;
            roles = l.roles;
            forth_id = l.forth_id;
            back_id = l.back_id;
          })))
      (leaves (put_both-IsPaired u v me _ peer _ w h e e' differ (inr l) (inl (refl, refl))))

pending_when_valid :
    (u : ℕ) (me peer : Player) (event : ℕ)
    → not (valid_open u me peer event) ≡ false
    → is_none me.trade.status ≡ false
unfolding valid_open
pending_when_valid u me peer event valid = ground (arith, valid)

pub open_event-Keeps : (u event : ℕ) (w : World) → IsPaired w → Keeps (open_event u event w)
unfolding open_event
open_event-Keeps u event w h = elim (Option-cases (lookup u w)) [
  | inl e ↦ rw (e, open_event) (if_both Keeps (is_unknown event) (leaves h) (leaves h))
  | inr (me, e) ↦ elim (Option-cases (lookup me.trade.opponent_user_idx w)) [
    | inl e' ↦
        rw (e, e', open_event)
          (if_both Keeps (is_unknown event) (leaves h)
            (if_both Keeps (me.trade.opponent_user_idx == u) (leaves h) (leaves h)))
    | inr (peer, e') ↦
        rw (e, e', open_event)
          (if_both Keeps (is_unknown event) (leaves h) (
            if_cases Keeps (me.trade.opponent_user_idx == u) (λ x. leaves h)
              (λ other.
                if_cases Keeps (not (valid_open u me peer event)) (λ x. leaves h)
                  (λ valid.
                    open_valid-Keeps u me me.trade.opponent_user_idx peer event w h e e'
                      (λ k. ground (arith, other, k))
                      (partner w u me peer h e (pending_when_valid u me peer event valid) e')))))
  ]
]

-- `CancelTrade` of a busy player.
pub cancel_busy :
    (u : ℕ) (w : World) (me : Player)
    → IsPaired w
    → lookup u w ≡ some me
    → is_none me.trade.status ≡ false
    → let v = me.trade.opponent_user_idx in
      (peer : Player) × (lookup v w ≡ some peer)
      × (v ≢ u)
      × IsLinked u me v peer
      × (cancel_trade u w ≡ (
        put_both u (without_trade me) v (without_trade peer) w,
        (v, trade_event me.character_id result_resets) ∷ [],
      ))
unfolding cancel_trade
cancel_busy u w me h e busy =
    let (peer, e', other, l) = companion w u me h e busy in
    (peer, e', other, l, ground (arith, e, busy, e', other, l.back))

pub cancel_trade-Keeps : (u : ℕ) (w : World) → IsPaired w → Keeps (cancel_trade u w)
unfolding cancel_trade
cancel_trade-Keeps u w h = elim (Option-cases (lookup u w)) [
  | inl e ↦ rw (e, cancel_trade) (leaves h)
  | inr (me, e) ↦ elim (Bool-cases (is_none me.trade.status)) [
    | inl idle ↦ rw (e, idle, cancel_trade) (leaves h)
    | inr busy ↦
        let (peer, e', other, l, same) = cancel_busy u w me h e busy in
        rw same (
          leaves (
            put_both-IsPaired u me.trade.opponent_user_idx me _ peer _ w h e e' (λ k. other (sym k))
              (inr l) (inl (refl, refl))))
  ]
]
