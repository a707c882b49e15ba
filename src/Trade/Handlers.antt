-- ===== src/Trade/Handlers.antt =====
-- The handlers of cmd/gameserver/packet/trade.go, once the packet is read: the new world, and what is
-- sent to whom, in order. A handler holds the locks of both players from its tests to its last write;
-- its first look at the player is taken to be under them too.
use freya.Common.Signed.{ℤ, pos, nonpos, eq_ℤ}
use freya.Common.Maps.{lookup, insert}
use freya.Common.{
  ℕ, Bool, true, false, ◌&&◌, ◌||◌, not, Option, none, some, List, [], ◌∷◌, ◌++◌, ◌==◌,
  if◌then◌else◌,
}
use freya.Trade.Book.{
  TradeState, TradeRole, trade_pending, trade_open, requester, target, no_trade, Player, World,
  is_none, is_pending, is_open, is_requester, is_target, trade_pair, put_both, without_trade,
}
use freya.Trade.Messages.{
  result_auto_reject, result_reject, Message, packet_result, trade_event, open_result,
  result_invalid, result_progress, result_denial, result_request, result_ready,
  result_request_cancel, result_accept, result_submit_cancel, result_trade_cancel, result_submit,
  result_request_list, result_resets, close_event_type,
}

abbrev pub Sent : Type 0
Sent = ℕ × Message

abbrev pub Outcome : Type 0
Outcome = World × List Sent

-- The state of a player that asked, or was asked.
abbrev pub pending : TradeRole → ℕ → ℤ → TradeState
pending role opponent_user_idx opponent_character_id = record no_trade {
  status = trade_pending;
  role = role;
  opponent_user_idx = opponent_user_idx;
  opponent_character_id = opponent_character_id;
}

-- `reserveTradeRequest`, on the two players found.
unfoldable pub reserve : ℕ → Player → ℕ → Player → ℤ → ℤ → World → Option World
reserve u sender v peer target_id sender_id w =
    if not (is_none sender.trade.status) || not (is_none peer.trade.status)
    then none
    else some (
        put_both u (record sender { trade = pending requester v target_id }) v
          (record peer { trade = pending target u sender_id }) w)

-- `TradeRequest`. The index of the target has 16 bits, so that two of the tests never fail.
unfoldable pub request : ℕ → ℤ → ℕ → World → Outcome
unfolding reserve
request u target_id v w = elim (lookup u w) [
  | none ↦ (w, (u, trade_event (pos 0) result_denial) ∷ [])
  | some sender ↦
      if nonpos sender.character_id || v == u
      then (w, (u, trade_event sender.character_id result_denial) ∷ [])
      else elim (lookup v w) [
        | none ↦ (w, (u, trade_event sender.character_id result_denial) ∷ [])
        | some peer ↦
            if not (eq_ℤ peer.character_id target_id)
            then (w, (u, trade_event sender.character_id result_denial) ∷ [])
            else elim (reserve u sender v peer target_id sender.character_id w) [
              | none ↦ (w, (u, trade_event sender.character_id result_progress) ∷ [])
              | some w' ↦ (w', (v, trade_event sender.character_id result_request) ∷ [])
            ]
      ]
]

-- `valid` of `TradeOpenEvent`.
unfoldable pub valid_open : ℕ → Player → Player → ℕ → Bool
valid_open u me peer event =
    (is_pending me.trade.status
      && (is_pending peer.trade.status
          && (peer.trade.opponent_user_idx == u
              && eq_ℤ peer.trade.opponent_character_id me.character_id)))
    && (if event == result_request_cancel
        then is_requester me.trade.role
        else is_target me.trade.role)

-- The end of `TradeOpenEvent`.
unfoldable pub open_valid : ℕ → Player → ℕ → Player → ℕ → World → Outcome
open_valid u me v peer event w =
    let requester_user = if is_target me.trade.role then v else u in
    let target_id = if is_target me.trade.role then me.character_id else peer.character_id in
    let notified = if is_requester me.trade.role then v else requester_user in
    let opened =
      put_both u (record me { trade = record me.trade { status = trade_open } }) v
        (record peer { trade = record peer.trade { status = trade_open } }) w in
    if event == result_accept
    then (
      opened,
      (u, open_result result_accept) ∷ (requester_user, trade_event target_id result_ready) ∷ [],
    )
    else (
      put_both u (without_trade me) v (without_trade peer) w,
      (u, open_result event) ∷ (notified, trade_event target_id event) ∷ [],
    )

-- `TradeOpenEvent`
unfoldable pub open_event : ℕ → ℕ → World → Outcome
unfolding valid_open open_valid
open_event u event w =
    let refused : Outcome = (w, (u, open_result result_invalid) ∷ []) in
    let known =
      event == result_request_cancel
      || (event == result_accept || (event == result_reject || event == result_auto_reject)) in
    if not known then refused else elim (lookup u w) [
      | none ↦ refused
      | some me ↦
          let v = me.trade.opponent_user_idx in
          if v == u then refused else elim (lookup v w) [
            | none ↦ refused
            | some peer ↦
                if not (valid_open u me peer event) then refused else open_valid u me v peer event w
          ]
    ]

abbrev pub refuse : ℕ → ℕ → World → Outcome
refuse u packet_type w = (w, (u, packet_result packet_type result_invalid) ∷ [])

-- `TradeCloseEvent`, on an open pair.
unfoldable pub close_open : ℕ → Player → ℕ → Player → ℕ → World → Outcome
close_open u me v peer event w =
    let told : List Sent =
      (u, packet_result close_event_type event) ∷ (v, trade_event me.character_id event) ∷ [] in
    let lists : List Sent =
      (u, trade_event peer.character_id result_request_list)
      ∷ (v, trade_event me.character_id result_request_list)
      ∷ [] in
    if event == result_submit
    then (if me.trade.submitted then refuse u close_event_type w else (
      insert u (record me { trade = record me.trade { submitted = true } }) w,
      told ++ (if peer.trade.submitted then lists else []),
    ))
    else if event == result_submit_cancel
    then (insert u (record me { trade = record me.trade { submitted = false } }) w, told)
    else (put_both u (without_trade me) v (without_trade peer) w, told)

-- `TradeCloseEvent`
unfoldable pub close_event : ℕ → ℕ → World → Outcome
unfolding close_open trade_pair
close_event u event w =
    let known =
      event == result_submit_cancel || (event == result_trade_cancel || event == result_submit) in
    if not known then refuse u close_event_type w else elim (trade_pair u w) [
      | none ↦ refuse u close_event_type w
      | some (me, v, peer) ↦
          if not (is_open me.trade.status) || not (is_open peer.trade.status)
          then refuse u close_event_type w
          else close_open u me v peer event w
    ]

-- `CancelTrade`
unfoldable pub cancel_trade : ℕ → World → Outcome
cancel_trade u w = elim (lookup u w) [
  | none ↦ (w, [])
  | some me ↦
      let v = me.trade.opponent_user_idx in
      let alone = insert u (without_trade me) w in
      if is_none me.trade.status
      then (w, [])
      else if v == u
      then (alone, [])
      else elim (lookup v w) [
        | none ↦ (alone, [])
        | some peer ↦
            if peer.trade.opponent_user_idx == u
            then (
              put_both u (without_trade me) v (without_trade peer) w,
              (v, trade_event me.character_id result_resets) ∷ [],
            )
            else (alone, [])
      ]
]
