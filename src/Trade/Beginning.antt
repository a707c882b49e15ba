-- ===== src/Trade/Beginning.antt =====
-- What a packet of a trade does up to a call of the master server keeps the players paired
-- (cmd/gameserver/packet/trade.go).
use freya.Common.{
  ℕ, ◌≡◌, refl, subst, Bool, true, false, Option, none, some, List, [], if◌then◌else◌,
}
use freya.Network.Reader.{Reader, answer}
use freya.Trade.Book.{World}
use freya.Trade.Handlers.{Outcome}
use freya.Trade.Completion.{Exchange, begin_list}
use freya.Trade.Reading.{
  answer_list, handle_request, handle_open_event, handle_close_event, handle_add_item,
  handle_add_alz, handle_remove_item, handle_request_list, read_list, decode_user_object_index,
}
use freya.Trade.Pairing.{IsPaired, same_value}
use freya.Trade.Keeping.{
  Keeps, leaves, close_event-Keeps, add_item-Keeps, add_alz-Keeps, remove_item-Keeps,
}
use freya.Trade.Starting.{request-Keeps, open_event-Keeps}
use freya.Trade.Ending.{Begins, begins_none, begin_list-Begins}
use freya.Trade.Packets.{
  Kind, trade_request, trade_open_event, trade_close_event, trade_add_item, trade_add_alz,
  trade_remove_item, trade_request_list, begin_packet, locally,
}

-- What holds of the refusal and of every action holds of what a handler yields.
handled :
    {A : Type 0} (b : Bool) (refusal : Outcome) (m : Option (A × Reader)) (f : A → Outcome)
    (o : Outcome)
    → Keeps refusal
    → ((a : A) → Keeps (f a))
    → (if b then some refusal else answer m f) ≡ some o
    → Keeps o
handled true refusal m f o k g e = subst Keeps (same_value refl e) k
handled false refusal none f o k g e = cc e
handled false refusal (some (a, r)) f o k g e = subst Keeps (same_value refl e) (g a)

local-Begins :
    (m : Option Outcome) (o : Outcome × Option Exchange)
    → ((o' : Outcome) → m ≡ some o' → Keeps o')
    → locally m ≡ some o
    → Begins o
local-Begins none o g e = cc e
local-Begins (some o') o g e = subst Begins (same_value refl e) (begins_none o' (g o' refl))

listed :
    (u : ℕ) (w : World) (o : Outcome × Option Exchange)
    → IsPaired w
    → (m : Option (Option (List ℕ) × Reader))
    → answer_list m ((w, []), none) (λ slots. begin_list u slots w) ≡ some o
    → Begins o
listed u w o h none e = cc e
listed u w o h (some (none, r')) e =
    subst Begins (same_value refl e) (begins_none (w, []) (leaves h))
listed u w o h (some (some slots, r')) e =
    subst Begins (same_value refl e) (begin_list-Begins u slots w h)

pub begin_packet-Begins :
    (kind : Kind) (u : ℕ) (r : Reader) (w : World) (o : Outcome × Option Exchange)
    → IsPaired w
    → begin_packet kind u r w ≡ some o
    → Begins o
unfolding begin_packet handle_request handle_open_event handle_close_event handle_add_item
    handle_add_alz handle_remove_item handle_request_list
begin_packet-Begins trade_request u r w o h = local-Begins (handle_request u r w) o (λ o'.
    handled _ _ _ _ o' (leaves h) (λ t. request-Keeps u t.0 (decode_user_object_index t.1) w h))
begin_packet-Begins trade_open_event u r w o h =
    local-Begins (handle_open_event u r w) o
      (λ o'. handled _ _ _ _ o' (leaves h) (λ event. open_event-Keeps u event w h))
begin_packet-Begins trade_close_event u r w o h =
    local-Begins (handle_close_event u r w) o
      (λ o'. handled _ _ _ _ o' (leaves h) (λ event. close_event-Keeps u event w h))
begin_packet-Begins trade_add_item u r w o h =
    local-Begins (handle_add_item u r w) o
      (λ o'. handled _ _ _ _ o' (leaves h) (λ t. add_item-Keeps u t.0 t.1 w h))
begin_packet-Begins trade_add_alz u r w o h =
    local-Begins (handle_add_alz u r w) o
      (λ o'. handled _ _ _ _ o' (leaves h) (λ amount. add_alz-Keeps u amount w h))
begin_packet-Begins trade_remove_item u r w o h =
    local-Begins (handle_remove_item u r w) o
      (λ o'. handled _ _ _ _ o' (leaves h) (λ t. remove_item-Keeps u t.0 t.1 w h))
begin_packet-Begins trade_request_list u r w o h = listed u w o h (read_list r)
