-- ===== src/Trade/Total.antt =====
-- No packet makes a handler of trades panic (cmd/gameserver/packet/trade.go).
use freya.Common.{
  ℕ, zero, suc, ◌+◌, ◌*◌, ◌≤◌, ◌≡◌, refl, Bool, Option, none, some, List, [], ◌∷◌, ltb, length,
  arith, not, ◌||◌, ◌==◌, contains, All, All-weaken, Bool-cases, Option-cases, inl, inr,
}
use freya.Network.Reader.{Reader, read_byte, read_uint16, read_int32, read_int64}
use freya.Network.Reader.Takes.{Yields, one-Takes, both-Takes, answer_total}
use freya.Network.Reader.Places.{read_places_total, read_signed_total}
use freya.Session.{Session, run}
use freya.Session.Framed.{IsFramed, run-IsFramed}
use freya.Trade.Book.{World}
use freya.Trade.Handlers.{Outcome}
use freya.Trade.Completion.{TradeCall, complete_trade}
use freya.Trade.Reading.{
  answer_list, handle_request, handle_open_event, handle_close_event, handle_add_item,
  handle_add_alz, handle_remove_item, handle_request_list, read_list, read_slots,
}
use freya.Trade.Packets.{
  Kind, trade_request, trade_open_event, trade_close_event, trade_add_item, trade_add_alz,
  trade_remove_item, trade_request_list, begin_packet, dispatch, locally,
}

read_slots_total :
    (count : ℕ) (seen : List ℕ) (r : Reader)
    → r.index + count * 2 ≤ length r.buffer
    → Yields (read_slots count seen r)
unfolding read_slots read_uint16
read_slots_total zero seen r h = (_, refl)
read_slots_total (suc count) seen r h =
    let (slot, e) = read_places_total 16 2 r (omega (arith, h)) in
    let ((rest, r'), e') =
      read_slots_total count (slot ∷ seen) (record r { index = r.index + 2 }) (omega (arith, h)) in
    let r1 : Reader = record r { index = r.index + 2 } in
    elim (Bool-cases (ltb 255 slot || contains seen slot)) [
      | inl bad ↦ ((none, r1), ground (arith, e, bad))
      | inr fine ↦ elim (Option-cases rest) [
        | inl refused ↦ ((none, r'), ground (arith, e, fine, e', refused))
        | inr (slots, accepted) ↦ ((some (slot ∷ slots), r'), ground (arith, e, fine, e', accepted))
      ]
    ]

read_list_total : (r : Reader) → IsFramed r → Yields (read_list r)
unfolding read_list read_byte
read_list_total r (index, size) = elim (Bool-cases (ltb r.size 11)) [
  | inl short ↦ ((none, r), ground (arith, short))
  | inr long ↦
      let (count, e) = read_places_total 8 1 r (ground (arith, long, index, size)) in
      let r1 : Reader = record r { index = r.index + 1 } in
      elim (Bool-cases (not (r.size == 11 + count * 2) || ltb 255 count)) [
        | inl bad ↦ ((none, r1), ground (arith, long, e, bad))
        | inr fine ↦
            let (x, e') = read_slots_total count [] r1 (ground (arith, fine, index, size)) in
            (x, ground (arith, long, e, fine, e'))
      ]
]

locally_total : (m : Option Outcome) → Yields m → Yields (locally m)
locally_total m (o, e) = ((o, none), rw e refl)

answer_list_total :
    {B : Type 0} (m : Option (Option (List ℕ) × Reader)) (x : B) (f : List ℕ → B)
    → Yields m
    → Yields (answer_list m x f)
answer_list_total m x f ((none, r), e) = (x, rw e refl)
answer_list_total m x f ((some slots, r), e) = (f slots, rw e refl)

-- Whatever a packet holds, its handler does not panic up to a call of the master server, where the packet is read up to the end of its header
-- and has at least as many bytes as that says.
begin_packet_total :
    (kind : Kind) (u : ℕ) (r : Reader) (w : World) → IsFramed r → Yields (begin_packet kind u r w)
unfolding begin_packet handle_request handle_open_event handle_close_event handle_add_item
    handle_add_alz handle_remove_item handle_request_list read_byte read_uint16 read_int32
    read_int64
begin_packet_total trade_request u r w (index, size) = locally_total (handle_request u r w) (
    answer_total (ltb r.size 18) _ _ _ (λ h.
      both-Takes 4 4 read_int32 read_int32 (read_signed_total 32 4) (read_signed_total 32 4) r
        (ground (arith, h, index, size))))
begin_packet_total trade_open_event u r w (index, size) = locally_total (handle_open_event u r w) (
    answer_total (ltb r.size 11) _ _ _
      (λ h. one-Takes 1 read_byte (read_places_total 8 1) r (ground (arith, h, index, size))))
begin_packet_total trade_close_event u r w (index, size) =
    locally_total (handle_close_event u r w) (
      answer_total (ltb r.size 11) _ _ _
        (λ h. one-Takes 1 read_byte (read_places_total 8 1) r (ground (arith, h, index, size))))
begin_packet_total trade_add_item u r w (index, size) = locally_total (handle_add_item u r w) (
    answer_total (ltb r.size 14) _ _ _ (λ h.
      both-Takes 2 2 read_uint16 read_uint16 (read_places_total 16 2) (read_places_total 16 2) r
        (ground (arith, h, index, size))))
begin_packet_total trade_add_alz u r w (index, size) = locally_total (handle_add_alz u r w) (
    answer_total (ltb r.size 18) _ _ _
      (λ h. one-Takes 8 read_int64 (read_signed_total 64 8) r (ground (arith, h, index, size))))
begin_packet_total trade_remove_item u r w (index, size) =
    locally_total (handle_remove_item u r w) (
      answer_total (ltb r.size 14) _ _ _ (λ h.
        both-Takes 2 2 read_uint16 read_uint16 (read_places_total 16 2) (read_places_total 16 2) r
          (ground (arith, h, index, size))))
begin_packet_total trade_request_list u r w framed =
    answer_list_total (read_list r) _ _ (read_list_total r framed)

pub dispatch_total :
    {S : Type 0} (call : TradeCall S) (server : ℕ) (kind : Kind) (u : ℕ) (r : Reader) (w : World)
    (s : S)
    → IsFramed r
    → (a : Outcome × S) × (dispatch call server kind u r w s ≡ some a)
unfolding dispatch
dispatch_total call server kind u r w s framed =
    let (o, e) = begin_packet_total kind u r w framed in
    (complete_trade call server o s, rw (e, dispatch) refl)

-- No packet that a session hands on makes a handler of trades panic, whatever the client sent.
pub session_packets_handled :
    {S : Type 0} (call : TradeCall S) (server : ℕ) (closes : ℕ → Bool)
    (reads : List (List ℕ × Bool)) (session : Session)
    → All
        (λ r.
          (kind : Kind) (u : ℕ) (w : World) (s : S)
          → (a : Outcome × S) × (dispatch call server kind u r w s ≡ some a))
        (run closes reads session).0
session_packets_handled call server closes reads session =
    All-weaken IsFramed _ (λ r h kind u w s. dispatch_total call server kind u r w s h)
      (run closes reads session).0 (run-IsFramed closes reads session)
