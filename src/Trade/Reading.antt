-- ===== src/Trade/Reading.antt =====
-- The handlers of cmd/gameserver/packet/trade.go from their packet on: the test of its size, what is
-- read of it, the action. The result `none` is a panic of a read.
use freya.Common.Signed.{ℤ, pos, pattern_of}
use freya.Common.{
  ℕ, zero, suc, ◌+◌, ◌*◌, ◌%◌, ◌^◌, ◌||◌, not, Option, none, some, List, [], ◌∷◌, ltb, ◌==◌,
  contains, if◌then◌else◌,
}
use freya.Network.Reader.{
  Reader, Read, answer, both, read_byte, read_uint16, read_int32, read_int64,
}
use freya.Trade.Book.{World}
use freya.Trade.Messages.{
  trade_event, open_result, packet_result, result_invalid, result_denial, close_event_type,
  add_item_type, add_alz_type, remove_item_type,
}
use freya.Trade.Handlers.{Outcome, request, open_event, close_event}
use freya.Trade.Offers.{add_item, add_alz, remove_item}
use freya.Trade.Completion.{Exchange, begin_list}

-- `decodeUserObjectIndex` of cmd/gameserver/packet/character.go
unfoldable pub decode_user_object_index : ℤ → ℕ
decode_user_object_index raw = pattern_of 32 raw % 2 ^ 16

unfoldable pub handle_request : ℕ → Reader → World → Option Outcome
unfolding decode_user_object_index
handle_request u r w =
    if ltb r.size 18
    then some (w, (u, trade_event (pos 0) result_denial) ∷ [])
    else answer (both read_int32 read_int32 r) (λ t. request u t.0 (decode_user_object_index t.1) w)

unfoldable pub handle_open_event : ℕ → Reader → World → Option Outcome
handle_open_event u r w =
    if ltb r.size 11
    then some (w, (u, open_result result_invalid) ∷ [])
    else answer (read_byte r) (λ event. open_event u event w)

abbrev invalid : ℕ → ℕ → World → Option Outcome
invalid u packet_type w = some (w, (u, packet_result packet_type result_invalid) ∷ [])

unfoldable pub handle_close_event : ℕ → Reader → World → Option Outcome
handle_close_event u r w =
    if ltb r.size 11
    then invalid u close_event_type w
    else answer (read_byte r) (λ event. close_event u event w)

unfoldable pub handle_add_item : ℕ → Reader → World → Option Outcome
handle_add_item u r w =
    if ltb r.size 14
    then invalid u add_item_type w
    else answer (both read_uint16 read_uint16 r) (λ t. add_item u t.0 t.1 w)

unfoldable pub handle_add_alz : ℕ → Reader → World → Option Outcome
handle_add_alz u r w =
    if ltb r.size 18
    then invalid u add_alz_type w
    else answer (read_int64 r) (λ amount. add_alz u amount w)

unfoldable pub handle_remove_item : ℕ → Reader → World → Option Outcome
handle_remove_item u r w =
    if ltb r.size 14
    then invalid u remove_item_type w
    else answer (both read_uint16 read_uint16 r) (λ t. remove_item u t.0 t.1 w)

-- The loop that reads the slots: `count` of them, none above 255 and none twice. The inner `none` is
-- the return of the handler.
unfoldable pub read_slots : ℕ → List ℕ → Read (Option (List ℕ))
read_slots zero seen r = some (some [], r)
read_slots (suc count) seen r = elim (read_uint16 r) [
  | none ↦ none
  | some (slot, r') ↦
      let rest = read_slots count (slot ∷ seen) r' in
      if ltb 255 slot || contains seen slot then some (none, r') else elim rest [
        | none ↦ none
        | some (none, r'') ↦ some (none, r'')
        | some (some slots, r'') ↦ some (some (slot ∷ slots), r'')
      ]
]

-- The count and the slots of a list.
unfoldable pub read_list : Read (Option (List ℕ))
unfolding read_slots
read_list r = if ltb r.size 11 then some (none, r) else elim (read_byte r) [
  | none ↦ none
  | some (count, r') ↦
      if not (r'.size == 11 + count * 2) || ltb 255 count
      then some (none, r')
      else read_slots count [] r'
]

abbrev pub answer_list :
    {B : Type 0} → Option (Option (List ℕ) × Reader) → B → (List ℕ → B) → Option B
answer_list none refusal f = none
answer_list (some (none, r)) refusal f = some refusal
answer_list (some (some slots, r)) refusal f = some (f slots)

-- Up to the call of the master server.
unfoldable pub handle_request_list : ℕ → Reader → World → Option (Outcome × Option Exchange)
unfolding read_list
handle_request_list u r w =
    answer_list (read_list r) ((w, []), none) (λ slots. begin_list u slots w)
