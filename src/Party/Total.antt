-- ===== src/Party/Total.antt =====
-- No packet makes a handler of parties panic (cmd/gameserver/packet/party.go).
use freya.Common.{
  ℕ, ◌+◌, ◌≤◌, ◌≡◌, refl, Bool, true, false, some, List, [], ltb, leb, length, take, drop, arith,
  if◌then◌else◌, Bool-cases, inl, inr, All, All-weaken,
}
use freya.Network.Reader.{Reader, read_byte, read_int32, read_string, read_bytes}
use freya.Network.Reader.Places.{read_places_total, read_signed_total}
use freya.Network.Reader.Takes.{Yields, one-Takes, both-Takes, answer_total, then_Yields}
use freya.Session.{Session, run}
use freya.Session.Framed.{IsFramed, run-IsFramed}
use freya.Party.Names.{decode_name}
use freya.Party.Book.{World}
use freya.Party.Messages.{Outcome}
use freya.Party.Reading.{
  Kind, party_invite, party_invite_result, party_invite_cancel, party_leave, party_kickout,
  party_leader_change, party_auth_change, party_looting_type, party_search_regist,
  party_search_list, dispatch, handle_invite, handle_invite_result, handle_invite_cancel,
  handle_kickout, handle_leader_change, handle_auth_change, handle_looting_type,
  handle_search_regist, handle_search_list, read_name,
}

string_total : (n : ℕ) (r : Reader) → r.index + n ≤ length r.buffer → Yields (read_string n r)
unfolding read_string
string_total n r h =
    let room : ltb (length r.buffer) (r.index + n) ≡ false = ground (arith, h) in
    (
      (take n (drop r.index r.buffer), record r { index = r.index + n }),
      rw (room, read_string) refl,
    )

bytes_total : (n : ℕ) (r : Reader) → r.index + n ≤ length r.buffer → Yields (read_bytes n r)
unfolding read_bytes
bytes_total n r h =
    let room : ltb (length r.buffer) (r.index + n) ≡ false = ground (arith, h) in
    ((take n (drop r.index r.buffer), record r { index = r.index + n }), rw (room, read_bytes) refl)

read_name_total :
    (size : ℕ) (r : Reader)
    → (leb 33 size ≡ true → r.index + 17 ≤ length r.buffer)
    → Yields (read_name size r)
unfolding read_name
read_name_total size r h = elim (Bool-cases (leb 33 size)) [
  | inr short ↦ (([], r), rw (short, read_name) refl)
  | inl long ↦
      let ((raw, r'), e) = string_total 17 r (h long) in
      ((decode_name raw, r'), rw (long, e, read_name) refl)
]

either_total : (b : Bool) (x y : Outcome) → Yields (if b then some x else some y)
either_total true x y = (x, refl)
either_total false x y = (y, refl)

-- Whatever a packet holds, its handler does not panic, where the packet is read up to the end of its header
-- and has at least as many bytes as that says.
party_total :
    (kind : Kind) (u : ℕ) (r : Reader) (w : World)
    → IsFramed r
    → (o : Outcome) × (dispatch kind u r w ≡ some o)
unfolding dispatch handle_invite handle_invite_result handle_invite_cancel handle_kickout
    handle_leader_change handle_auth_change handle_looting_type handle_search_regist
    handle_search_list read_byte read_int32
party_total party_invite u r w (index, size) = answer_total (ltb r.size 16) _ _ _ (λ h.
    then_Yields 1 read_byte _ (read_places_total 8 1) r (ground (arith, h, index, size)) (
      then_Yields 4 read_int32 _ (read_signed_total 32 4) _ (ground (arith, h, index, size)) (
        then_Yields 1 read_byte _ (read_places_total 8 1) _ (ground (arith, h, index, size))
          (read_name_total r.size _ (λ k. ground (arith, k, index, size))))))
party_total party_invite_result u r w (index, size) = answer_total (ltb r.size 19) _ _ _ (λ h.
    then_Yields 4 read_int32 _ (read_signed_total 32 4) r (ground (arith, h, index, size)) (
      both-Takes 1 4 read_byte read_int32 (read_places_total 8 1) (read_signed_total 32 4) _
        (ground (arith, h, index, size))))
party_total party_invite_cancel u r w (index, size) = answer_total (ltb r.size 15) _ _ _ (λ h.
    both-Takes 4 1 read_int32 read_byte (read_signed_total 32 4) (read_places_total 8 1) r
      (ground (arith, h, index, size)))
party_total party_leave u r w framed = (_, refl)
party_total party_kickout u r w (index, size) = answer_total (ltb r.size 15) _ _ _ (λ h.
    both-Takes 4 1 read_int32 read_byte (read_signed_total 32 4) (read_places_total 8 1) r
      (ground (arith, h, index, size)))
party_total party_leader_change u r w (index, size) =
    answer_total (ltb r.size 14) _ _ _
      (λ h. one-Takes 4 read_int32 (read_signed_total 32 4) r (ground (arith, h, index, size)))
party_total party_auth_change u r w (index, size) =
    answer_total (ltb r.size 14) _ _ _
      (λ h. one-Takes 4 read_int32 (read_signed_total 32 4) r (ground (arith, h, index, size)))
party_total party_looting_type u r w (index, size) = answer_total (ltb r.size 18) _ _ _ (λ h.
    both-Takes 4 4 read_int32 read_int32 (read_signed_total 32 4) (read_signed_total 32 4) r
      (ground (arith, h, index, size)))
party_total party_search_regist u r w (index, size) = answer_total (ltb r.size 51) _ _ _ (λ h.
    then_Yields 1 read_byte _ (read_places_total 8 1) r (ground (arith, h, index, size))
      (bytes_total 40 _ (ground (arith, h, index, size))))
party_total party_search_list u r w framed = either_total (ltb r.size 10) _ _

-- No packet that a session hands on makes a handler of parties panic, whatever the client sent.
pub session_party_handled :
    (closes : ℕ → Bool) (reads : List (List ℕ × Bool)) (session : Session)
    → All
        (λ r. (kind : Kind) (u : ℕ) (w : World) → (o : Outcome) × (dispatch kind u r w ≡ some o))
        (run closes reads session).0
session_party_handled closes reads session =
    All-weaken IsFramed _ (λ r h kind u w. party_total kind u r w h) (run closes reads session).0
      (run-IsFramed closes reads session)
