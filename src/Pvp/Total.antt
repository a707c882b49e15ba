-- ===== src/Pvp/Total.antt =====
-- No packet makes a handler of duels panic (cmd/gameserver/packet/pvp.go and pvp_combat.go).
use freya.Common.{
  length, ◌≤◌, ◌+◌, ◌*◌, zero, suc, [], ◌∷◌, ℕ, ◌≡◌, refl, Bool, true, Option, some, none, is_some,
  List, ltb, arith, ◌==◌, not, Bool-cases, Option-cases, inl, inr, All, All-weaken,
}
use freya.Network.Reader.{both, Reader, read_byte, read_uint16, read_int32}
use freya.Network.Reader.Places.{read_places_total, read_signed_total}
use freya.Network.Reader.Takes.{Takes, Yields, both-Takes, pair-Takes, then_Yields, answer_total}
use freya.Session.{Session, run}
use freya.Session.Framed.{IsFramed, run-IsFramed}
use freya.Trade.Reading.{decode_user_object_index}
use freya.Pvp.Book.{World, Outcome}
use freya.Pvp.Skills.{ClientData}
use freya.Pvp.Casting.{read_targets, read_cast, target_count, is_refused, handle_skill}
use freya.Pvp.Reading.{
  PvpKind, pvp_request, pvp_response, pvp_pending, pvp_cancel, attack_to_user, skill_to_user,
  kind_of, dispatch, handle_packet, handle_request, handle_response, handle_pending, handle_cancel,
  handle_attack,
}

some_Yields : {A : Type 0} (m : Option A) → is_some m ≡ true → Yields m
some_Yields none e = cc e
some_Yields (some a) e = (a, refl)

-- As many targets as there are bytes for.
targets_total : (n : ℕ) (r : Reader) → r.index + n * 5 ≤ length r.buffer → Yields (read_targets n r)
unfolding read_targets read_int32 read_byte
targets_total zero r room = (([], r), refl)
targets_total (suc n) r room =
    let (t, e) =
      pair-Takes 4 1 read_int32 read_byte (read_signed_total 32 4) (read_places_total 8 1) r
        (omega (arith, room)) in
    let ((targets, r'), e') =
      targets_total n (record r { index = r.index + (4 + 1) }) (omega (arith, room)) in
    (((decode_user_object_index t.0, t.1) ∷ targets, r'), ground (arith, e, e'))

two_bytes-Takes : Takes 2 (both read_byte read_byte)
unfolding read_byte
two_bytes-Takes = pair-Takes 1 1 read_byte read_byte (read_places_total 8 1) (read_places_total 8 1)

cast-Takes : Takes 17 read_cast
unfolding read_uint16 read_int32 read_byte
cast-Takes = pair-Takes 2 15 read_uint16 _ (read_places_total 16 2) (
    pair-Takes 4 11 read_int32 _ (read_signed_total 32 4) (
      pair-Takes 1 10 read_byte _ (read_places_total 8 1) (
        pair-Takes 2 8 read_uint16 _ (read_places_total 16 2) (
          pair-Takes 2 6 read_uint16 _ (read_places_total 16 2) (
            pair-Takes 2 4 _ _ two_bytes-Takes
              (pair-Takes 2 2 _ _ two_bytes-Takes two_bytes-Takes))))))

skill_size : (packet_type size : ℕ) → kind_of packet_type size ≡ some skill_to_user → size ≡ 32
unfolding kind_of
skill_size packet_type size known = ground (arith, known)

handle_skill_total :
    (tables : ClientData) (u : ℕ) (r : Reader) (w : World)
    → IsFramed r
    → r.size ≡ 32
    → is_some (handle_skill tables u r w) ≡ true
unfolding handle_skill
handle_skill_total tables u r w (index, size) wide =
    let ((skill_id, (slot, (moving, (x, (y, (a, (b, (c, last)))))))), e) =
      cast-Takes r (omega (arith, index, size, wide)) in
    let count = target_count last r.size in
    let r' : Reader = record r { index = r.index + 17 } in
    elim (Bool-cases (is_refused slot moving count r.size)) [
      | inl k ↦ rw (e, k, handle_skill) refl
      | inr k ↦
          let one : count ≡ 1 = ground (arith, k, wide) in
          let ((targets, r''), e') =
            targets_total count r' (omega (arith, index, size, wide, one)) in
          rw (e, k, e', handle_skill) refl
    ]

-- Whatever a packet of duels holds, its handler does not panic, where the packet is read
-- up to the end of its header and has at least as many bytes as that says.
pvp_total :
    (tables : ClientData) (kind : PvpKind) (u : ℕ) (r : Reader) (w : World)
    → kind_of r.packet_type r.size ≡ some kind
    → IsFramed r
    → (o : Outcome) × (dispatch tables kind u r w ≡ some o)
unfolding dispatch handle_request handle_response handle_pending handle_cancel handle_attack
    read_byte read_int32
pvp_total tables pvp_request u r w known (index, size) = answer_total (ltb r.size 19) _ _ _ (λ k.
    then_Yields 4 read_int32 _ (read_signed_total 32 4) r (ground (arith, k, index, size)) (
      both-Takes 4 1 read_int32 read_byte (read_signed_total 32 4) (read_places_total 8 1) _
        (ground (arith, k, index, size))))
pvp_total tables pvp_response u r w known (index, size) = answer_total (ltb r.size 20) _ _ _ (λ k.
    then_Yields 4 read_int32 _ (read_signed_total 32 4) r (ground (arith, k, index, size)) (
      then_Yields 4 read_int32 _ (read_signed_total 32 4) _ (ground (arith, k, index, size)) (
        both-Takes 1 1 read_byte read_byte (read_places_total 8 1) (read_places_total 8 1) _
          (ground (arith, k, index, size)))))
pvp_total tables pvp_pending u r w known (index, size) = answer_total (ltb r.size 12) _ _ _ (λ k.
    both-Takes 1 1 read_byte read_byte (read_places_total 8 1) (read_places_total 8 1) r
      (ground (arith, k, index, size)))
pvp_total tables pvp_cancel u r w known (index, size) = answer_total (ltb r.size 19) _ _ _ (λ k.
    then_Yields 4 read_int32 _ (read_signed_total 32 4) r (ground (arith, k, index, size)) (
      both-Takes 4 1 read_int32 read_byte (read_signed_total 32 4) (read_places_total 8 1) _
        (ground (arith, k, index, size))))
pvp_total tables attack_to_user u r w known (index, size) =
    answer_total (not (r.size == 18)) _ _ _ (λ k.
      both-Takes 4 4 read_int32 read_int32 (read_signed_total 32 4) (read_signed_total 32 4) r
        (ground (arith, k, index, size)))
pvp_total tables skill_to_user u r w known framed =
    some_Yields (handle_skill tables u r w)
      (handle_skill_total tables u r w framed (skill_size r.packet_type r.size known))

packet_total :
    (tables : ClientData) (u : ℕ) (r : Reader) (w : World)
    → IsFramed r
    → (o : Outcome) × (handle_packet tables u r w ≡ some o)
unfolding handle_packet
packet_total tables u r w framed = elim (Option-cases (kind_of r.packet_type r.size)) [
  | inl e ↦ ((w, []), rw (e, handle_packet) refl)
  | inr (kind, e) ↦
      let (o, e') = pvp_total tables kind u r w e framed in (o, rw (e, e', handle_packet) refl)
]

-- No packet that a session hands on makes a handler of duels panic, whatever the client sent.
pub session_pvp_handled :
    (tables : ClientData) (closes : ℕ → Bool) (reads : List (List ℕ × Bool)) (session : Session)
    (u : ℕ) (w : World)
    → All (λ r. (o : Outcome) × (handle_packet tables u r w ≡ some o)) (run closes reads session).0
session_pvp_handled tables closes reads session u w =
    All-weaken IsFramed _ (λ r framed. packet_total tables u r w framed)
      (run closes reads session).0 (run-IsFramed closes reads session)
