-- ===== src/Pvp/Reading.antt =====
-- The handlers of cmd/gameserver/packet/pvp.go and pvp_combat.go from their packet on: the test of its
-- size, what is read of it, the action. The result `none` is a panic.
use freya.Common.{◌&&◌, ℕ, Option, none, some, [], not, ltb, ◌==◌, if◌then◌else◌}
use freya.Network.Reader.{Reader, answer, both, read_byte, read_int32}
use freya.Trade.Reading.{decode_user_object_index}
use freya.Pvp.Book.{
  World, Outcome, pvp_fail, request_result, response_result, pending_result, cancel_result,
}
use freya.Pvp.Handlers.{replies, request, respond, end_duel, cancel}
use freya.Pvp.Combat.{Weapons, attack}
use freya.Pvp.Skills.{ClientData}
use freya.Pvp.Casting.{handle_skill}

-- What `Register` of cmd/gameserver/packet/packet.go registers for duels. Of the packets of `SkillToUser` it is
-- those of 32 bytes.
pub data PvpKind : Type 0 where
  pvp_request pvp_response pvp_pending pvp_cancel attack_to_user skill_to_user : PvpKind

unfoldable pub kind_of : ℕ → ℕ → Option PvpKind
kind_of packet_type size =
    if packet_type == 330
    then some pvp_request
    else if packet_type == 332
    then some pvp_response
    else if packet_type == 334
    then some pvp_pending
    else if packet_type == 336
    then some pvp_cancel
    else if packet_type == 177
    then some attack_to_user
    else if packet_type == 175 && size == 32
    then some skill_to_user
    else none

unfoldable pub handle_request : ℕ → Reader → World → Option Outcome
unfolding decode_user_object_index
handle_request u r w =
    if ltb r.size 19
    then some (replies u (request_result pvp_fail) w)
    else answer (both read_int32 (both read_int32 read_byte) r)
        (λ t. request u (decode_user_object_index t.0) t.1.0 t.1.1 w)

unfoldable pub handle_response : ℕ → Reader → World → Option Outcome
unfolding decode_user_object_index
handle_response u r w =
    if ltb r.size 20
    then some (replies u (response_result pvp_fail) w)
    else answer (both read_int32 (both read_int32 (both read_byte read_byte)) r)
        (λ t. respond u (decode_user_object_index t.0) t.1.0 t.1.1.0 t.1.1.1 w)

unfoldable pub handle_pending : ℕ → Reader → World → Option Outcome
handle_pending u r w =
    if ltb r.size 12
    then some (replies u (pending_result pvp_fail) w)
    else answer (both read_byte read_byte r) (λ t. end_duel u t.0 t.1 w)

unfoldable pub handle_cancel : ℕ → Reader → World → Option Outcome
unfolding decode_user_object_index
handle_cancel u r w =
    if ltb r.size 19
    then some (replies u (cancel_result pvp_fail) w)
    else answer (both read_int32 (both read_int32 read_byte) r)
        (λ t. cancel u (decode_user_object_index t.0) t.1.0 t.1.1 w)

unfoldable pub handle_attack : Weapons → ℕ → Reader → World → Option Outcome
unfolding decode_user_object_index
handle_attack weapons u r w =
    if not (r.size == 18)
    then some (w, [])
    else answer (both read_int32 read_int32 r)
        (λ t. attack weapons u (decode_user_object_index t.0) t.1 w)

-- The packets of duels, by their types.
unfoldable pub dispatch : ClientData → PvpKind → ℕ → Reader → World → Option Outcome
unfolding handle_request handle_response handle_pending handle_cancel handle_attack
dispatch tables pvp_request u r w = handle_request u r w
dispatch tables pvp_response u r w = handle_response u r w
dispatch tables pvp_pending u r w = handle_pending u r w
dispatch tables pvp_cancel u r w = handle_cancel u r w
dispatch tables attack_to_user u r w = handle_attack tables.weapons u r w
dispatch tables skill_to_user u r w = handle_skill tables u r w

-- A packet of a session; those of other types are not for duels.
unfoldable pub handle_packet : ClientData → ℕ → Reader → World → Option Outcome
unfolding kind_of dispatch
handle_packet tables u r w = elim (kind_of r.packet_type r.size) [
  | none ↦ some (w, [])
  | some kind ↦ dispatch tables kind u r w
]
