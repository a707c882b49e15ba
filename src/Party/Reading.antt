-- ===== src/Party/Reading.antt =====
-- The handlers of cmd/gameserver/packet/party.go from their packet on: the test of its size, what is
-- read of it, the action. The result `none` is a panic of a read.
use freya.Common.Signed.{ℤ, pos, eq_ℤ}
use freya.Common.{
  false, ℕ, Bool, not, Option, none, some, List, [], ◌∷◌, ltb, leb, ◌==◌, if◌then◌else◌,
}
use freya.Network.Reader.{
  Reader, Read, answer, both, read_byte, read_int32, read_string, read_bytes,
}
use freya.Party.Book.{World, no_member}
use freya.Party.Messages.{
  Outcome, Message, invite_response, invite_answer, cancel_result, kickout_result,
  leader_change_result, auth_change_result, looting_type_result, search_regist_result, invite_error,
  answer_failed,
}
use freya.Party.Names.{decode_name, trim_right}
use freya.Party.Invitations.{invite, answer_invite, cancel_invite}
use freya.Party.Members.{leave, kickout}
use freya.Party.Options.{leader_change, auth_change, looting_type}
use freya.Party.Search.{search_regist, list_parties}

-- The packets that the handlers of parties are registered for.
pub data Kind : Type 0 where
  party_invite party_invite_result party_invite_cancel party_leave party_kickout party_leader_change
        party_auth_change party_looting_type party_search_regist party_search_list :
      Kind

-- `Register` of cmd/gameserver/packet/packet.go, for the packets of parties.
unfoldable pub kind_of : ℕ → Option Kind
kind_of packet_type =
    if packet_type == 2011
    then some party_invite
    else if packet_type == 2013
    then some party_invite_result
    else if packet_type == 2017
    then some party_invite_cancel
    else if packet_type == 2019
    then some party_leave
    else if packet_type == 2021
    then some party_kickout
    else if packet_type == 2023
    then some party_leader_change
    else if packet_type == 2025
    then some party_auth_change
    else if packet_type == 2033
    then some party_looting_type
    else if packet_type == 2077
    then some party_search_regist
    else if packet_type == 2081
    then some party_search_list
    else none

-- The answer to a packet that is too short.
abbrev pub refuse : ℕ → Message → World → Outcome
refuse u message w = (w, (u, message) ∷ [])

-- `BOOL`
abbrev pub is_set : ℤ → Bool
is_set n = not (eq_ℤ n (pos 0))

-- The name of a packet that is long enough to have one.
unfoldable pub read_name : ℕ → Read (List ℕ)
unfolding decode_name
read_name size r =
    if leb 33 size
    then elim (read_string 17 r) [ none ↦ none | some (raw, r') ↦ some (decode_name raw, r') ]
    else some ([], r)

unfoldable pub handle_invite : ℕ → Reader → World → Option Outcome
unfolding read_name
handle_invite u r w =
    if ltb r.size 16
    then some (refuse u (invite_response invite_error no_member) w)
    else answer (both read_byte (both read_int32 (both read_byte (read_name r.size))) r)
        (λ t. invite u t.0 t.1.0 t.1.1.0 t.1.1.1 w)

unfoldable pub handle_invite_result : ℕ → Reader → World → Option Outcome
handle_invite_result u r w =
    if ltb r.size 19
    then some (refuse u (invite_answer answer_failed) w)
    else answer (both read_int32 (both read_byte read_int32) r)
        (λ t. answer_invite u t.0 (is_set t.1.1) w)

unfoldable pub handle_invite_cancel : ℕ → Reader → World → Option Outcome
handle_invite_cancel u r w =
    if ltb r.size 15
    then some (refuse u (cancel_result false) w)
    else answer (both read_int32 read_byte r) (λ t. cancel_invite u w)

unfoldable pub handle_kickout : ℕ → Reader → World → Option Outcome
handle_kickout u r w =
    if ltb r.size 15
    then some (refuse u (kickout_result false) w)
    else answer (both read_int32 read_byte r) (λ t. kickout u t.0 w)

unfoldable pub handle_leader_change : ℕ → Reader → World → Option Outcome
handle_leader_change u r w =
    if ltb r.size 14
    then some (refuse u (leader_change_result false) w)
    else answer (read_int32 r) (λ id. leader_change u id w)

unfoldable pub handle_auth_change : ℕ → Reader → World → Option Outcome
handle_auth_change u r w =
    if ltb r.size 14
    then some (refuse u (auth_change_result false) w)
    else answer (read_int32 r) (λ leader_only. auth_change u (is_set leader_only) w)

unfoldable pub handle_looting_type : ℕ → Reader → World → Option Outcome
handle_looting_type u r w =
    if ltb r.size 18
    then some (refuse u (looting_type_result false) w)
    else answer (both read_int32 read_int32 r) (λ t. looting_type u t.0 t.1 w)

unfoldable pub handle_search_regist : ℕ → Reader → World → Option Outcome
unfolding trim_right
handle_search_regist u r w =
    if ltb r.size 51
    then some (refuse u (search_regist_result 3) w)
    else answer (both read_byte (read_bytes 40) r) (λ t. search_regist u t.0 (trim_right t.1) w)

unfoldable pub handle_search_list : ℕ → Reader → World → Option Outcome
handle_search_list u r w = if ltb r.size 10 then some (w, []) else some (list_parties u w)

unfoldable pub dispatch : Kind → ℕ → Reader → World → Option Outcome
dispatch party_invite u r w = handle_invite u r w
dispatch party_invite_result u r w = handle_invite_result u r w
dispatch party_invite_cancel u r w = handle_invite_cancel u r w
dispatch party_leave u r w = some (leave u w)
dispatch party_kickout u r w = handle_kickout u r w
dispatch party_leader_change u r w = handle_leader_change u r w
dispatch party_auth_change u r w = handle_auth_change u r w
dispatch party_looting_type u r w = handle_looting_type u r w
dispatch party_search_regist u r w = handle_search_regist u r w
dispatch party_search_list u r w = handle_search_list u r w
