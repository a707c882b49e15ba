-- ===== src/Party/Book.antt =====
-- The state of parties: `PartyState`, `PartyMember`, `PartyInviteState` and `PartySearchState` of
-- cmd/gameserver/context/session.go, and what the handlers of cmd/gameserver/packet/party.go read of a
-- player. Texts are their bytes.
use freya.Common.Signed.{ℤ, pos, eq_ℤ, pattern_of, signed}
use freya.Common.Maps.{GoMap}
use freya.Common.{
  ℕ, ◌+◌, ◌%◌, ◌^◌, Bool, true, false, not, ◌||◌, Option, none, some, List, [], ◌∷◌, ◌==◌,
  if◌then◌else◌,
}

-- `PartyInviteNone`, `PartyInviteOutgoing`, `PartyInviteIncoming`
pub data InviteStatus : Type 0 where
  invite_none outgoing incoming : InviteStatus

pub data MemberStatus : Type 0 where
  status_none login logoff : MemberStatus

abbrev pub party_max_members : ℕ
party_max_members = 7

pub record PartyMember : Type 0 where
  pub user_idx : ℕ  -- uint16
  pub character_id : ℤ  -- int32
  pub level : ℕ  -- uint16
  pub channel : ℕ  -- byte
  pub battle_style : ℕ  -- byte
  pub member_status : MemberStatus
  pub name : List ℕ

pub record PartyState : Type 0 where
  pub id : ℤ  -- int32
  pub leader_user_idx : ℕ  -- uint16
  pub leader_character_id : ℤ  -- int32
  pub leader_only_invite_authority : Bool
  pub normal_looting_type : ℕ  -- byte
  pub owner_looting_type : ℕ  -- byte
  pub members : List PartyMember

pub record PartyInvite : Type 0 where
  pub status : InviteStatus
  pub opponent_user_idx : ℕ  -- uint16
  pub opponent_character_id : ℤ  -- int32
  pub channel : ℕ  -- byte

pub record PartySearch : Type 0 where
  pub registered : Bool
  pub max_member_count : ℕ  -- byte
  pub title : List ℕ

-- `PartyState{}`, `PartyInviteState{}`, `PartyMember{}`
abbrev pub no_party : PartyState
no_party = record {
  id = pos 0;
  leader_user_idx = 0;
  leader_character_id = pos 0;
  leader_only_invite_authority = false;
  normal_looting_type = 0;
  owner_looting_type = 0;
  members = [];
}

abbrev pub no_invite : PartyInvite
no_invite = record {
  status = invite_none;
  opponent_user_idx = 0;
  opponent_character_id = pos 0;
  channel = 0;
}

abbrev pub no_member : PartyMember
no_member = record {
  user_idx = 0;
  character_id = pos 0;
  level = 0;
  channel = 0;
  battle_style = 0;
  member_status = status_none;
  name = [];
}

-- What the handlers read of a `Character`.
pub record Char : Type 0 where
  pub id : ℤ  -- int32
  pub level : ℕ  -- uint16
  pub battle_style : ℕ  -- byte
  pub name : List ℕ
  pub world : ℕ  -- byte
  pub current_hp : ℕ  -- uint16, as the five below
  pub max_hp : ℕ
  pub current_mp : ℕ
  pub max_mp : ℕ
  pub current_sp : ℕ
  pub max_sp : ℕ
  pub x : ℕ  -- byte
  pub y : ℕ  -- byte

-- What they use of a `Context`; the character may be missing.
pub record Player : Type 0 where
  pub char : Option Char
  pub party : PartyState
  pub invite : PartyInvite
  pub search : PartySearch

-- The sessions by `UserIdx`, each with its context, in the order in which Go lists them;
-- `partySequence`; `ChannelId` of the settings.
pub record World : Type 0 where
  pub players : GoMap Player
  pub sequence : ℤ  -- int32
  pub channel_id : ℕ  -- byte

-- `party.ID != 0`
abbrev pub has_party : PartyState → Bool
has_party s = not (eq_ℤ s.id (pos 0))

abbrev pub is_no_invite : InviteStatus → Bool
is_no_invite invite_none = true
is_no_invite _ = false

abbrev pub is_outgoing : InviteStatus → Bool
is_outgoing outgoing = true
is_outgoing _ = false

abbrev pub is_incoming : InviteStatus → Bool
is_incoming incoming = true
is_incoming _ = false

-- `context.Party = context.PartyState{}` and `context.PartyInvite = context.PartyInviteState{}`
abbrev pub without_party : Player → Player
without_party p = record p { party = no_party; invite = no_invite }

abbrev pub without_invite : Player → Player
without_invite p = record p { invite = no_invite }

-- `partyMemberFromContext`
unfoldable pub member_of : ℕ → ℕ → Player → Option PartyMember
member_of channel_id user_idx p = elim p.char [
  | none ↦ none
  | some c ↦ some record {
    user_idx = user_idx;
    character_id = c.id;
    level = c.level;
    channel = channel_id;
    battle_style = c.battle_style;
    member_status = login;
    name = c.name;
  }
]

-- `partyHasMember`
unfoldable pub party_has_member : List PartyMember → ℕ → Bool
party_has_member [] user_idx = false
party_has_member (m ∷ ms) user_idx = m.user_idx == user_idx || party_has_member ms user_idx

-- `partyMemberByCharacterID`
unfoldable pub member_by_character : List PartyMember → ℤ → Option PartyMember
member_by_character [] character_id = none
member_by_character (m ∷ ms) character_id =
    let rest = member_by_character ms character_id in
    if eq_ℤ m.character_id character_id then some m else rest

-- The loops that keep the members with another index.
unfoldable pub without_member : ℕ → List PartyMember → List PartyMember
without_member user_idx [] = []
without_member user_idx (m ∷ ms) =
    let rest = without_member user_idx ms in if m.user_idx == user_idx then rest else m ∷ rest

-- `atomic.AddInt32(&partySequence, 1)`, which wraps around.
unfoldable pub next_id : ℤ → ℤ
next_id sequence = signed 32 ((pattern_of 32 sequence + 1) % 2 ^ 32)
