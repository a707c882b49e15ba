-- ===== src/Party/Tests.antt =====
-- Runs of the handlers of parties, and the theorems about them at concrete inputs.
use freya.Common.Signed.{pos}
use freya.Common.Maps.{lookup, insert, erase}
use freya.Common.{
  replicate, ◌+◌, ℕ, ◌≡◌, refl, true, false, none, some, [], ◌∷◌, length, All, arith,
}
use freya.Network.Reader.{
  Reader, read_byte, read_int32, read_signed, read_places, sum_places, place,
}
use freya.Encryption.Tables.{XorKeyTable}
use freya.Session.{Session, start, run}
use freya.Party.Book.{
  Player, World, PartyState, incoming, outgoing, no_party, no_invite, party_has_member, next_id,
}
use freya.Party.Membership.{apply_party}
use freya.Party.Messages.{
  party_stats, Outcome, SearchEntry, invite_answer, answer_failed, invite_busy,
}
use freya.Party.Invitations.{invite, answer_invite, refused_invite}
use freya.Party.Names.{decode_name, party_name}
use freya.Party.Reading.{
  Kind, party_invite, party_invite_result, dispatch, kind_of, handle_invite, handle_invite_result,
  read_name,
}
use freya.Party.Seats.{seats, indices}
use freya.Party.Groups.{IsGrouped}
use freya.Party.Presence.{join-IsGrouped}
use freya.Party.Events.{Reach, here, next, handles, Reach-IsGrouped, nobody-IsGrouped}
use freya.Party.Total.{session_party_handled}
use freya.Party.Names.{decode_name-party_name}
use freya.Party.Stranded.{stranded}
use freya.Network.Writer.{Writer}
use freya.Party.Packets.{message_packet}
use freya.Party.Sizes.{message_size, message_sizes}

abbrev table : XorKeyTable
table = record { key_table = replicate 2100 0; seed_2nd = 0 }

abbrev connection : Session
connection = start table 5 (record {
  recv_xor_key = 0;
  is_first_packet = false;
  xor_key_table_base_multiple = 0;
  key = table;
  recv_xor_key_idx = 0;
})

abbrev player : ℕ → Player
player id = record {
  char = some record {
    id = pos id;
    level = 20;
    battle_style = 1;
    name = 65 ∷ id ∷ [];
    world = 1;
    current_hp = 100;
    max_hp = 100;
    current_mp = 50;
    max_mp = 50;
    current_sp = 0;
    max_sp = 10;
    x = 3;
    y = 4;
  };
  party = no_party;
  invite = no_invite;
  search = record { registered = true; max_member_count = 4; title = 72 ∷ 105 ∷ [] };
}

abbrev empty_world : World
empty_world = record { players = []; sequence = pos 1000; channel_id = 1 }

-- Three players, of which the first invites the second, which accepts.
abbrev town : World
town = record empty_world {
  players = insert 3 (player 30) (insert 2 (player 20) (insert 1 (player 10) []));
}

-- `CSC_NEW_PARTYINVITE` for the character 20.
abbrev invite_packet : Reader
invite_packet = record {
  buffer = 226 ∷ 183 ∷ 16 ∷ 0 ∷ 0 ∷ 0 ∷ 0 ∷ 0 ∷ 219 ∷ 7 ∷ 1 ∷ 20 ∷ 0 ∷ 0 ∷ 0 ∷ 1 ∷ [];
  index = 10;
  magic_key = 0xb7e2;
  size = 16;
  check_sum = 0;
  packet_type = 2011;
}

-- `CSC_NEW_PARTYINVITE_RESULT` to the character 10: yes.
abbrev accept_packet : Reader
accept_packet = record {
  buffer = 226 ∷ 183 ∷ 19 ∷ 0 ∷ 0 ∷ 0 ∷ 0 ∷ 0 ∷ 221 ∷ 7 ∷ 10 ∷ 0 ∷ 0 ∷ 0 ∷ 1 ∷ 1 ∷ 0 ∷ 0 ∷ 0 ∷ [];
  index = 10;
  magic_key = 0xb7e2;
  size = 19;
  check_sum = 0;
  packet_type = 2013;
}

abbrev invited : World
invited = (invite 1 1 (pos 20) 1 [] town).0

abbrev together : World
together = (answer_invite 2 (pos 10) true invited).0

-- Now two of the three are in one party.
together_seats :
    indices (elim (lookup 1 together.players) [ none ↦ [] | some p ↦ p.party.members ]) ≡ 1 ∷ 2 ∷ []
unfolding invite answer_invite insert lookup erase party_has_member
together_seats = refl

town-IsGrouped : IsGrouped (seats town.players)
unfolding lookup insert erase
town-IsGrouped =
    join-IsGrouped 3 (player 30) _
      (join-IsGrouped 2 (player 20) _
        (join-IsGrouped 1 (player 10) [] nobody-IsGrouped refl (refl, refl)) refl (refl, refl))
      refl (refl, refl)

meet : Reach town together
unfolding kind_of dispatch handle_invite handle_invite_result read_name read_byte read_int32
    read_signed read_places sum_places place next_id invite lookup insert erase
meet =
    next
      (next here
        (handles party_invite 1 invite_packet town (invite 1 1 (pos 20) 1 [] town) refl refl refl))
      (handles party_invite_result 2 accept_packet invited (answer_invite 2 (pos 10) true invited)
        refl refl refl)

Reach-IsGrouped_example : IsGrouped (seats together.players)
Reach-IsGrouped_example = Reach-IsGrouped meet town-IsGrouped

session_party_handled_example :
    All
      (λ r. (kind : Kind) (u : ℕ) (w : World) → (o : Outcome) × (dispatch kind u r w ≡ some o))
      (run
        (λ n. false)
        ((0 ∷ 0 ∷ 3 ∷ 4 ∷ 0 ∷ 0 ∷ 0 ∷ 0 ∷ 219 ∷ 7 ∷ 1 ∷ 20 ∷ 0 ∷ 0 ∷ [], false) ∷ [])
        connection).0
session_party_handled_example =
    session_party_handled (λ n. false)
      ((0 ∷ 0 ∷ 3 ∷ 4 ∷ 0 ∷ 0 ∷ 0 ∷ 0 ∷ 219 ∷ 7 ∷ 1 ∷ 20 ∷ 0 ∷ 0 ∷ [], false) ∷ []) connection

decode_name-party_name_example :
    (decode_name (party_name (65 ∷ 110 ∷ 110 ∷ [])) ≡ 65 ∷ 110 ∷ 110 ∷ [])
    × (length (party_name (65 ∷ 110 ∷ 110 ∷ [])) ≡ 17)
decode_name-party_name_example = decode_name-party_name (65 ∷ 110 ∷ 110 ∷ []) (omega arith)

-- The first player is in a party with the second one and invites the third.
abbrev pair : PartyState
pair = record no_party {
  id = pos 1001;
  leader_user_idx = 1;
  leader_character_id = pos 10;
  normal_looting_type = 1;
  owner_looting_type = 1;
  members = elim (lookup 1 together.players) [ none ↦ [] | some p ↦ p.party.members ];
}

abbrev inviter : Player
inviter = record (player 10) {
  party = pair;
  invite = record {
    status = outgoing;
    opponent_user_idx = 3;
    opponent_character_id = pos 30;
    channel = 1;
  };
}

abbrev guest : Player
guest = record (player 30) {
  invite = record {
    status = incoming;
    opponent_user_idx = 1;
    opponent_character_id = pos 10;
    channel = 1;
  };
}

abbrev waiting : World
waiting = record together { players = insert 3 guest (insert 1 inviter together.players) }

abbrev after : World
after = record waiting { players = (apply_party pair waiting.players).0 }

stranded_example :
    (lookup 3 after.players ≡ some guest)
    × (answer_invite 3 (pos 10) true after ≡ (after, (3, invite_answer answer_failed) ∷ []))
    × (refused_invite (player 20) guest ≡ some invite_busy)
unfolding invite answer_invite insert lookup erase party_has_member
stranded_example =
    stranded pair waiting after 1 3 inviter guest (player 20) (pos 10) true refl refl refl refl refl
      refl refl

abbrev advertisement : SearchEntry
advertisement = record {
  leader_character_id = pos 10;
  level = 20;
  battle_style = 1;
  channel = 1;
  name = 65 ∷ 10 ∷ [];
  max_member_count = 4;
  title = 72 ∷ 105 ∷ [];
  current_member_count = 1;
}

message_sizes_example :
    (w : Writer) × (message_packet (party_stats pair) ≡ some w)
    × (w.index ≡ 6 + message_size (party_stats pair))
message_sizes_example = message_sizes (party_stats pair)
