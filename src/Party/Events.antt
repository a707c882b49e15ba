-- ===== src/Party/Events.antt =====
-- What happens to the parties of a game server over time, and the invariant that all of it keeps:
-- cmd/gameserver/packet/party.go, OnClientConnect and OnClientDisconnect of cmd/gameserver/event.go.
use freya.Common.Signed.{pos, eq_ℤ}
use freya.Common.Maps.{lookup, insert, erase}
use freya.Common.{
  [], ℕ, ◌≡◌, refl, subst, Bool, true, false, Option, none, some, is_some, if◌then◌else◌,
}
use freya.Network.Reader.{Reader, answer}
use freya.Party.Book.{Player, World, next_id, has_party}
use freya.Party.Messages.{Outcome}
use freya.Party.Members.{leave_party}
use freya.Party.Reading.{
  Kind, party_invite, party_invite_result, party_invite_cancel, party_leave, party_kickout,
  party_leader_change, party_auth_change, party_looting_type, party_search_regist,
  party_search_list, dispatch, kind_of, handle_invite, handle_invite_result, handle_invite_cancel,
  handle_kickout, handle_leader_change, handle_auth_change, handle_looting_type,
  handle_search_regist, handle_search_list, is_set,
}
use freya.Party.Names.{trim_right}
use freya.Party.Search.{list_parties}
use freya.Party.Seats.{seats}
use freya.Party.Groups.{IsGrouped}
use freya.Party.Leaving.{Keeps, keeps, leave-Keeps, leave_party-Keeps}
use freya.Party.Kicking.{kickout-Keeps}
use freya.Party.Leading.{leader_change-Keeps, auth_change-Keeps, looting_type-Keeps}
use freya.Party.Answering.{answer_invite-Keeps}
use freya.Party.Inviting.{invite-Keeps, cancel_invite-Keeps, search_regist-Keeps}
use freya.Party.Presence.{join-IsGrouped, gone-IsGrouped, leave_party-IsFree, change-IsGrouped}

-- One step of the sessions.
pub data Step : World → World → Type 0 where
  -- a packet of a party is handled and does not panic, while the numbers of parties have not come
  -- around to zero
  handles :
      (kind : Kind) (u : ℕ) (r : Reader) (w : World) (o : Outcome)
      → eq_ℤ (next_id w.sequence) (pos 0) ≡ false
      → kind_of r.packet_type ≡ some kind
      → dispatch kind u r w ≡ some o
      → Step w o.0
  -- a client connects: its context is new
  connects :
      (u : ℕ) (p : Player) (w : World)
      → lookup u w.players ≡ none
      → (has_party p.party ≡ false) × (p.party.members ≡ [])
      → Step w (record w { players = insert u p w.players })
  -- `LeaveParty` of a player that goes to the lobby
  goes_to_lobby : (u : ℕ) (w : World) → Step w (leave_party u w).1.0
  -- a client disconnects: `LeaveParty`, and the session is gone
  disconnects :
      (u : ℕ) (w : World)
      → Step w (record (leave_party u w).1.0 { players = erase u (leave_party u w).1.0.players })
  -- the rest of the server changes a context: not its party, and a character stays
  changes :
      (u : ℕ) (p p' : Player) (w : World)
      → lookup u w.players ≡ some p
      → p'.party ≡ p.party
      → (is_some p.char ≡ true → is_some p'.char ≡ true)
      → Step w (record w { players = insert u p' w.players })

pub data Reach (w : World) : World → Type 0 where
  here : Reach w w
  next : {w' w'' : World} → Reach w w' → Step w' w'' → Reach w w''

same_value : {A : Type 0} {o : Option A} {a b : A} → o ≡ some a → o ≡ some b → a ≡ b
same_value e e' = cc (e, e')

-- What holds of the refusal and of every action holds of what a handler yields.
handled :
    {A : Type 0} (b : Bool) (refusal : Outcome) (m : Option (A × Reader)) (f : A → Outcome)
    (o : Outcome)
    → Keeps refusal
    → ((a : A) → Keeps (f a))
    → (if b then some refusal else answer m f) ≡ some o
    → Keeps o
handled true refusal m f o k g e = subst Keeps (same_value refl e) k
handled false refusal none f o k g e = cc e
handled false refusal (some (a, r)) f o k g e = subst Keeps (same_value refl e) (g a)

listed :
    (b : Bool) (x y o : Outcome)
    → Keeps x
    → Keeps y
    → (if b then some x else some y) ≡ some o
    → Keeps o
listed true x y o k l e = subst Keeps (same_value refl e) k
listed false x y o k l e = subst Keeps (same_value refl e) l

dispatch-Keeps :
    (kind : Kind) (u : ℕ) (r : Reader) (w : World) (o : Outcome)
    → eq_ℤ (next_id w.sequence) (pos 0) ≡ false
    → IsGrouped (seats w.players)
    → dispatch kind u r w ≡ some o
    → Keeps o
unfolding dispatch handle_invite handle_invite_result handle_invite_cancel handle_kickout
    handle_leader_change handle_auth_change handle_looting_type handle_search_regist
    handle_search_list list_parties
dispatch-Keeps party_invite u r w o fresh h =
    handled _ _ _ _ o (keeps h) (λ t. invite-Keeps u t.0 t.1.0 t.1.1.0 t.1.1.1 w h)
dispatch-Keeps party_invite_result u r w o fresh h =
    handled _ _ _ _ o (keeps h) (λ t. answer_invite-Keeps u t.0 (is_set t.1.1) w fresh h)
dispatch-Keeps party_invite_cancel u r w o fresh h =
    handled _ _ _ _ o (keeps h) (λ t. cancel_invite-Keeps u w h)
dispatch-Keeps party_leave u r w o fresh h =
    λ e. subst Keeps (same_value refl e) (leave-Keeps u w h)
dispatch-Keeps party_kickout u r w o fresh h =
    handled _ _ _ _ o (keeps h) (λ t. kickout-Keeps u t.0 w h)
dispatch-Keeps party_leader_change u r w o fresh h =
    handled _ _ _ _ o (keeps h) (λ id. leader_change-Keeps u id w h)
dispatch-Keeps party_auth_change u r w o fresh h =
    handled _ _ _ _ o (keeps h) (λ only. auth_change-Keeps u (is_set only) w h)
dispatch-Keeps party_looting_type u r w o fresh h =
    handled _ _ _ _ o (keeps h) (λ t. looting_type-Keeps u t.0 t.1 w h)
dispatch-Keeps party_search_regist u r w o fresh h =
    handled _ _ _ _ o (keeps h) (λ t. search_regist-Keeps u t.0 (trim_right t.1) w h)
dispatch-Keeps party_search_list u r w o fresh h = listed _ _ _ o (keeps h) (keeps h)

Step-IsGrouped :
    {w w' : World} → Step w w' → IsGrouped (seats w.players) → IsGrouped (seats w'.players)
Step-IsGrouped (handles kind u r w o fresh k e) h = (dispatch-Keeps kind u r w o fresh h e).kept
Step-IsGrouped (connects u p w free idle) h = join-IsGrouped u p w.players h free idle
Step-IsGrouped (goes_to_lobby u w) h = (leave_party-Keeps u w h).kept
Step-IsGrouped (disconnects u w) h =
    gone-IsGrouped u (leave_party u w).1.0.players (leave_party-Keeps u w h).kept
      (leave_party-IsFree u w h)
Step-IsGrouped (changes u p p' w e same char) h = change-IsGrouped u p p' w.players h e same char

-- From consistent parties on, whatever party packets arrive and whoever comes and goes, parties stay
-- consistent: a session is in no party, or in one that has two to seven members, no two of one session, the
-- session and the leader among them, and every member is there with a character and has that same party.
-- The numbers of parties are taken not to come around to zero.
pub Reach-IsGrouped :
    {w w' : World} → Reach w w' → IsGrouped (seats w.players) → IsGrouped (seats w'.players)
Reach-IsGrouped here h = h
Reach-IsGrouped (next r st) h = Step-IsGrouped st (Reach-IsGrouped r h)

-- No party is sound over sessions that are not there.
pub nobody-IsGrouped : IsGrouped (seats [])
unfolding IsGrouped seats lookup
nobody-IsGrouped u s b e = cc e
