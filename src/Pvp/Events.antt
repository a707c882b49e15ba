-- ===== src/Pvp/Events.antt =====
-- What happens to the duels of a game server over time, and the invariant that all of it keeps:
-- cmd/gameserver/packet/pvp.go and pvp_combat.go, OnClientConnect and OnClientDisconnect of
-- cmd/gameserver/event.go, which have no part for duels.
use freya.Common.Maps.{lookup, insert, erase}
use freya.Common.{
  [], ℕ, ◌≡◌, refl, subst, Bool, true, false, Option, none, some, is_some, if◌then◌else◌,
}
use freya.Network.Reader.{Reader, answer}
use freya.Trade.Reading.{decode_user_object_index}
use freya.Pvp.Book.{Player, World, Outcome, is_idle}
use freya.Pvp.Skills.{ClientData}
use freya.Pvp.Casts.{handle_skill-Keeps}
use freya.Pvp.Reading.{
  PvpKind, pvp_request, pvp_response, pvp_pending, pvp_cancel, attack_to_user, skill_to_user,
  kind_of, dispatch, handle_request, handle_response, handle_pending, handle_cancel, handle_attack,
}
use freya.Pvp.Agreement.{IsAgreed, duels}
use freya.Pvp.Keeping.{join-IsAgreed, change-IsAgreed, gone-IsAgreed}
use freya.Pvp.Handled.{
  Keeps, KeepsAll, keeps, request-Keeps, respond-Keeps, end_duel-Keeps, cancel-Keeps, attack-Keeps,
}

module _ (tables : ClientData) where
  -- One step of the sessions.
  pub data Step : World → World → Type 0 where
    -- a packet of a duel is handled and does not panic
    handles :
        (kind : PvpKind) (u : ℕ) (r : Reader) (w : World) (o : Outcome)
        → kind_of r.packet_type r.size ≡ some kind
        → dispatch tables kind u r w ≡ some o
        → Step w o.0
    -- a client connects: its context is new
    connects :
        (u : ℕ) (p : Player) (w : World)
        → lookup u w ≡ none
        → is_idle p.pvp.stage ≡ true
        → Step w (insert u p w)
    -- a client disconnects: its session is gone, and its opponent's is left as it is
    disconnects : (u : ℕ) (w : World) → Step w (erase u w)
    -- the rest of the server changes a context: not its duel, and a character stays
    changes :
        (u : ℕ) (p p' : Player) (w : World)
        → lookup u w ≡ some p
        → p'.pvp ≡ p.pvp
        → (is_some p.char ≡ true → is_some p'.char ≡ true)
        → Step w (insert u p' w)

  pub data Reach (w : World) : World → Type 0 where
    here : Reach w w
    next : {w' w'' : World} → Reach w w' → Step w' w'' → Reach w w''

  same_outcome : {o : Option Outcome} {a b : Outcome} → o ≡ some a → o ≡ some b → a ≡ b
  same_outcome e e' = cc (e, e')

  -- What holds of the refusal and of every action holds of what a handler yields.
  handled :
      {A : Type 0} (b : Bool) (refusal : Outcome) (m : Option (A × Reader)) (f : A → Outcome)
      → Keeps refusal
      → ((a : A) → Keeps (f a))
      → KeepsAll (if b then some refusal else answer m f)
  handled true refusal m f k g o e = subst Keeps (same_outcome refl e) k
  handled false refusal none f k g o e = cc e
  handled false refusal (some (a, r)) f k g o e = subst Keeps (same_outcome refl e) (g a)

  dispatch-Keeps :
      (kind : PvpKind) (u : ℕ) (r : Reader) (w : World)
      → IsAgreed (duels w)
      → KeepsAll (dispatch tables kind u r w)
  unfolding dispatch handle_request handle_response handle_pending handle_cancel handle_attack
  dispatch-Keeps pvp_request u r w h =
      handled _ _ _ _ (keeps h)
        (λ t. request-Keeps u (decode_user_object_index t.0) t.1.0 t.1.1 w h)
  dispatch-Keeps pvp_response u r w h =
      handled _ _ _ _ (keeps h)
        (λ t. respond-Keeps u (decode_user_object_index t.0) t.1.0 t.1.1.0 t.1.1.1 w h)
  dispatch-Keeps pvp_pending u r w h = handled _ _ _ _ (keeps h) (λ t. end_duel-Keeps u t.0 t.1 w h)
  dispatch-Keeps pvp_cancel u r w h =
      handled _ _ _ _ (keeps h) (λ t. cancel-Keeps u (decode_user_object_index t.0) t.1.0 t.1.1 w h)
  dispatch-Keeps attack_to_user u r w h =
      handled _ _ _ _ (keeps h)
        (λ t. attack-Keeps tables.weapons u (decode_user_object_index t.0) t.1 w h)
  dispatch-Keeps skill_to_user u r w h = handle_skill-Keeps tables u r w h

  Step-IsAgreed : {w w' : World} → Step w w' → IsAgreed (duels w) → IsAgreed (duels w')
  Step-IsAgreed (handles kind u r w o k e) h = (dispatch-Keeps kind u r w h o e).kept
  Step-IsAgreed (connects u p w free idle) h = join-IsAgreed u p w h idle
  Step-IsAgreed (disconnects u w) h = gone-IsAgreed u w h
  Step-IsAgreed (changes u p p' w e same stays) h = change-IsAgreed u p p' w h e same stays

  -- Whatever packets of duels arrive and whoever comes and goes, from duels that are agreed on they stay
  -- so: a session that waits or fights has a character, does not name itself, and its opponent, where it
  -- is there and names it back, is at the same stage.
  pub Reach-IsAgreed : {w w' : World} → Reach w w' → IsAgreed (duels w) → IsAgreed (duels w')
  Reach-IsAgreed here h = h
  Reach-IsAgreed (next r st) h = Step-IsAgreed st (Reach-IsAgreed r h)

-- Nobody has a duel where nobody is there.
pub nobody-IsAgreed : IsAgreed (duels [])
unfolding IsAgreed duels lookup
nobody-IsAgreed u s b e = cc e
