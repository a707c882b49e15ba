-- ===== src/Pvp/Consent.antt =====
-- A request and its answer (`PVPRequest` and `PVPResponse` of cmd/gameserver/packet/pvp.go).
use freya.Common.Signed.{ℤ, nonpos, eq_ℤ, eq_ℤ_iff}
use freya.Common.Maps.{lookup, insert, lookup-insert}
use freya.Common.{
  ℕ, ◌≡◌, refl, sym, ap, subst, ◌∙◌, inl, inr, true, false, Option, some, arith, ◌==◌, ◌||◌, ◌&&◌,
  not, ltb, Bool-cases,
}
use freya.Pvp.Book.{
  parse_present, Stage, stage_waiting, stage_person, PvpState, BattleMode, Char, Player, World,
  Outcome, is_idle, put_both, no_pvp,
}
use freya.Pvp.Handlers.{reserve, request, is_asked, settle, respond}

-- The world and the battle mode of a session.
abbrev pub Setting : Type 0
Setting = Option ℕ × BattleMode

-- A session with a character.
abbrev pub player : Char → Setting → PvpState → Player
player c x pvp = record { char = some c; world = x.0; pvp = pvp; battle = x.1 }

abbrev pub pvp_of : Stage → ℕ → ℤ → PvpState
pvp_of stage v id = record { stage = stage; opponent_user_idx = v; opponent_character_id = id }

-- The world in which both sides are at a stage of a duel with each other.
abbrev pub dueling : Stage → ℕ → ℕ → Char → Char → Setting → Setting → World → World
dueling stage u v c d x y w =
    put_both u (player c x (pvp_of stage v d.id)) v (player d y (pvp_of stage u c.id)) w

-- Two sessions that may have a duel: both have a character and no duel yet.
pub record IsReady (w : World) (u v : ℕ) (c d : Char) (x y : Setting) : Type 0 where
  pub mine : PvpState
  pub theirs : PvpState
  pub here : lookup u w ≡ some (player c x mine)
  pub there : lookup v w ≡ some (player d y theirs)
  pub free : is_idle mine.stage ≡ true
  pub free' : is_idle theirs.stage ≡ true
  pub aimed : (nonpos d.id || v == u) ≡ false

pub same_id : (a : ℤ) → eq_ℤ a a ≡ true
same_id a = (eq_ℤ_iff a a).1 refl

request_waits :
    (w : World) (u v : ℕ) (c d : Char) (x y : Setting)
    → IsReady w u v c d x y
    → (request u v d.id 2 w).0 ≡ dueling stage_waiting u v c d x y w
unfolding request reserve
request_waits w u v c d x y h =
    rw (h.here, h.aimed, h.there, same_id d.id, h.free, h.free', request, reserve) refl

-- The contexts that are written.
pub first_lookup :
    (u v : ℕ) (p q : Player) (w : World) → (v == u) ≡ false → lookup u (put_both u p v q w) ≡ some p
first_lookup u v p q w other =
    let apart : (u == v) ≡ false = ground (arith, other) in
    let self : (u == u) ≡ true = ground arith in
    lookup-insert u v q (insert u p w) ∙ rw (apart) (lookup-insert u u p w ∙ rw (self) refl)

pub second_lookup : (u v : ℕ) (p q : Player) (w : World) → lookup v (put_both u p v q w) ≡ some q
second_lookup u v p q w =
    let self : (v == v) ≡ true = ground arith in lookup-insert v v q (insert u p w) ∙ rw (self) refl

-- The answer of a session that waits for one that waits for it.
answered :
    (w : World) (u v : ℕ) (c d : Char) (x y : Setting) (result : ℕ)
    → lookup u w ≡ some (player c x (pvp_of stage_waiting v d.id))
    → lookup v w ≡ some (player d y (pvp_of stage_waiting u c.id))
    → (v == u) ≡ false
    → ltb 1 result ≡ false
    → respond u v d.id 2 result w
      ≡ settle u
          (player c x (pvp_of stage_waiting v d.id))
          c
          v
          (player d y (pvp_of stage_waiting u c.id))
          d
          d.id
          2
          result
          w
unfolding respond is_asked
answered w u v c d x y result here there other known =
    let k : (not (result == 0) && not (result == 1)) ≡ false = ground (arith, known) in
    let self : (v == v) ≡ true = ground arith in
    let self' : (u == u) ≡ true = ground arith in
    let mine = parse_present u w (player c x (pvp_of stage_waiting v d.id)) c here refl in
    let theirs = parse_present v w (player d y (pvp_of stage_waiting u c.id)) d there refl in
    rw (k, mine, theirs, other, self, self', same_id d.id, respond, is_asked) refl

-- A duel has started between the two.
pub record Starts (u v : ℕ) (c d : Char) (x y : Setting) (m : Outcome) : Type 0 where
  pub outcome : Outcome
  pub yields : m ≡ outcome
  pub mine : lookup u outcome.0 ≡ some (player c x (pvp_of stage_person v d.id))
  pub theirs : lookup v outcome.0 ≡ some (player d y (pvp_of stage_person u c.id))

-- Where the target of a request accepts it, both are in a duel with each other.
pub acceptance-Starts :
    (w : World) (u v : ℕ) (c d : Char) (x y : Setting)
    → IsReady w u v c d x y
    → Starts u v c d x y (respond v u c.id 2 0 (request u v d.id 2 w).0)
unfolding settle
acceptance-Starts w u v c d x y h =
    let other : (v == u) ≡ false = ground (arith, h.aimed) in
    let other' : (u == v) ≡ false = ground (arith, other) in
    let w' = dueling stage_waiting u v c d x y w in
    let here = first_lookup u v _ _ w other in
    let there = second_lookup u v _ _ w in
    subst (λ w1. Starts u v c d x y (respond v u c.id 2 0 w1)) (sym (request_waits w u v c d x y h))
      (record {
        outcome = (dueling stage_person v u d c y x w', _);
        yields = answered w' v u d c y x 0 there here other' refl;
        mine = second_lookup v u _ _ w';
        theirs = first_lookup v u _ _ w' other';
      })

-- The side that asked for a duel can accept it in the place of the other.
pub own_acceptance-Starts :
    (w : World) (u v : ℕ) (c d : Char) (x y : Setting)
    → IsReady w u v c d x y
    → Starts u v c d x y (respond u v d.id 2 0 (request u v d.id 2 w).0)
unfolding settle
own_acceptance-Starts w u v c d x y h =
    let other : (v == u) ≡ false = ground (arith, h.aimed) in
    let w' = dueling stage_waiting u v c d x y w in
    let here = first_lookup u v _ _ w other in
    let there = second_lookup u v _ _ w in
    subst (λ w1. Starts u v c d x y (respond u v d.id 2 0 w1)) (sym (request_waits w u v c d x y h))
      (record {
        outcome = (dueling stage_person u v c d x y w', _);
        yields = answered w' u v c d x y 0 here there other refl;
        mine = first_lookup u v _ _ w' other;
        theirs = second_lookup u v _ _ w';
      })

-- Both players as they were.
pub record Restored (w : World) (m : Outcome) : Type 0 where
  pub outcome : Outcome
  pub yields : m ≡ outcome
  pub same : (j : ℕ) → lookup j outcome.0 ≡ lookup j w

-- Writing the two contexts twice leaves what is written last.
put_twice :
    (u v j : ℕ) (p q p' q' : Player) (w : World)
    → (v == u) ≡ false
    → lookup u w ≡ some p
    → lookup v w ≡ some q
    → lookup j (put_both v q u p (put_both u p' v q' w)) ≡ lookup j w
put_twice u v j p q p' q' w other here there = lookup-insert j u p _ ∙ elim (Bool-cases (j == u)) [
  | inl same ↦
      let eq : u ≡ j = ground (arith, same) in
      rw (same) (sym (subst (λ k. lookup k w ≡ some p) eq here))
  | inr not_u ↦ rw (not_u) (
      lookup-insert j v q _ ∙ elim (Bool-cases (j == v)) [
        | inl same ↦
            let eq : v ≡ j = ground (arith, same) in
            rw (same) (sym (subst (λ k. lookup k w ≡ some q) eq there))
        | inr not_v ↦
            rw (not_v)
              (lookup-insert j v q' _ ∙ rw (not_v) (lookup-insert j u p' w ∙ rw (not_u) refl))
      ])
]

-- Where the target of a request refuses it, all the sessions are as before, if the two had empty duels.
pub refusal_restores :
    (w : World) (u v : ℕ) (c d : Char) (x y : Setting) (h : IsReady w u v c d x y)
    → h.mine ≡ no_pvp
    → h.theirs ≡ no_pvp
    → Restored w (respond v u c.id 2 1 (request u v d.id 2 w).0)
unfolding settle
refusal_restores w u v c d x y h empty empty' =
    let other : (v == u) ≡ false = ground (arith, h.aimed) in
    let other' : (u == v) ≡ false = ground (arith, other) in
    let w' = dueling stage_waiting u v c d x y w in
    let here = first_lookup u v _ _ w other in
    let there = second_lookup u v _ _ w in
    let mine = h.here ∙ ap (λ s. some (player c x s)) empty in
    let theirs = h.there ∙ ap (λ s. some (player d y s)) empty' in
    subst (λ w1. Restored w (respond v u c.id 2 1 w1)) (sym (request_waits w u v c d x y h))
      (record {
        outcome = (put_both v (player d y no_pvp) u (player c x no_pvp) w', _);
        yields = answered w' v u d c y x 1 there here other' refl;
        same = λ j. put_twice u v j (player c x no_pvp) (player d y no_pvp) _ _ w other mine theirs;
      })
