-- ===== src/Pvp/Defeat.antt =====
-- A duel from its request to its end, over cmd/gameserver/packet/pvp.go and pvp_combat.go.
use freya.Common.Signed.{ℤ, nonpos}
use freya.Common.Maps.{lookup}
use freya.Common.{subst, sym, ltb, false, ℕ, ◌≡◌, refl, true, false, some, arith, ◌==◌, ◌||◌}
use freya.Pvp.Book.{
  parse, put_both, Player, no_pvp, with_pvp, parse_present, BattleMode, Char, World, Outcome,
  stage_person,
}
use freya.Pvp.Handlers.{end_duel, request, respond}
use freya.Pvp.Combat.{Weapons, physical_attack, is_combat_pair}
use freya.Pvp.Hits.{pair-InDuel, Faces, strikes, duel_ends}
use freya.Pvp.Consent.{
  first_lookup, second_lookup, IsReady, Starts, player, pvp_of, same_id, acceptance-Starts,
  own_acceptance-Starts,
}

-- A duel that has started, in one world, is one that attacks are part of.
Starts-Faces :
    (weapons : Weapons) (u v k : ℕ) (a b : BattleMode) (c d : Char) (m : Outcome)
    → (nonpos d.id || v == u) ≡ false
    → (s : Starts u v c d (some k, a) (some k, b) m)
    → Faces weapons u v d.id (physical_attack weapons c) d.current_hp s.outcome.0
unfolding is_combat_pair
Starts-Faces weapons u v k a b c d m aimed s =
    let self : (v == v) ≡ true = ground arith in
    let self' : (u == u) ≡ true = ground arith in
    let one : (k == k) ≡ true = ground arith in
    record {
      attacker = player c (some k, a) (pvp_of stage_person v d.id);
      target = player d (some k, b) (pvp_of stage_person u c.id);
      c = c;
      d = d;
      here = s.mine;
      there = s.theirs;
      mine = refl;
      theirs = refl;
      aimed = ground (arith, aimed);
      pair = rw (self, self', one, same_id d.id, same_id c.id, is_combat_pair) refl;
      force = refl;
      health = refl;
    }

-- What a duel with an answer comes to, when the session `u` attacks as often as its opponent has health.
pub record Defeated (weapons : Weapons) (u v : ℕ) (c d : Char) (m : Outcome) : Type 0 where
  pub outcome : Outcome
  pub yields : m ≡ outcome
  pub defeated :
      Faces weapons u v d.id
        (physical_attack weapons c)
        0
        (strikes weapons u v d.id d.current_hp outcome.0)

Starts-Defeated :
    (weapons : Weapons) (u v k : ℕ) (a b : BattleMode) (c d : Char) (m : Outcome)
    → (nonpos d.id || v == u) ≡ false
    → Starts u v c d (some k, a) (some k, b) m
    → Defeated weapons u v c d m
Starts-Defeated weapons u v k a b c d m aimed s = record {
  outcome = s.outcome;
  yields = s.yields;
  defeated =
      duel_ends weapons u v d.id (physical_attack weapons c) d.current_hp s.outcome.0
        (Starts-Faces weapons u v k a b c d m aimed s);
}

-- Neither session has a duel, and the second one has no health.
pub record IsOver (u v : ℕ) (w : World) : Type 0 where
  pub winner : Player
  pub loser : Player
  pub d : Char
  pub here : lookup u w ≡ some winner
  pub there : lookup v w ≡ some loser
  pub free : winner.pvp ≡ no_pvp
  pub free' : loser.pvp ≡ no_pvp
  pub theirs : loser.char ≡ some d
  pub health : d.current_hp ≡ 0

-- `PVPPending` of the attacker, after a duel whose target has no health left.
Faces-IsOver :
    (weapons : Weapons) (u v : ℕ) (target_id : ℤ) (a result : ℕ) (w : World)
    → Faces weapons u v target_id a 0 w
    → ltb 3 result ≡ false
    → IsOver u v (end_duel u 2 result w).0
unfolding end_duel
Faces-IsOver weapons u v target_id a result w f known =
    let (duel, aimed) = pair-InDuel u v f.attacker f.target f.c f.d target_id f.pair in
    let other : (v == u) ≡ false = ground (arith, f.aimed) in
    let on = parse_present u w f.attacker f.c f.here f.mine in
    let on' = parse_present v w f.target f.d f.there f.theirs in
    let k = f.attacker.pvp.opponent_user_idx in
    let named : parse k w ≡ some (f.target, f.d) =
      subst (λ j. parse j w ≡ some (f.target, f.d)) (sym duel.my_opponent) on' in
    let apart : (k == u) ≡ false = subst (λ j. (j == u) ≡ false) (sym duel.my_opponent) other in
    let back : (f.target.pvp.opponent_user_idx == u) ≡ true = ground (arith, duel.their_opponent) in
    let p = with_pvp no_pvp f.attacker in
    let q = with_pvp no_pvp f.target in
    let over : IsOver u v (put_both u p v q w) = record {
      winner = p;
      loser = q;
      d = f.d;
      here = first_lookup u v p q w other;
      there = second_lookup u v p q w;
      free = refl;
      free' = refl;
      theirs = f.theirs;
      health = f.health;
    } in
    rw (known, on, named, apart, duel.my_stage, duel.their_stage, back, end_duel)
      (subst (λ j. IsOver u v (put_both u p j q w)) (sym duel.my_opponent) over)

-- How a duel comes to an end: with its answer, the attacks of `u` and the packet of `u` that ends it.
pub record IsDecided (weapons : Weapons) (u v : ℕ) (c d : Char) (result : ℕ) (m : Outcome)
    : Type 0 where
  pub outcome : Outcome
  pub yields : m ≡ outcome
  pub defeated :
      Faces weapons u v d.id
        (physical_attack weapons c)
        0
        (strikes weapons u v d.id d.current_hp outcome.0)
  pub over : IsOver u v (end_duel u 2 result (strikes weapons u v d.id d.current_hp outcome.0)).0

-- Where two sessions in one world may have a duel, a request, its acceptance by the target and as many attacks
-- as the target has health leave the target without health, still in the duel; the packet of the attacker that
-- ends the duel, with any of its results, then leaves both without a duel.
pub duel-IsDecided :
    (weapons : Weapons) (w : World) (u v k : ℕ) (a b : BattleMode) (c d : Char) (result : ℕ)
    → IsReady w u v c d (some k, a) (some k, b)
    → ltb 3 result ≡ false
    → IsDecided weapons u v c d result (respond v u c.id 2 0 (request u v d.id 2 w).0)
duel-IsDecided weapons w u v k a b c d result h known =
    let x =
      Starts-Defeated weapons u v k a b c d _ h.aimed
        (acceptance-Starts w u v c d (some k, a) (some k, b) h) in
    record {
      outcome = x.outcome;
      yields = x.yields;
      defeated = x.defeated;
      over = Faces-IsOver weapons u v d.id (physical_attack weapons c) result _ x.defeated known;
    }

-- Where two sessions in one world may have a duel, the requester can accept its own request; as many attacks of
-- its own as the target has health then leave the target without health. No packet of the target is needed.
pub defeat_without_consent :
    (weapons : Weapons) (w : World) (u v k : ℕ) (a b : BattleMode) (c d : Char)
    → IsReady w u v c d (some k, a) (some k, b)
    → Defeated weapons u v c d (respond u v d.id 2 0 (request u v d.id 2 w).0)
defeat_without_consent weapons w u v k a b c d h =
    Starts-Defeated weapons u v k a b c d _ h.aimed
      (own_acceptance-Starts w u v c d (some k, a) (some k, b) h)
