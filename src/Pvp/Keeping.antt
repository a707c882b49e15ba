-- ===== src/Pvp/Keeping.antt =====
-- The handlers of duels keep the invariant (cmd/gameserver/packet/pvp.go and pvp_combat.go).
use freya.Common.Maps.{lookup, insert, erase}
use freya.Common.{
  ℕ, ◌≡◌, refl, sym, ap, subst, ◌∙◌, inl, inr, true, false, none, some, is_some, arith, ◌==◌,
  Bool-cases,
}
use freya.Pvp.Book.{PvpState, Player, World, is_idle, put_both}
use freya.Pvp.Agreement.{
  IsAgreed, IsQuiet, IsLinked, Moves, agree, duels, duels-put_both, duels-insert, duels-erase,
  entry_of, same_entry,
}

flip-IsLinked : (w : World) (u v : ℕ) → IsLinked (duels w) u v → IsLinked (duels w) v u
flip-IsLinked w u v l = record {
  mine = l.theirs;
  theirs = l.mine;
  here = l.there;
  there = l.here;
  forth = l.back;
  back = l.forth;
  other = λ self. l.other (sym self);
  same = sym l.same;
}

-- Where the two contexts that are written, and all the others, are known.
both_moved :
    (u v : ℕ) (p q : Player) (w : World)
    → IsAgreed (duels w)
    → Moves (duels w) (duels (put_both u p v q w)) u
    → Moves (duels w) (duels (put_both u p v q w)) v
    → IsAgreed (duels (put_both u p v q w))
both_moved u v p q w h at_u at_v =
    let f' = duels (put_both u p v q w) in
    agree (duels w) f' h (λ j. elim (Bool-cases (j == v)) [
      | inl same ↦
          let eq : v ≡ j = ground (arith, same) in subst (λ k. Moves (duels w) f' k) eq at_v
      | inr not_v ↦ elim (Bool-cases (j == u)) [
        | inl same ↦
            let eq : u ≡ j = ground (arith, same) in subst (λ k. Moves (duels w) f' k) eq at_u
        | inr not_u ↦ inl (duels-put_both u v p q w j ∙ rw (not_v, not_u) refl)
      ]
    ])

entry_at_v : (u v : ℕ) (p q : Player) (w : World) → duels (put_both u p v q w) v ≡ some (entry_of q)
entry_at_v u v p q w =
    let self : (v == v) ≡ true = ground arith in duels-put_both u v p q w v ∙ rw (self) refl

entry_at_u :
    (u v : ℕ) (p q : Player) (w : World)
    → (v == u) ≡ false
    → duels (put_both u p v q w) u ≡ some (entry_of p)
entry_at_u u v p q w other =
    let self : (u == u) ≡ true = ground arith in
    let apart : (u == v) ≡ false = ground (arith, other) in
    duels-put_both u v p q w u ∙ rw (apart, self) refl

-- Two sessions with a character are written, which name each other and are equally far.
pub put_linked :
    (u v : ℕ) (p q : Player) (w : World)
    → IsAgreed (duels w)
    → (v == u) ≡ false
    → (is_some p.char ≡ true) × (is_some q.char ≡ true)
    → (p.pvp.opponent_user_idx ≡ v) × (q.pvp.opponent_user_idx ≡ u)
    → q.pvp.stage ≡ p.pvp.stage
    → IsAgreed (duels (put_both u p v q w))
put_linked u v p q w h other (char_p, char_q) (forth, back) same =
    let l : IsLinked (duels (put_both u p v q w)) u v = record {
      mine = p.pvp;
      theirs = q.pvp;
      here = entry_at_u u v p q w other ∙ ap (λ b. some (p.pvp, b)) char_p;
      there = entry_at_v u v p q w ∙ ap (λ b. some (q.pvp, b)) char_q;
      forth = forth;
      back = back;
      other = λ self. ground (arith, self, other);
      same = same;
    } in
    both_moved u v p q w h (inr (inr (v, l)))
      (inr (inr (u, flip-IsLinked (put_both u p v q w) u v l)))

idle_entry-IsQuiet :
    (w : World) (u : ℕ) (p : Player)
    → duels w u ≡ some (entry_of p)
    → is_idle p.pvp.stage ≡ true
    → IsQuiet (duels w) u
idle_entry-IsQuiet w u p e idle s b e' =
    ap (λ (x : PvpState). is_idle x.stage) (sym (same_entry e e')) ∙ idle

-- Two sessions are written that have no duel.
pub put_idle :
    (u v : ℕ) (p q : Player) (w : World)
    → IsAgreed (duels w)
    → (v == u) ≡ false
    → is_idle p.pvp.stage ≡ true
    → is_idle q.pvp.stage ≡ true
    → IsAgreed (duels (put_both u p v q w))
put_idle u v p q w h other idle_p idle_q =
    let w' = put_both u p v q w in
    both_moved u v p q w h
      (inr (inl (idle_entry-IsQuiet w' u p (entry_at_u u v p q w other) idle_p)))
      (inr (inl (idle_entry-IsQuiet w' v q (entry_at_v u v p q w) idle_q)))

-- One session changes, and all the others do not.
one_moved :
    (u : ℕ) (p : Player) (w : World)
    → IsAgreed (duels w)
    → Moves (duels w) (duels (insert u p w)) u
    → IsAgreed (duels (insert u p w))
one_moved u p w h at_u =
    let f' = duels (insert u p w) in
    agree (duels w) f' h (λ j. elim (Bool-cases (j == u)) [
      | inl same ↦
          let eq : u ≡ j = ground (arith, same) in subst (λ k. Moves (duels w) f' k) eq at_u
      | inr not_u ↦ inl (duels-insert u p w j ∙ rw (not_u) refl)
    ])

entry_at_insert : (u : ℕ) (p : Player) (w : World) → duels (insert u p w) u ≡ some (entry_of p)
entry_at_insert u p w =
    let self : (u == u) ≡ true = ground arith in duels-insert u p w u ∙ rw (self) refl

-- A session without a duel comes.
pub join-IsAgreed :
    (u : ℕ) (p : Player) (w : World)
    → IsAgreed (duels w)
    → is_idle p.pvp.stage ≡ true
    → IsAgreed (duels (insert u p w))
join-IsAgreed u p w h idle =
    one_moved u p w h
      (inr (inl (idle_entry-IsQuiet (insert u p w) u p (entry_at_insert u p w) idle)))

entry_at_lookup :
    (u : ℕ) (p : Player) (w : World) → lookup u w ≡ some p → duels w u ≡ some (entry_of p)
unfolding duels
entry_at_lookup u p w e = rw (e) refl

-- A session whose duel is not idle has a character.
pub present_char :
    (u : ℕ) (p : Player) (w : World)
    → IsAgreed (duels w)
    → lookup u w ≡ some p
    → is_idle p.pvp.stage ≡ false
    → is_some p.char ≡ true
unfolding IsAgreed
present_char u p w h e busy = (h u p.pvp (is_some p.char) (entry_at_lookup u p w e) busy).present

-- A session changes, but not its duel, and a character stays.
pub change-IsAgreed :
    (u : ℕ) (p p' : Player) (w : World)
    → IsAgreed (duels w)
    → lookup u w ≡ some p
    → p'.pvp ≡ p.pvp
    → (is_some p.char ≡ true → is_some p'.char ≡ true)
    → IsAgreed (duels (insert u p' w))
change-IsAgreed u p p' w h e same stays = elim (Bool-cases (is_idle p.pvp.stage)) [
  | inl idle ↦ join-IsAgreed u p' w h (ap (λ (s : PvpState). is_idle s.stage) same ∙ idle)
  | inr busy ↦
      let char : is_some p.char ≡ true = present_char u p w h e busy in
      let entry : entry_of p' ≡ entry_of p = cc (same, char, stays char) in
      one_moved u p' w h
        (inl (entry_at_insert u p' w ∙ ap some entry ∙ sym (entry_at_lookup u p w e)))
]

-- A session goes.
pub gone-IsAgreed : (u : ℕ) (w : World) → IsAgreed (duels w) → IsAgreed (duels (erase u w))
gone-IsAgreed u w h = agree (duels w) (duels (erase u w)) h (λ j. elim (Bool-cases (j == u)) [
  | inl same ↦
      let gone : duels (erase u w) j ≡ none = duels-erase u w j ∙ rw (same) refl in
      inr (inl (λ s b e. cc (gone, e)))
  | inr not_u ↦ inl (duels-erase u w j ∙ rw (not_u) refl)
])
