-- ===== src/Trade/Pairing.antt =====
-- The invariant of trades: they come in pairs (cmd/gameserver/packet/trade.go).
use freya.Common.Maps.{lookup, insert, lookup-insert}
use freya.Common.{
  ℕ, ◌≡◌, ◌≢◌, sym, ap, subst, ◌∙◌, ◌⊎◌, inl, inr, Bool, true, false, ◌&&◌, ◌||◌, Option, some,
  ◌==◌, arith, Bool-cases,
}
use freya.Trade.Book.{TradeRole, Player, World, is_none, is_requester, is_target, put_both}

abbrev pub IsIdle : Player → Type 0
IsIdle p = is_none p.trade.status ≡ true

abbrev pub opposed : TradeRole → TradeRole → Bool
opposed r r' = (is_requester r && is_target r') || (is_target r && is_requester r')

-- Two players trade with each other: each is the opponent that the other names, by index and by
-- character, one asked and the other was asked, and the trade is equally far.
pub record IsLinked (u : ℕ) (p : Player) (v : ℕ) (q : Player) : Type 0 where
  pub forth : p.trade.opponent_user_idx ≡ v
  pub back : q.trade.opponent_user_idx ≡ u
  pub level : p.trade.status ≡ q.trade.status
  pub busy : is_none p.trade.status ≡ false
  pub roles : opposed p.trade.role q.trade.role ≡ true
  pub forth_id : p.trade.opponent_character_id ≡ q.character_id
  pub back_id : q.trade.opponent_character_id ≡ p.character_id

pub IsLinked-sym : (u : ℕ) (p : Player) (v : ℕ) (q : Player) → IsLinked u p v q → IsLinked v q u p
IsLinked-sym u p v q l = record {
  forth = l.back;
  back = l.forth;
  level = sym l.level;
  busy = ground (arith, l.busy, l.level);
  roles = ground (arith, l.roles);
  forth_id = l.back_id;
  back_id = l.forth_id;
}

-- What holds of one player of a paired world.
abbrev pub HasPartner : World → ℕ → Player → Type 0
HasPartner w u p =
    IsIdle p ⊎ ((v : ℕ) × (q : Player) × (lookup v w ≡ some q) × (v ≢ u) × IsLinked u p v q)

-- Every player is idle or trades with another, who trades with it.
unfoldable pub IsPaired : World → Type 0
IsPaired w = (u : ℕ) (p : Player) → lookup u w ≡ some p → HasPartner w u p

pub same_value : {A : Type 0} {x y : A} {o : Option A} → o ≡ some x → o ≡ some y → x ≡ y
same_value e e' = cc (e, e')

-- A busy player has a partner: the opponent that it names.
pub companion :
    (w : World) (u : ℕ) (p : Player)
    → IsPaired w
    → lookup u w ≡ some p
    → is_none p.trade.status ≡ false
    → let v = p.trade.opponent_user_idx in
      (q : Player) × (lookup v w ≡ some q) × (v ≢ u) × IsLinked u p v q
unfolding IsPaired
companion w u p h e busy = elim (h u p e) [
  | inl idle ↦ cc (idle, busy)
  | inr (v, q, found, other, l) ↦
      subst (λ k. (q' : Player) × (lookup k w ≡ some q') × (k ≢ u) × IsLinked u p k q')
        (sym l.forth) (q, found, other, l)
]

pub partner :
    (w : World) (u : ℕ) (p : Player) (q : Player)
    → IsPaired w
    → lookup u w ≡ some p
    → is_none p.trade.status ≡ false
    → lookup p.trade.opponent_user_idx w ≡ some q
    → IsLinked u p p.trade.opponent_user_idx q
partner w u p q h e busy e' =
    let (q', found, other, l) = companion w u p h e busy in
    subst (λ x. IsLinked u p p.trade.opponent_user_idx x) (same_value found e') l

-- Only the lookups matter.
pub IsPaired-ext : (w w' : World) → ((x : ℕ) → lookup x w' ≡ lookup x w) → IsPaired w → IsPaired w'
unfolding IsPaired
IsPaired-ext w w' same h u p e = elim (h u p (sym (same u) ∙ e)) [
  | inl idle ↦ inl idle
  | inr (v, q, found, other, l) ↦ inr (v, q, same v ∙ found, other, l)
]

-- The world with new values for two players is paired, when each pair of values is idle or linked.
abbrev pub AreTwo : ℕ → Player → ℕ → Player → Type 0
AreTwo u p v q = (IsIdle p × IsIdle q) ⊎ IsLinked u p v q

two_partner :
    (u v : ℕ) (p q : Player) (w : World)
    → lookup u w ≡ some p
    → lookup v w ≡ some q
    → u ≢ v
    → AreTwo u p v q
    → HasPartner w u p
two_partner u v p q w e e' other (inl (idle, idle')) = inl idle
two_partner u v p q w e e' other (inr l) = inr (v, q, e', (λ h. other (sym h)), l)

AreTwo-sym : (u v : ℕ) (p q : Player) → AreTwo u p v q → AreTwo v q u p
AreTwo-sym u v p q (inl (idle, idle')) = inl (idle', idle)
AreTwo-sym u v p q (inr l) = inr (IsLinked-sym u p v q l)

-- A third player is no partner of the two.
apart :
    (w : World) (u v x y : ℕ) (p q r t : Player)
    → lookup u w ≡ some p
    → AreTwo u p v q
    → x ≢ v
    → lookup y w ≡ some t
    → IsLinked x r y t
    → y ≢ u
apart w u v x y p q r t e old other found l h =
    let same : t ≡ p = same_value (ap (λ k. lookup k w) (sym h) ∙ found) e in
    let back : p.trade.opponent_user_idx ≡ x =
      subst (λ o. o.trade.opponent_user_idx ≡ x) same l.back in
    let level : r.trade.status ≡ p.trade.status =
      subst (λ o. r.trade.status ≡ o.trade.status) same l.level in
    elim old [ inl (idle, idle') ↦ cc (idle, level, l.busy) | inr l' ↦ other (sym back ∙ l'.forth) ]

-- New trades of two players, which were idle or linked and are so again, keep a world paired.
pub put_both-IsPaired :
    (u v : ℕ) (p p' q q' : Player) (w : World)
    → IsPaired w
    → lookup u w ≡ some p
    → lookup v w ≡ some q
    → u ≢ v
    → AreTwo u p v q
    → AreTwo u p' v q'
    → IsPaired (put_both u p' v q' w)
unfolding IsPaired
put_both-IsPaired u v p p' q q' w h e e' differ old new x r found =
    let w' = put_both u p' v q' w in
    let at_u : lookup u w' ≡ some p' =
      ground (arith, lookup-insert u v q' (insert u p' w), lookup-insert u u p' w, differ) in
    let at_v : lookup v w' ≡ some q' = ground (arith, lookup-insert v v q' (insert u p' w)) in
    let at_other : (y : ℕ) → y ≢ u → y ≢ v → lookup y w' ≡ lookup y w = λ y n n'.
      ground (arith, lookup-insert y v q' (insert u p' w), lookup-insert y u p' w, n, n') in
    elim (Bool-cases (x == u)) [
      | inl is_u ↦
          let eq : u ≡ x = ground (arith, is_u) in
          subst (λ k. HasPartner w' k r) eq
            (subst (λ o. HasPartner w' u o) (same_value at_u (ap (λ k. lookup k w') eq ∙ found))
              (two_partner u v p' q' w' at_u at_v differ new))
      | inr not_u ↦ elim (Bool-cases (x == v)) [
        | inl is_v ↦
            let eq : v ≡ x = ground (arith, is_v) in
            subst (λ k. HasPartner w' k r) eq
              (subst (λ o. HasPartner w' v o) (same_value at_v (ap (λ k. lookup k w') eq ∙ found))
                (two_partner v u q' p' w' at_v at_u (λ k. differ (sym k))
                  (AreTwo-sym u v p' q' new)))
        | inr not_v ↦
            let x_u : x ≢ u = λ k. ground (arith, not_u, k) in
            let x_v : x ≢ v = λ k. ground (arith, not_v, k) in
            elim (h x r (sym (at_other x x_u x_v) ∙ found)) [
              | inl idle ↦ inl idle
              | inr (y, t, found', other, l) ↦
                  let y_u : y ≢ u = apart w u v x y p q r t e old x_v found' l in
                  let y_v : y ≢ v =
                    apart w v u x y q p r t e' (AreTwo-sym u v p q old) x_u found' l in
                  inr (y, t, at_other y y_u y_v ∙ found', other, l)
            ]
      ]
    ]
