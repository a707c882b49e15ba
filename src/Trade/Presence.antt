-- ===== src/Trade/Presence.antt =====
-- Players come, change and go: what else than the trade handlers changes the players that trades read.
use freya.Common.Maps.{lookup, insert, erase, lookup-insert, lookup-erase}
use freya.Common.{
  ℕ, ◌≡◌, ◌≢◌, refl, sym, ap, subst, ◌∙◌, inl, inr, false, none, some, arith, Bool-cases,
  Option-cases, ◌==◌,
}
use freya.Trade.Book.{Player, World, is_none, put_both, without_trade}
use freya.Trade.Handlers.{cancel_trade}
use freya.Trade.Pairing.{IsIdle, IsLinked, HasPartner, IsPaired, same_value}
use freya.Trade.Linking.{tie, relink}
use freya.Trade.Starting.{cancel_busy}

-- A busy player is not linked to an idle one.
not_idle :
    (u : ℕ) (p : Player) (v : ℕ) (q : Player) → IsLinked u p v q → is_none q.trade.status ≡ false
not_idle u p v q l = ground (arith, l.busy, l.level)

pub join-IsPaired :
    (u : ℕ) (p : Player) (w : World)
    → IsPaired w
    → lookup u w ≡ none
    → IsIdle p
    → IsPaired (insert u p w)
unfolding IsPaired
join-IsPaired u p w h free idle x r found = elim (Bool-cases (x == u)) [
  | inl same ↦ inl (ground (arith, lookup-insert x u p w, found, same, idle))
  | inr other ↦ elim (h x r (ground (arith, lookup-insert x u p w, found, other))) [
    | inl is_idle ↦ inl is_idle
    | inr (y, t, found', apart, l) ↦
        inr (y, t, ground (arith, lookup-insert y u p w, found', free), apart, l)
  ]
]

pub leave-IsPaired :
    (u : ℕ) (w : World)
    → IsPaired w
    → ((p : Player) → lookup u w ≡ some p → IsIdle p)
    → IsPaired (erase u w)
unfolding IsPaired
leave-IsPaired u w h idle x r found = elim (h x r (ground (arith, lookup-erase x u w, found))) [
  | inl is_idle ↦ inl is_idle
  | inr (y, t, found', apart, l) ↦
      let stays : y ≢ u =
        λ k. cc (idle t (ap (λ i. lookup i w) (sym k) ∙ found'), not_idle x r y t l) in
      inr (y, t, ground (arith, lookup-erase y u w, found', stays), apart, l)
]

pub change-IsPaired :
    (u : ℕ) (p p' : Player) (w : World)
    → IsPaired w
    → lookup u w ≡ some p
    → tie p ≡ tie p'
    → IsPaired (insert u p' w)
unfolding IsPaired
change-IsPaired u p p' w h e t x r found =
    let w' = insert u p' w in
    let at_u : lookup u w' ≡ some p' = ground (arith, lookup-insert u u p' w) in
    let elsewhere : (y : ℕ) → y ≢ u → lookup y w' ≡ lookup y w =
      λ y k. ground (arith, lookup-insert y u p' w, k) in
    elim (Bool-cases (x == u)) [
      | inl same ↦
          let eq : u ≡ x = ground (arith, same) in
          subst (λ k. HasPartner w' k r) eq
            (subst (λ o. HasPartner w' u o) (same_value at_u (ap (λ k. lookup k w') eq ∙ found))
              (elim (h u p e) [
                | inl idle ↦ inl (sym (ap (λ k. is_none k.2) t) ∙ idle)
                | inr (v, q, found', apart, l) ↦
                    inr (v, q, elsewhere v apart ∙ found', apart, relink u p p' v q q t refl l)
              ]))
      | inr other ↦ elim (h x r (ground (arith, lookup-insert x u p' w, found, other))) [
        | inl idle ↦ inl idle
        | inr (y, q, found', apart, l) ↦ elim (Bool-cases (y == u)) [
          | inr stays ↦ inr (y, q, elsewhere y (λ k. ground (arith, stays, k)) ∙ found', apart, l)
          | inl same ↦
              let eq : y ≡ u = ground (arith, same) in
              let is_p : q ≡ p = same_value found' (ap (λ k. lookup k w) eq ∙ e) in
              inr (
                u,
                p',
                at_u,
                (λ k. apart (eq ∙ k)),
                relink x r r u p p' refl t
                    (subst (λ k. IsLinked x r k p) eq (subst (λ k. IsLinked x r y k) is_p l)),
              )
        ]
      ]
    ]

-- A player that dropped its trade is idle.
pub cancel_trade-IsIdle :
    (u : ℕ) (w : World) (p : Player)
    → IsPaired w
    → lookup u (cancel_trade u w).0 ≡ some p
    → IsIdle p
unfolding cancel_trade
cancel_trade-IsIdle u w p h found = elim (Option-cases (lookup u w)) [
  | inl e ↦ ground (arith, e, found)
  | inr (me, e) ↦ elim (Bool-cases (is_none me.trade.status)) [
    | inl idle ↦ ground (arith, e, idle, found)
    | inr busy ↦
        let (peer, e', other, l, same) = cancel_busy u w me h e busy in
        let v = me.trade.opponent_user_idx in
        let w' = put_both u (without_trade me) v (without_trade peer) w in
        let found' : lookup u w' ≡ some p = ap (λ o. lookup u o.0) (sym same) ∙ found in
        let mine : lookup u w' ≡ some (without_trade me) = ground (
          arith,
          lookup-insert u v (without_trade peer) (insert u (without_trade me) w),
          lookup-insert u u (without_trade me) w,
          other,
        ) in
        subst IsIdle (same_value mine found') refl
  ]
]
