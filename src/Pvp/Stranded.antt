-- ===== src/Pvp/Stranded.antt =====
-- Duels that no one can end, and duels that start without a word of the other side
-- (cmd/gameserver/packet/pvp.go).
use freya.Common.Signed.{ℤ, nonpos, eq_ℤ}
use freya.Common.Maps.{lookup, erase, lookup-erase}
use freya.Common.{
  ℕ, ◌≡◌, refl, subst, ◌∙◌, ◌≢◌, inl, inr, false, none, some, arith, ◌==◌, ◌||◌, ◌&&◌, not, ltb,
  Bool-cases, Option-cases,
}
use freya.Pvp.Book.{
  parse, parse_cases, parse_found, parse_gone, Player, World, is_idle, pvp_fail, response_result,
  pending_result, cancel_result,
}
use freya.Pvp.Handlers.{
  replies, id_or_zero, reserve, request, is_asked, respond, end_duel, may_cancel, cancel,
}

-- A session with a duel whose opponent is not there.
pub record IsStranded (w : World) (u : ℕ) (p : Player) : Type 0 where
  pub found : lookup u w ≡ some p
  pub busy : is_idle p.pvp.stage ≡ false
  pub alone : lookup p.pvp.opponent_user_idx w ≡ none

-- Nothing that it does leaves its duel.
pub record Stuck (w : World) (u : ℕ) : Type 0 where
  pub cannot_end :
      (pvp_type result : ℕ) → end_duel u pvp_type result w ≡ replies u (pending_result pvp_fail) w
  pub cannot_cancel :
      (v : ℕ) (id : ℤ) (pvp_type : ℕ)
      → cancel u v id pvp_type w ≡ replies u (cancel_result pvp_fail) w
  pub cannot_accept :
      (v : ℕ) (id : ℤ) → respond u v id 2 0 w ≡ replies u (response_result pvp_fail) w
  pub cannot_refuse :
      (v : ℕ) (id : ℤ) → respond u v id 2 1 w ≡ replies u (response_result pvp_fail) w
  pub cannot_request : (v : ℕ) (id : ℤ) (pvp_type : ℕ) → (request u v id pvp_type w).0 ≡ w

stranded_end :
    (w : World) (u : ℕ) (p : Player) (pvp_type result : ℕ)
    → IsStranded w u p
    → end_duel u pvp_type result w ≡ replies u (pending_result pvp_fail) w
unfolding end_duel
stranded_end w u p pvp_type result h = elim (Bool-cases (not (pvp_type == 2) || ltb 3 result)) [
  | inl k ↦ rw (k, end_duel) refl
  | inr k ↦ elim (parse_cases u w p h.found) [
    | inl off ↦ rw (k, off, end_duel) refl
    | inr (c, ec, on) ↦ rw (k, on, parse_gone p.pvp.opponent_user_idx w h.alone, end_duel) refl
  ]
]

-- The opponent that is not there is not the session that is asked for.
elsewhere :
    (w : World) (u v : ℕ) (p q : Player)
    → IsStranded w u p
    → lookup v w ≡ some q
    → (p.pvp.opponent_user_idx == v) ≡ false
elsewhere w u v p q h e = elim (Bool-cases (p.pvp.opponent_user_idx == v)) [
  | inr other ↦ other
  | inl same ↦
      let eq : p.pvp.opponent_user_idx ≡ v = ground (arith, same) in
      let there : lookup v w ≡ none = subst (λ k. lookup k w ≡ none) eq h.alone in cc (there, e)
]

stranded_cancel :
    (w : World) (u : ℕ) (p : Player) (v : ℕ) (id : ℤ) (pvp_type : ℕ)
    → IsStranded w u p
    → cancel u v id pvp_type w ≡ replies u (cancel_result pvp_fail) w
unfolding cancel may_cancel
stranded_cancel w u p v id pvp_type h =
    elim (Bool-cases (not (pvp_type == 2) || (nonpos id || v == u))) [
      | inl k ↦ rw (k, cancel) refl
      | inr k ↦ elim (parse_cases u w p h.found) [
        | inl off ↦ rw (k, off, cancel) refl
        | inr (c, ec, on) ↦ elim (Option-cases (parse v w)) [
          | inl e ↦ rw (k, on, e, cancel) refl
          | inr ((q, d), e) ↦
              let apart = elsewhere w u v p q h (parse_found v w q d e).0 in
              let stray : may_cancel u p v q id ≡ false = ground (arith, apart) in
              rw (k, on, e, stray, cancel) refl
        ]
      ]
    ]

stranded_respond :
    (w : World) (u : ℕ) (p : Player) (v : ℕ) (id : ℤ) (result : ℕ)
    → IsStranded w u p
    → ltb 1 result ≡ false
    → respond u v id 2 result w ≡ replies u (response_result pvp_fail) w
unfolding respond is_asked
stranded_respond w u p v id result h known =
    let k : (not (result == 0) && not (result == 1)) ≡ false = ground (arith, known) in
    elim (parse_cases u w p h.found) [
      | inl off ↦ rw (k, off, respond) refl
      | inr (c, ec, on) ↦ elim (Option-cases (parse v w)) [
        | inl e ↦ rw (k, on, e, respond) refl
        | inr ((q, d), e) ↦ elim (Bool-cases (v == u)) [
          | inl self ↦ rw (k, on, e, self, respond) refl
          | inr other ↦
              let apart = elsewhere w u v p q h (parse_found v w q d e).0 in
              let stray : is_asked u p v q id ≡ false = ground (arith, apart) in
              rw (k, on, e, other, stray, respond) refl
        ]
      ]
    ]

stranded_request :
    (w : World) (u : ℕ) (p : Player) (v : ℕ) (id : ℤ) (pvp_type : ℕ)
    → IsStranded w u p
    → (request u v id pvp_type w).0 ≡ w
unfolding request reserve
stranded_request w u p v id pvp_type h = elim (Bool-cases (pvp_type == 2)) [
  | inr odd ↦ rw (odd, request) refl
  | inl personal ↦ elim (Option-cases p.char) [
    | inl ec ↦ rw (personal, h.found, ec, request) refl
    | inr (c, ec) ↦ elim (Bool-cases (nonpos id || v == u)) [
      | inl bad ↦ rw (personal, h.found, ec, bad, request) refl
      | inr good ↦ elim (Option-cases (lookup v w)) [
        | inl e ↦ rw (personal, h.found, ec, good, e, request) refl
        | inr (q, e) ↦ elim (Bool-cases (eq_ℤ (id_or_zero q.char) id)) [
          | inr wrong ↦ rw (personal, h.found, ec, good, e, wrong, request) refl
          | inl right ↦ rw (personal, h.found, ec, good, e, right, h.busy, request, reserve) refl
        ]
      ]
    ]
  ]
]

-- A client that disconnects leaves its opponent in the duel: the opponent's requests to end it, to cancel it
-- and to answer it fail, and no request of its own changes anything.
pub disconnect_strands :
    (w : World) (u v : ℕ) (p : Player)
    → lookup u w ≡ some p
    → is_idle p.pvp.stage ≡ false
    → p.pvp.opponent_user_idx ≡ v
    → u ≢ v
    → Stuck (erase v w) u
disconnect_strands w u v p e busy at_v other =
    let h : IsStranded (erase v w) u p = record {
      found = lookup-erase u v w ∙ ground (arith, other, e);
      busy = busy;
      alone = lookup-erase p.pvp.opponent_user_idx v w ∙ ground (arith, at_v);
    } in
    record {
      cannot_end = λ pvp_type result. stranded_end (erase v w) u p pvp_type result h;
      cannot_cancel = λ k id pvp_type. stranded_cancel (erase v w) u p k id pvp_type h;
      cannot_accept = λ k id. stranded_respond (erase v w) u p k id 0 h refl;
      cannot_refuse = λ k id. stranded_respond (erase v w) u p k id 1 h refl;
      cannot_request = λ k id pvp_type. stranded_request (erase v w) u p k id pvp_type h;
    }
