-- ===== src/Session/Framing.antt =====
-- Packets do not depend on how the connection cuts the stream (share/network/session.go).
use freya.Session.{Session, Verdict, waiting, rejected, crashed, halt, packet, next_packet, drain}
use freya.Session.Rounds.{
  extend, prepend, next_packet-extend, next_packet_shrinks, Round-cases, drain_halt, drain_packet,
  next_packet_empty, next_packet_closed, next_packet_status,
}
use freya.Common.{
  ℕ, zero, suc, ◌≤◌, ◌≡◌, refl, ap, ◌∙◌, sym, inl, inr, Bool, true, List, [], ◌∷◌, length, arith,
}
use freya.Network.Reader.{Reader}

-- As much fuel as there are bytes is enough.
pub drain_fuel :
    (closes : ℕ → Bool) (n m : ℕ) (s : Session)
    → length s.buffer ≤ n
    → length s.buffer ≤ m
    → drain closes n s ≡ drain closes m s
unfolding drain
drain_fuel closes zero zero s hn hm = refl
drain_fuel closes zero (suc m) s hn hm =
    sym (drain_halt closes m s waiting (next_packet_empty closes s (omega arith)))
drain_fuel closes (suc n) zero s hn hm =
    drain_halt closes n s waiting (next_packet_empty closes s (omega arith))
drain_fuel closes (suc n) (suc m) s hn hm = elim (Round-cases (next_packet closes s)) [
  | inl (v, e) ↦ drain_halt closes n s v e ∙ sym (drain_halt closes m s v e)
  | inr (r, s', e) ↦
      let less = next_packet_shrinks closes s s' r e in
      drain_packet closes n s s' r e
      ∙ ap (prepend (r ∷ [])) (drain_fuel closes n m s' (omega arith) (omega arith))
      ∙ sym (drain_packet closes m s s' r e)
]

abbrev pub drain_all : (ℕ → Bool) → Session → List Reader × Session × Verdict
drain_all closes s = drain closes (length s.buffer) s

-- The loop goes on where it waited, with more bytes, and is over where it did not.
abbrev pub resume :
    (ℕ → Bool) → List ℕ → List Reader × Session × Verdict → List Reader × Session × Verdict
resume closes c (rs, s, waiting) = prepend rs (drain_all closes (extend c s))
resume closes c (rs, s, rejected) = (rs, extend c s, rejected)
resume closes c (rs, s, crashed) = (rs, extend c s, crashed)

resume-prepend :
    (closes : ℕ → Bool) (c : List ℕ) (r : Reader) (x : List Reader × Session × Verdict)
    → resume closes c (prepend (r ∷ []) x) ≡ prepend (r ∷ []) (resume closes c x)
resume-prepend closes c r (rs, s, waiting) = refl
resume-prepend closes c r (rs, s, rejected) = refl
resume-prepend closes c r (rs, s, crashed) = refl

drain_all-suc :
    (closes : ℕ → Bool) (s : Session) → drain_all closes s ≡ drain closes (suc (length s.buffer)) s
drain_all-suc closes s =
    drain_fuel closes (length s.buffer) (suc (length s.buffer)) s (omega arith) (omega arith)

pub drain_all_packet :
    (closes : ℕ → Bool) (s s' : Session) (r : Reader)
    → next_packet closes s ≡ packet r s'
    → drain_all closes s ≡ prepend (r ∷ []) (drain_all closes s')
drain_all_packet closes s s' r e =
    let less = next_packet_shrinks closes s s' r e in
    drain_all-suc closes s
    ∙ drain_packet closes _ s s' r e
    ∙ ap (prepend (r ∷ [])) (
        drain_fuel closes (length s.buffer) (length s'.buffer) s' (omega (arith, less))
          (omega arith))

halt_extend :
    (closes : ℕ → Bool) (c : List ℕ) (s : Session) (v : Verdict)
    → next_packet closes s ≡ halt v
    → drain_all closes (extend c s) ≡ resume closes c ([], s, v)
halt_extend closes c s waiting e = refl
halt_extend closes c s rejected e =
    drain_all-suc closes (extend c s)
    ∙ drain_halt closes _ (extend c s) rejected (ground (arith, next_packet-extend closes s c, e))
halt_extend closes c s crashed e =
    drain_all-suc closes (extend c s)
    ∙ drain_halt closes _ (extend c s) crashed (ground (arith, next_packet-extend closes s c, e))

packet_extend :
    (closes : ℕ → Bool) (c : List ℕ) (s s' : Session) (r : Reader)
    → next_packet closes s ≡ packet r s'
    → drain_all closes (extend c s) ≡ prepend (r ∷ []) (drain_all closes (extend c s'))
packet_extend closes c s s' r e =
    let e' : next_packet closes (extend c s) ≡ packet r (extend c s') =
      ground (arith, next_packet-extend closes s c, e) in
    drain_all_packet closes (extend c s) (extend c s') r e'

-- Draining with more bytes is draining without, and going on with them.
pub drain-extend :
    (closes : ℕ → Bool) (n : ℕ) (c : List ℕ) (s : Session)
    → length s.buffer ≤ n
    → drain_all closes (extend c s) ≡ resume closes c (drain closes n s)
unfolding drain
drain-extend closes zero c s h = refl
drain-extend closes (suc n) c s h = elim (Round-cases (next_packet closes s)) [
  | inl (v, e) ↦ halt_extend closes c s v e ∙ ap (resume closes c) (sym (drain_halt closes n s v e))
  | inr (r, s', e) ↦
      let less = next_packet_shrinks closes s s' r e in
      packet_extend closes c s s' r e
      ∙ ap (prepend (r ∷ [])) (drain-extend closes n c s' (omega (arith, less)))
      ∙ sym (resume-prepend closes c r (drain closes n s'))
      ∙ ap (resume closes c) (sym (drain_packet closes n s s' r e))
]

-- The loop leaves the status alone.
pub drain_status :
    (closes : ℕ → Bool) (n : ℕ) (s : Session) → (drain closes n s).1.status ≡ s.status
unfolding drain
drain_status closes zero s = refl
drain_status closes (suc n) s = elim (Round-cases (next_packet closes s)) [
  | inl (v, e) ↦
      ap (λ (x : List Reader × Session × Verdict). x.1.status) (drain_halt closes n s v e)
  | inr (r, s', e) ↦
      ap (λ (x : List Reader × Session × Verdict). x.1.status) (drain_packet closes n s s' r e)
      ∙ drain_status closes n s'
      ∙ next_packet_status closes s s' r e
]

-- A closed session drains nothing.
pub drain_closed :
    (closes : ℕ → Bool) (s : Session)
    → closes s.delivered ≡ true
    → drain_all closes s ≡ ([], s, waiting)
drain_closed closes s h =
    drain_all-suc closes s ∙ drain_halt closes _ s waiting (next_packet_closed closes s h)
