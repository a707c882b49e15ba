-- ===== src/Session/Reads.antt =====
-- The outer loop of `Start` (share/network/session.go) over any cutting of the stream into reads.
use mathlib.Core.List.{append_assoc, append-nil}
use freya.Session.{
  Session, Status, running, stopped, panicked, Verdict, waiting, rejected, crashed, settle_status,
  receive, receive_running, run,
}
use freya.Session.Rounds.{extend, prepend}
use freya.Session.Framing.{drain_all, resume, drain-extend, drain_status, drain_closed}
use freya.Common.{
  ℕ, ◌≡◌, ◌≢◌, refl, ap, ◌∙◌, sym, subst, inl, inr, Bool, true, false, List, [], ◌∷◌, ◌++◌, length,
  arith, Bool-cases,
}
use freya.Network.Reader.{Reader}

abbrev pub Outcome : Type 0
Outcome = List Reader × Session

-- The same packets are delivered and the session is open, closed or lost alike.
abbrev pub Agree : Outcome → Outcome → Type 0
Agree a b = (a.0 ≡ b.0) × (a.1.status ≡ b.1.status)

abbrev pub conclude : (ℕ → Bool) → Bool → List Reader × Session × Verdict → Outcome
conclude closes failed (rs, s, v) = (rs, record s { status = settle_status closes failed s v })

abbrev pub follow : (ℕ → Bool) → List (List ℕ × Bool) → Outcome → Outcome
follow closes reads (rs, s) = let (rs', s') = run closes reads s in (rs ++ rs', s')

receive_over :
    (closes : ℕ → Bool) (b : List ℕ) (f : Bool) (s : Session) (st : Status)
    → st ≢ running
    → receive_running closes b f s st ≡ ([], s)
unfolding receive_running
receive_over closes b f s running h = absurd (h refl)
receive_over closes b f s stopped h = refl
receive_over closes b f s panicked h = refl

-- A session that is over reads no more.
pub run_over :
    (closes : ℕ → Bool) (reads : List (List ℕ × Bool)) (s : Session)
    → s.status ≢ running
    → run closes reads s ≡ ([], s)
unfolding run
run_over closes [] s h = refl
run_over closes ((b, f) ∷ reads) s h =
    ap (follow closes reads) (receive_over closes b f s s.status h) ∙ run_over closes reads s h

pub run_read :
    (closes : ℕ → Bool) (b : List ℕ) (f : Bool) (reads : List (List ℕ × Bool)) (s : Session)
    → s.status ≡ running
    → run closes ((b, f) ∷ reads) s
      ≡ follow closes reads (conclude closes f (drain_all closes (extend b s)))
unfolding run receive_running receive
run_read closes b f reads s h =
    ap (λ (st : Status). follow closes reads (receive_running closes b f s st)) h

-- Whatever follows a session that is over adds nothing.
follow_over :
    (closes : ℕ → Bool) (reads : List (List ℕ × Bool)) (rs : List Reader) (s : Session)
    → s.status ≢ running
    → follow closes reads (rs, s) ≡ (rs, s)
follow_over closes reads rs s h =
    ap (λ (o : Outcome). (rs ++ o.0, o.1)) (run_over closes reads s h)
    ∙ ap (λ (l : List Reader). (l, s)) (append-nil rs)

over-Agree :
    (closes : ℕ → Bool) (reads reads' : List (List ℕ × Bool)) (rs rs' : List Reader)
    (s s' : Session)
    → s.status ≢ running
    → s.status ≡ s'.status
    → rs ≡ rs'
    → Agree (follow closes reads (rs, s)) (follow closes reads' (rs', s'))
over-Agree closes reads reads' rs rs' s s' h e same =
    let l = follow_over closes reads rs s h in
    let r = follow_over closes reads' rs' s' (λ p. h (e ∙ p)) in
    (
      ap (λ (o : Outcome). o.0) l ∙ same ∙ sym (ap (λ (o : Outcome). o.0) r),
      ap (λ (o : Outcome). o.1.status) l ∙ e ∙ sym (ap (λ (o : Outcome). o.1.status) r),
    )

abbrev Extended : Type 0
Extended = List Reader × Session × Verdict

merge_closed :
    (closes : ℕ → Bool) (c : List ℕ) (f : Bool) (reads : List (List ℕ × Bool)) (rs : List Reader)
    (s : Session)
    → closes s.delivered ≡ true
    → Agree
        (follow closes ((c, f) ∷ reads) (conclude closes false (rs, s, waiting)))
        (follow closes reads (conclude closes f (prepend rs (drain_all closes (extend c s)))))
unfolding settle_status
merge_closed closes c f reads rs s e =
    subst
      (λ (x : Extended).
        Agree (follow closes ((c, f) ∷ reads) (conclude closes false (rs, s, waiting)))
          (follow closes reads (conclude closes f (prepend rs x))))
      (sym (drain_closed closes (extend c s) e))
      (over-Agree closes ((c, f) ∷ reads) reads rs (rs ++ [])
        (record s { status = settle_status closes false s waiting })
        (record (extend c s) { status = settle_status closes f (extend c s) waiting })
        (λ p. ground (arith, e, p)) (ground (arith, e)) (sym (append-nil rs)))

merge_open :
    (closes : ℕ → Bool) (c : List ℕ) (f : Bool) (reads : List (List ℕ × Bool)) (rs : List Reader)
    (s : Session)
    → s.status ≡ running
    → closes s.delivered ≡ false
    → Agree
        (follow closes ((c, f) ∷ reads) (conclude closes false (rs, s, waiting)))
        (follow closes reads (conclude closes f (prepend rs (drain_all closes (extend c s)))))
unfolding settle_status
merge_open closes c f reads rs s h e =
    let same : conclude closes false (rs, s, waiting) ≡ (rs, s) = ground (arith, e, h) in
    let read = run_read closes c f reads s h in
    let left =
      ap (follow closes ((c, f) ∷ reads)) same ∙ ap (λ (o : Outcome). (rs ++ o.0, o.1)) read in
    (
      ap (λ (o : Outcome). o.0) left ∙ sym (append_assoc rs _ _),
      ap (λ (o : Outcome). o.1.status) left,
    )

merge_at :
    (closes : ℕ → Bool) (c : List ℕ) (f : Bool) (reads : List (List ℕ × Bool)) (x : Extended)
    → x.1.status ≡ running
    → Agree
        (follow closes ((c, f) ∷ reads) (conclude closes false x))
        (follow closes reads (conclude closes f (resume closes c x)))
unfolding settle_status
merge_at closes c f reads (rs, s, rejected) h =
    over-Agree closes ((c, f) ∷ reads) reads rs rs (record s { status = stopped })
      (record (extend c s) { status = stopped }) (λ e. cc e) refl refl
merge_at closes c f reads (rs, s, crashed) h =
    over-Agree closes ((c, f) ∷ reads) reads rs rs (record s { status = panicked })
      (record (extend c s) { status = panicked }) (λ e. cc e) refl refl
merge_at closes c f reads (rs, s, waiting) h = elim (Bool-cases (closes s.delivered)) [
  | inl e ↦ merge_closed closes c f reads rs s e
  | inr e ↦ merge_open closes c f reads rs s h e
]

-- Two reads in a row are as good as one.
merge :
    (closes : ℕ → Bool) (c c' : List ℕ) (f : Bool) (reads : List (List ℕ × Bool)) (s : Session)
    → s.status ≡ running
    → Agree (run closes ((c, false) ∷ (c', f) ∷ reads) s) (run closes ((c ++ c', f) ∷ reads) s)
merge closes c c' f reads s h =
    let x = drain_all closes (extend c s) in
    let at = merge_at closes c' f reads x (drain_status closes _ (extend c s) ∙ h) in
    let whole : drain_all closes (extend (c ++ c') s) ≡ resume closes c' x =
      ap (λ (b : List ℕ). drain_all closes (record s { buffer = b }))
        (sym (append_assoc s.buffer c c'))
      ∙ drain-extend closes (length (s.buffer ++ c)) c' (extend c s) (omega arith) in
    let left = run_read closes c false ((c', f) ∷ reads) s h in
    let right =
      run_read closes (c ++ c') f reads s h
      ∙ ap (λ (y : Extended). follow closes reads (conclude closes f y)) whole in
    (
      ap (λ (o : Outcome). o.0) left ∙ at.0 ∙ sym (ap (λ (o : Outcome). o.0) right),
      ap (λ (o : Outcome). o.1.status) left ∙ at.1 ∙ sym (ap (λ (o : Outcome). o.1.status) right),
    )

-- The stream `c` and what follows it, as it is read in pieces; the last read may fail.
abbrev pub in_pieces : List ℕ → List (List ℕ) → Bool → List (List ℕ × Bool)
in_pieces c [] f = (c, f) ∷ []
in_pieces c (c' ∷ cs) f = (c, false) ∷ in_pieces c' cs f

abbrev pub whole : List ℕ → List (List ℕ) → List ℕ
whole c [] = c
whole c (c' ∷ cs) = c ++ whole c' cs

first_piece : (c c' : List ℕ) (cs : List (List ℕ)) → whole (c ++ c') cs ≡ c ++ whole c' cs
first_piece c c' [] = refl
first_piece c c' (d ∷ cs) = append_assoc c c' (whole d cs)

pub reads-Agree :
    (closes : ℕ → Bool) (c : List ℕ) (cs : List (List ℕ)) (f : Bool) (s : Session)
    → s.status ≡ running
    → Agree (run closes (in_pieces c cs f) s) (run closes ((whole c cs, f) ∷ []) s)
reads-Agree closes c [] f s h = (refl, refl)
reads-Agree closes c (c' ∷ []) f s h = merge closes c c' f [] s h
reads-Agree closes c (c' ∷ d ∷ cs) f s h =
    let first = merge closes c c' false (in_pieces d cs f) s h in
    let rest = reads-Agree closes (c ++ c') (d ∷ cs) f s h in
    let e = ap (λ (b : List ℕ). run closes ((b, f) ∷ []) s) (first_piece c c' (d ∷ cs)) in
    (
      first.0 ∙ rest.0 ∙ ap (λ (o : Outcome). o.0) e,
      first.1 ∙ rest.1 ∙ ap (λ (o : Outcome). o.1.status) e,
    )
